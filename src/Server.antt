-- ===== src/Server.antt =====
-- `BackendServer` of src/load_balancer.rs and `ServerHealth` of src/health.rs. An `Arc` is a number,
-- and the store says what it points to: the balancer, the health controller and the clients share
-- servers.
use trakt.Base.{
  ℕ, ◌+◌, ◌≡◌, Bool, true, false, ◌&&◌, ◌==◌, list_eq, list_eq→eq, list_eq_self, if◌then◌else◌,
  arith,
}
use trakt.Raknet.Datatypes.{SocketAddr, v4, v6}

-- The derived `==` of `SocketAddr`.
unfoldable pub addr_eq : SocketAddr → SocketAddr → Bool
addr_eq (v4 o p) (v4 o' p') = list_eq o o' && p == p'
addr_eq (v6 o p f s) (v6 o' p' f' s') = list_eq o o' && (p == p' && (f == f' && s == s'))
addr_eq _ _ = false

pub addr_eq_self : (a : SocketAddr) → addr_eq a a ≡ true
unfolding addr_eq
addr_eq_self (v4 o p) = ground (arith, list_eq_self o)
addr_eq_self (v6 o p f s) = ground (arith, list_eq_self o)

pub addr_eq→eq : (a b : SocketAddr) → addr_eq a b ≡ true → a ≡ b
unfolding addr_eq
addr_eq→eq (v4 o p) (v4 o' p') h = ground (arith, list_eq→eq o o')
addr_eq→eq (v6 o p f s) (v6 o' p' f' s') h = ground (arith, list_eq→eq o o')
addr_eq→eq (v4 o p) (v6 o' p' f' s') h = cc
addr_eq→eq (v6 o p f s) (v4 o' p') h = cc

pub record ServerHealth : Type 0 where
  pub alive : Bool
  pub ever_alive : Bool
  pub failed_attempts : ℕ

-- `#[derive(Default)]`
abbrev pub default_health : ServerHealth
default_health = record { alive = false; ever_alive = false; failed_attempts = 0 }

pub record BackendServer : Type 0 where
  pub addr : SocketAddr
  pub health : ServerHealth
  pub load : ℕ

unfoldable pub new_server : SocketAddr → BackendServer
new_server addr = record { addr = addr; health = default_health; load = 0 }

pub record Store : Type 0 where
  pub at : ℕ → BackendServer
  pub fresh : ℕ

abbrev pub write : Store → ℕ → BackendServer → Store
write s i b = record s { at = λ j. if j == i then b else s.at j }

-- `Arc::new(..)`: the number is `s.fresh`.
unfoldable pub alloc : Store → BackendServer → Store
alloc s b = record (write s s.fresh b) { fresh = s.fresh + 1 }
