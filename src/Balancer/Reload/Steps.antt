-- ===== src/Balancer/Reload/Steps.antt =====
-- The loop of `load_config`: what one address of the configuration changes, and how steps add up.
use trakt.Base.{
  is_some, ℕ, ◌≡◌, refl, ◌∙◌, inl, inr, true, ◌||◌, List, [], ◌∷◌, some, arith, Bool-cases,
  Option-cases,
}
use trakt.Raknet.Datatypes.{SocketAddr}
use trakt.Server.{addr_eq→eq, new_server}
use trakt.Balancer.{Loading, contains, add_server, load_address, find_server}
use trakt.Balancer.Reload.Search.{
  Allocated, at-alloc, Allocated-append, find_server-lt, find_server-add,
}

-- While the configuration is read: servers are allocated, and what was seen has a server.
pub record Inv (l : Loading) : Type 0 where
  pub allocated : Allocated l.store l.servers
  pub seen_found :
      (a : SocketAddr) → contains l.seen a ≡ true → is_some (find_server l.store a l.servers) ≡ true

-- How one state of the loop comes from an earlier one that has read the addresses `new`.
pub record Grows (new : List SocketAddr) (l m : Loading) : Type 0 where
  pub seen : (a : SocketAddr) → contains m.seen a ≡ (contains new a || contains l.seen a)
  pub found :
      (a : SocketAddr)
      → is_some (find_server m.store a m.servers)
        ≡ (contains new a || is_some (find_server l.store a l.servers))
  pub keeps :
      (a : SocketAddr) (id : ℕ)
      → find_server l.store a l.servers ≡ some id
      → (find_server m.store a m.servers ≡ some id) × (m.store.at id ≡ l.store.at id)
  pub inv : Inv m

-- The address that was read is already seen: nothing changes.
Grows-seen :
    (addr : SocketAddr) (l : Loading) → Inv l → contains l.seen addr ≡ true → Grows (addr ∷ []) l l
unfolding contains
Grows-seen addr l i h = record {
  seen = λ a. ground (arith, addr_eq→eq addr a);
  found = λ a. ground (arith, addr_eq→eq addr a, i.seen_found addr h);
  keeps = λ a id e. (e, refl);
  inv = i;
}

-- A server with the address is active: only the address is noted.
Grows-active :
    (addr : SocketAddr) (l : Loading) (id : ℕ)
    → Inv l
    → find_server l.store addr l.servers ≡ some id
    → Grows (addr ∷ []) l (record l { seen = addr ∷ l.seen })
unfolding contains
Grows-active addr l id i e = record {
  seen = λ a. ground arith;
  found = λ a. ground (arith, addr_eq→eq addr a);
  keeps = λ a id' e'. (e', refl);
  inv = record {
    allocated = i.allocated;
    seen_found = λ a h. ground (arith, addr_eq→eq addr a, i.seen_found a);
  };
}

added_seen : (addr : SocketAddr) (l : Loading) → (add_server addr l).seen ≡ l.seen
unfolding add_server
added_seen addr l = refl

-- No server has the address: one is added.
Grows-added :
    (addr : SocketAddr) (l : Loading)
    → Inv l
    → Grows (addr ∷ []) l (add_server addr (record l { seen = addr ∷ l.seen }))
unfolding contains
Grows-added addr l i =
    let l' : Loading = record l { seen = addr ∷ l.seen } in
    record {
      seen = λ a. unfold add_server in ground arith;
      found = λ a. ground (arith, find_server-add addr a l' i.allocated);
      keeps = λ a id e. (
        ground (arith, find_server-add addr a l' i.allocated),
        unfold add_server in
            at-alloc l.store (new_server addr) id
              (find_server-lt l.store a l.servers {id = id} i.allocated e),
      );
      inv = record {
        allocated =
            unfold add_server in Allocated-append l.store (new_server addr) l.servers i.allocated;
        seen_found = λ a h. ground (
          arith,
          find_server-add addr a l' i.allocated,
          addr_eq→eq addr a,
          i.seen_found a,
          added_seen addr l',
        );
      };
    }

pub load_address-Grows :
    (addr : SocketAddr) (l : Loading) → Inv l → Grows (addr ∷ []) l (load_address addr l)
unfolding load_address
load_address-Grows addr l i = elim (Bool-cases (contains l.seen addr)) [
  | inl seen ↦ rw seen (Grows-seen addr l i seen)
  | inr unseen ↦ rw unseen (elim (Option-cases (find_server l.store addr l.servers)) [
    | inl absent ↦ rw absent (Grows-added addr l i)
    | inr (id, active) ↦ rw active (Grows-active addr l id i active)
  ])
]

pub Grows-trans :
    (a : SocketAddr) (new : List SocketAddr) (l m n : Loading)
    → Grows (a ∷ []) l m
    → Grows new m n
    → Grows (a ∷ new) l n
unfolding contains
Grows-trans a new l m n g h = record {
  seen = λ b. ground (arith, g.seen b, h.seen b);
  found = λ b. ground (arith, g.found b, h.found b);
  keeps = λ b id e.
      let (e', same) = g.keeps b id e in let (e'', same') = h.keeps b id e' in (e'', same' ∙ same);
  inv = h.inv;
}

pub Grows-refl : (l : Loading) → Inv l → Grows [] l l
unfolding contains
Grows-refl l i = record {
  seen = λ a. refl;
  found = λ a. refl;
  keeps = λ a id e. (e, refl);
  inv = i;
}
