-- ===== src/Proxy/Snapshot/Views.antt =====
-- To which server a connected player's datagrams go, and how the pieces of `recover_from_snapshot` of
-- src/proxy.rs change it.
use trakt.Base.{
  ℕ, ◌≤◌, ◌<◌, ◌≡◌, refl, ◌∙◌, inl, inr, true, false, Bool-cases, List, [], ◌∷◌, Option, none, some,
  Option-cases, arith, All, if◌then◌else◌, ◌==◌,
}
use trakt.Raknet.Datatypes.{SocketAddr}
use trakt.Server.{Store, addr_eq, addr_eq→eq, alloc, new_server}
use trakt.Balancer.{find_server, get_server}
use trakt.Balancer.Reload.Search.{find_server-lt}
use trakt.Proxy.Client.{is_connected, connected}
use trakt.Proxy.Clients.{RaknetProxy, get_client, insert_client}
use trakt.Proxy.Clients.Map.{IsMap}
use trakt.Proxy.Clients.Loads.{IsLoaded}
use trakt.Proxy.Snapshot.{find_met, meet}
use trakt.Proxy.Snapshot.Recovery.{meet_again, meet_active, meet_stale, with_stale}

-- The address of the server of a client, if it is connected.
abbrev pub server_of : RaknetProxy → ℕ → Option SocketAddr
server_of s i = if is_connected (s.at i).stage then some (s.store.at (s.at i).server).addr else none

abbrev pub view_of : RaknetProxy → Option ℕ → Option SocketAddr
view_of s none = none
view_of s (some i) = server_of s i

-- The server of the player at an address, by a list of clients and by the map.
abbrev pub view_in : RaknetProxy → List (SocketAddr × ℕ) → SocketAddr → Option SocketAddr
view_in s clients a = view_of s (get_client a clients)

abbrev pub view : RaknetProxy → SocketAddr → Option SocketAddr
view s a = view_in s s.clients a

-- Every server that was met has the address that it was met by.
abbrev pub MetAddr : RaknetProxy → List (SocketAddr × ℕ) → Type 0
MetAddr s met = All (λ m. (m.1 < s.store.fresh) × ((s.store.at m.1).addr ≡ m.0)) met

find_met-addr :
    (s : RaknetProxy) (b : SocketAddr) (met : List (SocketAddr × ℕ)) (id : ℕ)
    → MetAddr s met
    → find_met b met ≡ some id
    → (id < s.store.fresh) × ((s.store.at id).addr ≡ b)
unfolding find_met
find_met-addr s b [] id h e = absurd cc
find_met-addr s b ((k, j) ∷ met) id h e =
    ground (arith, h.0.0, h.0.1, find_met-addr s b met id h.1, addr_eq→eq k b)

find_server-addr :
    (store : Store) (b : SocketAddr) (ids : List ℕ) (id : ℕ)
    → find_server store b ids ≡ some id
    → (store.at id).addr ≡ b
unfolding find_server
find_server-addr store b [] id e = absurd cc
find_server-addr store b (x ∷ ids) id e =
    ground (arith, find_server-addr store b ids id, addr_eq→eq (store.at x).addr b)

-- Nothing that a player sees is changed, and the servers keep their addresses.
pub record Same (s t : RaknetProxy) : Type 0 where
  pub clients_same : t.clients ≡ s.clients
  pub at_same : t.at ≡ s.at
  pub made_same : t.made ≡ s.made
  pub grown : s.store.fresh ≤ t.store.fresh
  pub addrs : (id : ℕ) → id < s.store.fresh → (t.store.at id).addr ≡ (s.store.at id).addr

self-Same : (s : RaknetProxy) → Same s s
self-Same s = record {
  clients_same = refl;
  at_same = refl;
  made_same = refl;
  grown = omega arith;
  addrs = λ id lt. refl;
}

stale-Same : (b : SocketAddr) (s : RaknetProxy) → Same s (with_stale b s)
unfolding with_stale alloc
stale-Same b s = record {
  clients_same = refl;
  at_same = refl;
  made_same = refl;
  grown = omega arith;
  addrs = λ id lt. ground arith;
}

Same-MetAddr :
    (s t : RaknetProxy) (met : List (SocketAddr × ℕ)) → Same s t → MetAddr s met → MetAddr t met
Same-MetAddr s t [] same h = tt
Same-MetAddr s t ((k, id) ∷ met) same h =
    ((omega (arith, h.0.0, same.grown), same.addrs id h.0.0 ∙ h.0.1), Same-MetAddr s t met same h.1)

-- What `meet` gives: a server of that address.
abbrev pub Met : SocketAddr → RaknetProxy → ℕ × (RaknetProxy × List (SocketAddr × ℕ)) → Type 0
Met b s (id, (t, met)) =
    Same s t × (id < t.store.fresh) × ((t.store.at id).addr ≡ b) × MetAddr t met

new-addr : (b : SocketAddr) (s : RaknetProxy) → ((with_stale b s).store.at s.store.fresh).addr ≡ b
unfolding with_stale alloc new_server
new-addr b s = ground arith

pub meet-Met :
    (b : SocketAddr) (s : RaknetProxy) (met : List (SocketAddr × ℕ))
    → IsLoaded s
    → MetAddr s met
    → Met b s (meet b s met)
meet-Met b s met inv h = elim (Option-cases (find_met b met)) [
  | inr (id, e) ↦
      let found = find_met-addr s b met id h e in
      rw (meet_again b s met {id = id} e) (self-Same s, found.0, found.1, h)
  | inl e ↦ elim (Option-cases (get_server s.store s.balancer b)) [
    | inr (id, e') ↦
        let lt =
          find_server-lt s.store b s.balancer.servers {id = id} inv.allocated
            (unfold get_server in e') in
        let at_b = find_server-addr s.store b s.balancer.servers id (unfold get_server in e') in
        rw (meet_active b s met {id = id} e e') (self-Same s, lt, at_b, ((lt, at_b), h))
    | inl e' ↦
        let lt : s.store.fresh < (with_stale b s).store.fresh =
          unfold with_stale alloc in omega arith in
        rw (meet_stale b s met e e') (
          stale-Same b s,
          lt,
          new-addr b s,
          ((lt, new-addr b s), Same-MetAddr s (with_stale b s) met (stale-Same b s) h),
        )
  ]
]

-- The server of a client whose number was given out stays where it is.
Same-server_of :
    (s t : RaknetProxy) (i : ℕ)
    → Same s t
    → (s.at i).server < s.store.fresh
    → server_of t i ≡ server_of s i
Same-server_of s t i same lt = rw same.at_same (rw (same.addrs (s.at i).server lt) refl)

pub Same-view :
    (s t : RaknetProxy) (a : SocketAddr) → Same s t → IsMap s → IsLoaded s → view t a ≡ view s a
Same-view s t a same map_of loaded = elim (Option-cases (get_client a s.clients)) [
  | inl e ↦ rw (same.clients_same, e) refl
  | inr (i, e) ↦
      let lt = (map_of.present a i e).0 in
      rw (same.clients_same, e) (Same-server_of s t i same (loaded.assigned i lt))
]

==_self : (n : ℕ) → (n == n) ≡ true
==_self n = ground arith

==-lt : (i n : ℕ) → i < n → (i == n) ≡ false
==-lt i n h = ground arith

-- A recovered client, at an address that is free.
pub insert-view :
    (s : RaknetProxy) (k : SocketAddr) (id : ℕ) (a : SocketAddr)
    → IsMap s
    → view (insert_client k connected id s) a
      ≡ (if addr_eq k a then some (s.store.at id).addr else view s a)
unfolding insert_client get_client
insert-view s k id a map_of = elim (Bool-cases (addr_eq k a)) [
  | inl same ↦ rw same (rw (==_self s.made) refl)
  | inr other ↦ elim (Option-cases (get_client a s.clients)) [
    | inl e ↦ rw (other, e) refl
    | inr (i, e) ↦ rw (other, e) (rw (==-lt i s.made (map_of.present a i e).0) refl)
  ]
]
