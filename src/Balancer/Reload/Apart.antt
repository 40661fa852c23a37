-- ===== src/Balancer/Reload/Apart.antt =====
-- `load_config` of src/load_balancer.rs: no address comes to stand in the list of servers twice.
use trakt.Base.{
  zero, suc, get_elem?, sym, ℕ, ◌≡◌, refl, ap, ◌∙◌, inl, inr, Bool, false, List, [], ◌∷◌, ◌++◌,
  Option, none, some, arith, All, Bool-cases, Option-cases,
}
use trakt.Config.{Text, BackendServerConfig, RootConfig}
use trakt.Raknet.Datatypes.{SocketAddr}
use trakt.Server.{Store, addr_eq, addr_eq→eq, addr_eq_self, new_server, alloc}
use trakt.Balancer.{
  LoadBalancerState, Loading, contains, add_server, load_address, load_servers, retain, load_config,
  find_server,
}
use trakt.Balancer.Reload.Search.{
  Allocated, at-alloc, find_server-append, find_server-alloc, find_server-fresh, find_server-retain,
}
use trakt.Balancer.Reload.Steps.{Inv, load_address-Grows}
use trakt.Balancer.Reload.{load_none, load_some}

-- No two of the servers have one address.
abbrev pub Apart : Store → List ℕ → Type 0
Apart store [] = Unit
Apart store (id ∷ ids) = (find_server store (store.at id).addr ids ≡ none) × Apart store ids

-- The addresses are all that matters.
find_server-ext :
    (s t : Store) (a : SocketAddr) (ids : List ℕ)
    → All (λ id. (t.at id).addr ≡ (s.at id).addr) ids
    → find_server t a ids ≡ find_server s a ids
unfolding find_server
find_server-ext s t a [] h = refl
find_server-ext s t a (id ∷ ids) h = rw (h.0, find_server-ext s t a ids h.1) refl

pub Apart-ext :
    (s t : Store) (ids : List ℕ)
    → All (λ id. (t.at id).addr ≡ (s.at id).addr) ids
    → Apart s ids
    → Apart t ids
Apart-ext s t [] h d = tt
Apart-ext s t (id ∷ ids) h d = (
  ap (λ a. find_server t a ids) h.0 ∙ find_server-ext s t (s.at id).addr ids h.1 ∙ d.0,
  Apart-ext s t ids h.1 d.1,
)

-- A server that was allocated just now, behind the others.
Apart-append :
    (store : Store) (addr : SocketAddr) (ids : List ℕ)
    → Allocated store ids
    → find_server store addr ids ≡ none
    → Apart store ids
    → Apart (alloc store (new_server addr)) (ids ++ (store.fresh ∷ []))
unfolding find_server
Apart-append store addr [] old free d = (refl, tt)
Apart-append store addr (id ∷ ids) old free d =
    let t = alloc store (new_server addr) in
    let same = at-alloc store (new_server addr) id old.0 in
    let apart : addr_eq addr (store.at id).addr ≡ false =
      ground (arith, free, addr_eq→eq addr (store.at id).addr, addr_eq_self (store.at id).addr) in
    let behind : find_server store addr ids ≡ none = ground (arith, free) in
    (
      rw
          (
            same,
            find_server-append t (store.at id).addr ids (store.fresh ∷ []),
            find_server-alloc store (new_server addr) (store.at id).addr ids old.1,
            d.0,
            find_server-fresh store addr (store.at id).addr,
            apart,
          )
          refl,
      Apart-append store addr ids old.1 behind d.1,
    )

load_address-Apart :
    (a : SocketAddr) (l : Loading)
    → Allocated l.store l.servers
    → Apart l.store l.servers
    → Apart (load_address a l).store (load_address a l).servers
unfolding load_address
load_address-Apart a l old d = elim (Bool-cases (contains l.seen a)) [
  | inl seen ↦ rw seen d
  | inr unseen ↦ rw unseen (elim (Option-cases (find_server l.store a l.servers)) [
    | inl absent ↦ rw absent (unfold add_server in Apart-append l.store a l.servers old absent d)
    | inr (id, there) ↦ rw there d
  ])
]

retain-Apart :
    (store : Store) (seen : List SocketAddr) (ids : List ℕ)
    → Apart store ids
    → Apart store (retain store seen ids)
unfolding retain
retain-Apart store seen [] d = tt
retain-Apart store seen (id ∷ ids) d = elim (Bool-cases (contains seen (store.at id).addr)) [
  | inl stays ↦ rw stays (
    rw (find_server-retain store (store.at id).addr seen ids, d.0, stays) refl,
    retain-Apart store seen ids d.1,
  )
  | inr goes ↦ rw goes (retain-Apart store seen ids d.1)
]

module _ (from_str : Text → Option SocketAddr) where
  load_servers-Apart :
      (cs : List BackendServerConfig) (l : Loading)
      → Inv l
      → Apart l.store l.servers
      → Apart (load_servers from_str cs l).store (load_servers from_str cs l).servers
  load_servers-Apart [] l i d = unfold load_servers in d
  load_servers-Apart (c ∷ cs) l i d = elim (Option-cases (from_str c.address)) [
    | inl e ↦ rw (load_none from_str c cs l e) (load_servers-Apart cs l i d)
    | inr (a, e) ↦ rw (load_some from_str c cs l e) (
        load_servers-Apart cs (load_address a l) (load_address-Grows a l i).inv
          (load_address-Apart a l i.allocated d))
  ]

  pub load_config-Apart :
      (config : RootConfig) (reload : Bool) (store : Store) (state : LoadBalancerState)
      (registered : List ℕ)
      → Allocated store state.servers
      → Apart store state.servers
      → let after = load_config from_str config reload store state registered in
        Apart after.store after.state.servers
  unfolding load_config
  load_config-Apart config reload store state registered old d =
      let l : Loading = record {
        store = store;
        servers = state.servers;
        registered = registered;
        seen = [];
        new_count = 0;
      } in
      let end = load_servers from_str config.backend.servers l in
      retain-Apart end.store end.seen end.servers (
        load_servers-Apart config.backend.servers l
          (record { allocated = old; seen_found = λ a h. absurd (unfold contains in cc h) }) d)

-- A server of the list is the one that the search for its address finds.
found_behind-ne :
    (store : Store) (id : ℕ) (ids entries : List ℕ)
    → find_server store (store.at id).addr ids ≡ none
    → All (λ k. find_server store (store.at k).addr ids ≡ some k) entries
    → All (λ k. find_server store (store.at k).addr (id ∷ ids) ≡ some k) entries
unfolding find_server
found_behind-ne store id ids [] free h = tt
found_behind-ne store id ids (k ∷ entries) free h = (
  ground (arith, h.0, free, addr_eq→eq (store.at id).addr (store.at k).addr),
  found_behind-ne store id ids entries free h.1,
)

pub Apart-found :
    (store : Store) (ids : List ℕ)
    → Apart store ids
    → All (λ k. find_server store (store.at k).addr ids ≡ some k) ids
unfolding find_server
Apart-found store [] d = tt
Apart-found store (id ∷ ids) d = (
  rw (addr_eq_self (store.at id).addr) refl,
  found_behind-ne store id ids ids d.0 (Apart-found store ids d.1),
)

listed_found :
    (store : Store) (ids : List ℕ) (p id : ℕ)
    → get_elem? ids p ≡ some id
    → ¬ (find_server store (store.at id).addr ids ≡ none)
unfolding find_server
listed_found store [] p id e free = absurd (cc e)
listed_found store (x ∷ ids) zero id e free =
    let same : x ≡ id = cc e in ground (arith, addr_eq_self (store.at id).addr)
listed_found store (x ∷ ids) (suc p) id e free = ground (arith, listed_found store ids p id e)

-- Two places with one address are one place.
pub Apart-place :
    (store : Store) (ids : List ℕ) (p q id id' : ℕ)
    → Apart store ids
    → get_elem? ids p ≡ some id
    → get_elem? ids q ≡ some id'
    → (store.at id).addr ≡ (store.at id').addr
    → p ≡ q
Apart-place store [] p q id id' d e e' same = absurd (cc e)
Apart-place store (x ∷ ids) zero zero id id' d e e' same = refl
Apart-place store (x ∷ ids) zero (suc q) id id' d e e' same =
    let at_x : x ≡ id = cc e in
    absurd (
      listed_found store ids q id' e' (
        ap (λ a. find_server store a ids) (sym same ∙ ap (λ k. (store.at k).addr) (sym at_x))
        ∙ d.0))
Apart-place store (x ∷ ids) (suc p) zero id id' d e e' same =
    let at_x : x ≡ id' = cc e' in
    absurd (
      listed_found store ids p id e
        (ap (λ a. find_server store a ids) (same ∙ ap (λ k. (store.at k).addr) (sym at_x)) ∙ d.0))
Apart-place store (x ∷ ids) (suc p) (suc q) id id' d e e' same =
    ap suc (Apart-place store ids p q id id' d.1 e e' same)
