-- ===== src/Balancer/Reload/Search.antt =====
-- The search for an address, as the loop of `load_config` allocates servers and as its end removes
-- them.
use trakt.Base.{ℕ, ◌<◌, ◌≡◌, refl, List, [], ◌∷◌, ◌++◌, none, some, arith, All, if◌then◌else◌}
use trakt.Raknet.Datatypes.{SocketAddr}
use trakt.Server.{BackendServer, Store, addr_eq, addr_eq→eq, new_server, alloc}
use trakt.Balancer.{Loading, contains, add_server, retain, find_server}

-- Every server number has been given out.
abbrev pub Allocated : Store → List ℕ → Type 0
Allocated store = All λ id. id < store.fresh

pub find_server-append :
    (store : Store) (a : SocketAddr) (xs ys : List ℕ)
    → find_server store a (xs ++ ys)
      ≡ (elim (find_server store a xs) [ some id ↦ some id | none ↦ find_server store a ys ])
unfolding find_server
find_server-append store a [] ys = refl
find_server-append store a (x ∷ xs) ys = ground (arith, find_server-append store a xs ys)

-- A new server leaves the old ones as they are.
pub at-alloc :
    (store : Store) (b : BackendServer) (id : ℕ)
    → id < store.fresh
    → (alloc store b).at id ≡ store.at id
unfolding alloc
at-alloc store b id h = ground arith

pub find_server-alloc :
    (store : Store) (b : BackendServer) (a : SocketAddr) (ids : List ℕ)
    → Allocated store ids
    → find_server (alloc store b) a ids ≡ find_server store a ids
unfolding find_server
find_server-alloc store b a [] h = refl
find_server-alloc store b a (x ∷ ids) h =
    rw (at-alloc store b x h.0, find_server-alloc store b a ids h.1)

-- Removing the servers whose address was not seen hides just those addresses.
pub find_server-retain :
    (store : Store) (a : SocketAddr) (seen : List SocketAddr) (ids : List ℕ)
    → find_server store a (retain store seen ids)
      ≡ (if contains seen a then find_server store a ids else none)
unfolding find_server retain
find_server-retain store a seen [] = ground arith
find_server-retain store a seen (x ∷ ids) =
    ground (arith, addr_eq→eq (store.at x).addr a, find_server-retain store a seen ids)

pub Allocated-append :
    (store : Store) (b : BackendServer) (ids : List ℕ)
    → Allocated store ids
    → Allocated (alloc store b) (ids ++ (store.fresh ∷ []))
unfolding alloc
Allocated-append store b [] h = omega arith
Allocated-append store b (x ∷ ids) h = (omega arith, Allocated-append store b ids h.1)

pub find_server-lt :
    (store : Store) (a : SocketAddr) (ids : List ℕ) {id : ℕ}
    → Allocated store ids
    → find_server store a ids ≡ some id
    → id < store.fresh
unfolding find_server
find_server-lt store a [] h e = cc
find_server-lt store a (x ∷ ids) {id} h e = ground (arith, find_server-lt store a ids {id = id} h.1)

pub find_server-fresh :
    (store : Store) (addr a : SocketAddr)
    → find_server (alloc store (new_server addr)) a (store.fresh ∷ [])
      ≡ (if addr_eq addr a then some store.fresh else none)
unfolding find_server alloc new_server
find_server-fresh store addr a = ground arith

-- What a new server changes in the search.
pub find_server-add :
    (addr a : SocketAddr) (l : Loading)
    → Allocated l.store l.servers
    → find_server (add_server addr l).store a (add_server addr l).servers
      ≡ (elim (find_server l.store a l.servers) [
        | some id ↦ some id
        | none ↦ if addr_eq addr a then some l.store.fresh else none
      ])
unfolding add_server
find_server-add addr a l h =
    rw
      (
        find_server-append (alloc l.store (new_server addr)) a l.servers (l.store.fresh ∷ []),
        find_server-alloc l.store (new_server addr) a l.servers h,
      )
      (ground (arith, find_server-fresh l.store addr a))
