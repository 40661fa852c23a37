-- ===== src/Proxy/Clients/Opening.antt =====
-- What `new_client` may do to the state, on every branch.
use trakt.Base.{
  ℕ, ◌≡◌, refl, ap, ◌⊎◌, inl, inr, Bool, List, [], ◌∷◌, Option, none, some, Option-cases, arith,
  length, ==-zero, if◌then◌else◌,
}
use trakt.Raknet.Datatypes.{SocketAddr}
use trakt.Server.{Store}
use trakt.Balancer.{LoadBalanceAlgorithm, LoadBalancerState, round_robin, least_connected, next}
use trakt.Proxy.Client.{ConnectionStage}
use trakt.Proxy.Clients.{
  Socket, refused, unnamed, usable, nameless, still_there, NewClient, opened, failed_late,
  no_server, RaknetProxy, get_client, insert_client, new_client, under_lock,
}

next-servers_of :
    (store : Store) (algo : LoadBalanceAlgorithm) (servers : List ℕ)
    → (next store (record { algo = algo; servers = servers })).1.servers ≡ servers
unfolding next
next-servers_of store (round_robin index) [] = refl
next-servers_of store (round_robin index) (id ∷ ids) =
    rw (==-zero (length (id ∷ ids)) (omega arith)) refl
next-servers_of store least_connected [] = refl
next-servers_of store least_connected (id ∷ ids) =
    rw (==-zero (length (id ∷ ids)) (omega arith)) refl

next-servers : (store : Store) (b : LoadBalancerState) → (next store b).1.servers ≡ b.servers
next-servers store b = next-servers_of store b.algo b.servers

-- The server that the client gets: the one that was asked for, or one that the balancer found.
abbrev pub Given : RaknetProxy → Option ℕ → ℕ → Type 0
Given s server id = (server ≡ some id) ⊎ ((next s.store s.balancer).0 ≡ some id)

-- At most the balancer's own state changes, or a client is inserted at an address that is free.
abbrev pub Opens : SocketAddr → ConnectionStage → Option ℕ → RaknetProxy → RaknetProxy → Type 0
Opens addr stage server s t =
    (b : LoadBalancerState) × (b.servers ≡ s.balancer.servers)
    × ((t ≡ record s { balancer = b })
        ⊎ ((id : ℕ) × (get_client addr s.clients ≡ none)
            × Given s server id
            × (t ≡ insert_client addr stage id (record s { balancer = b }))))

-- `new_client` at an address that is free, with a socket that could be bound.
module _ (announced : Bool) (addr : SocketAddr) (stage : ConnectionStage) (s : RaknetProxy)
    (free : get_client addr s.clients ≡ none) where
  abbrev pub balanced : RaknetProxy
  balanced = record s { balancer = (next s.store s.balancer).1 }

  abbrev pub result : NewClient
  result = if announced then opened s.made else failed_late

  pub asked_for :
      (id : ℕ)
      → new_client usable announced addr stage (some id) s ≡ (result, insert_client addr stage id s)
  unfolding new_client
  asked_for id = rw (under_lock, free) refl

  pub nothing_found :
      (next s.store s.balancer).0 ≡ none
      → new_client usable announced addr stage none s ≡ (no_server, balanced)
  unfolding new_client
  nothing_found e = rw (under_lock, free, e) refl

  pub one_found :
      (id : ℕ)
      → (next s.store s.balancer).0 ≡ some id
      → new_client usable announced addr stage none s
        ≡ (result, insert_client addr stage id balanced)
  unfolding new_client
  one_found id e = rw (under_lock, free, e) refl

  Opens-free :
      (server : Option ℕ)
      → Opens addr stage server s (new_client usable announced addr stage server s).1
  Opens-free (some id) = (s.balancer, refl, inr (id, free, inl refl, ap (λ r. r.1) (asked_for id)))
  Opens-free none = elim (Option-cases (next s.store s.balancer).0) [
    | inl e ↦ (
      (next s.store s.balancer).1,
      next-servers s.store s.balancer,
      inl (ap (λ r. r.1) (nothing_found e)),
    )
    | inr (id, e) ↦ (
      (next s.store s.balancer).1,
      next-servers s.store s.balancer,
      inr (id, free, inr e, ap (λ r. r.1) (one_found id e)),
    )
  ]

pub taken :
    (announced : Bool) (addr : SocketAddr) (stage : ConnectionStage) (server : Option ℕ)
    (s : RaknetProxy) {there : ℕ}
    → get_client addr s.clients ≡ some there
    → new_client usable announced addr stage server s ≡ (still_there, s)
unfolding new_client
taken announced addr stage server s e = rw (under_lock, e) refl

-- `new_client` with a socket whose address cannot be read: only the balancer's state may change.
module _ (announced : Bool) (addr : SocketAddr) (stage : ConnectionStage) (s : RaknetProxy) where
  pub unnamed_taken :
      (server : Option ℕ) {there : ℕ}
      → get_client addr s.clients ≡ some there
      → new_client unnamed announced addr stage server s ≡ (still_there, s)
  unfolding new_client
  unnamed_taken server e = rw (under_lock, e) refl

  module _ (free : get_client addr s.clients ≡ none) where
    pub unnamed_asked :
        (id : ℕ) → new_client unnamed announced addr stage (some id) s ≡ (nameless, s)
    unfolding new_client
    unnamed_asked id = rw (under_lock, free) refl

    pub unnamed_nothing :
        (next s.store s.balancer).0 ≡ none
        → new_client unnamed announced addr stage none s
          ≡ (no_server, record s { balancer = (next s.store s.balancer).1 })
    unfolding new_client
    unnamed_nothing e = rw (under_lock, free, e) refl

    pub unnamed_found :
        (id : ℕ)
        → (next s.store s.balancer).0 ≡ some id
        → new_client unnamed announced addr stage none s
          ≡ (nameless, record s { balancer = (next s.store s.balancer).1 })
    unfolding new_client
    unnamed_found id e = rw (under_lock, free, e) refl

unnamed-Opens :
    (announced : Bool) (addr : SocketAddr) (stage : ConnectionStage) (server : Option ℕ)
    (s : RaknetProxy)
    → Opens addr stage server s (new_client unnamed announced addr stage server s).1
unnamed-Opens announced addr stage server s = elim (Option-cases (get_client addr s.clients)) [
  | inr (there, e) ↦ (
    s.balancer,
    refl,
    inl (ap (λ r. r.1) (unnamed_taken announced addr stage s server {there = there} e)),
  )
  | inl free ↦ unnamed_free server free
]
  where
    unnamed_free :
        (server : Option ℕ)
        → get_client addr s.clients ≡ none
        → Opens addr stage server s (new_client unnamed announced addr stage server s).1
    unnamed_free (some id) free =
        (s.balancer, refl, inl (ap (λ r. r.1) (unnamed_asked announced addr stage s free id)))
    unnamed_free none free = elim (Option-cases (next s.store s.balancer).0) [
      | inl e ↦ (
        (next s.store s.balancer).1,
        next-servers s.store s.balancer,
        inl (ap (λ r. r.1) (unnamed_nothing announced addr stage s free e)),
      )
      | inr (id, e) ↦ (
        (next s.store s.balancer).1,
        next-servers s.store s.balancer,
        inl (ap (λ r. r.1) (unnamed_found announced addr stage s free id e)),
      )
    ]

pub new_client-Opens :
    (bound : Socket) (announced : Bool) (addr : SocketAddr) (stage : ConnectionStage)
    (server : Option ℕ) (s : RaknetProxy)
    → Opens addr stage server s (new_client bound announced addr stage server s).1
new_client-Opens refused announced addr stage server s =
    unfold new_client in (s.balancer, refl, inl refl)
new_client-Opens unnamed announced addr stage server s = unnamed-Opens announced addr stage server s
new_client-Opens usable announced addr stage server s =
    elim (Option-cases (get_client addr s.clients)) [
      | inl free ↦ Opens-free announced addr stage s free server
      | inr (there, e) ↦ (
        s.balancer,
        refl,
        inl (ap (λ r. r.1) (taken announced addr stage server s {there = there} e)),
      )
    ]
