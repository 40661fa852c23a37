-- ===== src/Balancer/Reload.antt =====
-- `load_config` of src/load_balancer.rs: the servers before and after, by their addresses.
pub mod Search
pub mod Steps
pub mod Fresh
pub mod Apart
use trakt.Base.{
  is_some, ℕ, ◌≡◌, refl, inl, inr, Bool, true, false, List, [], ◌∷◌, Option, none, some, arith,
  Option-cases, if◌then◌else◌,
}
use trakt.Config.{Text, BackendServerConfig, RootConfig}
use trakt.Raknet.Datatypes.{SocketAddr}
use trakt.Server.{Store}
use trakt.Balancer.{
  LoadBalancerState, Loading, contains, load_address, load_servers, load_config, find_server,
  get_server,
}
use trakt.Balancer.Reload.Search.{Allocated, find_server-retain}
use trakt.Balancer.Reload.Steps.{Inv, Grows, load_address-Grows, Grows-trans, Grows-refl}

-- The addresses of the configuration that the parser accepts.
unfoldable pub parsed : (Text → Option SocketAddr) → List BackendServerConfig → List SocketAddr
parsed from_str [] = []
parsed from_str (c ∷ cs) = elim (from_str c.address) [
  | none ↦ parsed from_str cs
  | some a ↦ a ∷ parsed from_str cs
]

module _ (from_str : Text → Option SocketAddr) where
  parsed-none :
      (c : BackendServerConfig) (cs : List BackendServerConfig)
      → from_str c.address ≡ none
      → parsed from_str (c ∷ cs) ≡ parsed from_str cs
  unfolding parsed
  parsed-none c cs e = rw (e, parsed)

  parsed-some :
      (c : BackendServerConfig) (cs : List BackendServerConfig) {a : SocketAddr}
      → from_str c.address ≡ some a
      → parsed from_str (c ∷ cs) ≡ a ∷ parsed from_str cs
  unfolding parsed
  parsed-some c cs e = rw (e, parsed)

  pub load_none :
      (c : BackendServerConfig) (cs : List BackendServerConfig) (l : Loading)
      → from_str c.address ≡ none
      → load_servers from_str (c ∷ cs) l ≡ load_servers from_str cs l
  unfolding load_servers
  load_none c cs l e = rw e

  pub load_some :
      (c : BackendServerConfig) (cs : List BackendServerConfig) (l : Loading) {a : SocketAddr}
      → from_str c.address ≡ some a
      → load_servers from_str (c ∷ cs) l ≡ load_servers from_str cs (load_address a l)
  unfolding load_servers
  load_some c cs l e = rw e

  pub load_servers-Grows :
      (cs : List BackendServerConfig) (l : Loading)
      → Inv l
      → Grows (parsed from_str cs) l (load_servers from_str cs l)
  load_servers-Grows [] l i = unfold parsed load_servers in Grows-refl l i
  load_servers-Grows (c ∷ cs) l i = elim (Option-cases (from_str c.address)) [
    | inl e ↦ rw (parsed-none c cs e, load_none c cs l e) (load_servers-Grows cs l i)
    | inr (a, e) ↦
        let g = load_address-Grows a l i in
        rw (parsed-some c cs e, load_some c cs l e)
          (Grows-trans a (parsed from_str cs) l (load_address a l) _ g
            (load_servers-Grows cs (load_address a l) g.inv))
  ]

  module _ (config : RootConfig) (reload : Bool) (store : Store) (state : LoadBalancerState)
      (registered : List ℕ) (allocated : Allocated store state.servers) where
    start : Loading
    start = record {
      store = store;
      servers = state.servers;
      registered = registered;
      seen = [];
      new_count = 0;
    }

    start_unseen : (a : SocketAddr) → contains start.seen a ≡ false
    unfolding contains start
    start_unseen a = refl

    start-Grows :
        Grows
          (parsed from_str config.backend.servers)
          start
          (load_servers from_str config.backend.servers start)
    unfolding start
    start-Grows =
        load_servers-Grows config.backend.servers start
          (record { allocated = allocated; seen_found = λ a h. absurd (unfold contains in cc h) })

    finish : Loading
    finish = load_servers from_str config.backend.servers start

    get_server-after :
        (a : SocketAddr)
        → let after = load_config from_str config reload store state registered in
          get_server after.store after.state a
          ≡ (if contains finish.seen a then find_server finish.store a finish.servers else none)
    unfolding load_config get_server finish start
    get_server-after a = find_server-retain finish.store a finish.seen finish.servers

    store_after : (load_config from_str config reload store state registered).store ≡ finish.store
    unfolding load_config finish start
    store_after = refl

    finish_seen :
        (a : SocketAddr)
        → contains finish.seen a ≡ contains (parsed from_str config.backend.servers) a
    unfolding finish
    finish_seen a = ground (arith, start-Grows.seen a, start_unseen a)

    -- After a load the balancer has a server for an address exactly if the configuration lists it,
    -- as an address that parses, provided that the numbers of its old servers have been given out.
    pub load_config_servers :
        (a : SocketAddr)
        → let after = load_config from_str config reload store state registered in
          is_some (get_server after.store after.state a)
          ≡ contains (parsed from_str config.backend.servers) a
    load_config_servers a =
        rw (get_server-after a, finish_seen a)
          (unfold finish in ground (arith, start-Grows.found a))

    -- A server that the balancer had for an address that the new configuration still lists stays
    -- the same one, with its health and its load, provided that the numbers of the old servers
    -- have been given out.
    pub load_config_keeps :
        (a : SocketAddr) (id : ℕ)
        → contains (parsed from_str config.backend.servers) a ≡ true
        → get_server store state a ≡ some id
        → let after = load_config from_str config reload store state registered in
          (get_server after.store after.state a ≡ some id) × (after.store.at id ≡ store.at id)
    load_config_keeps a id listed e =
        let (kept, same) = start-Grows.keeps a id (unfold get_server start in e) in
        (
          rw (get_server-after a, finish_seen a, listed) (unfold finish in kept),
          rw store_after (unfold finish start in same),
        )
