-- ===== src/Balancer/Reload/Fresh.antt =====
-- The store of servers before and after `load_config` of src/load_balancer.rs.
use trakt.Base.{
  ℕ, ◌≤◌, ◌<◌, ◌≡◌, refl, ◌∙◌, inl, inr, Bool, List, [], ◌∷◌, Option, arith, All, Bool-cases,
  Option-cases,
}
use trakt.Config.{Text, BackendServerConfig, RootConfig}
use trakt.Raknet.Datatypes.{SocketAddr}
use trakt.Server.{Store, new_server, alloc}
use trakt.Balancer.{
  LoadBalancerState, Loading, contains, add_server, load_address, load_servers, retain, load_config,
  find_server,
}
use trakt.Balancer.Reload.Search.{Allocated}
use trakt.Balancer.Reload.{load_none, load_some, load_servers-Grows}
use native.Mathlib.Decide.{dec_lt}

pub record Extends (s t : Store) : Type 0 where
  pub grown : s.fresh ≤ t.fresh
  pub kept : (id : ℕ) → id < s.fresh → t.at id ≡ s.at id
  pub unloaded : (id : ℕ) → s.fresh ≤ id → id < t.fresh → (t.at id).load ≡ 0

Extends-refl : (s : Store) → Extends s s
Extends-refl s = record {
  grown = omega arith;
  kept = λ id h. refl;
  unloaded = λ id h h'. absurd (omega arith);
}

Extends-trans : (s t u : Store) → Extends s t → Extends t u → Extends s u
Extends-trans s t u e f = record {
  grown = omega (arith, e.grown, f.grown);
  kept = λ id h. f.kept id (omega (arith, e.grown)) ∙ e.kept id h;
  unloaded = λ id h h'. elim (dec_lt id t.fresh) [
    | yes old ↦ rw (f.kept id old) (e.unloaded id h old)
    | no new ↦ f.unloaded id (omega arith) h'
  ];
}

pub alloc-Extends : (s : Store) (addr : SocketAddr) → Extends s (alloc s (new_server addr))
unfolding alloc new_server
alloc-Extends s addr = record {
  grown = omega arith;
  kept = λ id h. ground arith;
  unloaded = λ id h h'. ground arith;
}

load_address-Extends : (a : SocketAddr) (l : Loading) → Extends l.store (load_address a l).store
unfolding load_address
load_address-Extends a l = elim (Bool-cases (contains l.seen a)) [
  | inl seen ↦ rw seen (Extends-refl l.store)
  | inr unseen ↦ rw unseen (elim (Option-cases (find_server l.store a l.servers)) [
    | inl absent ↦ rw absent (unfold add_server in alloc-Extends l.store a)
    | inr (id, there) ↦ rw there (Extends-refl l.store)
  ])
]

module _ (from_str : Text → Option SocketAddr) where
  load_servers-Extends :
      (cs : List BackendServerConfig) (l : Loading)
      → Extends l.store (load_servers from_str cs l).store
  load_servers-Extends [] l = unfold load_servers in Extends-refl l.store
  load_servers-Extends (c ∷ cs) l = elim (Option-cases (from_str c.address)) [
    | inl e ↦ rw (load_none from_str c cs l e) (load_servers-Extends cs l)
    | inr (a, e) ↦ rw (load_some from_str c cs l e) (
        Extends-trans l.store (load_address a l).store _ (load_address-Extends a l)
          (load_servers-Extends cs (load_address a l)))
  ]

  retain-All :
      (P : ℕ → Type 0) (store : Store) (seen : List SocketAddr) (ids : List ℕ)
      → All P ids
      → All P (retain store seen ids)
  unfolding retain
  retain-All P store seen [] h = tt
  retain-All P store seen (x ∷ ids) h = elim (Bool-cases (contains seen (store.at x).addr)) [
    | inl yes_ ↦ rw yes_ (h.0, retain-All P store seen ids h.1)
    | inr no_ ↦ rw no_ (retain-All P store seen ids h.1)
  ]

  pub load_config-Extends :
      (config : RootConfig) (reload : Bool) (store : Store) (state : LoadBalancerState)
      (registered : List ℕ)
      → Extends store (load_config from_str config reload store state registered).store
  unfolding load_config
  load_config-Extends config reload store state registered =
      load_servers-Extends config.backend.servers _

  pub load_config-Allocated :
      (config : RootConfig) (reload : Bool) (store : Store) (state : LoadBalancerState)
      (registered : List ℕ)
      → Allocated store state.servers
      → let after = load_config from_str config reload store state registered in
        Allocated after.store after.state.servers
  unfolding load_config
  load_config-Allocated config reload store state registered h =
      let l : Loading = record {
        store = store;
        servers = state.servers;
        registered = registered;
        seen = [];
        new_count = 0;
      } in
      let end = load_servers from_str config.backend.servers l in
      let g =
        load_servers-Grows from_str config.backend.servers l
          (record { allocated = h; seen_found = λ a h'. absurd (unfold contains in cc h') }) in
      retain-All _ end.store end.seen end.servers g.inv.allocated
