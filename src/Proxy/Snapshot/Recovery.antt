-- ===== src/Proxy/Snapshot/Recovery.antt =====
-- `recover_from_snapshot` of src/proxy.rs as steps of the proxy.
use trakt.Base.{
  ℕ, ◌≤◌, ◌<◌, ◌≡◌, refl, ap, ◌∙◌, inl, inr, Bool, List, [], ◌∷◌, Option, none, some, Option-cases,
  arith, All,
}
use trakt.Config.{Text}
use trakt.Raknet.Bytes.{BytesCrate}
use trakt.Raknet.Datatypes.{SocketAddr}
use trakt.Server.{alloc, new_server}
use trakt.Health.{register_server}
use trakt.Balancer.{get_server}
use trakt.Balancer.Reload.Search.{find_server-lt}
use trakt.Proxy.Client.{connected}
use trakt.Proxy.Clients.{
  Socket, RaknetProxy, insert_client, new_client, Reaches, stay, after, recover, stale, register,
}
use trakt.Proxy.Clients.Loads.{IsLoaded}
use trakt.Proxy.Clients.Opening.{new_client-Opens}
use trakt.Proxy.Clients.Reach.{Reaches-trans, reach-IsLoaded}
use trakt.Proxy.Snapshot.{
  RaknetClientSnapshot, RaknetProxySnapshot, find_met, meet, register_all, recover_loop,
  recover_from_snapshot,
}

-- The servers met are numbers that were given out.
abbrev pub IsMet : RaknetProxy → List (SocketAddr × ℕ) → Type 0
IsMet s met = All (λ m. m.1 < s.store.fresh) met

find_met-lt :
    (s : RaknetProxy) (a : SocketAddr) (met : List (SocketAddr × ℕ)) {id : ℕ}
    → IsMet s met
    → find_met a met ≡ some id
    → id < s.store.fresh
unfolding find_met
find_met-lt s a [] h e = cc
find_met-lt s a ((b, k) ∷ met) {id} h e = ground (arith, find_met-lt s a met {id = id} h.1)

IsMet-weaken :
    (s t : RaknetProxy) (met : List (SocketAddr × ℕ))
    → s.store.fresh ≤ t.store.fresh
    → IsMet s met
    → IsMet t met
IsMet-weaken s t [] le h = tt
IsMet-weaken s t ((b, k) ∷ met) le h = (omega (arith, h.0), IsMet-weaken s t met le h.1)

-- The three branches of `meet`.
pub meet_again :
    (a : SocketAddr) (s : RaknetProxy) (met : List (SocketAddr × ℕ)) {id : ℕ}
    → find_met a met ≡ some id
    → meet a s met ≡ (id, (s, met))
unfolding meet
meet_again a s met e = rw (e, meet) refl

pub meet_active :
    (a : SocketAddr) (s : RaknetProxy) (met : List (SocketAddr × ℕ)) {id : ℕ}
    → find_met a met ≡ none
    → get_server s.store s.balancer a ≡ some id
    → meet a s met ≡ (id, (s, (a, id) ∷ met))
unfolding meet
meet_active a s met e e' = rw (e, e', meet) refl

unfoldable pub with_stale : SocketAddr → RaknetProxy → RaknetProxy
with_stale a s = record s { store = alloc s.store (new_server a) }

pub meet_stale :
    (a : SocketAddr) (s : RaknetProxy) (met : List (SocketAddr × ℕ))
    → find_met a met ≡ none
    → get_server s.store s.balancer a ≡ none
    → meet a s met ≡ (s.store.fresh, (with_stale a s, (a, s.store.fresh) ∷ met))
unfolding meet with_stale
meet_stale a s met e e' = rw (e, e', meet) refl

module _ ⦃crate : BytesCrate⦄ (from_str : Text → Option SocketAddr) where
  -- The server that was met is one that was given out, and at most one step was taken.
  abbrev pub Meets : RaknetProxy → ℕ × (RaknetProxy × List (SocketAddr × ℕ)) → Type 0
  Meets s (id, (t, met)) = Reaches from_str s t × (id < t.store.fresh) × IsMet t met

  pub meet-Meets :
      (a : SocketAddr) (s : RaknetProxy) (met : List (SocketAddr × ℕ))
      → IsLoaded s
      → IsMet s met
      → Meets s (meet a s met)
  meet-Meets a s met inv h = elim (Option-cases (find_met a met)) [
    | inr (id, e) ↦ rw (meet_again a s met {id = id} e) (stay, find_met-lt s a met {id = id} h e, h)
    | inl e ↦ elim (Option-cases (get_server s.store s.balancer a)) [
      | inr (id, e') ↦
          let lt =
            find_server-lt s.store a s.balancer.servers {id = id} inv.allocated
              (unfold get_server in e') in
          rw (meet_active a s met {id = id} e e') (stay, lt, (lt, h))
      | inl e' ↦ rw (meet_stale a s met e e') (
          unfold with_stale alloc in
          (
            after stay (stale a),
            omega arith,
            (omega arith, IsMet-weaken s (with_stale a s) met (omega arith) h),
          ))
    ]
  ]

  register_all-Reaches :
      (met : List (SocketAddr × ℕ)) (s : RaknetProxy) → Reaches from_str s (register_all met s)
  unfolding register_all register_server
  register_all-Reaches [] s = stay
  register_all-Reaches ((a, id) ∷ met) s =
      Reaches-trans from_str s _ _ (after stay (register id)) (register_all-Reaches met _)

  new_client-fresh :
      (bound : Socket) (announced : Bool) (a : SocketAddr) (id : ℕ) (s : RaknetProxy)
      → (new_client bound announced a connected (some id) s).1.store.fresh ≡ s.store.fresh
  new_client-fresh bound announced a id s =
      let (b, same, out) = new_client-Opens bound announced a connected (some id) s in
      elim out [
        | inl e ↦ ap (λ t. t.store.fresh) e
        | inr (id', free, given, e) ↦ ap (λ t. t.store.fresh) e ∙ unfold insert_client in refl
      ]

  module _ (bound : Text → Socket) (announced : Text → Bool) where
    recover_loop-Reaches :
        (clients : List RaknetClientSnapshot) (s : RaknetProxy) (met : List (SocketAddr × ℕ))
        → IsLoaded s
        → IsMet s met
        → Reaches from_str s (recover_loop from_str bound announced clients s met).0
    unfolding recover_loop
    recover_loop-Reaches [] s met inv h = stay
    recover_loop-Reaches (client ∷ clients) s met inv h =
        elim (Option-cases (from_str client.addr)) [
          | inl e ↦ rw (e, recover_loop) (recover_loop-Reaches clients s met inv h)
          | inr (a, e) ↦ elim (Option-cases (from_str client.server_addr)) [
            | inl e' ↦ rw (e, e', recover_loop) (recover_loop-Reaches clients s met inv h)
            | inr (b, e') ↦
                let (id, (t, met')) = meet b s met in
                let (r, lt, h') = meet-Meets b s met inv h in
                let bind = client.proxy_server_bind in
                let u = (new_client (bound bind) (announced bind) a connected (some id) t).1 in
                let r' : Reaches from_str s u =
                  after r (recover (bound bind) (announced bind) a connected id lt) in
                rw (e, e', recover_loop)
                  (Reaches-trans from_str s u _ r' (
                    recover_loop-Reaches clients u met' (reach-IsLoaded from_str s u r' inv) (
                      IsMet-weaken t u met'
                        (omega (arith, new_client-fresh (bound bind) (announced bind) a id t)) h')))
          ]
        ]

    -- From a state in which each load counts the tasks of its server, a recovery from any snapshot
    -- comes to a state that the proxy may reach by its steps.
    recover_from_snapshot-Reaches :
        (snapshot : RaknetProxySnapshot) (s : RaknetProxy)
        → IsLoaded s
        → Reaches from_str s (recover_from_snapshot from_str bound announced snapshot s)
    unfolding recover_from_snapshot
    recover_from_snapshot-Reaches snapshot s inv =
        let (t, met) = recover_loop from_str bound announced snapshot.clients s [] in
        Reaches-trans from_str s t _ (recover_loop-Reaches snapshot.clients s [] inv tt)
          (register_all-Reaches met t)
