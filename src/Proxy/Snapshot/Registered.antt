-- ===== src/Proxy/Snapshot/Registered.antt =====
-- The registrations that a recovery adds.
use trakt.Base.{ℕ, suc, ◌≡◌, refl, ap, ◌∙◌, inl, inr, Bool, List, [], ◌∷◌, Option, some, arith}
use trakt.Config.{Text}
use trakt.Raknet.Datatypes.{SocketAddr}
use trakt.Balancer.{get_server}
use trakt.Health.{register_server}
use trakt.Health.Rounds.{count}
use trakt.Proxy.Client.{ConnectionStage, connected}
use trakt.Proxy.Clients.{Socket, RaknetProxy, insert_client, new_client}
use trakt.Proxy.Clients.Opening.{new_client-Opens}
use trakt.Proxy.Snapshot.{
  RaknetClientSnapshot, RaknetProxySnapshot, find_met, register_all, recover_loop,
  recover_from_snapshot,
}
use trakt.Proxy.Snapshot.Recovery.{meet_active}

count-register : (id : ℕ) (ids : List ℕ) → count id (register_server id ids) ≡ suc (count id ids)
unfolding count register_server
count-register id [] = ground arith
count-register id (x ∷ ids) = ground (arith, count-register id ids)

new_client-registered :
    (bound : Socket) (announced : Bool) (a : SocketAddr) (stage : ConnectionStage)
    (server : Option ℕ) (s : RaknetProxy)
    → (new_client bound announced a stage server s).1.registered ≡ s.registered
new_client-registered bound announced a stage server s =
    let (b, same, out) = new_client-Opens bound announced a stage server s in
    elim out [
      | inl e ↦ ap (λ t. t.registered) e
      | inr (id', free, given, e) ↦ ap (λ t. t.registered) e ∙ unfold insert_client in refl
    ]

module _ (from_str : Text → Option SocketAddr) (bound : Text → Socket)
    (announced : Text → Bool) where
  recovered :
      (client : RaknetClientSnapshot) (s : RaknetProxy) (a b : SocketAddr) (id : ℕ)
      → from_str client.addr ≡ some a
      → from_str client.server_addr ≡ some b
      → get_server s.store s.balancer b ≡ some id
      → let bind = client.proxy_server_bind in
        recover_loop from_str bound announced (client ∷ []) s []
        ≡ ((new_client (bound bind) (announced bind) a connected (some id) s).1, (b, id) ∷ [])
  unfolding recover_loop
  recovered client s a b id e e' active =
      let met = meet_active b s [] {id = id} (unfold find_met in refl) active in
      rw (e, e', recover_loop) (rw met refl)

  -- A recovery from a snapshot of one client, whose addresses parse and whose server the balancer
  -- has, adds one registration of that server, whether it was registered before or not.
  pub recover_registers_again :
      (client : RaknetClientSnapshot) (snapshot : RaknetProxySnapshot) (s : RaknetProxy)
      (a b : SocketAddr) (id : ℕ)
      → snapshot.clients ≡ client ∷ []
      → from_str client.addr ≡ some a
      → from_str client.server_addr ≡ some b
      → get_server s.store s.balancer b ≡ some id
      → count id (recover_from_snapshot from_str bound announced snapshot s).registered
        ≡ suc (count id s.registered)
  unfolding recover_from_snapshot
  recover_registers_again client snapshot s a b id one e e' active =
      let bind = client.proxy_server_bind in
      rw (one, recovered client s a b id e e' active)
        (unfold register_all in
          count-register id _
          ∙ ap suc (
              ap (count id)
                (new_client-registered (bound bind) (announced bind) a connected (some id) s)))
