-- ===== src/Proxy/Bind/Addresses.antt =====
-- The servers of the balancer of src/proxy.rs have different addresses, under every step.
use trakt.Base.{
  get_elem?, All-get_elem?, some, ℕ, ◌≡◌, ap, inl, inr, Bool, true, List, [], ◌∷◌, Option, none,
  some, arith, All,
}
use trakt.Config.{Text, RootConfig}
use trakt.Raknet.Bytes.{BytesCrate}
use trakt.Raknet.Datatypes.{SocketAddr}
use trakt.Server.{BackendServer, Store, alloc, new_server}
use trakt.Health.{check_health}
use trakt.Balancer.{find_server, get_server}
use trakt.Balancer.Reload.Search.{Allocated, at-alloc}
use trakt.Balancer.Reload.Apart.{Apart, Apart-ext, Apart-found, Apart-place, load_config-Apart}
use trakt.Proxy.Client.{ConnectionStage, RaknetClient}
use trakt.Proxy.Clients.{
  Socket, RaknetProxy, insert_client, new_client, begin_task, remove_task, close_task, finish_task,
  reload_config, Step, connect, recover, stale, begin, datagram, send, notify, recv, timeout,
  remove, close, finish, register, check, reload, Reaches, stay, after,
}
use trakt.Proxy.Clients.Opening.{new_client-Opens}
use trakt.Proxy.Clients.Loads.{IsLoaded}
use trakt.Proxy.Clients.Reach.{start-IsLoaded, reach-IsLoaded}
use trakt.Proxy.Bind.{bind}
use trakt.Proxy.Bind.Start.{bind-IsBound}

-- No two of the servers of the balancer have one address.
abbrev AreApart : RaknetProxy → Type 0
AreApart s = Apart s.store s.balancer.servers

-- A step that moves no server.
same_addrs :
    (s t : Store) (ids : List ℕ)
    → ((id : ℕ) → (t.at id).addr ≡ (s.at id).addr)
    → All (λ id. (t.at id).addr ≡ (s.at id).addr) ids
same_addrs s t [] h = tt
same_addrs s t (id ∷ ids) h = (h id, same_addrs s t ids h)

alloc_addrs :
    (s : Store) (b : BackendServer) (ids : List ℕ)
    → Allocated s ids
    → All (λ id. ((alloc s b).at id).addr ≡ (s.at id).addr) ids
alloc_addrs s b [] old = tt
alloc_addrs s b (id ∷ ids) old =
    (ap (λ server. server.addr) (at-alloc s b id old.0), alloc_addrs s b ids old.1)

unmoved :
    (s : RaknetProxy) (t : Store)
    → ((id : ℕ) → (t.at id).addr ≡ (s.store.at id).addr)
    → AreApart s
    → Apart t s.balancer.servers
unmoved s t h d =
    Apart-ext s.store t s.balancer.servers (same_addrs s.store t s.balancer.servers h) d

new_client-AreApart :
    (bound : Socket) (announced : Bool) (addr : SocketAddr) (stage : ConnectionStage)
    (server : Option ℕ) (s : RaknetProxy)
    → AreApart s
    → AreApart (new_client bound announced addr stage server s).1
unfolding insert_client
new_client-AreApart bound announced addr stage server s d =
    let (b, same, out) = new_client-Opens bound announced addr stage server s in
    elim out [ inl e ↦ rw (e, same) d | inr (id, free, given, e) ↦ rw (e, same) d ]

module _ ⦃crate : BytesCrate⦄ (from_str : Text → Option SocketAddr) where
  step-AreApart : (s t : RaknetProxy) → Step from_str s t → IsLoaded s → AreApart s → AreApart t
  unfolding begin_task remove_task close_task finish_task reload_config check_health
  step-AreApart s t (connect bound announced addr stage) inv d =
      new_client-AreApart bound announced addr stage none s d
  step-AreApart s t (recover bound announced addr stage id old) inv d =
      new_client-AreApart bound announced addr stage (some id) s d
  step-AreApart s t (stale addr) inv d =
      Apart-ext s.store (alloc s.store (new_server addr)) s.balancer.servers
        (alloc_addrs s.store (new_server addr) s.balancer.servers inv.allocated) d
  step-AreApart s t (begin i lt e) inv d = unmoved s _ (λ id. ground arith) d
  step-AreApart s t (finish i lt e) inv d = unmoved s _ (λ id. ground arith) d
  step-AreApart s t (check success id) inv d = unmoved s _ (λ k. ground arith) d
  step-AreApart s t (reload config) inv d =
      load_config-Apart from_str config true s.store s.balancer s.registered inv.allocated d
  step-AreApart s t (remove i lt e) inv d = d
  step-AreApart s t (datagram i received lt e) inv d = d
  step-AreApart s t (send i lt e empty) inv d = d
  step-AreApart s t (notify i cause lt alive empty) inv d = d
  step-AreApart s t (recv i cause causes lt e full) inv d = d
  step-AreApart s t (timeout i lt e) inv d = d
  step-AreApart s t (close i lt e) inv d = d
  step-AreApart s t (register id) inv d = d

  reach-AreApart : (s t : RaknetProxy) → Reaches from_str s t → IsLoaded s → AreApart s → AreApart t
  reach-AreApart s t stay inv d = d
  reach-AreApart s t (after {t = u} r step) inv d =
      step-AreApart u t step (reach-IsLoaded from_str s u r inv) (reach-AreApart s u r inv d)

  -- In every state that the proxy comes to after `bind`, by steps of its tasks in any order, reloads
  -- among them, no two places of the balancer's list of servers have servers of one address, nor one
  -- server, and each server of the list is the one that `get_server` finds for its address.
  pub get_server_own :
      (servers : ℕ → BackendServer) (clients : ℕ → RaknetClient) (bound : Bool)
      (config : RootConfig) (s t : RaknetProxy)
      → bind from_str servers clients bound config ≡ some s
      → Reaches from_str s t
      → (p q id id' : ℕ) → get_elem? t.balancer.servers p ≡ some id
      → get_elem? t.balancer.servers q ≡ some id'
      → (t.store.at id).addr ≡ (t.store.at id').addr
      → (p ≡ q) × (get_server t.store t.balancer (t.store.at id).addr ≡ some id)
  unfolding get_server
  get_server_own servers clients bound config s t e r p q id id' at_p at_q same =
      let (start, apart) = bind-IsBound from_str servers clients bound config s e in
      let ids = t.balancer.servers in
      let d = reach-AreApart s t r (start-IsLoaded s start) apart in
      (
        Apart-place t.store ids p q id id' d at_p at_q same,
        All-get_elem? (λ k. find_server t.store (t.store.at k).addr ids ≡ some k) ids p
            (Apart-found t.store ids d) at_p,
      )
