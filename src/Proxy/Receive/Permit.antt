-- ===== src/Proxy/Receive/Permit.antt =====
-- What `handle_recv` may rely on when it makes a client.
use trakt.Base.{
  ℕ, ◌<◌, ◌≡◌, ◌≢◌, refl, sym, ap, inl, inr, Bool, false, [], ◌∷◌, Option, none, some, Bool-cases,
  arith, ◌==◌,
}
use trakt.Config.{Text}
use trakt.Raknet.Bytes.{Bytes, BytesCrate}
use trakt.Raknet.Datatypes.{SocketAddr}
use trakt.Proxy.Client.{
  ConnectionStage, RaknetClient, selecting, is_present, handle_incoming_server,
}
use trakt.Proxy.Clients.{
  Socket, RaknetProxy, get_client, new_client, insert_client, set_client, begin_task, remove_task,
  close_task, finish_task, reload_config, Step, Reaches, stay, after, connect, recover, stale,
  begin, datagram, send, notify, recv, timeout, remove, close, finish, register, check, reload,
}
use trakt.Proxy.Clients.Opening.{new_client-Opens}
use trakt.Proxy.Clients.Reach.{IsStart, get_client_iff}

-- A permit of `close_lock` is there only behind the removal from the map.
abbrev IsShut : RaknetClient → Type 0
IsShut c = 0 < c.close_lock → is_present c.phase ≡ false

AllShut : RaknetProxy → Type 0
AllShut s = (i : ℕ) → i < s.made → IsShut (s.at i)

one-IsShut :
    (s : RaknetProxy) (j : ℕ) (c : RaknetClient)
    → (j < s.made → IsShut (s.at j) → IsShut c)
    → AllShut s
    → AllShut (set_client j c s)
unfolding AllShut
one-IsShut s j c keeps h i lt = elim (Bool-cases (i == j)) [
  | inl same ↦ let e : i ≡ j = ground arith in rw same (keeps (rw (sym e) lt) (h j (rw (sym e) lt)))
  | inr differ ↦ rw differ (h i lt)
]

handled-IsShut :
    ⦃crate : BytesCrate⦄ (received : Bytes) (c : RaknetClient)
    → c.phase ≡ selecting
    → IsShut c
    → IsShut (handle_incoming_server received c).0
unfolding handle_incoming_server
handled-IsShut [] c e h pos = h pos
handled-IsShut (b ∷ bs) c e h pos = absurd (cc (h pos, ap is_present e))

new_client-AllShut :
    (bound : Socket) (announced : Bool) (addr : SocketAddr) (stage : ConnectionStage)
    (server : Option ℕ) (s : RaknetProxy)
    → AllShut s
    → AllShut (new_client bound announced addr stage server s).1
unfolding AllShut
new_client-AllShut bound announced addr stage server s h =
    let (b, same, out) = new_client-Opens bound announced addr stage server s in
    elim out [
      | inl e ↦ rw e h
      | inr (id, free, given, e) ↦ rw e (unfold insert_client in λ i lt pos. ground (arith, h i))
    ]

module _ ⦃crate : BytesCrate⦄ (from_str : Text → Option SocketAddr) where
  step-AllShut : (s t : RaknetProxy) → Step from_str s t → AllShut s → AllShut t
  unfolding AllShut
  step-AllShut s t (connect bound announced addr stage) h =
      new_client-AllShut bound announced addr stage none s h
  step-AllShut s t (recover bound announced addr stage id old) h =
      new_client-AllShut bound announced addr stage (some id) s h
  step-AllShut s t (stale addr) h = h
  step-AllShut s t (begin j b e) h =
      unfold begin_task in one-IsShut s j _ (λ lt k pos. absurd (cc (k pos, ap is_present e))) h
  step-AllShut s t (datagram j received b e) h =
      one-IsShut s j _ (λ lt. handled-IsShut received (s.at j) e) h
  step-AllShut s t (send j b e empty) h =
      one-IsShut s j _ (λ lt k pos. absurd (cc (k pos, ap is_present e))) h
  step-AllShut s t (notify j cause b l empty) h = one-IsShut s j _ (λ lt k. k) h
  step-AllShut s t (recv j cause causes b e full) h =
      one-IsShut s j _ (λ lt k pos. absurd (cc (k pos, ap is_present e))) h
  step-AllShut s t (timeout j b e) h =
      one-IsShut s j _ (λ lt k pos. absurd (cc (k pos, ap is_present e))) h
  step-AllShut s t (remove j b e) h = unfold remove_task in one-IsShut s j _ (λ lt k pos. refl) h
  step-AllShut s t (close j b e) h = unfold close_task in one-IsShut s j _ (λ lt k pos. refl) h
  step-AllShut s t (finish j b e) h = unfold finish_task in one-IsShut s j _ (λ lt k pos. refl) h
  step-AllShut s t (register id) h = h
  step-AllShut s t (check success id) h = h
  step-AllShut s t (reload config) h = unfold reload_config in h

  reach-AllShut : (s t : RaknetProxy) → Reaches from_str s t → AllShut s → AllShut t
  reach-AllShut s t stay h = h
  reach-AllShut s t (after {t = u} r step) h = step-AllShut u t step (reach-AllShut s u r h)

  -- In every state that the proxy comes to from a start with no clients and no load, the map does
  -- not find a client whose `close_lock` has a permit: once `handle_recv` has waited for the
  -- client that it replaces, that client is gone.
  pub permit_gone :
      (s t : RaknetProxy)
      → IsStart s
      → Reaches from_str s t
      → (i : ℕ) → i < t.made
      → 0 < (t.at i).close_lock
      → (a : SocketAddr) → get_client a t.clients ≢ some i
  unfolding AllShut
  permit_gone s t start r i lt pos a e =
      let shut = reach-AllShut s t r (λ j lt'. absurd (omega (arith, start.unmade))) i lt pos in
      let (lt', present, at_a) = (get_client_iff from_str s t start r a i).0 e in cc
