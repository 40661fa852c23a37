-- ===== src/Proxy/Clients/Halt.antt =====
-- The tasks of src/proxy.rs after a panic of `spy_datagram`, and in a `send` into their own channel.
use trakt.Base.{
  ℕ, ◌≤◌, ◌<◌, ◌≡◌, refl, sym, ap, ◌∙◌, inl, inr, Bool, true, false, List, [], ◌∷◌, Option, none,
  some, arith,
}
use trakt.Config.{Text}
use trakt.Raknet.Bytes.{BytesCrate}
use trakt.Raknet.Datatypes.{SocketAddr}
use trakt.Proxy.Cause.{DisconnectCause}
use trakt.Proxy.Client.{
  ConnectionStage, Phase, spawned, selecting, sending, left, removed, notified, unwound,
  RaknetClient, is_present, is_counted,
}
use trakt.Proxy.Clients.{
  Socket, RaknetProxy, get_client, set_client, insert_client, new_client, begin_task, remove_task,
  close_task, finish_task, reload_config, listens, Step, Reaches, stay, after, connect, recover,
  stale, begin, datagram, send, notify, recv, timeout, remove, close, finish, register, check,
  reload,
}
use trakt.Proxy.Clients.Counts.{count_upto-pos}
use trakt.Proxy.Clients.Loads.{works_on}
use trakt.Proxy.Clients.Opening.{new_client-Opens}
use trakt.Proxy.Clients.Reach.{IsStart, reach-IsMap, reach-IsLoaded, start-IsMap, start-IsLoaded}

-- The task was unwound, or it is in `close_tx.send(..)` while the channel is full: it is itself the
-- one that would empty it.
pub data IsHalted (c : RaknetClient) : Type 0 where
  panicked : c.phase ≡ unwound → IsHalted c
  deadlocked :
      (cause : DisconnectCause) (causes : List DisconnectCause)
      → c.phase ≡ sending
      → c.close_rx ≡ cause ∷ causes
      → IsHalted c

abbrev may_halt : Phase → Bool
may_halt sending = true
may_halt unwound = true
may_halt _ = false

halted_phase : (c : RaknetClient) → IsHalted c → may_halt c.phase ≡ true
halted_phase c (panicked e) = rw e refl
halted_phase c (deadlocked cause causes e full) = rw e refl

halted_full : (c : RaknetClient) → IsHalted c → listens c.phase ≡ true → c.close_rx ≡ [] → ⊥
halted_full c (panicked e) l empty = ground arith
halted_full c (deadlocked cause causes e full) l empty = cc

-- A step writes the client `j`, in a way that a halted task does not allow.
module _ (s : RaknetProxy) (i : ℕ) (h : IsHalted (s.at i)) where
  spared : (j : ℕ) (c : RaknetClient) → (i ≡ j → ⊥) → (set_client j c s).at i ≡ s.at i
  spared j c d = ground (arith, d)

  awake : (j : ℕ) (p : Phase) → (s.at j).phase ≡ p → may_halt p ≡ false → i ≡ j → ⊥
  awake j p e off same =
      cc (halted_phase (s.at i) h, ap (λ k. may_halt (s.at k).phase) same, ap may_halt e, off)

  room : (j : ℕ) → listens (s.at j).phase ≡ true → (s.at j).close_rx ≡ [] → i ≡ j → ⊥
  room j l empty same =
      halted_full (s.at i) h (ap (λ k. listens (s.at k).phase) same ∙ l)
        (ap (λ k. (s.at k).close_rx) same ∙ empty)

new_client-at :
    (bound : Socket) (announced : Bool) (addr : SocketAddr) (stage : ConnectionStage)
    (server : Option ℕ) (s : RaknetProxy) (i : ℕ)
    → i < s.made
    → (new_client bound announced addr stage server s).1.at i ≡ s.at i
new_client-at bound announced addr stage server s i lt =
    let (b, same, out) = new_client-Opens bound announced addr stage server s in
    elim out [
      | inl e ↦ ap (λ t. t.at i) e
      | inr (id, free, given, e) ↦ ap (λ t. t.at i) e ∙ unfold insert_client in ground arith
    ]

new_client-made :
    (bound : Socket) (announced : Bool) (addr : SocketAddr) (stage : ConnectionStage)
    (server : Option ℕ) (s : RaknetProxy)
    → s.made ≤ (new_client bound announced addr stage server s).1.made
new_client-made bound announced addr stage server s =
    let (b, same, out) = new_client-Opens bound announced addr stage server s in
    elim out [
      | inl e ↦ rw e (omega arith)
      | inr (id, free, given, e) ↦ rw e (unfold insert_client in omega arith)
    ]

module _ ⦃crate : BytesCrate⦄ (from_str : Text → Option SocketAddr) where
  step-halted :
      (s t : RaknetProxy) (i : ℕ)
      → Step from_str s t
      → i < s.made
      → IsHalted (s.at i)
      → (t.at i ≡ s.at i) × (i < t.made)
  unfolding begin_task remove_task close_task finish_task reload_config
  step-halted s t i (connect bound announced addr stage) lt h = (
    new_client-at bound announced addr stage none s i lt,
    omega (arith, new_client-made bound announced addr stage none s),
  )
  step-halted s t i (recover bound announced addr stage id old) lt h = (
    new_client-at bound announced addr stage (some id) s i lt,
    omega (arith, new_client-made bound announced addr stage (some id) s),
  )
  step-halted s t i (stale addr) lt h = (refl, lt)
  step-halted s t i (begin j b e) lt h = (spared s i h j _ (awake s i h j spawned e refl), lt)
  step-halted s t i (datagram j received b e) lt h =
      (spared s i h j _ (awake s i h j selecting e refl), lt)
  step-halted s t i (send j b e empty) lt h =
      (spared s i h j _ (room s i h j (rw e refl) empty), lt)
  step-halted s t i (notify j cause b l empty) lt h = (spared s i h j _ (room s i h j l empty), lt)
  step-halted s t i (recv j cause causes b e full) lt h =
      (spared s i h j _ (awake s i h j selecting e refl), lt)
  step-halted s t i (timeout j b e) lt h = (spared s i h j _ (awake s i h j selecting e refl), lt)
  step-halted s t i (remove j b e) lt h = (spared s i h j _ (awake s i h j left e refl), lt)
  step-halted s t i (close j b e) lt h = (spared s i h j _ (awake s i h j removed e refl), lt)
  step-halted s t i (finish j b e) lt h = (spared s i h j _ (awake s i h j notified e refl), lt)
  step-halted s t i (register id) lt h = (refl, lt)
  step-halted s t i (check success id) lt h = (refl, lt)
  step-halted s t i (reload config) lt h = (refl, lt)

  reach-halted :
      (s t : RaknetProxy) (i : ℕ)
      → Reaches from_str s t
      → i < s.made
      → IsHalted (s.at i)
      → (t.at i ≡ s.at i) × (i < t.made)
  reach-halted s t i stay lt h = (refl, lt)
  reach-halted s t i (after {t = u} r step) lt h =
      let (same, lt') = reach-halted s u i r lt h in
      let (same', lt'') = step-halted u t i step lt' (rw same h) in (same' ∙ same, lt'')

  halted_present : (c : RaknetClient) → IsHalted c → is_present c.phase ≡ true
  halted_present c (panicked e) = rw e refl
  halted_present c (deadlocked cause causes e full) = rw e refl

  halted_counted : (c : RaknetClient) → IsHalted c → is_counted c.phase ≡ true
  halted_counted c (panicked e) = rw e refl
  halted_counted c (deadlocked cause causes e full) = rw e refl

  -- In a state that the proxy comes to from a start with no clients and no load, a client task
  -- that panicked, or that is in the `send` of `handle_incoming_server` while the channel holds a
  -- cause already, stays as it is whatever happens later: the map keeps the client under its
  -- address, and the load of its server never falls to zero again.
  pub halted_forever :
      (s t u : RaknetProxy) (i : ℕ)
      → IsStart s
      → Reaches from_str s t
      → i < t.made
      → IsHalted (t.at i)
      → Reaches from_str t u
      → (u.at i ≡ t.at i)
        × (get_client (t.at i).addr u.clients ≡ some i)
        × (0 < (u.store.at (t.at i).server).load)
  halted_forever s t u i start r lt h r' =
      let (same, lt') = reach-halted t u i r' lt h in
      let loaded =
        reach-IsLoaded from_str t u r' (reach-IsLoaded from_str s t r (start-IsLoaded s start)) in
      let mapped = reach-IsMap from_str t u r' (reach-IsMap from_str s t r (start-IsMap s start)) in
      let counted = halted_counted (t.at i) h in
      let pos = count_upto-pos (works_on u (t.at i).server) i u.made lt' (rw same (ground arith)) in
      (
        same,
        ap (λ c. get_client c.addr u.clients) (sym same)
            ∙ mapped.listed i lt' (rw same (halted_present (t.at i) h)),
        omega (
          arith,
          loaded.loads (t.at i).server (let old = loaded.assigned i lt' in rw (sym same) old),
          pos,
        ),
      )
