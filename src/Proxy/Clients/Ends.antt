-- ===== src/Proxy/Clients/Ends.antt =====
-- Which client tasks of src/proxy.rs can come to their end.
use trakt.Base.{ℕ, ◌<◌, ◌≡◌, refl, ap, ◌↔◌, List, [], ◌∷◌, Option, arith}
use trakt.Config.{Text}
use trakt.Raknet.Bytes.{BytesCrate}
use trakt.Raknet.Datatypes.{SocketAddr}
use trakt.Proxy.Cause.{DisconnectCause}
use trakt.Proxy.Client.{
  Phase, spawned, selecting, sending, left, removed, notified, finished, unwound,
}
use trakt.Proxy.Clients.{
  RaknetProxy, begin_task, remove_task, close_task, finish_task, Step, Reaches, stay, after, begin,
  send, timeout, remove, close, finish,
}
use trakt.Proxy.Clients.Reach.{IsStart, Reaches-trans}
use trakt.Proxy.Clients.Halt.{IsHalted, panicked, deadlocked, halted_forever}

module _ ⦃crate : BytesCrate⦄ (from_str : Text → Option SocketAddr) where
  -- Some run from the state brings the task of the client to its end.
  abbrev pub Ends : RaknetProxy → ℕ → Type 0
  Ends s i = (u : RaknetProxy) × Reaches from_str s u × ((u.at i).phase ≡ finished)

  step_first : (s t : RaknetProxy) (i : ℕ) → Step from_str s t → Ends t i → Ends s i
  step_first s t i step (u, r, e) = (u, Reaches-trans from_str s t u (after stay step) r, e)

  from_notified : (s : RaknetProxy) (i : ℕ) → i < s.made → (s.at i).phase ≡ notified → Ends s i
  unfolding finish_task
  from_notified s i lt e = (finish_task i s, after stay (finish i lt e), ground arith)

  from_removed : (s : RaknetProxy) (i : ℕ) → i < s.made → (s.at i).phase ≡ removed → Ends s i
  unfolding close_task
  from_removed s i lt e =
      step_first s (close_task i s) i (close i lt e)
        (from_notified (close_task i s) i lt (ground arith))

  from_left : (s : RaknetProxy) (i : ℕ) → i < s.made → (s.at i).phase ≡ left → Ends s i
  unfolding remove_task
  from_left s i lt e =
      step_first s (remove_task i s) i (remove i lt e)
        (from_removed (remove_task i s) i lt (ground arith))

  from_selecting : (s : RaknetProxy) (i : ℕ) → i < s.made → (s.at i).phase ≡ selecting → Ends s i
  from_selecting s i lt e = step_first s _ i (timeout i lt e) (from_left _ i lt (ground arith))

  from_sending :
      (s : RaknetProxy) (i : ℕ)
      → i < s.made
      → (s.at i).phase ≡ sending
      → (rx : List DisconnectCause) → (s.at i).close_rx ≡ rx
      → ¬ IsHalted (s.at i)
      → Ends s i
  from_sending s i lt e [] empty awake =
      step_first s _ i (send i lt e empty) (from_selecting _ i lt (ground arith))
  from_sending s i lt e (cause ∷ causes) full awake =
      absurd (awake (deadlocked cause causes e full))

  from_spawned : (s : RaknetProxy) (i : ℕ) → i < s.made → (s.at i).phase ≡ spawned → Ends s i
  unfolding begin_task
  from_spawned s i lt e =
      step_first s (begin_task i s) i (begin i lt e)
        (from_selecting (begin_task i s) i lt (ground arith))

  awake-Ends :
      (s : RaknetProxy) (i : ℕ)
      → i < s.made
      → (p : Phase) → (s.at i).phase ≡ p
      → ¬ IsHalted (s.at i)
      → Ends s i
  awake-Ends s i lt spawned e awake = from_spawned s i lt e
  awake-Ends s i lt selecting e awake = from_selecting s i lt e
  awake-Ends s i lt sending e awake = from_sending s i lt e (s.at i).close_rx refl awake
  awake-Ends s i lt left e awake = from_left s i lt e
  awake-Ends s i lt removed e awake = from_removed s i lt e
  awake-Ends s i lt notified e awake = from_notified s i lt e
  awake-Ends s i lt finished e awake = (s, stay, e)
  awake-Ends s i lt unwound e awake = absurd (awake (panicked e))

  finished_awake :
      (s u : RaknetProxy) (i : ℕ)
      → u.at i ≡ s.at i
      → (u.at i).phase ≡ finished
      → ¬ IsHalted (s.at i)
  finished_awake s u i same e (panicked e') = cc (ap (λ c. c.phase) same, e, e')
  finished_awake s u i same e (deadlocked cause causes e' full) = cc (ap (λ c. c.phase) same, e, e')

  -- In a state that the proxy comes to from a start with no clients and no load, some run from there
  -- brings a client task to its end exactly if the task did not panic and is not in the `send` of
  -- `handle_incoming_server` with a cause in the channel already.
  pub ends_iff :
      (s t : RaknetProxy)
      → IsStart s
      → Reaches from_str s t
      → (i : ℕ) → i < t.made
      → Ends t i ↔ (¬ IsHalted (t.at i))
  ends_iff s t start r i lt = (
    λ (u, r', e) halted.
        finished_awake t u i (halted_forever from_str s t u i start r lt halted r').0 e halted,
    awake-Ends t i lt (t.at i).phase refl,
  )
