-- ===== src/Proxy/Spy/Total.antt =====
-- The loop of `spy_datagram` of src/proxy.rs and its fuel.
use trakt.Base.{
  ℕ, zero, suc, ◌≤◌, ◌≢◌, [], ◌∷◌, Option, some, arith, length, if◌then◌else◌, Bool-cases, inl, inr,
}
use trakt.Raknet.Bytes.{Bytes, BytesCrate}
use trakt.Raknet.Buf.{Buf, Outcome, done, fail, panic, bind}
use trakt.Raknet.Datatypes.{read_u8, read_u24}
use trakt.Raknet.Message.{MessageError, up}
use trakt.Raknet.Frame.{Frame, deserialize_frame}
use trakt.Raknet.Frame.Panics.{Ends, deserialize_frame-Ends}
use trakt.Proxy.Spy.{
  SpyDatagramResult, disconnect, stuck, notifies, outcome, spy_loop, spy_datagram,
}

bind-ne-stuck :
    {A : Type 0} (o : Outcome MessageError A) (f : A → Buf MessageError (Option SpyDatagramResult))
    → ((a : A) (t : Bytes) → outcome (f a t) ≢ stuck)
    → outcome (bind o f) ≢ stuck
bind-ne-stuck (done a t) f h = h a t
bind-ne-stuck (fail e) f h = λ p. cc
bind-ne-stuck panic f h = λ p. cc

module _ ⦃crate : BytesCrate⦄ where
  frame_step :
      (P : Type 0) (L fuel : ℕ) (o : Outcome MessageError Frame)
      → L ≤ suc fuel
      → Ends P L 4 o
      → ((t : Bytes) → length t ≤ fuel → outcome (spy_loop fuel t) ≢ stuck)
      → outcome (
          bind o λ frame t.
            let rest = spy_loop fuel t in if notifies frame then done (some disconnect) t else rest)
        ≢ stuck
  frame_step P L fuel (done frame t) le h rec = elim (Bool-cases (notifies frame)) [
    | inl found ↦ rw found (λ p. cc)
    | inr other ↦ rw other (rec t (omega arith))
  ]
  frame_step P L fuel (fail e) le h rec = λ p. cc
  frame_step P L fuel panic le h rec = λ p. cc

  spy_loop-ne-stuck : (fuel : ℕ) (s : Bytes) → length s ≤ fuel → outcome (spy_loop fuel s) ≢ stuck
  unfolding spy_loop
  spy_loop-ne-stuck zero [] h = λ p. cc
  spy_loop-ne-stuck (suc fuel) [] h = λ p. cc
  spy_loop-ne-stuck zero (b ∷ bs) h = absurd (omega arith)
  spy_loop-ne-stuck (suc fuel) (b ∷ bs) h =
      frame_step _ (length (b ∷ bs)) fuel (deserialize_frame (b ∷ bs)) h
        (deserialize_frame-Ends (b ∷ bs)) (spy_loop-ne-stuck fuel)

  -- On every datagram the spy answers, with a result, an error or a panic: its loop always ends.
  pub spy_datagram-ne-stuck : (bytes : Bytes) → spy_datagram bytes ≢ stuck
  unfolding spy_datagram
  spy_datagram-ne-stuck bytes =
      bind-ne-stuck (up read_u8 bytes) _
        λ _ t. bind-ne-stuck (up read_u24 t) _ λ _ u. spy_loop-ne-stuck (length u) u (omega arith)
