-- ===== src/Proxy/Spy/Finds.antt =====
-- What `spy_datagram` says of a datagram of well-formed frames, and of one that is cut.
use trakt.Base.{
  is_some, ℕ, zero, suc, ◌^◌, ◌≤◌, ◌<◌, ◌≡◌, refl, Bool, true, false, not, ◌&&◌, ◌||◌, List, [],
  ◌∷◌, ◌++◌, some, arith, length, length-append, All, ◌==◌, if◌then◌else◌, Bool-cases, inl, inr,
}
use trakt.Raknet.Bytes.{Bytes, BytesCrate}
use trakt.Raknet.Endian.{be_bytes, le_bytes}
use trakt.Raknet.Buf.{done, panic, bind}
use trakt.Raknet.Datatypes.Laws.{read_u8_lem, read_u24_lem}
use trakt.Raknet.Frame.{Frame, deserialize_frame, is_ordered}
use trakt.Raknet.Frame.RoundTrip.{IsFrame, on_wire, frame_bytes, deserialize_frame_lem}
use trakt.Raknet.Frame.Cut.{before_channel, before_channel_panics}
use trakt.Proxy.Spy.{
  ignore, disconnect, spied, panicked, notifies, notifies_body, outcome, spy_loop, spy_datagram,
}

-- The bytes of frames, one after the other, and whether one of them notifies.
abbrev pub frames_bytes : List Frame → Bytes
frames_bytes [] = []
frames_bytes (f ∷ fs) = frame_bytes f ++ frames_bytes fs

abbrev pub starts_disconnect : Bytes → Bool
starts_disconnect [] = false
starts_disconnect (b ∷ bs) = b == 0x15

-- A frame that is not fragmented and whose body starts with the id of a disconnect notification.
abbrev pub carries_disconnect : Frame → Bool
carries_disconnect f = not (is_some f.fragment) && starts_disconnect f.body

abbrev pub any_disconnect : List Frame → Bool
any_disconnect [] = false
any_disconnect (f ∷ fs) = carries_disconnect f || any_disconnect fs

-- A datagram: flags, a sequence number, and what follows them.
abbrev pub datagram : ℕ → ℕ → Bytes → Bytes
datagram flags seq rest = be_bytes 1 flags ++ (le_bytes 3 seq ++ rest)

notifies_body-starts : (body : Bytes) → notifies_body body ≡ starts_disconnect body
unfolding notifies_body
notifies_body-starts [] = refl
notifies_body-starts (b ∷ bs) = ground arith

notifies-on_wire : (f : Frame) → notifies (on_wire f) ≡ carries_disconnect f
unfolding notifies
notifies-on_wire f = ground (arith, notifies_body-starts f.body)

frame_bytes-pos : (f : Frame) → 0 < length (frame_bytes f)
unfolding frame_bytes be_bytes le_bytes
frame_bytes-pos f = omega arith

frame_bytes-cons :
    (f : Frame) (rest : Bytes) → (b : ℕ) × (bs : Bytes) × (frame_bytes f ++ rest ≡ b ∷ bs)
unfolding frame_bytes be_bytes le_bytes
frame_bytes-cons f rest = (_, _, refl)

before_channel-pos : (f : Frame) → 0 < length (before_channel f)
unfolding before_channel be_bytes le_bytes
before_channel-pos f = omega arith

module _ ⦃crate : BytesCrate⦄ where
  spy_loop-cons :
      (fuel : ℕ) (s : Bytes) {b : ℕ} {bs : Bytes}
      → s ≡ b ∷ bs
      → spy_loop (suc fuel) s
        ≡ bind (deserialize_frame s) λ frame t.
          let rest = spy_loop fuel t in if notifies frame then done (some disconnect) t else rest
  unfolding spy_loop
  spy_loop-cons fuel [] e = cc
  spy_loop-cons fuel (x ∷ s) e = refl

  spy_loop-frames :
      (fs : List Frame) (fuel : ℕ)
      → All IsFrame fs
      → length (frames_bytes fs) ≤ fuel
      → outcome (spy_loop fuel (frames_bytes fs))
        ≡ spied (if any_disconnect fs then disconnect else ignore)
  spy_loop-frames [] zero h le = unfold spy_loop in refl
  spy_loop-frames [] (suc fuel) h le = unfold spy_loop in refl
  spy_loop-frames (f ∷ fs) zero h le =
      absurd (omega (arith, length-append (frame_bytes f) (frames_bytes fs), frame_bytes-pos f))
  spy_loop-frames (f ∷ fs) (suc fuel) h le =
      let (b, bs, e) = frame_bytes-cons f (frames_bytes fs) in
      let shorter : length (frames_bytes fs) ≤ fuel =
        omega (arith, length-append (frame_bytes f) (frames_bytes fs), frame_bytes-pos f) in
      rw (spy_loop-cons fuel _ e, deserialize_frame_lem f (frames_bytes fs) h.0, notifies-on_wire f)
        (elim (Bool-cases (carries_disconnect f)) [
          | inl found ↦ rw found
          | inr other ↦ rw other (spy_loop-frames fs fuel h.1 shorter)
        ])

  -- Of a datagram of frames whose fields fit, the spy reports a disconnect exactly if one of the
  -- frames is not fragmented and carries a disconnect notification.
  pub spy_datagram_finds :
      (flags seq : ℕ) (fs : List Frame)
      → flags < 256
      → seq < 2 ^ 24
      → All IsFrame fs
      → spy_datagram (datagram flags seq (frames_bytes fs))
        ≡ spied (if any_disconnect fs then disconnect else ignore)
  unfolding spy_datagram
  spy_datagram_finds flags seq fs hf hs h =
      rw
        (
          read_u8_lem flags (le_bytes 3 seq ++ frames_bytes fs) hf,
          read_u24_lem seq (frames_bytes fs) hs,
        )
        (spy_loop-frames fs (length (frames_bytes fs)) h (omega arith))

  spy_loop_panics :
      (s : Bytes)
      → 0 < length s
      → deserialize_frame s ≡ panic
      → outcome (spy_loop (length s) s) ≡ panicked
  unfolding spy_loop
  spy_loop_panics [] pos e = absurd (omega arith)
  spy_loop_panics (b ∷ bs) pos e = rw e

  -- A datagram whose one frame is ordered and ends right before its order channel makes the spy
  -- panic.
  pub spy_datagram_panics :
      (flags seq : ℕ) (f : Frame)
      → flags < 256
      → seq < 2 ^ 24
      → IsFrame f
      → is_ordered f.reliability ≡ true
      → spy_datagram (datagram flags seq (before_channel f)) ≡ panicked
  unfolding spy_datagram
  spy_datagram_panics flags seq f hf hs h o =
      rw
        (
          read_u8_lem flags (le_bytes 3 seq ++ before_channel f) hf,
          read_u24_lem seq (before_channel f) hs,
        )
        (spy_loop_panics (before_channel f) (before_channel-pos f)
          (before_channel_panics f.reliability f refl o h))
