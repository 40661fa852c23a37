-- ===== src/Raknet/Frame/Exact.antt =====
-- On which buffers `Frame::deserialize` of src/raknet/frame.rs panics.
use Prim.Native.Nat.{bit_and}
use mathlib.Core.Path.{subst}
use trakt.Base.{
  ℕ, ◌+◌, ◌*◌, ◌/◌, ◌^◌, ◌≤◌, ◌<◌, ◌≡◌, refl, ap, ◌∙◌, ◌↔◌, inl, inr, Bool, true, false, [], ◌∷◌,
  none, some, not, arith, length, ◌==◌, ==-zero, pos_of_==, Option-cases, Bool-cases,
}
use trakt.Raknet.Bytes.{Bytes, BytesCrate}
use trakt.Raknet.Buf.{Outcome, done, fail, panic}
use trakt.Raknet.Datatypes.Heads.{read_first, read_length, read_index}
use trakt.Raknet.Message.{MessageError, zero_size, unknown_realibility}
use trakt.Raknet.Frame.{
  Reliability, unreliable, unreliable_sequenced, reliable, reliable_ordered, reliable_sequenced,
  is_ordered, from_u8, to_u8, flag_fragmented, Frame, read_order, read_fields, deserialize_frame,
}
use trakt.Raknet.Frame.Panics.{Ends, Ends-map, index_end, fields_end, deserialize_frame-Ends}

-- The header has the number of an ordered reliability, the length is that of one byte or more, and
-- the buffer ends right before the order channel.
abbrev pub IsCut : Bytes → Type 0
IsCut (b ∷ hi ∷ lo ∷ rest) =
    (r : Reliability) × (bit_and b 224 / 2 ^ 5 ≡ to_u8 r)
    × (is_ordered r ≡ true)
    × (8 ≤ 256 * hi + lo)
    × (length rest + 3 ≡ index_end r)
IsCut _ = ⊥

from_u8-to_u8 : (r : Reliability) → from_u8 (to_u8 r) ≡ some r
unfolding from_u8 to_u8
from_u8-to_u8 unreliable = refl
from_u8-to_u8 unreliable_sequenced = refl
from_u8-to_u8 reliable = refl
from_u8-to_u8 reliable_ordered = refl
from_u8-to_u8 reliable_sequenced = refl

to_u8_of : (x : ℕ) (r : Reliability) → from_u8 x ≡ some r → x ≡ to_u8 r
unfolding from_u8 to_u8
to_u8_of x unreliable e = ground arith
to_u8_of x unreliable_sequenced e = ground arith
to_u8_of x reliable e = ground arith
to_u8_of x reliable_ordered e = ground arith
to_u8_of x reliable_sequenced e = ground arith

long_index : (r : Reliability) → 3 ≤ index_end r
unfolding index_end
long_index unreliable = omega arith
long_index unreliable_sequenced = omega arith
long_index reliable = omega arith
long_index reliable_ordered = omega arith
long_index reliable_sequenced = omega arith

Ends-panic : {E A P : Type 0} (L k : ℕ) (o : Outcome E A) → Ends P L k o → o ≡ panic → P
Ends-panic L k (done a t) h e = absurd (cc e)
Ends-panic L k (fail x) h e = absurd (cc e)
Ends-panic L k panic h e = h

module _ ⦃crate : BytesCrate⦄ where
  module _ (b hi lo : ℕ) (rest : Bytes) where
    unknown_header :
        from_u8 (bit_and b 224 / 2 ^ 5) ≡ none
        → deserialize_frame (b ∷ hi ∷ lo ∷ rest)
          ≡ fail (unknown_realibility (bit_and b 224 / 2 ^ 5))
    unfolding deserialize_frame
    unknown_header e = rw (read_first b (hi ∷ lo ∷ rest)) (rw e refl)

    module _ {r : Reliability} (known : from_u8 (bit_and b 224 / 2 ^ 5) ≡ some r) where
      zero_length :
          ((256 * hi + lo) / 2 ^ 3 == 0) ≡ true
          → deserialize_frame (b ∷ hi ∷ lo ∷ rest) ≡ fail zero_size
      unfolding deserialize_frame
      zero_length z =
          rw (read_first b (hi ∷ lo ∷ rest)) (rw known (rw (read_length hi lo rest) (rw z refl)))

      fields_behind :
          ((256 * hi + lo) / 2 ^ 3 == 0) ≡ false
          → deserialize_frame (b ∷ hi ∷ lo ∷ rest)
            ≡ read_fields r (not (bit_and b flag_fragmented == 0)) ((256 * hi + lo) / 2 ^ 3) rest
      unfolding deserialize_frame
      fields_behind z =
          rw (read_first b (hi ∷ lo ∷ rest)) (rw known (rw (read_length hi lo rest) (rw z refl)))

  order_panics : (s : Bytes) → length s ≡ 3 → read_order s ≡ panic
  unfolding read_order
  order_panics s e =
      let (v, t, read, l) = read_index s (omega arith) in
      rw (read, crate.advance_short 1 t (omega arith)) refl

  -- The fields of an ordered frame, in a buffer that ends with the order index.
  fields_panic :
      (r : Reliability) (fragmented : Bool) (n : ℕ) (s : Bytes)
      → is_ordered r ≡ true
      → length s + 3 ≡ index_end r
      → read_fields r fragmented n s ≡ panic
  unfolding read_fields index_end
  fields_panic unreliable fragmented n s o e = absurd (unfold is_ordered in cc o)
  fields_panic reliable fragmented n s o e = absurd (unfold is_ordered in cc o)
  fields_panic unreliable_sequenced fragmented n s o e =
      let (q, t, read, l) = read_index s (omega arith) in
      rw (read, order_panics t (omega arith)) refl
  fields_panic reliable_ordered fragmented n s o e =
      let (i, t, read, l) = read_index s (omega arith) in
      rw (read, order_panics t (omega arith)) refl
  fields_panic reliable_sequenced fragmented n s o e =
      let (i, t, read, l) = read_index s (omega arith) in
      let (q, u, read', l') = read_index t (omega arith) in
      rw (read, read', order_panics u (omega arith)) refl

  -- From a buffer with a header and a length.
  long-Ends :
      (b hi lo : ℕ) (rest : Bytes)
      → Ends
          (IsCut (b ∷ hi ∷ lo ∷ rest))
          (length rest + 3)
          4
          (deserialize_frame (b ∷ hi ∷ lo ∷ rest))
  long-Ends b hi lo rest = elim (Option-cases (from_u8 (bit_and b 224 / 2 ^ 5))) [
    | inl e ↦ rw (unknown_header b hi lo rest e) tt
    | inr (r, known) ↦ elim (Bool-cases ((256 * hi + lo) / 2 ^ 3 == 0)) [
      | inl z ↦ rw (zero_length b hi lo rest {r = r} known z) tt
      | inr some_length ↦
          let n = (256 * hi + lo) / 2 ^ 3 in
          let pos = pos_of_== n some_length in
          rw (fields_behind b hi lo rest {r = r} known some_length) (
            Ends-map {E = MessageError} {A = Frame}
              {P = (is_ordered r ≡ true) × (length rest + 3 ≡ index_end r)}
              {Q = IsCut (b ∷ hi ∷ lo ∷ rest)} (length rest + 3) 4 _
              (λ d. (r, to_u8_of _ r known, d.0, omega (arith, pos), d.1))
              (fields_end r _ n (length rest + 3) rest refl pos))
    ]
  ]

  cut_panic : (s : Bytes) → IsCut s → deserialize_frame s ≡ panic
  cut_panic (b ∷ hi ∷ lo ∷ rest) (r, number, ordered, some_length, ends) =
      let known : from_u8 (bit_and b 224 / 2 ^ 5) ≡ some r = ap from_u8 number ∙ from_u8-to_u8 r in
      let n = (256 * hi + lo) / 2 ^ 3 in
      fields_behind b hi lo rest {r = r} known (==-zero n (omega arith))
      ∙ fields_panic r _ n rest ordered ends
  cut_panic [] h = absurd h
  cut_panic (b ∷ []) h = absurd h
  cut_panic (b ∷ hi ∷ []) h = absurd h

  short-Ends : (s : Bytes) → length s < 3 → Ends (IsCut s) (length s) 4 (deserialize_frame s)
  short-Ends s short =
      Ends-map {P = (r : Reliability) × (is_ordered r ≡ true) × (length s ≡ index_end r)}
        {Q = IsCut s} (length s) 4 (deserialize_frame s)
        (λ (r, o, e). absurd (omega (arith, long_index r))) (deserialize_frame-Ends s)

  every-Ends : (s : Bytes) → Ends (IsCut s) (length s) 4 (deserialize_frame s)
  every-Ends (b ∷ hi ∷ lo ∷ rest) =
      subst
        (λ (k : ℕ). Ends (IsCut (b ∷ hi ∷ lo ∷ rest)) k 4 (deserialize_frame (b ∷ hi ∷ lo ∷ rest)))
        (omega arith) (long-Ends b hi lo rest)
  every-Ends [] = short-Ends [] (omega arith)
  every-Ends (b ∷ []) = short-Ends (b ∷ []) (omega arith)
  every-Ends (b ∷ hi ∷ []) = short-Ends (b ∷ hi ∷ []) (omega arith)

  -- What the reader of a frame does with any buffer: it takes 4 bytes or more, or answers an error,
  -- or panics; and it panics exactly if the header has the number of an ordered reliability, the
  -- length is that of one byte or more, and the buffer ends right before the order channel.
  pub deserialize_frame_iff :
      (s : Bytes)
      → Ends (IsCut s) (length s) 4 (deserialize_frame s)
        × ((deserialize_frame s ≡ panic) ↔ IsCut s)
  deserialize_frame_iff s =
      (every-Ends s, (Ends-panic (length s) 4 (deserialize_frame s) (every-Ends s), cut_panic s))
