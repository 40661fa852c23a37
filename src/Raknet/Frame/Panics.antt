-- ===== src/Raknet/Frame/Panics.antt =====
-- `Frame::deserialize` of src/raknet/frame.rs on any buffer.
use Prim.Native.Nat.{bit_and}
use native.Mathlib.Decide.{dec_lt}
use trakt.Base.{
  ℕ, ◌+◌, ◌/◌, ◌^◌, ◌≤◌, ◌<◌, ◌≡◌, refl, inl, inr, Bool, true, false, Option, none, arith, length,
  ◌==◌, pos_of_==, Option-cases, Bool-cases, if◌then◌else◌,
}
use trakt.Raknet.Bytes.{Bytes, BytesCrate}
use trakt.Raknet.Buf.{Buf, Outcome, done, fail, panic, bind, or_panic, return}
use trakt.Raknet.Datatypes.{read_u16, read_u24, read_u32, read_bytes}
use trakt.Raknet.Datatypes.Guards.{
  Takes, TakesExactly, Takes-later, map_err-Takes, map_err-TakesExactly,
}
use trakt.Raknet.Datatypes.Safety.{
  advance_length, read_u8-TakesExactly, read_u16-TakesExactly, read_u24-TakesExactly,
  read_u32-Takes, read_u16-Takes, read_bytes-Takes,
}
use trakt.Raknet.Message.{MessageError, up, up-Takes, buf_error}
use trakt.Raknet.Frame.{
  Reliability, unreliable, unreliable_sequenced, reliable, reliable_ordered, reliable_sequenced,
  is_ordered, from_u8, Frame, FrameFragment, read_order, read_fragment, read_fields,
  deserialize_frame,
}

-- From a buffer of `L` bytes: a success has taken `k` or more, and a panic implies `P`.
abbrev pub Ends : {E A : Type 0} → Type 0 → ℕ → ℕ → Outcome E A → Type 0
Ends P L k (done a t) = length t + k ≤ L
Ends P L k (fail e) = Unit {0}
Ends P L k panic = P

after_exact :
    {A B : Type 0} (P : Type 0) (L k m : ℕ) (s : Bytes) (o : Outcome MessageError A)
    (f : A → Buf MessageError B)
    → TakesExactly m s o
    → ((a : A) (t : Bytes) → length t + m ≡ length s → Ends P L k (f a t))
    → Ends P L k (bind o f)
after_exact P L k m s (done a t) f h g = g a t h
after_exact P L k m s (fail e) f h g = tt
after_exact P L k m s panic f h g = absurd h

after :
    {A B : Type 0} (P : Type 0) (L k m : ℕ) (s : Bytes) (o : Outcome MessageError A)
    (f : A → Buf MessageError B)
    → Takes m s o
    → ((a : A) (t : Bytes) → length t + m ≤ length s → Ends P L k (f a t))
    → Ends P L k (bind o f)
after P L k m s (done a t) f h g = g a t h
after P L k m s (fail e) f h g = tt
after P L k m s panic f h g = absurd h

pub Ends-map :
    {E A P Q : Type 0} (L k : ℕ) (o : Outcome E A) → (P → Q) → Ends P L k o → Ends Q L k o
Ends-map L k (done a t) f h = h
Ends-map L k (fail e) f h = tt
Ends-map L k panic f h = f h

-- The bytes before the order channel.
unfoldable pub index_end : Reliability → ℕ
index_end unreliable = 3
index_end unreliable_sequenced = 9
index_end reliable = 6
index_end reliable_ordered = 9
index_end reliable_sequenced = 12

module _ ⦃crate : BytesCrate⦄ where
  u24 : (s : Bytes) → TakesExactly 3 s (up read_u24 s)
  u24 s = map_err-TakesExactly buf_error 3 s (read_u24 s) (read_u24-TakesExactly s)

  read_fragment-Takes : (s : Bytes) → Takes 10 s (read_fragment s)
  unfolding read_fragment
  read_fragment-Takes s = up-Takes 4 6 10 s read_u32 _ (omega arith) (read_u32-Takes s) λ _ t.
      up-Takes 2 4 6 t read_u16 _ (omega arith) (read_u16-Takes t)
        λ _ u. up-Takes 4 0 4 u read_u32 _ (omega arith) (read_u32-Takes u) λ _ v. omega arith

  fragment-Takes :
      (fragmented : Bool) (s : Bytes)
      → Takes 0 s ((if fragmented then read_fragment else return none) s)
  fragment-Takes true s =
      Takes-later 10 0 s s (read_fragment s) (omega arith) (read_fragment-Takes s)
  fragment-Takes false s = omega arith

  -- The end of a frame does not panic.
  fragment_and_body :
      (P : Type 0) (L n : ℕ) (fragmented : Bool) (g : Option FrameFragment → Bytes → Frame)
      (s : Bytes)
      → length s + 3 ≤ L
      → 0 < n
      → Ends P L 4 (
          bind
            ((if fragmented then read_fragment else return none) s)
            λ fragment t. bind (up (read_bytes n) t) (λ body. return (g fragment body)))
  fragment_and_body P L n fragmented g s h pos =
      after P L 4 0 s _ _ (fragment-Takes fragmented s) λ fragment t p.
        after P L 4 n t _ _ (map_err-Takes buf_error n t _ (read_bytes-Takes n t))
          λ body u q. omega arith

  -- The order index and the channel behind it: a panic means that the buffer held three bytes.
  module _ (P : Type 0) (L : ℕ) (f : ℕ → Buf MessageError Frame) (s : Bytes)
      (dies : length s ≡ 3 → P)
      (goes : (order_idx : ℕ) (t : Bytes) → length t ≤ length s → Ends P L 4 (f order_idx t)) where
    channel_ends :
        (o : Outcome MessageError ℕ)
        → TakesExactly 3 s o
        → Ends P L 4 (
            bind
              (bind o (λ order_idx t. bind (or_panic (crate.advance 1 t)) (λ _. return order_idx)))
              f)
    channel_ends (done a t) e = elim (dec_lt (length t) 1) [
      | yes empty ↦ rw (crate.advance_short 1 t empty) (dies (omega arith))
      | no more ↦
          let (u, eq, l) = advance_length 1 t (omega arith) in rw eq (goes a u (omega arith))
    ]
    channel_ends (fail x) e = tt
    channel_ends panic e = absurd e

    order_ends : Ends P L 4 (bind (read_order s) f)
    unfolding read_order
    order_ends = channel_ends (up read_u24 s) (u24 s)

  pub fields_end :
      (r : Reliability) (fragmented : Bool) (n L : ℕ) (s : Bytes)
      → length s + 3 ≡ L
      → 0 < n
      → Ends ((is_ordered r ≡ true) × (L ≡ index_end r)) L 4 (read_fields r fragmented n s)
  unfolding read_fields index_end
  fields_end unreliable fragmented n L s e pos =
      fragment_and_body _ L n fragmented _ s (omega arith) pos
  fields_end unreliable_sequenced fragmented n L s e pos =
      after_exact _ L 4 3 s _ _ (u24 s) λ seq t p.
        order_ends _ L _ t (λ h. (refl, omega arith))
          λ o u q. fragment_and_body _ L n fragmented _ u (omega arith) pos
  fields_end reliable fragmented n L s e pos =
      after_exact _ L 4 3 s _ _ (u24 s)
        λ idx t p. fragment_and_body _ L n fragmented _ t (omega arith) pos
  fields_end reliable_ordered fragmented n L s e pos = after_exact _ L 4 3 s _ _ (u24 s) λ seq t p.
      order_ends _ L _ t (λ h. (refl, omega arith))
        λ o u q. fragment_and_body _ L n fragmented _ u (omega arith) pos
  fields_end reliable_sequenced fragmented n L s e pos =
      after_exact _ L 4 3 s _ _ (u24 s) λ idx t p. after_exact _ L 4 3 t _ _ (u24 t) λ seq u q.
        order_ends _ L _ u (λ h. (refl, omega arith))
          λ o v q'. fragment_and_body _ L n fragmented _ v (omega arith) pos

  -- What the reader of a frame does with any buffer: it takes 4 bytes or more, or answers an error,
  -- or panics; and it panics only where the buffer ends right before the order channel of an ordered
  -- frame.
  pub deserialize_frame-Ends :
      (s : Bytes)
      → Ends
          ((r : Reliability) × (is_ordered r ≡ true) × (length s ≡ index_end r))
          (length s)
          4
          (deserialize_frame s)
  unfolding deserialize_frame
  deserialize_frame-Ends s =
      after_exact _ (length s) 4 1 s _ _
        (map_err-TakesExactly buf_error 1 s _ (read_u8-TakesExactly s))
        λ header t p. elim (Option-cases (from_u8 (bit_and header 224 / 2 ^ 5))) [
          | inl unknown ↦ rw unknown tt
          | inr (r, known) ↦ rw known (
              after_exact _ (length s) 4 2 t _ _
                (map_err-TakesExactly buf_error 2 t _ (read_u16-TakesExactly t))
                λ len u q. elim (Bool-cases (len / 2 ^ 3 == 0)) [
                  | inl zero_length ↦ rw zero_length tt
                  | inr some_length ↦ rw some_length (
                      Ends-map (length s) 4 (read_fields r _ (len / 2 ^ 3) u) (λ d. (r, d.0, d.1))
                        (fields_end r _ (len / 2 ^ 3) (length s) u (omega arith)
                          (pos_of_== (len / 2 ^ 3) some_length)))
                ])
        ]
