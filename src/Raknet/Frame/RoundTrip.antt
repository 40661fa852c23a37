-- ===== src/Raknet/Frame/RoundTrip.antt =====
-- `serialize` and `deserialize` of src/raknet/frame.rs, one behind the other.
use Prim.Native.Nat.{bit_and}
use trakt.Base.{
  is_some, ℕ, ◌*◌, ◌/◌, ◌%◌, ◌^◌, ◌<◌, ◌≡◌, refl, Bool, true, false, not, Option, none, some, [],
  ◌∷◌, ◌++◌, append-nil, append_assoc, arith, length, ◌==◌, ==-zero, if◌then◌else◌,
}
use trakt.Raknet.Bytes.{Bytes, BytesCrate}
use trakt.Raknet.Endian.{be_bytes, le_bytes}
use trakt.Raknet.Buf.{done, return}
use trakt.Raknet.Datatypes.Laws.{
  writes, read_u8_lem, read_u16_lem, read_u32_lem, read_u24_lem, read_bytes_lem,
}
use trakt.Raknet.Message.{to_bytes}
use trakt.Raknet.Frame.{
  Reliability, unreliable, unreliable_sequenced, reliable, reliable_ordered, reliable_sequenced,
  is_reliable, is_ordered, is_sequenced, from_u8, Frame, FrameFragment, header_of, write_fragment,
  serialize_frame, read_fragment, deserialize_frame, frame_message,
}

-- The fragment fields fit 32, 32 and 16 bits.
abbrev pub FragmentFits : Option FrameFragment → Type 0
FragmentFits none = Unit {0}
FragmentFits (some fragment) =
    (fragment.count < 2 ^ 32) × (fragment.index < 2 ^ 32) × (fragment.id < 2 ^ 16)

-- A frame whose fields fit: indices of 24 bits, and a body of 1 to 8191 bytes, since the length
-- field counts bits in 16 bits.
pub record IsFrame (f : Frame) : Type 0 where
  pub frame_idx_fits : f.frame_idx < 2 ^ 24
  pub seq_fits : f.seq < 2 ^ 24
  pub order_idx_fits : f.order_idx < 2 ^ 24
  pub fragment_fits : FragmentFits f.fragment
  pub not_empty : 0 < length f.body
  pub body_fits : length f.body < 2 ^ 13

-- What the wire keeps of a frame: the indices that its reliability does not use come back as 0.
abbrev pub on_wire : Frame → Frame
on_wire f = record f {
  frame_idx = if is_reliable f.reliability then f.frame_idx else 0;
  seq = if is_sequenced f.reliability then f.seq else 0;
  order_idx = if is_ordered f.reliability then f.order_idx else 0;
}

unfoldable pub fragment_bytes : Option FrameFragment → Bytes
fragment_bytes none = []
fragment_bytes (some fragment) =
    be_bytes 4 fragment.count ++ (be_bytes 2 fragment.id ++ be_bytes 4 fragment.index)

unfoldable pub index_bytes : Reliability → ℕ → ℕ → ℕ → Bytes
index_bytes unreliable i q o = []
index_bytes unreliable_sequenced i q o = le_bytes 3 q ++ (le_bytes 3 o ++ be_bytes 1 0)
index_bytes reliable i q o = le_bytes 3 i
index_bytes reliable_ordered i q o = le_bytes 3 i ++ (le_bytes 3 o ++ be_bytes 1 0)
index_bytes reliable_sequenced i q o =
    le_bytes 3 i ++ (le_bytes 3 q ++ (le_bytes 3 o ++ be_bytes 1 0))

unfoldable pub frame_bytes : Frame → Bytes
frame_bytes f =
    be_bytes 1 (header_of f.reliability (is_some f.fragment))
    ++ (be_bytes 2 (length f.body * 2 ^ 3 % 2 ^ 16)
        ++ (index_bytes f.reliability f.frame_idx f.seq f.order_idx
            ++ (fragment_bytes f.fragment ++ f.body)))

-- The length field gives the length back.
pub length_field : (n : ℕ) → n < 2 ^ 13 → n * 2 ^ 3 % 2 ^ 16 / 2 ^ 3 ≡ n
length_field n h = omega arith

pub length_field-lt : (n : ℕ) → n * 2 ^ 3 % 2 ^ 16 < 2 ^ 16
length_field-lt n = omega arith

pub header_of-lt : (r : Reliability) (b : Bool) → header_of r b < 256
unfolding header_of
header_of-lt unreliable true = omega arith
header_of-lt _ true = omega arith
header_of-lt _ false = omega arith

pub fragmented_of : (r : Reliability) (b : Bool) → not (bit_and (header_of r b) 0x10 == 0) ≡ b
unfolding header_of
fragmented_of unreliable true = refl
fragmented_of unreliable false = refl
fragmented_of unreliable_sequenced true = refl
fragmented_of unreliable_sequenced false = refl
fragmented_of reliable true = refl
fragmented_of reliable false = refl
fragmented_of reliable_ordered true = refl
fragmented_of reliable_ordered false = refl
fragmented_of reliable_sequenced true = refl
fragmented_of _ _ = refl

pub reliability_of :
    (r : Reliability) (b : Bool) → from_u8 (bit_and (header_of r b) 224 / 2 ^ 5) ≡ some r
unfolding header_of from_u8
reliability_of unreliable true = refl
reliability_of unreliable false = refl
reliability_of unreliable_sequenced true = refl
reliability_of unreliable_sequenced false = refl
reliability_of reliable true = refl
reliability_of reliable false = refl
reliability_of reliable_ordered true = refl
reliability_of reliable_ordered false = refl
reliability_of reliable_sequenced true = refl
reliability_of _ _ = refl

module _ ⦃crate : BytesCrate⦄ where
  open crate use {extend_from_slice_lem, advance_lem}

  write_fragment_lem :
      (frag : Option FrameFragment) (s : Bytes)
      → write_fragment frag s ≡ done tt (s ++ fragment_bytes frag)
  unfolding write_fragment fragment_bytes
  write_fragment_lem none s = rw append-nil
  write_fragment_lem (some x) s = simp (writes, append_assoc)

  serialize_parts :
      (r : Reliability) (f : Frame) (s : Bytes)
      → f.reliability ≡ r
      → serialize_frame f s ≡ done tt (s ++ frame_bytes f)
  unfolding serialize_frame frame_bytes index_bytes
  serialize_parts unreliable f s e =
      simp (e, writes, write_fragment_lem, extend_from_slice_lem, append_assoc)
  serialize_parts _ f s e =
      simp (e, writes, write_fragment_lem, extend_from_slice_lem, append_assoc)

  -- Writing a frame never fails, and appends its bytes.
  serialize_frame_lem : (f : Frame) (s : Bytes) → serialize_frame f s ≡ done tt (s ++ frame_bytes f)
  serialize_frame_lem f s = serialize_parts f.reliability f s refl

  skip_channel : (rest : Bytes) → crate.advance 1 (be_bytes 1 0 ++ rest) ≡ some (tt, rest)
  unfolding be_bytes le_bytes
  skip_channel rest = advance_lem (0 ∷ []) rest

  read_fragment_lem :
      (frag : Option FrameFragment) (rest : Bytes)
      → FragmentFits frag
      → (if is_some frag then read_fragment else return none) (fragment_bytes frag ++ rest)
        ≡ done frag rest
  unfolding read_fragment fragment_bytes
  read_fragment_lem none rest h = refl
  read_fragment_lem (some x) rest (h, k, l) =
      simp (append_assoc, read_u32_lem, read_u16_lem, h, k, l)

  deserialize_parts :
      (r : Reliability) (f : Frame) (rest : Bytes)
      → f.reliability ≡ r
      → IsFrame f
      → deserialize_frame (frame_bytes f ++ rest) ≡ done (on_wire f) rest
  unfolding deserialize_frame frame_bytes index_bytes is_reliable is_sequenced is_ordered
  deserialize_parts unreliable f rest e h = simp (
    append_assoc,
    read_u8_lem,
    header_of-lt,
    fragmented_of,
    reliability_of,
    e,
    read_u16_lem,
    length_field-lt (length f.body),
    length_field (length f.body) h.body_fits,
    ==-zero (length f.body) h.not_empty,
    read_u24_lem,
    h.frame_idx_fits,
    h.seq_fits,
    skip_channel,
    h.order_idx_fits,
    read_fragment_lem,
    h.fragment_fits,
    read_bytes_lem (length f.body) f.body rest refl,
  )
  deserialize_parts _ f rest e h = simp (
    append_assoc,
    read_u8_lem,
    header_of-lt,
    fragmented_of,
    reliability_of,
    e,
    read_u16_lem,
    length_field-lt (length f.body),
    length_field (length f.body) h.body_fits,
    ==-zero (length f.body) h.not_empty,
    read_u24_lem,
    h.frame_idx_fits,
    h.seq_fits,
    skip_channel,
    h.order_idx_fits,
    read_fragment_lem,
    h.fragment_fits,
    read_bytes_lem (length f.body) f.body rest refl,
  )

  pub deserialize_frame_lem :
      (f : Frame) (rest : Bytes)
      → IsFrame f
      → deserialize_frame (frame_bytes f ++ rest) ≡ done (on_wire f) rest
  deserialize_frame_lem f rest h = deserialize_parts f.reliability f rest refl h

  -- A frame whose fields fit is written, and read back whatever follows it: its body, fragment and
  -- reliability as they were, each index that the reliability uses as it was, and the others as 0.
  pub deserialize-serialize :
      (f : Frame) (rest : Bytes)
      → IsFrame f
      → (bytes : Bytes) × (to_bytes f ≡ done tt bytes)
        × (deserialize_frame (bytes ++ rest) ≡ done (on_wire f) rest)
  unfolding to_bytes
  deserialize-serialize f rest h =
      (frame_bytes f, serialize_frame_lem f [], deserialize_frame_lem f rest h)
