-- ===== src/Raknet/Frame/Cut.antt =====
-- A datagram that ends inside an ordered frame, right before its order channel.
use trakt.Base.{
  is_some, ℕ, ◌*◌, ◌%◌, ◌^◌, ◌<◌, ◌≡◌, refl, sym, ap, ◌∙◌, true, none, [], ◌∷◌, ◌++◌, append-nil,
  append_assoc, arith, length, ==-zero,
}
use trakt.Raknet.Bytes.{Bytes, BytesCrate}
use trakt.Raknet.Endian.{be_bytes, le_bytes}
use trakt.Raknet.Buf.{done, panic}
use trakt.Raknet.Datatypes.{read_u24}
use trakt.Raknet.Datatypes.Laws.{read_u8_lem, read_u16_lem, read_u24_lem}
use trakt.Raknet.Frame.{
  Reliability, unreliable, unreliable_sequenced, reliable, reliable_ordered, reliable_sequenced,
  is_ordered, Frame, header_of, deserialize_frame,
}
use trakt.Raknet.Frame.RoundTrip.{
  IsFrame, frame_bytes, fragment_bytes, index_bytes, header_of-lt, fragmented_of, reliability_of,
  length_field, length_field-lt,
}

unfoldable pub indices : Reliability → ℕ → ℕ → ℕ → Bytes
indices unreliable_sequenced i q o = le_bytes 3 q ++ le_bytes 3 o
indices reliable_ordered i q o = le_bytes 3 i ++ le_bytes 3 o
indices reliable_sequenced i q o = le_bytes 3 i ++ (le_bytes 3 q ++ le_bytes 3 o)
indices _ i q o = []

-- The bytes of an ordered frame up to its order channel.
unfoldable pub before_channel : Frame → Bytes
unfolding indices
before_channel f =
    be_bytes 1 (header_of f.reliability (is_some f.fragment))
    ++ (be_bytes 2 (length f.body * 2 ^ 3 % 2 ^ 16)
        ++ indices f.reliability f.frame_idx f.seq f.order_idx)

-- They are followed by the channel, a zero byte, in what `serialize` writes.
before_channel-cuts :
    (r : Reliability) (f : Frame)
    → f.reliability ≡ r
    → is_ordered r ≡ true
    → frame_bytes f ≡ before_channel f ++ (0 ∷ (fragment_bytes f.fragment ++ f.body))
unfolding before_channel frame_bytes index_bytes is_ordered be_bytes
before_channel-cuts unreliable f e o = cc
before_channel-cuts reliable f e o = cc
before_channel-cuts _ f e o = simp (e, append_assoc)

module _ ⦃crate : BytesCrate⦄ where
  nothing_left : crate.advance 1 [] ≡ none
  nothing_left = crate.advance_short 1 [] (omega arith)

  read_u24_end : (v : ℕ) → v < 2 ^ 24 → read_u24 (le_bytes 3 v) ≡ done v []
  read_u24_end v h = ap read_u24 (sym (append-nil (le_bytes 3 v))) ∙ read_u24_lem v [] h

  pub before_channel_panics :
      (r : Reliability) (f : Frame)
      → f.reliability ≡ r
      → is_ordered r ≡ true
      → IsFrame f
      → deserialize_frame (before_channel f) ≡ panic
  unfolding deserialize_frame before_channel is_ordered
  before_channel_panics unreliable f e o h = cc
  before_channel_panics reliable f e o h = cc
  before_channel_panics _ f e o h = simp (
    read_u8_lem,
    header_of-lt,
    fragmented_of,
    reliability_of,
    e,
    read_u16_lem,
    length_field-lt (length f.body),
    length_field (length f.body) h.body_fits,
    ==-zero (length f.body) h.not_empty,
    read_u24_lem,
    read_u24_end,
    h.frame_idx_fits,
    h.seq_fits,
    h.order_idx_fits,
    nothing_left,
  )

  -- The bytes of every ordered frame whose fields fit have a proper prefix, what stands before the
  -- order channel, on which the reader panics in place of answering an error.
  cut_panics :
      (f : Frame)
      → IsFrame f
      → is_ordered f.reliability ≡ true
      → (front back : Bytes) × (frame_bytes f ≡ front ++ (0 ∷ back))
        × (deserialize_frame front ≡ panic)
  cut_panics f h o = (
    before_channel f,
    fragment_bytes f.fragment ++ f.body,
    before_channel-cuts f.reliability f refl o,
    before_channel_panics f.reliability f refl o h,
  )
