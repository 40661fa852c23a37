-- ===== src/Examples/Frames.antt =====
-- Frames and datagrams at concrete inputs.
use trakt.Base.{◌↔◌, ◌≡◌, refl, ◌≢◌, [], ◌∷◌, ◌++◌, some, none, arith}
use trakt.Raknet.Bytes.{Bytes}
use trakt.Raknet.Buf.{done, panic}
use trakt.Raknet.Message.{to_bytes}
use trakt.Raknet.Frame.{
  Frame, to_u8, unreliable, reliable_ordered, is_reliable, is_ordered, is_sequenced,
  deserialize_frame, frame_message,
}
use trakt.Raknet.Frame.RoundTrip.{IsFrame, deserialize-serialize}
use trakt.Raknet.Frame.Panics.{Ends, index_end}
use trakt.Raknet.Frame.Exact.{IsCut, deserialize_frame_iff}
use trakt.Raknet.Frame.Cut.{before_channel}
use trakt.Proxy.Spy.{spied, disconnect, stuck, panicked, spy_datagram}
use trakt.Proxy.Spy.Total.{spy_datagram-ne-stuck}
use trakt.Proxy.Spy.Finds.{datagram, frames_bytes, spy_datagram_finds, spy_datagram_panics}
use trakt.Examples.Crate.{std_crate}

-- A disconnect notification, as a client sends it.
abbrev pub goodbye : Frame
goodbye = record {
  reliability = reliable_ordered;
  frame_idx = 300;
  seq = 0;
  order_idx = 5;
  fragment = none;
  body = 0x15 ∷ [];
}

-- A piece of a larger message.
abbrev piece : Frame
piece = record {
  reliability = unreliable;
  frame_idx = 9;
  seq = 0;
  order_idx = 0;
  fragment = some (record { count = 2; index = 1; id = 7 });
  body = 0x15 ∷ 0 ∷ [];
}

pub goodbye-IsFrame : IsFrame goodbye
goodbye-IsFrame = omega arith

piece-IsFrame : IsFrame piece
piece-IsFrame = omega arith

-- The unused index of `piece` is lost.
deserialize-serialize_example :
    (bytes : Bytes) × (to_bytes piece ≡ done tt bytes)
    × (deserialize_frame (bytes ++ (1 ∷ [])) ≡ done (record piece { frame_idx = 0 }) (1 ∷ []))
unfolding is_reliable is_sequenced is_ordered
deserialize-serialize_example = deserialize-serialize piece (1 ∷ []) piece-IsFrame

-- A reliable ordered frame of one byte, up to its order channel.
abbrev cut : Bytes
cut = 0x60 ∷ 0 ∷ 8 ∷ 44 ∷ 1 ∷ 0 ∷ 5 ∷ 0 ∷ 0 ∷ []

cut-IsCut : IsCut cut
unfolding is_ordered to_u8 index_end
cut-IsCut = (reliable_ordered, refl, refl, omega arith, refl)

deserialize_frame_iff_example :
    Ends (IsCut cut) 9 4 (deserialize_frame cut) × ((deserialize_frame cut ≡ panic) ↔ IsCut cut)
deserialize_frame_iff_example = deserialize_frame_iff cut

spy_datagram-ne-stuck_example : spy_datagram (0x84 ∷ 1 ∷ 0 ∷ 0 ∷ 0x60 ∷ []) ≢ stuck
spy_datagram-ne-stuck_example = spy_datagram-ne-stuck (0x84 ∷ 1 ∷ 0 ∷ 0 ∷ 0x60 ∷ [])

-- The fragment is passed over, though its body starts with the id.
spy_datagram_finds_example :
    spy_datagram (datagram 0x84 1 (frames_bytes (piece ∷ goodbye ∷ []))) ≡ spied disconnect
spy_datagram_finds_example =
    spy_datagram_finds 0x84 1 (piece ∷ goodbye ∷ []) (omega arith) (omega arith)
      (piece-IsFrame, (goodbye-IsFrame, tt))

spy_datagram_panics_example : spy_datagram (datagram 0x84 1 (before_channel goodbye)) ≡ panicked
unfolding is_ordered
spy_datagram_panics_example =
    spy_datagram_panics 0x84 1 goodbye (omega arith) (omega arith) goodbye-IsFrame refl
