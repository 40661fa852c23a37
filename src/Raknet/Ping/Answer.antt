-- ===== src/Raknet/Ping/Answer.antt =====
-- `ping` of src/raknet/ping.rs on the datagram that it gets.
use trakt.Base.{
  ◌^◌, ◌≤◌, ◌<◌, ◌≡◌, refl, ap, sym, ◌∙◌, Option, none, some, inl, inr, Bool-cases, if◌then◌else◌,
  [], ◌∷◌, arith, length, take, take_all, append-nil,
}
use trakt.Raknet.Bytes.{Bytes, BytesCrate}
use trakt.Raknet.Buf.{done, throw}
use trakt.Raknet.Datatypes.Guards.{Takes, bind-Takes, map_err-Takes}
use trakt.Raknet.Datatypes.Safety.{read_u8-Takes}
use trakt.Raknet.Message.Offline.Safety.{unconnected_pong-Takes}
use trakt.Raknet.Datatypes.{read_u8}
use trakt.Raknet.Datatypes.Laws.{read_u8_lem}
use trakt.Raknet.Datatypes.Strings.{IsText}
use trakt.Raknet.Message.{RaknetMessage, from_u8}
use trakt.Raknet.Message.Offline.{MessageUnconnectedPong, deserialize_unconnected_pong}
use trakt.Raknet.Message.Offline.RoundTrip.{pong_body, length-pong_body, deserialize-pong_body}
use trakt.Raknet.Motd.{Motd, decode_payload}
use trakt.Raknet.Ping.{
  buf_error, message_error, other_reply, is_pong, read_pong, or_empty_payload, read_answer,
}
use trakt.Raknet.Endian.{be_bytes, le_bytes}

module _ ⦃crate : BytesCrate⦄ where
  first_byte : (rest : Bytes) → read_u8 (0x1c ∷ rest) ≡ done 0x1c rest
  unfolding be_bytes le_bytes
  first_byte rest = read_u8_lem 0x1c rest (omega arith)

  exact :
      (m : MessageUnconnectedPong)
      → m.timestamp < 2 ^ 64
      → m.server_uuid < 2 ^ 64
      → IsText m.motd
      → deserialize_unconnected_pong (pong_body m) ≡ done m []
  exact m h1 h2 h3 =
      ap deserialize_unconnected_pong (sym (append-nil (pong_body m)))
      ∙ deserialize-pong_body m [] h1 h2 h3

  -- A pong that fits the buffer is read to its end, and its text decides.
  pub read_answer-pong :
      (m : MessageUnconnectedPong)
      → m.timestamp < 2 ^ 64
      → m.server_uuid < 2 ^ 64
      → IsText m.motd
      → length m.motd ≤ 1457
      → read_answer (0x1c ∷ pong_body m) ≡ or_empty_payload (decode_payload m.motd) []
  unfolding read_answer read_pong from_u8
  read_answer-pong m h1 h2 h3 fits =
      rw
        (
          take_all 1492 (0x1c ∷ pong_body m) (omega (arith, length-pong_body m)),
          first_byte (pong_body m),
          exact m h1 h2 h3,
        )
        refl

  payload-Takes : (o : Option Motd) (s : Bytes) → Takes 0 s (or_empty_payload o s)
  payload-Takes none s = tt
  payload-Takes (some motd) s = omega arith

  answer-Takes :
      (o : Option RaknetMessage) (s : Bytes)
      → Takes 34 s ((if is_pong o then read_pong else throw other_reply) s)
  unfolding read_pong
  answer-Takes o s = elim (Bool-cases (is_pong o)) [
    | inl pong ↦ rw pong (
        bind-Takes 34 0 34 s _ _ (omega arith)
          (map_err-Takes message_error 34 s _ (unconnected_pong-Takes s))
          λ m t. payload-Takes (decode_payload m.motd) t)
    | inr other ↦ rw other tt
  ]

  -- Whatever datagram arrives, reading the answer does not panic, and an answer that is taken has
  -- at least the 35 bytes of an empty pong within the buffer.
  read_answer-Takes : (datagram : Bytes) → Takes 35 (take 1492 datagram) (read_answer datagram)
  unfolding read_answer
  read_answer-Takes datagram =
      bind-Takes 1 34 35 (take 1492 datagram) _ _ (omega arith)
        (map_err-Takes buf_error 1 _ _ (read_u8-Takes (take 1492 datagram)))
        λ packet_type t. answer-Takes (from_u8 packet_type) t
