-- ===== src/Raknet/Ping.antt =====
-- `ping` of src/raknet/ping.rs: the datagram that it sends, and what it makes of the answer.
pub mod Answer
pub mod Reads
use trakt.Base.{ℕ, ◌^◌, Bool, true, false, leb, Option, none, some, [], ◌++◌, take, if◌then◌else◌}
use trakt.Raknet.Bytes.{Bytes, BytesCrate}
use trakt.Raknet.Buf.{◌>>=◌, Buf, Outcome, done, fail, bind, return, throw, map_err}
use trakt.Raknet.Datatypes.{BufError, read_u8}
use trakt.Raknet.Message.{RaknetMessage, MessageError, to_bytes, from_u8, unconnected_pong}
use trakt.Raknet.Message.Offline.{
  MessageUnconnectedPing, unconnected_ping_message, deserialize_unconnected_pong,
}
use trakt.Raknet.Motd.{Motd, decode_payload}

-- `clock_error` is a clock before 1970 or seconds that are no i64, and `header_error` the error
-- of the builder of the header.
pub data PingError : Type 0 where
  clock_error header_error other_reply empty_payload : PingError
  buf_error : BufError → PingError
  message_error : MessageError → PingError

abbrev pub is_pong : Option RaknetMessage → Bool
is_pong (some unconnected_pong) = true
is_pong _ = false

-- `.context("empty payload")?`
abbrev pub or_empty_payload : Option Motd → Buf PingError Motd
or_empty_payload none = throw empty_payload
or_empty_payload (some motd) = return motd

module _ ⦃crate : BytesCrate⦄ where
  abbrev pub ping_of : ℕ → MessageUnconnectedPing
  ping_of now = record { client_uuid = now; forward_timestamp = now }

  -- The ping behind a header, or behind nothing.
  unfoldable pub packet_behind : Bytes → ℕ → Outcome PingError (Unit {0})
  packet_behind header now =
      bind (map_err message_error (to_bytes (ping_of now))) (λ _ packet. done tt (header ++ packet))

  -- `clock` is in seconds, none before 1970, and `header` what the builder of the `ppp` crate returns
  -- for the local address, looked at only with the proxy protocol.
  unfoldable pub ping_packet : Option ℕ → Bool → Option Bytes → Outcome PingError (Unit {0})
  unfolding packet_behind
  ping_packet none proxy_protocol header = fail clock_error
  ping_packet (some now) proxy_protocol header =
      if leb (2 ^ 63) now
      then fail clock_error
      else if proxy_protocol
      then (elim header [ none ↦ fail header_error | some bytes ↦ packet_behind bytes now ])
      else packet_behind [] now

  unfoldable pub read_pong : Buf PingError Motd
  read_pong = do
    pong ← λ s. map_err message_error (deserialize_unconnected_pong s)
    or_empty_payload (decode_payload pong.motd)

  -- The datagram is cut to the 1492 bytes of the buffer.
  unfoldable pub read_answer : Bytes → Outcome PingError Motd
  unfolding read_pong
  read_answer datagram =
      bind (map_err buf_error (read_u8 (take 1492 datagram)))
        (λ packet_type. if is_pong (from_u8 packet_type) then read_pong else throw other_reply)
