-- ===== src/Proxy/Ping.antt =====
-- `handle_unconnected_ping` of src/proxy.rs: the answer to a ping.
pub mod Answered
use trakt.Base.{ℕ, Option, none, some, [], ◌∷◌}
use trakt.Raknet.Bytes.{Bytes, BytesCrate}
use trakt.Raknet.Buf.{Outcome, bind}
use trakt.Raknet.Message.{MessageError, to_bytes}
use trakt.Raknet.Message.Offline.{
  MessageUnconnectedPing, MessageUnconnectedPong, unconnected_pong_message,
  deserialize_unconnected_ping,
}
use trakt.Raknet.Motd.{Motd, encode_payload}

-- An empty title has no effect: "..." stands for it.
unfoldable pub title : Bytes → Bytes
title [] = 0x2e ∷ 0x2e ∷ 0x2e ∷ []
title (b ∷ bs) = b ∷ bs

-- The MOTD of a server as the proxy shows it, with its own uuid and port.
unfoldable pub shown : ℕ → ℕ → Motd → Motd
unfolding title
shown server_uuid in_bound_port motd = record motd {
  server_uuid = server_uuid;
  port_v4 = in_bound_port;
  port_v6 = in_bound_port;
  line_one = title motd.line_one;
}

unfoldable pub motd_payload : ℕ → ℕ → Option Motd → Bytes
motd_payload server_uuid in_bound_port none = []
motd_payload server_uuid in_bound_port (some motd) =
    encode_payload (shown server_uuid in_bound_port motd)

unfoldable pub pong_to : MessageUnconnectedPing → ℕ → ℕ → Option Motd → MessageUnconnectedPong
pong_to ping server_uuid in_bound_port last_motd = record {
  timestamp = ping.forward_timestamp;
  server_uuid = server_uuid;
  motd = motd_payload server_uuid in_bound_port last_motd;
}

module _ ⦃crate : BytesCrate⦄ where
  -- The bytes of the result are the datagram that is sent back. `last_motd` is that of the reflector.
  unfoldable pub handle_unconnected_ping :
      ℕ → ℕ → Option Motd → Bytes → Outcome MessageError (Unit {0})
  unfolding pong_to
  handle_unconnected_ping server_uuid in_bound_port last_motd buf =
      bind (deserialize_unconnected_ping buf)
        (λ ping _. to_bytes (pong_to ping server_uuid in_bound_port last_motd))
