-- ===== src/Examples/Messages.antt =====
-- Addresses and offline messages at concrete inputs.
use trakt.Base.{◌≡◌, refl, true, [], ◌∷◌, replicate, arith}
use trakt.Raknet.Bytes.{Bytes}
use trakt.Raknet.Endian.{be_bytes, le_bytes}
use trakt.Raknet.Utf8.{valid}
use trakt.Raknet.Buf.{done}
use trakt.Raknet.Version
use trakt.Raknet.Version.{v11, unsupported}
use trakt.Raknet.Datatypes.{SocketAddr, v4, v6, magic}
use trakt.Raknet.Datatypes.Addresses.{address_bytes}
use trakt.Raknet.Datatypes.Guards.{Takes}
use trakt.Raknet.Message.{ReadsBack, to_bytes, to_u8, unconnected_pong, open_connection_request1}
use trakt.Raknet.Message.Handshake.{
  MessageOpenConnectionRequest1, open_connection_request1_message, open_connection_request2_message,
  open_connection_reply1_message, open_connection_reply2_message,
  deserialize_open_connection_request1, deserialize_open_connection_reply1,
  deserialize_open_connection_request2, deserialize_open_connection_reply2,
}
use trakt.Raknet.Message.Offline.{
  MessageUnconnectedPong, unconnected_ping_message, unconnected_pong_message,
  already_connected_message, incompatible_protocol_version_message, deserialize_unconnected_ping,
  deserialize_already_connected, deserialize_incompatible_protocol_version,
  deserialize_unconnected_pong,
}
use trakt.Raknet.Message.Offline.Mtu.{open_connection_request1-ReadsBack}
use trakt.Raknet.Message.Offline.Safety.{offline_total}
use trakt.Raknet.Message.Offline.All.{offline_Survives}
use trakt.Raknet.Message.Offline.All
use trakt.Examples.Crate.{std_crate}

abbrev pub loopback : SocketAddr
loopback = v4 (127 ∷ 0 ∷ 0 ∷ 1 ∷ []) 19132

abbrev pub scoped : SocketAddr
scoped = v6 (replicate 16 1) 19133 7 3

-- The octets of an IPv4 address are inverted on the wire.
loopback_bytes : address_bytes loopback ≡ 4 ∷ 128 ∷ 255 ∷ 255 ∷ 254 ∷ 74 ∷ 188 ∷ []
unfolding address_bytes be_bytes le_bytes
loopback_bytes = refl

-- "MCPE"
abbrev pong : MessageUnconnectedPong
pong = record { timestamp = 5; server_uuid = 6; motd = 77 ∷ 67 ∷ 80 ∷ 69 ∷ [] }

pong_ascii : valid pong.motd ≡ true
unfolding valid
pong_ascii = refl

offline_Survives_example : ReadsBack unconnected_pong pong pong (1 ∷ [])
offline_Survives_example =
    offline_Survives (All.pong pong) (1 ∷ []) (omega arith, omega arith, (pong_ascii, omega arith))

abbrev request1 : MessageOpenConnectionRequest1
request1 = record { raknet_protocol = v11; mtu_size = 1492 }

open_connection_request1-ReadsBack_example :
    (body : Bytes) × (to_bytes request1 ≡ done tt (to_u8 open_connection_request1 ∷ body))
    × (deserialize_open_connection_request1 body
        ≡ done (record { raknet_protocol = v11; mtu_size = 92 }) (replicate 46 0))
unfolding Version.to_u8 Version.from_u8
open_connection_request1-ReadsBack_example =
    open_connection_request1-ReadsBack request1 (omega arith, refl)

offline_total_example :
    Takes 17 magic (deserialize_open_connection_request1 magic)
    × Takes 32 magic (deserialize_unconnected_ping magic)
    × Takes 27 magic (deserialize_open_connection_reply1 magic)
    × Takes 33 magic (deserialize_open_connection_request2 magic)
    × Takes 34 magic (deserialize_open_connection_reply2 magic)
    × Takes 24 magic (deserialize_already_connected magic)
    × Takes 25 magic (deserialize_incompatible_protocol_version magic)
    × Takes 34 magic (deserialize_unconnected_pong magic)
offline_total_example = offline_total magic
