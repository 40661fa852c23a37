-- ===== src/Raknet/Message/Offline/All.antt =====
-- The messages of src/raknet/message/offline.rs that are read as they are written.
use trakt.Base.{◌^◌, ◌<◌}
use trakt.Raknet.Bytes.{Bytes, BytesCrate}
use trakt.Raknet.Version.{IsProtocol}
use trakt.Raknet.Datatypes.Strings.{IsText}
use trakt.Raknet.Datatypes.Addresses.{IsAddress, on_wire}
use trakt.Raknet.Message.{
  ReadsBack, unconnected_ping, open_connection_reply1, open_connection_request2,
  open_connection_reply2, already_connected, incompatible_protocol_version, unconnected_pong,
}
use trakt.Raknet.Message.Handshake.{
  MessageOpenConnectionReply1, open_connection_reply1_message, MessageOpenConnectionRequest2,
  open_connection_request2_message, MessageOpenConnectionReply2, open_connection_reply2_message,
}
use trakt.Raknet.Message.Offline.{
  MessageUnconnectedPing, unconnected_ping_message, MessageAlreadyConnected,
  already_connected_message, MessageIncompatibleProtocolVersion,
  incompatible_protocol_version_message, MessageUnconnectedPong, unconnected_pong_message,
}
use trakt.Raknet.Message.Offline.RoundTrip.{
  unconnected_ping-ReadsBack, open_connection_reply1-ReadsBack, open_connection_request2-ReadsBack,
  open_connection_reply2-ReadsBack, already_connected-ReadsBack,
  incompatible_protocol_version-ReadsBack, unconnected_pong-ReadsBack,
}

-- All but the open connection request 1, which does not say its size.
pub data OfflineMessage : Type 0 where
  ping : MessageUnconnectedPing → OfflineMessage
  pong : MessageUnconnectedPong → OfflineMessage
  request2 : MessageOpenConnectionRequest2 → OfflineMessage
  reply1 : MessageOpenConnectionReply1 → OfflineMessage
  reply2 : MessageOpenConnectionReply2 → OfflineMessage
  already : MessageAlreadyConnected → OfflineMessage
  incompatible : MessageIncompatibleProtocolVersion → OfflineMessage

-- The integers fit their fields, the text is a string that fits its length, the address has the
-- octets of its kind, and the version is in the form that reading gives.
abbrev pub IsWellFormed : OfflineMessage → Type 0
IsWellFormed (ping m) = (m.forward_timestamp < 2 ^ 64) × (m.client_uuid < 2 ^ 64)
IsWellFormed (pong m) = (m.timestamp < 2 ^ 64) × (m.server_uuid < 2 ^ 64) × IsText m.motd
IsWellFormed (request2 m) =
    IsAddress m.server_address × (m.preferred_mtu_size < 2 ^ 16) × (m.client_uuid < 2 ^ 64)
IsWellFormed (reply1 m) = (m.server_uuid < 2 ^ 64) × (m.preferred_mtu_size < 2 ^ 16)
IsWellFormed (reply2 m) =
    (m.server_uuid < 2 ^ 64) × IsAddress m.client_address × (m.mtu_size < 2 ^ 16)
IsWellFormed (already m) = m.server_uuid < 2 ^ 64
IsWellFormed (incompatible m) = IsProtocol m.preferred_protocol × (m.server_uuid < 2 ^ 64)

module _ ⦃crate : BytesCrate⦄ where
  -- The message is written and read back as it was, but for what an IPv6 address loses.
  abbrev pub Survives : OfflineMessage → Bytes → Type 0
  Survives (ping m) rest = ReadsBack unconnected_ping m m rest
  Survives (pong m) rest = ReadsBack unconnected_pong m m rest
  Survives (request2 m) rest =
      ReadsBack open_connection_request2 m (record m { server_address = on_wire m.server_address })
        rest
  Survives (reply1 m) rest = ReadsBack open_connection_reply1 m m rest
  Survives (reply2 m) rest =
      ReadsBack open_connection_reply2 m (record m { client_address = on_wire m.client_address })
        rest
  Survives (already m) rest = ReadsBack already_connected m m rest
  Survives (incompatible m) rest = ReadsBack incompatible_protocol_version m m rest

  -- Every offline message but the open connection request 1, if it is well formed, is written with the
  -- id of its kind in front, and is read back from the bytes behind the id as it was, whatever
  -- follows it; only the flow label and the scope of an IPv6 address come back as 0.
  pub offline_Survives : (m : OfflineMessage) (rest : Bytes) → IsWellFormed m → Survives m rest
  offline_Survives (ping m) rest h = unconnected_ping-ReadsBack m rest h.0 h.1
  offline_Survives (pong m) rest h = unconnected_pong-ReadsBack m rest h.0 h.1 h.2
  offline_Survives (request2 m) rest h = open_connection_request2-ReadsBack m rest h.0 h.1 h.2
  offline_Survives (reply1 m) rest h = open_connection_reply1-ReadsBack m rest h.0 h.1
  offline_Survives (reply2 m) rest h = open_connection_reply2-ReadsBack m rest h.0 h.1 h.2
  offline_Survives (already m) rest h = already_connected-ReadsBack m rest h
  offline_Survives (incompatible m) rest h = incompatible_protocol_version-ReadsBack m rest h.0 h.1
