-- ===== src/Raknet/Message/Online/All.antt =====
-- All messages of src/raknet/message/online.rs, written and read.
use trakt.Base.{◌^◌, ◌<◌, [], ◌++◌, append_assoc}
use trakt.Raknet.Bytes.{BytesCrate}
use trakt.Raknet.Endian.{be_bytes, le_bytes}
use trakt.Raknet.Datatypes.Laws.{writes, bit, read_i64_lem, read_bool_lem}
use trakt.Raknet.Datatypes.Addresses.{IsAddress, on_wire}
use trakt.Raknet.Message.{
  ReadsBack, to_bytes, to_u8, connected_ping, connected_pong, connection_request,
  connection_request_accepted, new_incoming_connection,
}
use trakt.Raknet.Message.Ids.{write_header_lem}
use trakt.Raknet.Message.Online.{
  MessageConnectedPing, serialize_connected_ping, deserialize_connected_ping,
  connected_ping_message, MessageConnectedPong, serialize_connected_pong,
  deserialize_connected_pong, connected_pong_message, MessageConnectionRequest,
  serialize_connection_request, deserialize_connection_request, connection_request_message,
  MessageConnectionRequestAccepted, connection_request_accepted_message,
  MessageNewIncomingConnection, new_incoming_connection_message,
}
use trakt.Raknet.Message.Online.RoundTrip.{
  new_incoming_connection-ReadsBack, connection_request_accepted-ReadsBack,
}

pub data OnlineMessage : Type 0 where
  ping : MessageConnectedPing → OnlineMessage
  pong : MessageConnectedPong → OnlineMessage
  request : MessageConnectionRequest → OnlineMessage
  accepted : MessageConnectionRequestAccepted → OnlineMessage
  incoming : MessageNewIncomingConnection → OnlineMessage

-- The integers fit their fields, and the address has the octets of its kind.
abbrev pub IsWellFormed : OnlineMessage → Type 0
IsWellFormed (ping m) = m.timestamp < 2 ^ 64
IsWellFormed (pong m) = (m.ping_timestamp < 2 ^ 64) × (m.pong_timestamp < 2 ^ 64)
IsWellFormed (request m) = (m.client_uuid < 2 ^ 64) × (m.forward_timestamp < 2 ^ 64)
IsWellFormed (accepted m) =
    IsAddress m.client_address × (m.request_timestamp < 2 ^ 64) × (m.accept_timestamp < 2 ^ 64)
IsWellFormed (incoming m) =
    IsAddress m.server_address × (m.request_timestamp < 2 ^ 64) × (m.accept_timestamp < 2 ^ 64)

module _ ⦃crate : BytesCrate⦄ where
  connected_ping-ReadsBack :
      (m : MessageConnectedPing) → m.timestamp < 2 ^ 64 → ReadsBack connected_ping m m []
  unfolding to_bytes serialize_connected_ping deserialize_connected_ping to_u8 be_bytes le_bytes
  connected_ping-ReadsBack m h = (
    be_bytes 8 m.timestamp,
    simp (write_header_lem, writes),
    simp (append_assoc, read_i64_lem, h),
  )

  connected_pong-ReadsBack :
      (m : MessageConnectedPong)
      → m.ping_timestamp < 2 ^ 64
      → m.pong_timestamp < 2 ^ 64
      → ReadsBack connected_pong m m []
  unfolding to_bytes serialize_connected_pong deserialize_connected_pong to_u8 be_bytes le_bytes
  connected_pong-ReadsBack m h1 h2 = (
    be_bytes 8 m.ping_timestamp ++ be_bytes 8 m.pong_timestamp,
    simp (write_header_lem, writes, append_assoc),
    simp (append_assoc, read_i64_lem, h1, h2),
  )

  connection_request-ReadsBack :
      (m : MessageConnectionRequest)
      → m.client_uuid < 2 ^ 64
      → m.forward_timestamp < 2 ^ 64
      → ReadsBack connection_request m m []
  unfolding to_bytes serialize_connection_request deserialize_connection_request to_u8 be_bytes
      le_bytes
  connection_request-ReadsBack m h1 h2 = (
    be_bytes 8 m.client_uuid
        ++ (be_bytes 8 m.forward_timestamp ++ be_bytes 1 (bit m.use_encryption)),
    simp (write_header_lem, writes, append_assoc),
    simp (append_assoc, read_i64_lem, read_bool_lem, h1, h2),
  )

  -- The message is written and read back as it was, but for what an IPv6 address loses.
  abbrev pub Survives : OnlineMessage → Type 0
  Survives (ping m) = ReadsBack connected_ping m m []
  Survives (pong m) = ReadsBack connected_pong m m []
  Survives (request m) = ReadsBack connection_request m m []
  Survives (accepted m) =
      ReadsBack connection_request_accepted m
        (record m { client_address = on_wire m.client_address }) []
  Survives (incoming m) =
      ReadsBack new_incoming_connection m (record m { server_address = on_wire m.server_address })
        []

  -- Every online message whose fields fit is written with the id of its kind in front, and is read
  -- back from the bytes behind the id as it was when nothing follows it; only the flow label and the
  -- scope of an IPv6 address come back as 0. The loop over the internal addresses finds their end.
  pub online_Survives : (m : OnlineMessage) → IsWellFormed m → Survives m
  online_Survives (ping m) h = connected_ping-ReadsBack m h
  online_Survives (pong m) h = connected_pong-ReadsBack m h.0 h.1
  online_Survives (request m) h = connection_request-ReadsBack m h.0 h.1
  online_Survives (accepted m) h = connection_request_accepted-ReadsBack m h.0 h.1 h.2
  online_Survives (incoming m) h = new_incoming_connection-ReadsBack m h.0 h.1 h.2
