-- ===== src/Raknet/Message/Offline/RoundTrip.antt =====
-- The messages of src/raknet/message/offline.rs, read from the bytes that they are written as.
use trakt.Base.{◌≡◌, ◌+◌, ◌%◌, ◌∷◌, arith, length, length-append, ◌^◌, ◌<◌, ◌++◌, append_assoc}
use trakt.Raknet.Bytes.{Bytes, BytesCrate}
use trakt.Raknet.Endian.{length-be_bytes, be_bytes, le_bytes}
use trakt.Raknet.Version.{ProtocolVersion, IsProtocol}
use trakt.Raknet.Buf.{done}
use trakt.Raknet.Datatypes.{magic}
use trakt.Raknet.Datatypes.Laws.{
  writes, bit, read_u8_lem, read_bool_lem, read_magic_lem, read_u16_lem, read_i64_lem,
}
use trakt.Raknet.Datatypes.Strings.{IsText, str_bytes, write_str_lem, read_str_lem}
use trakt.Raknet.Datatypes.Addresses.{
  IsAddress, on_wire, address_bytes, write_address_lem, read_address_lem,
}
use trakt.Raknet.Message.{
  ReadsBack, to_bytes, to_u8, unconnected_ping, open_connection_reply1, open_connection_request2,
  open_connection_reply2, already_connected, incompatible_protocol_version, unconnected_pong,
}
use trakt.Raknet.Message.Ids.{write_header_lem}
use trakt.Raknet.Message.Handshake.{
  MessageOpenConnectionReply1, serialize_open_connection_reply1, deserialize_open_connection_reply1,
  open_connection_reply1_message, MessageOpenConnectionRequest2, serialize_open_connection_request2,
  deserialize_open_connection_request2, open_connection_request2_message,
  MessageOpenConnectionReply2, serialize_open_connection_reply2, deserialize_open_connection_reply2,
  open_connection_reply2_message,
}
use trakt.Raknet.Message.Offline.{
  MessageUnconnectedPing, serialize_unconnected_ping, deserialize_unconnected_ping,
  unconnected_ping_message, MessageAlreadyConnected, serialize_already_connected,
  deserialize_already_connected, already_connected_message, MessageIncompatibleProtocolVersion,
  serialize_incompatible_protocol_version, deserialize_incompatible_protocol_version,
  incompatible_protocol_version_message, MessageUnconnectedPong, serialize_unconnected_pong,
  deserialize_unconnected_pong, unconnected_pong_message,
}
use trakt.Raknet.Version

module _ ⦃crate : BytesCrate⦄ where
  -- An unconnected ping whose fields fit 64 bits is read back from its bytes as it was, whatever
  -- follows it.
  pub unconnected_ping-ReadsBack :
      (m : MessageUnconnectedPing) (rest : Bytes)
      → m.forward_timestamp < 2 ^ 64
      → m.client_uuid < 2 ^ 64
      → ReadsBack unconnected_ping m m rest
  unfolding to_bytes serialize_unconnected_ping deserialize_unconnected_ping to_u8 be_bytes le_bytes
  unconnected_ping-ReadsBack m rest h1 h2 = (
    be_bytes 8 m.forward_timestamp ++ (magic ++ be_bytes 8 m.client_uuid),
    simp (write_header_lem, writes, append_assoc),
    simp (append_assoc, read_i64_lem, read_magic_lem, h1, h2),
  )

  -- An open connection reply 1 whose fields fit 64 and 16 bits is read back as it was.
  pub open_connection_reply1-ReadsBack :
      (m : MessageOpenConnectionReply1) (rest : Bytes)
      → m.server_uuid < 2 ^ 64
      → m.preferred_mtu_size < 2 ^ 16
      → ReadsBack open_connection_reply1 m m rest
  unfolding to_bytes serialize_open_connection_reply1 deserialize_open_connection_reply1 to_u8
      be_bytes le_bytes
  open_connection_reply1-ReadsBack m rest h1 h2 = (
    magic
        ++ (be_bytes 8 m.server_uuid
            ++ (be_bytes 1 (bit m.use_encryption) ++ be_bytes 2 m.preferred_mtu_size)),
    simp (write_header_lem, writes, append_assoc),
    simp (append_assoc, read_magic_lem, read_i64_lem, read_bool_lem, read_u16_lem, h1, h2),
  )

  -- An open connection request 2 whose fields fit is read back, but for the flow label and the
  -- scope of an IPv6 address, which come back as 0.
  pub open_connection_request2-ReadsBack :
      (m : MessageOpenConnectionRequest2) (rest : Bytes)
      → IsAddress m.server_address
      → m.preferred_mtu_size < 2 ^ 16
      → m.client_uuid < 2 ^ 64
      → ReadsBack open_connection_request2 m
          (record m { server_address = on_wire m.server_address })
          rest
  unfolding to_bytes serialize_open_connection_request2 deserialize_open_connection_request2 to_u8
      be_bytes le_bytes
  open_connection_request2-ReadsBack m rest h1 h2 h3 = (
    magic
        ++ (address_bytes m.server_address
            ++ (be_bytes 2 m.preferred_mtu_size ++ be_bytes 8 m.client_uuid)),
    simp (write_header_lem, writes, write_address_lem, append_assoc),
    simp (append_assoc, read_magic_lem, read_address_lem, read_u16_lem, read_i64_lem, h1, h2, h3),
  )

  -- An open connection reply 2 whose fields fit is read back, but for the flow label and the
  -- scope of an IPv6 address, which come back as 0.
  pub open_connection_reply2-ReadsBack :
      (m : MessageOpenConnectionReply2) (rest : Bytes)
      → m.server_uuid < 2 ^ 64
      → IsAddress m.client_address
      → m.mtu_size < 2 ^ 16
      → ReadsBack open_connection_reply2 m
          (record m { client_address = on_wire m.client_address })
          rest
  unfolding to_bytes serialize_open_connection_reply2 deserialize_open_connection_reply2 to_u8
      be_bytes le_bytes
  open_connection_reply2-ReadsBack m rest h1 h2 h3 = (
    magic
        ++ (be_bytes 8 m.server_uuid
            ++ (address_bytes m.client_address
                ++ (be_bytes 2 m.mtu_size ++ be_bytes 1 (bit m.use_encryption)))),
    simp (write_header_lem, writes, write_address_lem, append_assoc),
    simp (
      append_assoc, read_magic_lem, read_i64_lem, read_address_lem, read_u16_lem, read_bool_lem, h1,
      h2, h3,
    ),
  )

  -- An already-connected message whose field fits 64 bits is read back as it was.
  pub already_connected-ReadsBack :
      (m : MessageAlreadyConnected) (rest : Bytes)
      → m.server_uuid < 2 ^ 64
      → ReadsBack already_connected m m rest
  unfolding to_bytes serialize_already_connected deserialize_already_connected to_u8 be_bytes
      le_bytes
  already_connected-ReadsBack m rest h1 = (
    magic ++ be_bytes 8 m.server_uuid,
    simp (write_header_lem, writes, append_assoc),
    simp (append_assoc, read_magic_lem, read_i64_lem, h1),
  )

  -- An incompatible-protocol-version message is read back as it was, if its uuid fits 64 bits and
  -- its version is in the form that reading gives.
  pub incompatible_protocol_version-ReadsBack :
      (m : MessageIncompatibleProtocolVersion) (rest : Bytes)
      → IsProtocol m.preferred_protocol
      → m.server_uuid < 2 ^ 64
      → ReadsBack incompatible_protocol_version m m rest
  unfolding to_bytes serialize_incompatible_protocol_version
      deserialize_incompatible_protocol_version to_u8 be_bytes le_bytes
  incompatible_protocol_version-ReadsBack m rest h1 h2 = (
    be_bytes 1 (Version.to_u8 m.preferred_protocol) ++ (magic ++ be_bytes 8 m.server_uuid),
    simp (write_header_lem, writes, append_assoc),
    simp (append_assoc, read_u8_lem, read_magic_lem, read_i64_lem, h1.0, h1.1, h2),
  )

  -- The bytes of a pong behind its id.
  abbrev pub pong_body : MessageUnconnectedPong → Bytes
  pong_body m = be_bytes 8 m.timestamp ++ (be_bytes 8 m.server_uuid ++ (magic ++ str_bytes m.motd))

  pub length-pong_body : (m : MessageUnconnectedPong) → length (pong_body m) ≡ 34 + length m.motd
  unfolding str_bytes
  length-pong_body m = omega (
    arith,
    length-append (be_bytes 8 m.timestamp)
        (be_bytes 8 m.server_uuid ++ (magic ++ str_bytes m.motd)),
    length-append (be_bytes 8 m.server_uuid) (magic ++ str_bytes m.motd),
    length-append (be_bytes 2 (length m.motd % 2 ^ 16)) m.motd,
    length-be_bytes 8 m.timestamp,
    length-be_bytes 8 m.server_uuid,
    length-be_bytes 2 (length m.motd % 2 ^ 16),
  )

  pub to_bytes-pong : (m : MessageUnconnectedPong) → to_bytes m ≡ done tt (0x1c ∷ pong_body m)
  unfolding to_bytes serialize_unconnected_pong to_u8 be_bytes le_bytes
  to_bytes-pong m = simp (write_header_lem, writes, write_str_lem, append_assoc)

  pub deserialize-pong_body :
      (m : MessageUnconnectedPong) (rest : Bytes)
      → m.timestamp < 2 ^ 64
      → m.server_uuid < 2 ^ 64
      → IsText m.motd
      → deserialize_unconnected_pong (pong_body m ++ rest) ≡ done m rest
  unfolding deserialize_unconnected_pong
  deserialize-pong_body m rest h1 h2 h3 =
      simp (append_assoc, read_i64_lem, read_magic_lem, read_str_lem, h1, h2, h3)

  -- An unconnected pong is read back as it was, if its integers fit 64 bits and its text is valid
  -- UTF-8 of less than 65536 bytes.
  pub unconnected_pong-ReadsBack :
      (m : MessageUnconnectedPong) (rest : Bytes)
      → m.timestamp < 2 ^ 64
      → m.server_uuid < 2 ^ 64
      → IsText m.motd
      → ReadsBack unconnected_pong m m rest
  unfolding to_u8
  unconnected_pong-ReadsBack m rest h1 h2 h3 =
      (pong_body m, to_bytes-pong m, deserialize-pong_body m rest h1 h2 h3)
