-- ===== src/Raknet/Message/Handshake.antt =====
-- The requests and replies of src/raknet/message/offline.rs that open a connection.
-- `i64` and `u16` fields are bit patterns.
use trakt.Base.{ℕ, ◌+◌, ◌^◌, Bool, length, replicate, ltb, if◌then◌else◌}
use trakt.Raknet.Bytes.{BytesCrate}
use trakt.Raknet.Buf.{Buf, done, ◌>>=◌, ◌>>◌, return, throw}
use trakt.Raknet.Version.{ProtocolVersion}
use trakt.Raknet.Version
use trakt.Raknet.Datatypes.{
  SocketAddr, read_u8, read_bool, read_magic, read_u16, read_i64, read_address, write_u8,
  write_bool, write_magic, write_u16, write_i64, write_address,
}
use trakt.Raknet.Message.{
  Message, MessageError, mtu_invalid_padding, up, write_header, open_connection_request1,
  open_connection_reply1, open_connection_request2, open_connection_reply2,
}

pub record MessageOpenConnectionRequest1 : Type 0 where
  pub raknet_protocol : ProtocolVersion
  pub mtu_size : ℕ

pub record MessageOpenConnectionReply1 : Type 0 where
  pub server_uuid : ℕ
  pub use_encryption : Bool
  pub preferred_mtu_size : ℕ

pub record MessageOpenConnectionRequest2 : Type 0 where
  pub client_uuid : ℕ
  pub server_address : SocketAddr
  pub preferred_mtu_size : ℕ

pub record MessageOpenConnectionReply2 : Type 0 where
  pub server_uuid : ℕ
  pub client_address : SocketAddr
  pub use_encryption : Bool
  pub mtu_size : ℕ

module _ ⦃crate : BytesCrate⦄ where
  open crate use {extend_from_slice}

  -- The padding is as long as the buffer so far and 28 more; `mtu_size` is not read.
  unfoldable pub serialize_open_connection_request1 :
      MessageOpenConnectionRequest1 → Buf MessageError (Unit {0})
  serialize_open_connection_request1 m = do
    write_header open_connection_request1
    up write_magic
    up (write_u8 (Version.to_u8 m.raknet_protocol))
    λ buf. done tt (extend_from_slice buf (replicate (length buf + 28) 0))

  -- `buf_size` counts the packet id, which has been taken off.
  unfoldable pub deserialize_open_connection_request1 :
      Buf MessageError MessageOpenConnectionRequest1
  deserialize_open_connection_request1 buf =
      (do
        up read_magic
        version ← up read_u8
        if ltb (length buf + 1 + 28) (2 ^ 16)
            then return (record {
              raknet_protocol = Version.from_u8 version;
              mtu_size = length buf + 1 + 28;
            })
            else throw mtu_invalid_padding)
        buf

  instance abbrev pub open_connection_request1_message : Message MessageOpenConnectionRequest1
  open_connection_request1_message = record {
    serialize = serialize_open_connection_request1;
    deserialize = deserialize_open_connection_request1;
  }

  unfoldable pub serialize_open_connection_reply1 :
      MessageOpenConnectionReply1 → Buf MessageError (Unit {0})
  serialize_open_connection_reply1 m = do
    write_header open_connection_reply1
    up write_magic
    up (write_i64 m.server_uuid)
    up (write_bool m.use_encryption)
    up (write_u16 m.preferred_mtu_size)

  unfoldable pub deserialize_open_connection_reply1 : Buf MessageError MessageOpenConnectionReply1
  deserialize_open_connection_reply1 = do
    up read_magic
    server_uuid ← up read_i64
    use_encryption ← up read_bool
    preferred_mtu_size ← up read_u16
    return (record {
      server_uuid = server_uuid;
      use_encryption = use_encryption;
      preferred_mtu_size = preferred_mtu_size;
    })

  instance abbrev pub open_connection_reply1_message : Message MessageOpenConnectionReply1
  open_connection_reply1_message = record {
    serialize = serialize_open_connection_reply1;
    deserialize = deserialize_open_connection_reply1;
  }

  unfoldable pub serialize_open_connection_request2 :
      MessageOpenConnectionRequest2 → Buf MessageError (Unit {0})
  serialize_open_connection_request2 m = do
    write_header open_connection_request2
    up write_magic
    up (write_address m.server_address)
    up (write_u16 m.preferred_mtu_size)
    up (write_i64 m.client_uuid)

  unfoldable pub deserialize_open_connection_request2 :
      Buf MessageError MessageOpenConnectionRequest2
  deserialize_open_connection_request2 = do
    up read_magic
    server_address ← up read_address
    preferred_mtu_size ← up read_u16
    client_uuid ← up read_i64
    return (record {
      client_uuid = client_uuid;
      server_address = server_address;
      preferred_mtu_size = preferred_mtu_size;
    })

  instance abbrev pub open_connection_request2_message : Message MessageOpenConnectionRequest2
  open_connection_request2_message = record {
    serialize = serialize_open_connection_request2;
    deserialize = deserialize_open_connection_request2;
  }

  unfoldable pub serialize_open_connection_reply2 :
      MessageOpenConnectionReply2 → Buf MessageError (Unit {0})
  serialize_open_connection_reply2 m = do
    write_header open_connection_reply2
    up write_magic
    up (write_i64 m.server_uuid)
    up (write_address m.client_address)
    up (write_u16 m.mtu_size)
    up (write_bool m.use_encryption)

  unfoldable pub deserialize_open_connection_reply2 : Buf MessageError MessageOpenConnectionReply2
  deserialize_open_connection_reply2 = do
    up read_magic
    server_uuid ← up read_i64
    client_address ← up read_address
    mtu_size ← up read_u16
    use_encryption ← up read_bool
    return (record {
      server_uuid = server_uuid;
      client_address = client_address;
      use_encryption = use_encryption;
      mtu_size = mtu_size;
    })

  instance abbrev pub open_connection_reply2_message : Message MessageOpenConnectionReply2
  open_connection_reply2_message = record {
    serialize = serialize_open_connection_reply2;
    deserialize = deserialize_open_connection_reply2;
  }
