-- ===== src/Raknet/Message/Offline.antt =====
-- src/raknet/message/offline.rs: the messages before a Raknet connection.
-- `i64` and `u16` fields are bit patterns, and `motd` is the UTF-8 bytes of the string.
pub mod RoundTrip
pub mod All
pub mod Mtu
pub mod Safety
use trakt.Base.{ℕ}
use trakt.Raknet.Bytes.{Bytes, BytesCrate}
use trakt.Raknet.Buf.{Buf, bind, ◌>>=◌, ◌>>◌, return}
use trakt.Raknet.Version.{ProtocolVersion}
use trakt.Raknet.Version
use trakt.Raknet.Datatypes.{
  read_u8, read_magic, read_i64, read_str, write_u8, write_magic, write_i64, write_str,
}
use trakt.Raknet.Message.{
  Message, MessageError, up, write_header, unconnected_ping, already_connected,
  incompatible_protocol_version, unconnected_pong,
}

pub record MessageUnconnectedPing : Type 0 where
  pub client_uuid : ℕ
  pub forward_timestamp : ℕ

pub record MessageAlreadyConnected : Type 0 where
  pub server_uuid : ℕ

pub record MessageIncompatibleProtocolVersion : Type 0 where
  pub server_uuid : ℕ
  pub preferred_protocol : ProtocolVersion

pub record MessageUnconnectedPong : Type 0 where
  pub timestamp : ℕ
  pub server_uuid : ℕ
  pub motd : Bytes

module _ ⦃crate : BytesCrate⦄ where
  unfoldable pub serialize_unconnected_ping : MessageUnconnectedPing → Buf MessageError (Unit {0})
  serialize_unconnected_ping m = do
    write_header unconnected_ping
    up (write_i64 m.forward_timestamp)
    up write_magic
    up (write_i64 m.client_uuid)

  unfoldable pub deserialize_unconnected_ping : Buf MessageError MessageUnconnectedPing
  deserialize_unconnected_ping = do
    forward_timestamp ← up read_i64
    up read_magic
    client_uuid ← up read_i64
    return (record { client_uuid = client_uuid; forward_timestamp = forward_timestamp })

  instance abbrev pub unconnected_ping_message : Message MessageUnconnectedPing
  unconnected_ping_message = record {
    serialize = serialize_unconnected_ping;
    deserialize = deserialize_unconnected_ping;
  }

  unfoldable pub serialize_already_connected : MessageAlreadyConnected → Buf MessageError (Unit {0})
  serialize_already_connected m = do
    write_header already_connected
    up write_magic
    up (write_i64 m.server_uuid)

  unfoldable pub deserialize_already_connected : Buf MessageError MessageAlreadyConnected
  deserialize_already_connected = do
    up read_magic
    server_uuid ← up read_i64
    return (record { server_uuid = server_uuid })

  instance abbrev pub already_connected_message : Message MessageAlreadyConnected
  already_connected_message = record {
    serialize = serialize_already_connected;
    deserialize = deserialize_already_connected;
  }

  unfoldable pub serialize_incompatible_protocol_version :
      MessageIncompatibleProtocolVersion → Buf MessageError (Unit {0})
  serialize_incompatible_protocol_version m = do
    write_header incompatible_protocol_version
    up (write_u8 (Version.to_u8 m.preferred_protocol))
    up write_magic
    up (write_i64 m.server_uuid)

  unfoldable pub deserialize_incompatible_protocol_version :
      Buf MessageError MessageIncompatibleProtocolVersion
  deserialize_incompatible_protocol_version = do
    version ← up read_u8
    up read_magic
    server_uuid ← up read_i64
    return (record { server_uuid = server_uuid; preferred_protocol = Version.from_u8 version })

  instance abbrev pub incompatible_protocol_version_message :
      Message MessageIncompatibleProtocolVersion
  incompatible_protocol_version_message = record {
    serialize = serialize_incompatible_protocol_version;
    deserialize = deserialize_incompatible_protocol_version;
  }

  unfoldable pub serialize_unconnected_pong : MessageUnconnectedPong → Buf MessageError (Unit {0})
  serialize_unconnected_pong m = do
    write_header unconnected_pong
    up (write_i64 m.timestamp)
    up (write_i64 m.server_uuid)
    up write_magic
    up (write_str m.motd)

  unfoldable pub deserialize_unconnected_pong : Buf MessageError MessageUnconnectedPong
  deserialize_unconnected_pong = do
    timestamp ← up read_i64
    server_uuid ← up read_i64
    up read_magic
    motd ← up read_str
    return (record { timestamp = timestamp; server_uuid = server_uuid; motd = motd })

  instance abbrev pub unconnected_pong_message : Message MessageUnconnectedPong
  unconnected_pong_message = record {
    serialize = serialize_unconnected_pong;
    deserialize = deserialize_unconnected_pong;
  }
