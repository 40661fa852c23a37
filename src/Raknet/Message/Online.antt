-- ===== src/Raknet/Message/Online.antt =====
-- src/raknet/message/online.rs: the messages that open a Raknet connection.
-- An `i64` field is the number of its 64 bits.
pub mod Skip
pub mod RoundTrip
pub mod All
pub mod Panics
use trakt.Base.{ℕ, zero, suc, Bool, [], ◌∷◌, length, ltb, ◌==◌, if◌then◌else◌}
use trakt.Raknet.Bytes.{BytesCrate}
use trakt.Raknet.Buf.{Buf, done, fail, bind, ◌>>=◌, ◌>>◌, return, or_panic}
use trakt.Raknet.Datatypes.{
  SocketAddr, v4, invalid_adrress, read_bool, read_i64, read_address, write_bool, write_u16,
  write_i64, write_address,
}
use trakt.Raknet.Message.{
  Message, MessageError, buf_error, up, write_header, connected_ping, connected_pong,
  connection_request, connection_request_accepted, new_incoming_connection,
}

pub record MessageConnectedPing : Type 0 where
  pub timestamp : ℕ

pub record MessageConnectedPong : Type 0 where
  pub ping_timestamp : ℕ
  pub pong_timestamp : ℕ

pub record MessageConnectionRequest : Type 0 where
  pub client_uuid : ℕ
  pub forward_timestamp : ℕ
  pub use_encryption : Bool

pub record MessageConnectionRequestAccepted : Type 0 where
  pub client_address : SocketAddr
  pub request_timestamp : ℕ
  pub accept_timestamp : ℕ

pub record MessageNewIncomingConnection : Type 0 where
  pub server_address : SocketAddr
  pub request_timestamp : ℕ
  pub accept_timestamp : ℕ

-- `get_bogus_system_address`
abbrev pub bogus_system_address : SocketAddr
bogus_system_address = v4 (255 ∷ 255 ∷ 255 ∷ 255 ∷ []) 19132

module _ ⦃crate : BytesCrate⦄ where
  open crate use {advance}

  -- `for _ in 0..n`
  unfoldable pub write_addresses : ℕ → SocketAddr → Buf MessageError (Unit {0})
  write_addresses zero a = return tt
  write_addresses (suc n) a = do up (write_address a); write_addresses n a

  -- The tests behind `read_address` in the loop over the internal addresses.
  unfoldable pub after_address : Buf MessageError (Unit {0}) → Buf MessageError (Unit {0})
  after_address onward s =
      let rest = onward s in
      if length s == 16
      then done tt s
      else (if ltb (length s) 16 then fail (buf_error invalid_adrress) else rest)

  -- The fuel counts the rounds that may follow. A round takes bytes, so the length of the buffer is
  -- enough.
  unfoldable pub skip_addresses : ℕ → Buf MessageError (Unit {0})
  unfolding after_address
  skip_addresses zero s = bind (up read_address s) λ a. after_address (return tt)
  skip_addresses (suc fuel) s =
      bind (up read_address s) λ a t. after_address (skip_addresses fuel) t

  unfoldable pub skip_all : Buf MessageError (Unit {0})
  unfolding skip_addresses
  skip_all s = skip_addresses (length s) s

  unfoldable pub serialize_connected_ping : MessageConnectedPing → Buf MessageError (Unit {0})
  serialize_connected_ping m = do write_header connected_ping; up (write_i64 m.timestamp)

  unfoldable pub deserialize_connected_ping : Buf MessageError MessageConnectedPing
  deserialize_connected_ping = do timestamp ← up read_i64; return (record { timestamp = timestamp })

  instance abbrev pub connected_ping_message : Message MessageConnectedPing
  connected_ping_message = record {
    serialize = serialize_connected_ping;
    deserialize = deserialize_connected_ping;
  }

  unfoldable pub serialize_connected_pong : MessageConnectedPong → Buf MessageError (Unit {0})
  serialize_connected_pong m = do
    write_header connected_pong
    up (write_i64 m.ping_timestamp)
    up (write_i64 m.pong_timestamp)

  unfoldable pub deserialize_connected_pong : Buf MessageError MessageConnectedPong
  deserialize_connected_pong = do
    ping_timestamp ← up read_i64
    pong_timestamp ← up read_i64
    return (record { ping_timestamp = ping_timestamp; pong_timestamp = pong_timestamp })

  instance abbrev pub connected_pong_message : Message MessageConnectedPong
  connected_pong_message = record {
    serialize = serialize_connected_pong;
    deserialize = deserialize_connected_pong;
  }

  unfoldable pub serialize_connection_request :
      MessageConnectionRequest → Buf MessageError (Unit {0})
  serialize_connection_request m = do
    write_header connection_request
    up (write_i64 m.client_uuid)
    up (write_i64 m.forward_timestamp)
    up (write_bool m.use_encryption)

  unfoldable pub deserialize_connection_request : Buf MessageError MessageConnectionRequest
  deserialize_connection_request = do
    client_uuid ← up read_i64
    forward_timestamp ← up read_i64
    use_encryption ← up read_bool
    return (record {
      client_uuid = client_uuid;
      forward_timestamp = forward_timestamp;
      use_encryption = use_encryption;
    })

  instance abbrev pub connection_request_message : Message MessageConnectionRequest
  connection_request_message = record {
    serialize = serialize_connection_request;
    deserialize = deserialize_connection_request;
  }

  unfoldable pub serialize_connection_request_accepted :
      MessageConnectionRequestAccepted → Buf MessageError (Unit {0})
  serialize_connection_request_accepted m = do
    write_header connection_request_accepted
    up (write_address m.client_address)
    up (write_u16 0)
    write_addresses 10 bogus_system_address
    up (write_i64 m.request_timestamp)
    up (write_i64 m.accept_timestamp)

  -- The system index is skipped by `advance`, with no guard.
  unfoldable pub deserialize_connection_request_accepted :
      Buf MessageError MessageConnectionRequestAccepted
  deserialize_connection_request_accepted = do
    client_address ← up read_address
    λ s. or_panic (advance 2 s)
    skip_all
    request_timestamp ← up read_i64
    accept_timestamp ← up read_i64
    return (record {
      client_address = client_address;
      request_timestamp = request_timestamp;
      accept_timestamp = accept_timestamp;
    })

  instance abbrev pub connection_request_accepted_message : Message MessageConnectionRequestAccepted
  connection_request_accepted_message = record {
    serialize = serialize_connection_request_accepted;
    deserialize = deserialize_connection_request_accepted;
  }

  unfoldable pub serialize_new_incoming_connection :
      MessageNewIncomingConnection → Buf MessageError (Unit {0})
  serialize_new_incoming_connection m = do
    write_header new_incoming_connection
    up (write_address m.server_address)
    write_addresses 10 bogus_system_address
    up (write_i64 m.request_timestamp)
    up (write_i64 m.accept_timestamp)

  unfoldable pub deserialize_new_incoming_connection : Buf MessageError MessageNewIncomingConnection
  deserialize_new_incoming_connection = do
    server_address ← up read_address
    skip_all
    request_timestamp ← up read_i64
    accept_timestamp ← up read_i64
    return (record {
      server_address = server_address;
      request_timestamp = request_timestamp;
      accept_timestamp = accept_timestamp;
    })

  instance abbrev pub new_incoming_connection_message : Message MessageNewIncomingConnection
  new_incoming_connection_message = record {
    serialize = serialize_new_incoming_connection;
    deserialize = deserialize_new_incoming_connection;
  }
