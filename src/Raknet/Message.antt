-- ===== src/Raknet/Message.antt =====
-- src/raknet/message/mod.rs: the packet ids, the `Message` trait and its errors.
pub mod Ids
pub mod Handshake
pub mod Offline
pub mod Online
use trakt.Base.{ℕ, ◌+◌, ◌≤◌, ◌≡◌, ◌==◌, if◌then◌else◌, Option, none, some, [], ◌∷◌, ◌++◌}
use trakt.Raknet.Bytes.{Bytes, BytesCrate}
use trakt.Raknet.Buf.{Buf, Outcome, done, bind, map_err}
use trakt.Raknet.Datatypes.Guards.{Takes, bind-Takes, map_err-Takes}
use trakt.Raknet.Datatypes.{BufError, write_u8}

pub data MessageError : Type 0 where
  mtu_invalid_padding invalid_frame zero_size : MessageError
  buf_error : BufError → MessageError
  unknown_realibility : ℕ → MessageError

-- `?` on a method of the buffer, through `From<BufError>`.
abbrev pub up : {A : Type 0} → Buf BufError A → Buf MessageError A
up m s = map_err buf_error (m s)

pub record Message (A : Type 0) : Type 0 where
  pub serialize : A → Buf MessageError (Unit {0})
  pub deserialize : Buf MessageError A

-- The bytes that `serialize` writes into an empty buffer; the buffer is the result.
unfoldable pub to_bytes : {A : Type 0} ⦃message : Message A⦄ → A → Outcome MessageError (Unit {0})
to_bytes ⦃message⦄ a = message.serialize a []

pub data RaknetMessage : Type 0 where
  connected_ping unconnected_ping unconnected_ping_open_connections connected_pong : RaknetMessage
  detect_lost_connection open_connection_request1 open_connection_reply1 : RaknetMessage
  open_connection_request2 open_connection_reply2 connection_request : RaknetMessage
  connection_request_accepted connection_request_failed already_connected : RaknetMessage
  new_incoming_connection no_free_incoming_connection disconnect_notification : RaknetMessage
  connection_lost connection_banned incompatible_protocol_version unconnected_pong : RaknetMessage

unfoldable pub from_u8 : ℕ → Option RaknetMessage
from_u8 value =
    if value == 0x00
    then some connected_ping
    else if value == 0x01
    then some unconnected_ping
    else if value == 0x02
    then some unconnected_ping_open_connections
    else if value == 0x03
    then some connected_pong
    else if value == 0x04
    then some detect_lost_connection
    else if value == 0x05
    then some open_connection_request1
    else if value == 0x06
    then some open_connection_reply1
    else if value == 0x07
    then some open_connection_request2
    else if value == 0x08
    then some open_connection_reply2
    else if value == 0x09
    then some connection_request
    else if value == 0x10
    then some connection_request_accepted
    else if value == 0x11
    then some connection_request_failed
    else if value == 0x12
    then some already_connected
    else if value == 0x13
    then some new_incoming_connection
    else if value == 0x14
    then some no_free_incoming_connection
    else if value == 0x15
    then some disconnect_notification
    else if value == 0x16
    then some connection_lost
    else if value == 0x17
    then some connection_banned
    else if value == 0x19
    then some incompatible_protocol_version
    else if value == 0x1c
    then some unconnected_pong
    else none

unfoldable pub to_u8 : RaknetMessage → ℕ
to_u8 connected_ping = 0x00
to_u8 unconnected_ping = 0x01
to_u8 unconnected_ping_open_connections = 0x02
to_u8 connected_pong = 0x03
to_u8 detect_lost_connection = 0x04
to_u8 open_connection_request1 = 0x05
to_u8 open_connection_reply1 = 0x06
to_u8 open_connection_request2 = 0x07
to_u8 open_connection_reply2 = 0x08
to_u8 connection_request = 0x09
to_u8 connection_request_accepted = 0x10
to_u8 connection_request_failed = 0x11
to_u8 already_connected = 0x12
to_u8 new_incoming_connection = 0x13
to_u8 no_free_incoming_connection = 0x14
to_u8 disconnect_notification = 0x15
to_u8 connection_lost = 0x16
to_u8 connection_banned = 0x17
to_u8 incompatible_protocol_version = 0x19
to_u8 unconnected_pong = 0x1c

module _ ⦃crate : BytesCrate⦄ where
  pub write_header : RaknetMessage → Buf MessageError (Unit {0})
  write_header packet_type = up (write_u8 (to_u8 packet_type))

-- What a message says on the wire: `to_bytes` succeeds with the id of its kind and a body, and
-- `deserialize` takes exactly that body off, with `back` for a result.
abbrev pub ReadsBack : {A : Type 0} ⦃message : Message A⦄ → RaknetMessage → A → A → Bytes → Type 0
ReadsBack ⦃message⦄ kind a back rest =
    (body : Bytes) × (to_bytes a ≡ done tt (to_u8 kind ∷ body))
    × (message.deserialize (body ++ rest) ≡ done back rest)

-- A step of a reader of messages takes its own bytes and those of what follows.
pub up-Takes :
    {A B : Type 0} (m n k : ℕ) (s : Bytes) (r : Buf BufError A) (f : A → Buf MessageError B)
    → k ≤ m + n
    → Takes m s (r s)
    → ((a : A) (t : Bytes) → Takes n t (f a t))
    → Takes k s (bind (up r s) f)
up-Takes m n k s r f le h g = bind-Takes m n k s _ f le (map_err-Takes buf_error m s (r s) h) g
