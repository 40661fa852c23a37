-- ===== src/Raknet/Message/Offline/Safety.antt =====
-- The readers of src/raknet/message/offline.rs on any buffer.
use trakt.Base.{ℕ, ◌+◌, ◌^◌, Bool, true, false, ltb, length, if◌then◌else◌, arith}
use trakt.Raknet.Bytes.{Bytes, BytesCrate}
use trakt.Raknet.Buf.{Buf, return, throw}
use trakt.Raknet.Version
use trakt.Raknet.Datatypes.{
  read_u8, read_bool, read_magic, read_u16, read_i64, read_str, read_address,
}
use trakt.Raknet.Datatypes.Guards.{Takes}
use trakt.Raknet.Datatypes.Safety.{
  read_u8-Takes, read_bool-Takes, read_magic-Takes, read_u16-Takes, read_i64-Takes, read_str-Takes,
  read_address-Takes,
}
use trakt.Raknet.Message.{MessageError, up-Takes, mtu_invalid_padding}
use trakt.Raknet.Message.Handshake.{
  MessageOpenConnectionRequest1, deserialize_open_connection_request1,
  deserialize_open_connection_reply1, deserialize_open_connection_request2,
  deserialize_open_connection_reply2,
}
use trakt.Raknet.Message.Offline.{
  deserialize_unconnected_ping, deserialize_already_connected,
  deserialize_incompatible_protocol_version, deserialize_unconnected_pong,
}

module _ ⦃crate : BytesCrate⦄ where
  open_connection_request1-Takes : (s : Bytes) → Takes 17 s (deserialize_open_connection_request1 s)
  unfolding deserialize_open_connection_request1
  open_connection_request1-Takes s =
      up-Takes 16 1 17 s read_magic _ (omega arith) (read_magic-Takes s) λ _ t.
        up-Takes 1 0 1 t read_u8 _ (omega arith) (read_u8-Takes t)
          λ version u. padded version u (ltb (length s + 1 + 28) (2 ^ 16))
    where
      padded :
          (version : ℕ) (u : Bytes) (b : Bool)
          → Takes 0 u (
              if◌then◌else◌ {A = Buf MessageError MessageOpenConnectionRequest1} b
                (return (record {
                  raknet_protocol = Version.from_u8 version;
                  mtu_size = length s + 1 + 28;
                }))
                (throw mtu_invalid_padding)
                u)
      padded version u true = omega arith
      padded version u false = tt

  unconnected_ping-Takes : (s : Bytes) → Takes 32 s (deserialize_unconnected_ping s)
  unfolding deserialize_unconnected_ping
  unconnected_ping-Takes s = up-Takes 8 24 32 s read_i64 _ (omega arith) (read_i64-Takes s) λ _ t.
      up-Takes 16 8 24 t read_magic _ (omega arith) (read_magic-Takes t)
        λ _ u. up-Takes 8 0 8 u read_i64 _ (omega arith) (read_i64-Takes u) λ _ v. omega arith

  open_connection_reply1-Takes : (s : Bytes) → Takes 27 s (deserialize_open_connection_reply1 s)
  unfolding deserialize_open_connection_reply1
  open_connection_reply1-Takes s =
      up-Takes 16 11 27 s read_magic _ (omega arith) (read_magic-Takes s) λ _ t.
        up-Takes 8 3 11 t read_i64 _ (omega arith) (read_i64-Takes t) λ _ u.
          up-Takes 1 2 3 u read_bool _ (omega arith) (read_bool-Takes u)
            λ _ v. up-Takes 2 0 2 v read_u16 _ (omega arith) (read_u16-Takes v) λ _ w. omega arith

  open_connection_request2-Takes : (s : Bytes) → Takes 33 s (deserialize_open_connection_request2 s)
  unfolding deserialize_open_connection_request2
  open_connection_request2-Takes s =
      up-Takes 16 17 33 s read_magic _ (omega arith) (read_magic-Takes s) λ _ t.
        up-Takes 7 10 17 t read_address _ (omega arith) (read_address-Takes t) λ _ u.
          up-Takes 2 8 10 u read_u16 _ (omega arith) (read_u16-Takes u)
            λ _ v. up-Takes 8 0 8 v read_i64 _ (omega arith) (read_i64-Takes v) λ _ w. omega arith

  open_connection_reply2-Takes : (s : Bytes) → Takes 34 s (deserialize_open_connection_reply2 s)
  unfolding deserialize_open_connection_reply2
  open_connection_reply2-Takes s =
      up-Takes 16 18 34 s read_magic _ (omega arith) (read_magic-Takes s) λ _ t.
        up-Takes 8 10 18 t read_i64 _ (omega arith) (read_i64-Takes t) λ _ u.
          up-Takes 7 3 10 u read_address _ (omega arith) (read_address-Takes u) λ _ v.
            up-Takes 2 1 3 v read_u16 _ (omega arith) (read_u16-Takes v) λ _ w.
              up-Takes 1 0 1 w read_bool _ (omega arith) (read_bool-Takes w) λ _ x. omega arith

  already_connected-Takes : (s : Bytes) → Takes 24 s (deserialize_already_connected s)
  unfolding deserialize_already_connected
  already_connected-Takes s =
      up-Takes 16 8 24 s read_magic _ (omega arith) (read_magic-Takes s)
        λ _ t. up-Takes 8 0 8 t read_i64 _ (omega arith) (read_i64-Takes t) λ _ u. omega arith

  incompatible_protocol_version-Takes :
      (s : Bytes) → Takes 25 s (deserialize_incompatible_protocol_version s)
  unfolding deserialize_incompatible_protocol_version
  incompatible_protocol_version-Takes s =
      up-Takes 1 24 25 s read_u8 _ (omega arith) (read_u8-Takes s) λ _ t.
        up-Takes 16 8 24 t read_magic _ (omega arith) (read_magic-Takes t)
          λ _ u. up-Takes 8 0 8 u read_i64 _ (omega arith) (read_i64-Takes u) λ _ v. omega arith

  pub unconnected_pong-Takes : (s : Bytes) → Takes 34 s (deserialize_unconnected_pong s)
  unfolding deserialize_unconnected_pong
  unconnected_pong-Takes s = up-Takes 8 26 34 s read_i64 _ (omega arith) (read_i64-Takes s) λ _ t.
      up-Takes 8 18 26 t read_i64 _ (omega arith) (read_i64-Takes t) λ _ u.
        up-Takes 16 2 18 u read_magic _ (omega arith) (read_magic-Takes u)
          λ _ v. up-Takes 2 0 2 v read_str _ (omega arith) (read_str-Takes v) λ _ w. omega arith

  -- Whatever bytes arrive, no reader of an offline message panics, and one that succeeds has taken
  -- at least the bytes of the fields that every such message has.
  pub offline_total :
      (s : Bytes)
      → Takes 17 s (deserialize_open_connection_request1 s)
        × Takes 32 s (deserialize_unconnected_ping s)
        × Takes 27 s (deserialize_open_connection_reply1 s)
        × Takes 33 s (deserialize_open_connection_request2 s)
        × Takes 34 s (deserialize_open_connection_reply2 s)
        × Takes 24 s (deserialize_already_connected s)
        × Takes 25 s (deserialize_incompatible_protocol_version s)
        × Takes 34 s (deserialize_unconnected_pong s)
  offline_total s = (
    open_connection_request1-Takes s,
    unconnected_ping-Takes s,
    open_connection_reply1-Takes s,
    open_connection_request2-Takes s,
    open_connection_reply2-Takes s,
    already_connected-Takes s,
    incompatible_protocol_version-Takes s,
    unconnected_pong-Takes s,
  )
