-- ===== src/Raknet/Message/Offline/Mtu.antt =====
-- The size of an open connection request 1 in src/raknet/message/offline.rs.
use trakt.Base.{
  ℕ, ◌+◌, ◌^◌, ◌<◌, ◌≡◌, ◌∷◌, ◌++◌, append_assoc, arith, length, length-append, replicate, ltb,
  if◌then◌else◌, Bool-cases, inl, inr,
}
use trakt.Raknet.Bytes.{Bytes, BytesCrate}
use trakt.Raknet.Endian.{be_bytes, le_bytes, length-be_bytes}
use trakt.Raknet.Buf.{done, fail}
use trakt.Raknet.Version
use trakt.Raknet.Version.{IsProtocol}
use trakt.Raknet.Datatypes.{magic}
use trakt.Raknet.Datatypes.Laws.{writes, read_u8_lem, read_magic_lem}
use trakt.Raknet.Message.{mtu_invalid_padding, to_bytes, to_u8, open_connection_request1}
use trakt.Raknet.Message.Ids.{write_header_lem}
use trakt.Raknet.Message.Handshake.{
  MessageOpenConnectionRequest1, serialize_open_connection_request1,
  deserialize_open_connection_request1, open_connection_request1_message,
}

-- The length of a request body with `n` bytes of padding.
request_length :
    (v : ℕ) (padding : Bytes) → length (magic ++ (be_bytes 1 v ++ padding)) ≡ length padding + 17
request_length v padding = omega (
  arith,
  length-append magic (be_bytes 1 v ++ padding),
  length-append (be_bytes 1 v) padding,
  length-be_bytes 1 v,
)

module _ ⦃crate : BytesCrate⦄ where
  open crate use {extend_from_slice_lem}

  -- A request that is padded with `padding` is read with the MTU 46 + the padding's length: the
  -- packet's own 18 bytes, the padding, and 28 bytes of IP and UDP headers. One that does not fit 16
  -- bits is refused. The padding stays in the buffer.
  request_mtu :
      (v : ℕ) (padding : Bytes)
      → v < 256
      → deserialize_open_connection_request1 (magic ++ (be_bytes 1 v ++ padding)) ≡ (
          if ltb (length padding + 46) (2 ^ 16)
          then done
              (record { raknet_protocol = Version.from_u8 v; mtu_size = length padding + 46 })
              padding
          else fail mtu_invalid_padding)
  unfolding deserialize_open_connection_request1
  request_mtu v padding h =
      simp (read_magic_lem, read_u8_lem, h)
        (rw (request_length, sum (length padding))
          (elim (Bool-cases (ltb (length padding + 46) (2 ^ 16))) [
            | inl fits ↦ rw fits
            | inr too_long ↦ rw too_long
          ]))
    where
      sum : (n : ℕ) → n + 17 + 1 + 28 ≡ n + 46
      sum n = omega arith

  -- What is sent does not depend on `mtu_size`: the request has 46 bytes of padding, and the
  -- peer reads the MTU 92.
  pub open_connection_request1-ReadsBack :
      (m : MessageOpenConnectionRequest1)
      → IsProtocol m.raknet_protocol
      → (body : Bytes) × (to_bytes m ≡ done tt (to_u8 open_connection_request1 ∷ body))
        × (deserialize_open_connection_request1 body
            ≡ done (record m { mtu_size = 92 }) (replicate 46 0))
  unfolding to_bytes serialize_open_connection_request1 to_u8 be_bytes le_bytes
  open_connection_request1-ReadsBack m (fits, known) = (
    magic ++ (be_bytes 1 (Version.to_u8 m.raknet_protocol) ++ replicate 46 0),
    simp (write_header_lem, writes, append_assoc, extend_from_slice_lem),
    rw (request_mtu (Version.to_u8 m.raknet_protocol) (replicate 46 0) fits) (rw known),
  )
