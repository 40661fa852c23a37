-- ===== src/Raknet/Message/Online/RoundTrip.antt =====
-- The two messages with internal addresses of src/raknet/message/online.rs, written and read.
use trakt.Base.{
  some, ℕ, ◌^◌, ◌<◌, ◌++◌, ◌≡◌, [], append_assoc, append-nil, length, length-append, arith,
}
use trakt.Raknet.Bytes.{Bytes, BytesCrate}
use trakt.Raknet.Endian.{be_bytes, length-be_bytes}
use trakt.Raknet.Buf.{done}
use trakt.Raknet.Datatypes.Laws.{writes, read_i64_lem}
use trakt.Raknet.Datatypes.Addresses.{
  IsAddress, on_wire, address_bytes, write_address_lem, read_address_lem,
}
use trakt.Raknet.Message.{
  ReadsBack, to_bytes, to_u8, new_incoming_connection, connection_request_accepted,
}
use trakt.Raknet.Message.Ids.{write_header_lem}
use trakt.Raknet.Message.Online.{
  skip_all, bogus_system_address, MessageNewIncomingConnection, serialize_new_incoming_connection,
  deserialize_new_incoming_connection, new_incoming_connection_message,
  MessageConnectionRequestAccepted, serialize_connection_request_accepted,
  deserialize_connection_request_accepted, connection_request_accepted_message,
}
use trakt.Raknet.Message.Online.Skip.{copies, skip_all_ten, write_addresses_lem}

module _ ⦃crate : BytesCrate⦄ where
  open crate use {advance, advance_lem}

  advance_two : (rest : Bytes) → advance 2 (be_bytes 2 0 ++ rest) ≡ some (tt, rest)
  unfolding be_bytes
  advance_two rest = advance_lem (be_bytes 2 0) rest

  stamps : ℕ → ℕ → Bytes
  stamps a b = be_bytes 8 a ++ (be_bytes 8 b ++ [])

  length-stamps : (a b : ℕ) → length (stamps a b) ≡ 16
  unfolding stamps
  length-stamps a b = omega (
    arith,
    length-append (be_bytes 8 a) (be_bytes 8 b ++ []),
    length-append (be_bytes 8 b) [],
    length-be_bytes 8 a,
    length-be_bytes 8 b,
  )

  skip_to_stamps :
      (a b : ℕ)
      → skip_all (copies 10 bogus_system_address ++ (be_bytes 8 a ++ (be_bytes 8 b ++ [])))
        ≡ done tt (be_bytes 8 a ++ (be_bytes 8 b ++ []))
  unfolding stamps
  skip_to_stamps a b =
      skip_all_ten bogus_system_address (stamps a b) (omega arith) (length-stamps a b)

  read_incoming :
      (m : MessageNewIncomingConnection)
      → IsAddress m.server_address
      → m.request_timestamp < 2 ^ 64
      → m.accept_timestamp < 2 ^ 64
      → deserialize_new_incoming_connection (
          address_bytes m.server_address
          ++ (copies 10 bogus_system_address
              ++ (be_bytes 8 m.request_timestamp ++ (be_bytes 8 m.accept_timestamp ++ []))))
        ≡ done (record m { server_address = on_wire m.server_address }) []
  unfolding deserialize_new_incoming_connection
  read_incoming m h1 h2 h3 = simp (read_address_lem, skip_to_stamps, read_i64_lem, h1, h2, h3)

  read_accepted :
      (m : MessageConnectionRequestAccepted)
      → IsAddress m.client_address
      → m.request_timestamp < 2 ^ 64
      → m.accept_timestamp < 2 ^ 64
      → deserialize_connection_request_accepted (
          address_bytes m.client_address
          ++ (be_bytes 2 0
              ++ (copies 10 bogus_system_address
                  ++ (be_bytes 8 m.request_timestamp ++ (be_bytes 8 m.accept_timestamp ++ [])))))
        ≡ done (record m { client_address = on_wire m.client_address }) []
  unfolding deserialize_connection_request_accepted
  read_accepted m h1 h2 h3 =
      simp (read_address_lem, advance_two, skip_to_stamps, read_i64_lem, h1, h2, h3)

  -- A new incoming connection whose fields fit is read back when nothing follows it, but for the flow
  -- label and the scope of an IPv6 address: the loop over the internal addresses finds their end.
  pub new_incoming_connection-ReadsBack :
      (m : MessageNewIncomingConnection)
      → IsAddress m.server_address
      → m.request_timestamp < 2 ^ 64
      → m.accept_timestamp < 2 ^ 64
      → ReadsBack new_incoming_connection m
          (record m { server_address = on_wire m.server_address })
          []
  unfolding to_bytes serialize_new_incoming_connection to_u8 be_bytes
  new_incoming_connection-ReadsBack m h1 h2 h3 =
      let body =
        address_bytes m.server_address
        ++ (copies 10 bogus_system_address
            ++ (be_bytes 8 m.request_timestamp ++ (be_bytes 8 m.accept_timestamp ++ []))) in
      (
        body,
        simp (write_header_lem, writes, write_address_lem, write_addresses_lem, append_assoc),
        rw (append-nil body) (read_incoming m h1 h2 h3),
      )

  -- An accepted connection request whose fields fit is read back when nothing follows it, but for
  -- the flow label and the scope of an IPv6 address: the system index is written as 0 and skipped,
  -- and the loop over the internal addresses finds their end.
  pub connection_request_accepted-ReadsBack :
      (m : MessageConnectionRequestAccepted)
      → IsAddress m.client_address
      → m.request_timestamp < 2 ^ 64
      → m.accept_timestamp < 2 ^ 64
      → ReadsBack connection_request_accepted m
          (record m { client_address = on_wire m.client_address })
          []
  unfolding to_bytes serialize_connection_request_accepted to_u8 be_bytes
  connection_request_accepted-ReadsBack m h1 h2 h3 =
      let body =
        address_bytes m.client_address
        ++ (be_bytes 2 0
            ++ (copies 10 bogus_system_address
                ++ (be_bytes 8 m.request_timestamp ++ (be_bytes 8 m.accept_timestamp ++ [])))) in
      (
        body,
        simp (write_header_lem, writes, write_address_lem, write_addresses_lem, append_assoc),
        rw (append-nil body) (read_accepted m h1 h2 h3),
      )
