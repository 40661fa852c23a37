-- ===== src/Raknet/Datatypes/Addresses.antt =====
-- `write_address` and `read_address` of src/raknet/datatypes.rs.
use trakt.Base.{
  ℕ, ◌^◌, ◌≤◌, ◌<◌, ◌≡◌, refl, sym, ap, ◌∙◌, some, List, [], ◌∷◌, ◌++◌, map, append_assoc, arith,
  length, length-append, length-map, All,
}
use mathlib.Core.Path.{ap₂}
use trakt.Raknet.Bytes.{Bytes, BytesCrate}
use trakt.Raknet.Endian.{IsByte, be_bytes, length-be_bytes, be_value-be_bytes}
use trakt.Raknet.Buf.{done}
use trakt.Raknet.Datatypes.{
  SocketAddr, v4, v6, new_v6, complement, read_v4, read_v6, read_address, write_address,
}
use trakt.Raknet.Datatypes.Laws.{read_guard_enough, read_u8_lem, copy_exact}

-- An address that the program can hold: octets of the right number, and a 16-bit port.
abbrev pub IsAddress : SocketAddr → Type 0
IsAddress (v4 octets port) = (length octets ≡ 4) × All IsByte octets × (port < 2 ^ 16)
IsAddress (v6 octets port flowinfo scope_id) = (length octets ≡ 16) × (port < 2 ^ 16)

-- What the wire keeps of an address: the flow label and the scope of an IPv6 address are lost.
abbrev pub on_wire : SocketAddr → SocketAddr
on_wire (v4 octets port) = v4 octets port
on_wire (v6 octets port flowinfo scope_id) = new_v6 octets port

unfoldable pub address_bytes : SocketAddr → Bytes
address_bytes (v4 octets port) = be_bytes 1 4 ++ (map complement octets ++ be_bytes 2 port)
address_bytes (v6 octets port flowinfo scope_id) =
    be_bytes 1 6
    ++ (be_bytes 2 0 ++ (be_bytes 2 port ++ (be_bytes 4 0 ++ (octets ++ be_bytes 4 0))))

complement_twice : (bs : List ℕ) → All IsByte bs → map complement (map complement bs) ≡ bs
complement_twice [] h = refl
complement_twice (b ∷ bs) h = ap₂ ◌∷◌ (omega arith) (complement_twice bs h.1)

pub length-address_bytes : (a : SocketAddr) → IsAddress a → 7 ≤ length (address_bytes a)
unfolding address_bytes
length-address_bytes (v4 octets port) h = omega (
  arith,
  length-append (be_bytes 1 4) (map complement octets ++ be_bytes 2 port),
  length-append (map complement octets) (be_bytes 2 port),
  length-map octets complement,
  length-be_bytes 1 4,
  length-be_bytes 2 port,
)
length-address_bytes (v6 octets port flowinfo scope_id) h = omega (
  arith,
  length-append (be_bytes 1 6)
      (be_bytes 2 0 ++ (be_bytes 2 port ++ (be_bytes 4 0 ++ (octets ++ be_bytes 4 0)))),
  length-append (be_bytes 2 0) (be_bytes 2 port ++ (be_bytes 4 0 ++ (octets ++ be_bytes 4 0))),
  length-append (be_bytes 2 port) (be_bytes 4 0 ++ (octets ++ be_bytes 4 0)),
  length-append (be_bytes 4 0) (octets ++ be_bytes 4 0),
  length-append octets (be_bytes 4 0),
  length-be_bytes 1 6,
  length-be_bytes 2 0,
  length-be_bytes 2 port,
  length-be_bytes 4 0,
)

module _ ⦃crate : BytesCrate⦄ where
  open crate use {
    get_u16_lem, put_u8_lem, put_u16_lem, put_u32_lem, extend_from_slice_lem, advance_lem, advance,
  }

  pub write_address_lem :
      (a : SocketAddr) (s : Bytes) → write_address a s ≡ done tt (s ++ address_bytes a)
  unfolding write_address address_bytes
  write_address_lem (v4 octets port) s =
      simp (put_u8_lem, put_u16_lem, extend_from_slice_lem, append_assoc)
  write_address_lem (v6 octets port flowinfo scope_id) s =
      simp (put_u8_lem, put_u16_lem, put_u32_lem, extend_from_slice_lem, append_assoc)

  advance_exact :
      (n : ℕ) (bs rest : Bytes) → length bs ≡ n → advance n (bs ++ rest) ≡ some (tt, rest)
  advance_exact n bs rest h = ap (λ (k : ℕ). advance k (bs ++ rest)) (sym h) ∙ advance_lem bs rest

  read_v4_lem :
      (octets : List ℕ) (port : ℕ) (rest : Bytes)
      → IsAddress (v4 octets port)
      → read_v4 (map complement octets ++ (be_bytes 2 port ++ rest)) ≡ done (v4 octets port) rest
  unfolding read_v4
  read_v4_lem octets port rest (four, bytes, fits) = rw (
    read_guard_enough 6 (map complement octets ++ (be_bytes 2 port ++ rest)) (
        omega (
          arith,
          length-append (map complement octets) (be_bytes 2 port ++ rest),
          length-append (be_bytes 2 port) rest,
          length-map octets complement,
          length-be_bytes 2 port,
        )),
    copy_exact 4 (map complement octets) (be_bytes 2 port ++ rest)
        (length-map octets complement ∙ four),
    get_u16_lem.0 (be_bytes 2 port) rest (length-be_bytes 2 port),
    be_value-be_bytes 2 port fits,
    complement_twice octets bytes,
  )

  read_v6_lem :
      (octets : List ℕ) (port flowinfo scope_id : ℕ) (rest : Bytes)
      → IsAddress (v6 octets port flowinfo scope_id)
      → read_v6 (
          be_bytes 2 0 ++ (be_bytes 2 port ++ (be_bytes 4 0 ++ (octets ++ (be_bytes 4 0 ++ rest)))))
        ≡ done (new_v6 octets port) rest
  unfolding read_v6
  read_v6_lem octets port flowinfo scope_id rest (sixteen, fits) = rw (
    read_guard_enough 28 (be_bytes 2 0 ++ after) (
        omega (
          arith,
          length-append (be_bytes 2 0) after,
          length-append (be_bytes 2 port) (be_bytes 4 0 ++ (octets ++ (be_bytes 4 0 ++ rest))),
          length-append (be_bytes 4 0) (octets ++ (be_bytes 4 0 ++ rest)),
          length-append octets (be_bytes 4 0 ++ rest),
          length-append (be_bytes 4 0) rest,
          length-be_bytes 2 0,
          length-be_bytes 2 port,
          length-be_bytes 4 0,
        )),
    advance_exact 2 (be_bytes 2 0) after (length-be_bytes 2 0),
    get_u16_lem.0 (be_bytes 2 port) (be_bytes 4 0 ++ (octets ++ (be_bytes 4 0 ++ rest)))
        (length-be_bytes 2 port),
    be_value-be_bytes 2 port fits,
    advance_exact 4 (be_bytes 4 0) (octets ++ (be_bytes 4 0 ++ rest)) (length-be_bytes 4 0),
    copy_exact 16 octets (be_bytes 4 0 ++ rest) sixteen,
    advance_exact 4 (be_bytes 4 0) rest (length-be_bytes 4 0),
  )
    where
      after : Bytes
      after = be_bytes 2 port ++ (be_bytes 4 0 ++ (octets ++ (be_bytes 4 0 ++ rest)))

  pub read_address_lem :
      (a : SocketAddr) (rest : Bytes)
      → IsAddress a
      → read_address (address_bytes a ++ rest) ≡ done (on_wire a) rest
  unfolding read_address address_bytes
  read_address_lem (v4 octets port) rest h =
      rw
        (
          append_assoc (be_bytes 1 4) (map complement octets ++ be_bytes 2 port) rest,
          append_assoc (map complement octets) (be_bytes 2 port) rest,
          read_guard_enough 1 (be_bytes 1 4 ++ (map complement octets ++ (be_bytes 2 port ++ rest)))
              (omega (
                arith,
                length-append (be_bytes 1 4) (map complement octets ++ (be_bytes 2 port ++ rest)),
                length-be_bytes 1 4,
              )),
          read_u8_lem 4 (map complement octets ++ (be_bytes 2 port ++ rest)) (omega arith),
        )
        (read_v4_lem octets port rest h)
  read_address_lem (v6 octets port flowinfo scope_id) rest h = simp append_assoc (
      rw
        (
          read_guard_enough 1 (be_bytes 1 6 ++ after)
              (omega (arith, length-append (be_bytes 1 6) after, length-be_bytes 1 6)),
          read_u8_lem 6 after (omega arith),
        )
        (read_v6_lem octets port flowinfo scope_id rest h))
    where
      after : Bytes
      after =
          be_bytes 2 0 ++ (be_bytes 2 port ++ (be_bytes 4 0 ++ (octets ++ (be_bytes 4 0 ++ rest))))

  -- An address that the program can hold is written as bytes that are read back, whatever follows
  -- them: an IPv4 address as it was, an IPv6 address with its flow label and its scope set to 0.
  read_address-write_address :
      (a : SocketAddr) (rest : Bytes)
      → IsAddress a
      → (bytes : Bytes) × (write_address a [] ≡ done tt bytes)
        × (read_address (bytes ++ rest) ≡ done (on_wire a) rest)
  read_address-write_address a rest h =
      (address_bytes a, write_address_lem a [], read_address_lem a rest h)
