-- ===== src/Raknet/Datatypes.antt =====
-- src/raknet/datatypes.rs: reading and writing the basic values of the protocol.
-- `ReadBuf` and `WriteBuf` are the `Bytes` that they wrap; integers are their bit patterns.
pub mod Laws
pub mod Strings
pub mod Addresses
pub mod Guards
pub mod Safety
pub mod Heads
use trakt.Base.{
  ℕ, ◌-◌, ◌%◌, ◌^◌, Bool, List, [], ◌∷◌, ◌++◌, map, length, take, ltb, ◌==◌, if◌then◌else◌, list_eq,
}
use trakt.Raknet.Bytes.{Bytes, BytesCrate}
use trakt.Raknet.Endian.{le_bytes, le_value}
use trakt.Raknet.Buf.{Buf, done, fail, ◌>>=◌, ◌>>◌, bind, return, throw, or_panic}
use trakt.Raknet.Utf8.{valid}

-- Offline message marker.
abbrev pub magic : Bytes
magic =
    0x00 ∷ 0xff ∷ 0xff ∷ 0x00 ∷ 0xfe ∷ 0xfe ∷ 0xfe ∷ 0xfe ∷ 0xfd ∷ 0xfd ∷ 0xfd ∷ 0xfd ∷ 0x12 ∷ 0x34
    ∷ 0x56 ∷ 0x78 ∷ []

pub data BufError : Type 0 where
  not_enough_data invalid_magic invalid_string invalid_adrress : BufError

-- `std::net::SocketAddr`, with the octets of the address.
pub data SocketAddr : Type 0 where
  v4 : (octets : List ℕ) (port : ℕ) → SocketAddr
  v6 : (octets : List ℕ) (port flowinfo scope_id : ℕ) → SocketAddr

-- `SocketAddr::new(IpAddr::V6(ip), port)`
abbrev pub new_v6 : List ℕ → ℕ → SocketAddr
new_v6 octets port = v6 octets port 0 0

-- `!b` on a byte
abbrev pub complement : ℕ → ℕ
complement b = 255 - b

pub read_guard : ℕ → Buf BufError (Unit {0})
read_guard n s = if ltb (length s) n then fail not_enough_data else done tt s

module _ ⦃crate : BytesCrate⦄ where
  open crate use {
    get_u8, get_u16, get_u32, get_i16, get_i64, copy_to_slice, advance, put_u8, put_u16, put_u32,
    put_i16, put_i64, extend_from_slice,
  }

  pub read_u8 : Buf BufError ℕ
  read_u8 = do read_guard 1; λ s. or_panic (get_u8 s)

  pub read_bool : Buf BufError Bool
  read_bool = do read_guard 1; b ← λ s. or_panic (get_u8 s); return (b == 1)

  pub read_magic : Buf BufError (Unit {0})
  read_magic = do
    read_guard 16
    dest ← λ s. or_panic (copy_to_slice 16 s)
    if list_eq dest magic then return tt else throw invalid_magic

  pub read_i16 : Buf BufError ℕ
  read_i16 = do read_guard 2; λ s. or_panic (get_i16 s)

  pub read_u16 : Buf BufError ℕ
  read_u16 = do read_guard 2; λ s. or_panic (get_u16 s)

  pub read_u24 : Buf BufError ℕ
  read_u24 = do
    read_guard 3
    bytes ← λ s. or_panic (copy_to_slice 3 s)
    return (le_value (bytes ++ (0 ∷ [])))

  pub read_u32 : Buf BufError ℕ
  read_u32 = do read_guard 4; λ s. or_panic (get_u32 s)

  pub read_i64 : Buf BufError ℕ
  read_i64 = do read_guard 8; λ s. or_panic (get_i64 s)

  pub read_str : Buf BufError Bytes
  read_str = do
    read_guard 2
    len ← λ s. or_panic (get_u16 s)
    read_guard len
    bytes ← λ s. or_panic (copy_to_slice len s)
    if valid bytes then return bytes else throw invalid_string

  read_v4 : Buf BufError SocketAddr
  read_v4 = do
    read_guard 6
    bytes ← λ s. or_panic (copy_to_slice 4 s)
    port ← λ s. or_panic (get_u16 s)
    return (v4 (map complement bytes) port)

  read_v6 : Buf BufError SocketAddr
  read_v6 = do
    read_guard 28
    λ s. or_panic (advance 2 s)
    port ← λ s. or_panic (get_u16 s)
    λ s. or_panic (advance 4 s)
    bytes ← λ s. or_panic (copy_to_slice 16 s)
    λ s. or_panic (advance 4 s)
    return (new_v6 bytes port)

  pub read_address : Buf BufError SocketAddr
  unfolding read_v4 read_v6
  read_address = do
    read_guard 1
    ip_variant ← read_u8
    if ip_variant == 4 then read_v4 else if ip_variant == 6 then read_v6 else throw invalid_adrress

  -- The filled buffer is returned; `n` is its length.
  pub read_bytes : ℕ → Buf BufError Bytes
  read_bytes n = do read_guard n; λ s. or_panic (copy_to_slice n s)

  pub write_u8 : ℕ → Buf BufError (Unit {0})
  write_u8 value s = done tt (put_u8 s value)

  pub write_bool : Bool → Buf BufError (Unit {0})
  write_bool value s = done tt (put_u8 s (if value then 1 else 0))

  pub write_magic : Buf BufError (Unit {0})
  write_magic s = done tt (extend_from_slice s magic)

  pub write_i16 : ℕ → Buf BufError (Unit {0})
  write_i16 value s = done tt (put_i16 s value)

  pub write_u16 : ℕ → Buf BufError (Unit {0})
  write_u16 value s = done tt (put_u16 s value)

  pub write_u24 : ℕ → Buf BufError (Unit {0})
  write_u24 value s = done tt (extend_from_slice s (take 3 (le_bytes 4 value)))

  pub write_u32 : ℕ → Buf BufError (Unit {0})
  write_u32 value s = done tt (put_u32 s value)

  pub write_i64 : ℕ → Buf BufError (Unit {0})
  write_i64 value s = done tt (put_i64 s value)

  -- `bytes.len() as u16` keeps the low 16 bits.
  pub write_str : Bytes → Buf BufError (Unit {0})
  write_str bytes s = done tt (extend_from_slice (put_u16 s (length bytes % 2 ^ 16)) bytes)

  -- The last `else` of the source is for variants that `SocketAddr` does not have.
  pub write_address : SocketAddr → Buf BufError (Unit {0})
  write_address (v4 octets port) s =
      done tt (put_u16 (extend_from_slice (put_u8 s 4) (map complement octets)) port)
  write_address (v6 octets port flowinfo scope_id) s =
      done tt
        (put_u32 (extend_from_slice (put_u32 (put_u16 (put_u16 (put_u8 s 6) 0) port) 0) octets) 0)
