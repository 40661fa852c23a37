-- ===== src/Raknet/Bytes.antt =====
-- The `bytes` crate, which src/raknet only calls. A `Bytes` or `BytesMut` is the list of the bytes
-- that it holds from its cursor on, so `remaining` and `len` are its length. `none` is a panic.
use trakt.Base.{ℕ, ◌<◌, ◌≡◌, List, ◌++◌, Option, none, some, length}
use trakt.Raknet.Endian.{be_bytes, be_value}

abbrev pub Bytes : Type 0
Bytes = List ℕ

-- An integer of `n` bytes is read in big-endian order, and reading past the end panics.
abbrev pub Gets : ℕ → (Bytes → Option (ℕ × Bytes)) → Type 0
Gets n get =
    ((bs rest : Bytes) → length bs ≡ n → get (bs ++ rest) ≡ some (be_value bs, rest))
    × ((bs : Bytes) → length bs < n → get bs ≡ none)

-- An integer is appended as its `n` bytes in big-endian order.
abbrev pub Puts : ℕ → (Bytes → ℕ → Bytes) → Type 0
Puts n put = (buf : Bytes) (v : ℕ) → put buf v ≡ buf ++ be_bytes n v

-- The methods of `Buf` and `BufMut` that the program calls, with their documented behaviour.
-- A signed integer is given by its two's complement pattern.
pub record BytesCrate : Type 0 where
  pub get_u8 : Bytes → Option (ℕ × Bytes)
  pub get_u16 : Bytes → Option (ℕ × Bytes)
  pub get_u32 : Bytes → Option (ℕ × Bytes)
  pub get_i16 : Bytes → Option (ℕ × Bytes)
  pub get_i64 : Bytes → Option (ℕ × Bytes)
  pub copy_to_slice : ℕ → Bytes → Option (Bytes × Bytes)
  pub advance : ℕ → Bytes → Option (Unit {0} × Bytes)
  pub put_u8 : Bytes → ℕ → Bytes
  pub put_u16 : Bytes → ℕ → Bytes
  pub put_u32 : Bytes → ℕ → Bytes
  pub put_i16 : Bytes → ℕ → Bytes
  pub put_i64 : Bytes → ℕ → Bytes
  pub extend_from_slice : Bytes → Bytes → Bytes
  pub get_u8_lem : Gets 1 get_u8
  pub get_u16_lem : Gets 2 get_u16
  pub get_u32_lem : Gets 4 get_u32
  pub get_i16_lem : Gets 2 get_i16
  pub get_i64_lem : Gets 8 get_i64
  pub copy_to_slice_lem :
      (bs rest : Bytes) → copy_to_slice (length bs) (bs ++ rest) ≡ some (bs, rest)
  pub copy_to_slice_short : (n : ℕ) (bs : Bytes) → length bs < n → copy_to_slice n bs ≡ none
  pub advance_lem : (bs rest : Bytes) → advance (length bs) (bs ++ rest) ≡ some (tt, rest)
  pub advance_short : (n : ℕ) (bs : Bytes) → length bs < n → advance n bs ≡ none
  pub put_u8_lem : Puts 1 put_u8
  pub put_u16_lem : Puts 2 put_u16
  pub put_u32_lem : Puts 4 put_u32
  pub put_i16_lem : Puts 2 put_i16
  pub put_i64_lem : Puts 8 put_i64
  pub extend_from_slice_lem : (buf bs : Bytes) → extend_from_slice buf bs ≡ buf ++ bs
