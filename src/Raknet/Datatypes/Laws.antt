-- ===== src/Raknet/Datatypes/Laws.antt =====
-- Each `write_*` of src/raknet/datatypes.rs, and its `read_*` on the bytes that it writes.
use trakt.Base.{
  ℕ, ◌^◌, ◌≤◌, ◌<◌, ◌≡◌, refl, sym, ap, ◌∙◌, Bool, true, false, Option, some, [], ◌∷◌, ◌++◌, arith,
  length, length-append, ◌==◌, if◌then◌else◌, list_eq_self,
}
use trakt.Raknet.Bytes.{Bytes, BytesCrate, Gets}
use trakt.Raknet.Endian.{
  le_bytes, le_value, be_bytes, be_value, length-be_bytes, be_value-be_bytes, length-le_bytes,
}
use trakt.Raknet.Buf.{done, fail, bind, or_panic}
use trakt.Raknet.Datatypes.{
  BufError, not_enough_data, magic, read_guard, read_u8, read_bool, read_magic, read_i16, read_u16,
  read_u24, read_u32, read_i64, read_bytes, write_u8, write_bool, write_magic, write_i16, write_u16,
  write_u24, write_u32, write_i64,
}

pub read_guard_enough : (n : ℕ) (s : Bytes) → n ≤ length s → read_guard n s ≡ done tt s
unfolding read_guard
read_guard_enough n s h = ground arith

pub read_guard_short : (n : ℕ) (s : Bytes) → length s < n → read_guard n s ≡ fail not_enough_data
unfolding read_guard
read_guard_short n s h = ground arith

pub read_guard-append :
    (bs rest : Bytes) (n : ℕ) → length bs ≡ n → read_guard n (bs ++ rest) ≡ done tt (bs ++ rest)
read_guard-append bs rest n h = read_guard_enough n _ (omega (arith, length-append bs rest))

-- What `read_u8` and its like do on the bytes of one integer.
pub guarded_get :
    (n : ℕ) (get : Bytes → Option (ℕ × Bytes)) (bs rest : Bytes)
    → Gets n get
    → length bs ≡ n
    → bind (read_guard n (bs ++ rest)) (λ _ s. or_panic {E = BufError} (get s))
      ≡ done (be_value bs) rest
guarded_get n get bs rest g h = rw (read_guard-append bs rest n h, g.0 bs rest h)

pub guarded_int :
    (n v : ℕ) (get : Bytes → Option (ℕ × Bytes)) (rest : Bytes)
    → Gets n get
    → v < 256 ^ n
    → bind (read_guard n (be_bytes n v ++ rest)) (λ _ s. or_panic {E = BufError} (get s))
      ≡ done v rest
guarded_int n v get rest g h =
    guarded_get n get (be_bytes n v) rest g (length-be_bytes n v)
    ∙ ap (λ (x : ℕ). done x rest) (be_value-be_bytes n v h)

abbrev pub bit : Bool → ℕ
bit b = if b then 1 else 0

bit-lt : (b : Bool) → bit b < 256
bit-lt true = omega arith
bit-lt false = omega arith

bit-one : (b : Bool) → (bit b == 1) ≡ b
bit-one true = refl
bit-one false = refl

module _ ⦃crate : BytesCrate⦄ where
  open crate use {
    get_u8_lem, get_u16_lem, get_u32_lem, get_i16_lem, get_i64_lem, copy_to_slice_lem, put_u8_lem,
    put_u16_lem, put_u32_lem, put_i16_lem, put_i64_lem, extend_from_slice_lem, copy_to_slice,
  }

  pub write_u8_lem : (v : ℕ) (s : Bytes) → write_u8 v s ≡ done tt (s ++ be_bytes 1 v)
  unfolding write_u8
  write_u8_lem v s = ap (done tt) (put_u8_lem s v)

  pub write_bool_lem : (v : Bool) (s : Bytes) → write_bool v s ≡ done tt (s ++ be_bytes 1 (bit v))
  unfolding write_bool
  write_bool_lem v s = ap (done tt) (put_u8_lem s (bit v))

  pub write_magic_lem : (s : Bytes) → write_magic s ≡ done tt (s ++ magic)
  unfolding write_magic
  write_magic_lem s = ap (done tt) (extend_from_slice_lem s magic)

  pub write_i16_lem : (v : ℕ) (s : Bytes) → write_i16 v s ≡ done tt (s ++ be_bytes 2 v)
  unfolding write_i16
  write_i16_lem v s = ap (done tt) (put_i16_lem s v)

  pub write_u16_lem : (v : ℕ) (s : Bytes) → write_u16 v s ≡ done tt (s ++ be_bytes 2 v)
  unfolding write_u16
  write_u16_lem v s = ap (done tt) (put_u16_lem s v)

  pub write_u24_lem : (v : ℕ) (s : Bytes) → write_u24 v s ≡ done tt (s ++ le_bytes 3 v)
  unfolding write_u24 le_bytes
  write_u24_lem v s = ap (done tt) (extend_from_slice_lem s _)

  pub write_u32_lem : (v : ℕ) (s : Bytes) → write_u32 v s ≡ done tt (s ++ be_bytes 4 v)
  unfolding write_u32
  write_u32_lem v s = ap (done tt) (put_u32_lem s v)

  pub write_i64_lem : (v : ℕ) (s : Bytes) → write_i64 v s ≡ done tt (s ++ be_bytes 8 v)
  unfolding write_i64
  write_i64_lem v s = ap (done tt) (put_i64_lem s v)

  pub ruleset writes = (
    write_u8_lem, write_bool_lem, write_magic_lem, write_i16_lem, write_u16_lem, write_u24_lem,
    write_u32_lem, write_i64_lem,
  )

  pub read_u8_lem : (v : ℕ) (rest : Bytes) → v < 256 → read_u8 (be_bytes 1 v ++ rest) ≡ done v rest
  unfolding read_u8
  read_u8_lem v rest h = guarded_int 1 v _ rest get_u8_lem h

  pub read_i16_lem :
      (v : ℕ) (rest : Bytes) → v < 2 ^ 16 → read_i16 (be_bytes 2 v ++ rest) ≡ done v rest
  unfolding read_i16
  read_i16_lem v rest h = guarded_int 2 v _ rest get_i16_lem h

  pub read_u16_lem :
      (v : ℕ) (rest : Bytes) → v < 2 ^ 16 → read_u16 (be_bytes 2 v ++ rest) ≡ done v rest
  unfolding read_u16
  read_u16_lem v rest h = guarded_int 2 v _ rest get_u16_lem h

  pub read_u32_lem :
      (v : ℕ) (rest : Bytes) → v < 2 ^ 32 → read_u32 (be_bytes 4 v ++ rest) ≡ done v rest
  unfolding read_u32
  read_u32_lem v rest h = guarded_int 4 v _ rest get_u32_lem h

  pub read_i64_lem :
      (v : ℕ) (rest : Bytes) → v < 2 ^ 64 → read_i64 (be_bytes 8 v ++ rest) ≡ done v rest
  unfolding read_i64
  read_i64_lem v rest h = guarded_int 8 v _ rest get_i64_lem h

  -- `copy_to_slice` behind its guard, on bytes of the right number.
  pub copy_exact :
      (n : ℕ) (bs rest : Bytes) → length bs ≡ n → copy_to_slice n (bs ++ rest) ≡ some (bs, rest)
  copy_exact n bs rest h =
      ap (λ (k : ℕ). copy_to_slice k (bs ++ rest)) (sym h) ∙ copy_to_slice_lem bs rest

  pub read_bytes_lem :
      (n : ℕ) (bs rest : Bytes) → length bs ≡ n → read_bytes n (bs ++ rest) ≡ done bs rest
  unfolding read_bytes
  read_bytes_lem n bs rest h = rw (read_guard-append bs rest n h, copy_exact n bs rest h)

  pub read_magic_lem : (rest : Bytes) → read_magic (magic ++ rest) ≡ done tt rest
  unfolding read_magic
  read_magic_lem rest =
      rw (read_guard-append magic rest 16 refl, copy_exact 16 magic rest refl, list_eq_self)

  pub read_bool_lem :
      (v : Bool) (rest : Bytes) → read_bool (be_bytes 1 (bit v) ++ rest) ≡ done v rest
  unfolding read_bool
  read_bool_lem v rest =
      rw
        (
          read_guard-append (be_bytes 1 (bit v)) rest 1 (length-be_bytes 1 (bit v)),
          get_u8_lem.0 (be_bytes 1 (bit v)) rest (length-be_bytes 1 (bit v)),
          be_value-be_bytes 1 (bit v) (bit-lt v),
        )
        (ap (λ (b : Bool). done b rest) (bit-one v))

  le_bytes_pad : (v : ℕ) → v < 2 ^ 24 → le_value (le_bytes 3 v ++ (0 ∷ [])) ≡ v
  unfolding le_bytes le_value
  le_bytes_pad v h = omega arith

  pub read_u24_lem :
      (v : ℕ) (rest : Bytes) → v < 2 ^ 24 → read_u24 (le_bytes 3 v ++ rest) ≡ done v rest
  unfolding read_u24
  read_u24_lem v rest h = rw (
    read_guard-append (le_bytes 3 v) rest 3 (length-le_bytes 3 v),
    copy_exact 3 (le_bytes 3 v) rest (length-le_bytes 3 v),
    le_bytes_pad v h,
  )
