-- ===== src/Raknet/Datatypes/Strings.antt =====
-- `write_str` and `read_str` of src/raknet/datatypes.rs.
use native.Mathlib.Nat.{mod-eq_of_lt}
use trakt.Base.{
  ◌%◌, ◌^◌, ◌<◌, ◌≡◌, refl, Bool, true, false, if◌then◌else◌, ◌++◌, append_assoc, arith, length,
  length-append,
}
use trakt.Raknet.Bytes.{Bytes, BytesCrate}
use trakt.Raknet.Endian.{be_bytes, length-be_bytes, be_value-be_bytes}
use trakt.Raknet.Buf.{Buf, done, return, throw, or_panic, Returns, after-Returns}
use trakt.Raknet.Utf8.{valid}
use trakt.Raknet.Datatypes.{BufError, read_guard, invalid_string, read_str, write_str}
use trakt.Raknet.Datatypes.Laws.{read_guard_enough, copy_exact}

-- A `String` of the source is valid UTF-8.
abbrev pub IsString : Bytes → Type 0
IsString bs = valid bs ≡ true

-- A `String` whose length fits the 16-bit field.
abbrev pub IsText : Bytes → Type 0
IsText bs = (valid bs ≡ true) × (length bs < 2 ^ 16)

unfoldable pub str_bytes : Bytes → Bytes
str_bytes bs = be_bytes 2 (length bs % 2 ^ 16) ++ bs

module _ ⦃crate : BytesCrate⦄ where
  open crate use {get_u16, copy_to_slice, get_u16_lem, put_u16_lem, extend_from_slice_lem}

  pub write_str_lem : (bs s : Bytes) → write_str bs s ≡ done tt (s ++ str_bytes bs)
  unfolding write_str str_bytes
  write_str_lem bs s = simp (put_u16_lem, extend_from_slice_lem, append_assoc)

  pub read_str_lem : (bs rest : Bytes) → IsText bs → read_str (str_bytes bs ++ rest) ≡ done bs rest
  unfolding read_str str_bytes
  read_str_lem bs rest (utf8, fits) = rw (
    append_assoc (be_bytes 2 (length bs % 2 ^ 16)) bs rest,
    read_guard_enough 2 (be_bytes 2 (length bs % 2 ^ 16) ++ (bs ++ rest)) (
        omega (
          arith,
          length-append (be_bytes 2 (length bs % 2 ^ 16)) (bs ++ rest),
          length-be_bytes 2 (length bs % 2 ^ 16),
        )),
    get_u16_lem.0 (be_bytes 2 (length bs % 2 ^ 16)) (bs ++ rest) (length-be_bytes 2 _),
    be_value-be_bytes 2 (length bs % 2 ^ 16) (omega arith),
    mod-eq_of_lt fits,
    read_guard_enough (length bs) (bs ++ rest) (omega (arith, length-append bs rest)),
    copy_exact (length bs) bs rest refl,
    utf8,
  )

  checked_text :
      (b : Bool) (bytes s : Bytes)
      → valid bytes ≡ b
      → Returns IsString
          (if◌then◌else◌ {A = Buf BufError Bytes} b (return bytes) (throw invalid_string) s)
  unfolding Returns
  checked_text true bytes s h = h
  checked_text false bytes s h = tt

  -- What `read_str` returns is a string.
  pub read_str-Returns : (s : Bytes) → Returns IsString (read_str s)
  unfolding read_str
  read_str-Returns s = after-Returns IsString (read_guard 2 s) _ λ _ t.
      after-Returns IsString (or_panic (get_u16 t)) _ λ len u.
        after-Returns IsString (read_guard len u) _ λ _ v.
          after-Returns IsString (or_panic (copy_to_slice len v)) _
            λ bytes w. checked_text (valid bytes) bytes w refl
