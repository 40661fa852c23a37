-- ===== src/Raknet/Datatypes/Safety.antt =====
-- The `read_*` of src/raknet/datatypes.rs on any buffer: their panics and the bytes they take.
use trakt.Base.{
  ℕ, ◌+◌, ◌≤◌, ◌≡◌, ap, ◌∙◌, sym, inl, inr, some, arith, length, take, drop, take-append-drop,
  length-take_le, length-drop, ◌==◌, Bool-cases, if◌then◌else◌, list_eq,
}
use trakt.Raknet.Bytes.{Bytes, BytesCrate}
use trakt.Raknet.Endian.{be_value}
use trakt.Raknet.Buf.{Buf, fail, return, throw}
use trakt.Raknet.Utf8.{valid}
use trakt.Raknet.Datatypes.{
  BufError, invalid_adrress, invalid_string, magic, read_u8, read_bool, read_magic, read_i16,
  read_u16, read_u24, read_u32, read_i64, read_str, read_v4, read_v6, read_address, read_bytes,
}
use trakt.Raknet.Datatypes.Guards.{
  Takes, Takes-later, bind-Takes, read_guard-Takes, get_enough, guarded_get-Takes, TakesExactly,
  read_guard-TakesExactly,
}

module _ ⦃crate : BytesCrate⦄ where
  open crate use {
    get_u8_lem, get_u16_lem, get_u32_lem, get_i16_lem, get_i64_lem, copy_to_slice,
    copy_to_slice_lem, advance, advance_lem,
  }

  pub read_u8-TakesExactly : (s : Bytes) → TakesExactly 1 s (read_u8 s)
  unfolding read_u8
  read_u8-TakesExactly s =
      read_guard-TakesExactly 1 s _
        λ h. rw (get_enough 1 _ s get_u8_lem h) (omega (arith, length-drop 1 s))

  pub read_u16-TakesExactly : (s : Bytes) → TakesExactly 2 s (read_u16 s)
  unfolding read_u16
  read_u16-TakesExactly s =
      read_guard-TakesExactly 2 s _
        λ h. rw (get_enough 2 _ s get_u16_lem h) (omega (arith, length-drop 2 s))

  pub copy_enough :
      (n : ℕ) (s : Bytes) → n ≤ length s → copy_to_slice n s ≡ some (take n s, drop n s)
  copy_enough n s h =
      ap (λ (k : ℕ). copy_to_slice k s) (sym (length-take_le n s h))
      ∙ ap (copy_to_slice (length (take n s))) (sym (take-append-drop n s))
      ∙ copy_to_slice_lem (take n s) (drop n s)

  advance_enough : (n : ℕ) (s : Bytes) → n ≤ length s → advance n s ≡ some (tt, drop n s)
  advance_enough n s h =
      ap (λ (k : ℕ). advance k s) (sym (length-take_le n s h))
      ∙ ap (advance (length (take n s))) (sym (take-append-drop n s))
      ∙ advance_lem (take n s) (drop n s)

  pub advance_length :
      (n : ℕ) (s : Bytes)
      → n ≤ length s
      → (t : Bytes) × (advance n s ≡ some (tt, t)) × (length t + n ≡ length s)
  advance_length n s h = (drop n s, advance_enough n s h, omega (arith, length-drop n s))

  pub read_u24-TakesExactly : (s : Bytes) → TakesExactly 3 s (read_u24 s)
  unfolding read_u24
  read_u24-TakesExactly s =
      read_guard-TakesExactly 3 s _ λ h. rw (copy_enough 3 s h) (omega (arith, length-drop 3 s))

  pub read_u8-Takes : (s : Bytes) → Takes 1 s (read_u8 s)
  unfolding read_u8
  read_u8-Takes s = guarded_get-Takes 1 _ s get_u8_lem

  read_i16-Takes : (s : Bytes) → Takes 2 s (read_i16 s)
  unfolding read_i16
  read_i16-Takes s = guarded_get-Takes 2 _ s get_i16_lem

  pub read_u16-Takes : (s : Bytes) → Takes 2 s (read_u16 s)
  unfolding read_u16
  read_u16-Takes s = guarded_get-Takes 2 _ s get_u16_lem

  pub read_u32-Takes : (s : Bytes) → Takes 4 s (read_u32 s)
  unfolding read_u32
  read_u32-Takes s = guarded_get-Takes 4 _ s get_u32_lem

  pub read_i64-Takes : (s : Bytes) → Takes 8 s (read_i64 s)
  unfolding read_i64
  read_i64-Takes s = guarded_get-Takes 8 _ s get_i64_lem

  pub read_bytes-Takes : (n : ℕ) (s : Bytes) → Takes n s (read_bytes n s)
  unfolding read_bytes
  read_bytes-Takes n s =
      read_guard-Takes n n s _ λ h. rw (copy_enough n s h) (omega (arith, length-drop n s))

  pub read_bool-Takes : (s : Bytes) → Takes 1 s (read_bool s)
  unfolding read_bool
  read_bool-Takes s =
      read_guard-Takes 1 1 s _
        λ h. rw (get_enough 1 _ s get_u8_lem h) (omega (arith, length-drop 1 s))

  read_u24-Takes : (s : Bytes) → Takes 3 s (read_u24 s)
  unfolding read_u24
  read_u24-Takes s =
      read_guard-Takes 3 3 s _ λ h. rw (copy_enough 3 s h) (omega (arith, length-drop 3 s))

  pub read_magic-Takes : (s : Bytes) → Takes 16 s (read_magic s)
  unfolding read_magic
  read_magic-Takes s = read_guard-Takes 16 16 s _ λ h.
      rw (copy_enough 16 s h) (elim (Bool-cases (list_eq (take 16 s) magic)) [
        | inl same ↦ rw same (omega (arith, length-drop 16 s))
        | inr differs ↦ rw differs tt
      ])

  pub read_str-Takes : (s : Bytes) → Takes 2 s (read_str s)
  unfolding read_str
  read_str-Takes s = read_guard-Takes 2 2 s _ λ h. rw (get_enough 2 _ s get_u16_lem h) (
      Takes-later 0 2 s (drop 2 s) _ (omega (arith, length-drop 2 s)) (
        read_guard-Takes (be_value (take 2 s)) 0 (drop 2 s) _ λ k.
          rw (copy_enough (be_value (take 2 s)) (drop 2 s) k)
            (text (be_value (take 2 s)) (drop 2 s))))
    where
      text :
          (n : ℕ) (t : Bytes)
          → Takes 0 t (
              if◌then◌else◌ {A = Buf BufError Bytes}
                (valid (take n t))
                (return (take n t))
                (throw invalid_string)
                (drop n t))
      text n t = elim (Bool-cases (valid (take n t))) [
        | inl yes_valid ↦ rw yes_valid (omega (arith, length-drop n t))
        | inr not_valid ↦ rw not_valid tt
      ]

  read_v4-Takes : (s : Bytes) → Takes 6 s (read_v4 s)
  unfolding read_v4
  read_v4-Takes s = read_guard-Takes 6 6 s _ λ h.
      rw
        (
          copy_enough 4 s (omega arith),
          get_enough 2 _ (drop 4 s) get_u16_lem (omega (arith, length-drop 4 s)),
        )
        (omega (arith, length-drop 4 s, length-drop 2 (drop 4 s)))

  read_v6-Takes : (s : Bytes) → Takes 28 s (read_v6 s)
  unfolding read_v6
  read_v6-Takes s = read_guard-Takes 28 28 s _ λ h.
      let l₁ = length-drop 2 s in
      let l₂ = length-drop 2 (drop 2 s) in
      let l₃ = length-drop 4 (drop 2 (drop 2 s)) in
      let l₄ = length-drop 16 (drop 4 (drop 2 (drop 2 s))) in
      let l₅ = length-drop 4 (drop 16 (drop 4 (drop 2 (drop 2 s)))) in
      rw
        (
          advance_enough 2 s (omega arith),
          get_enough 2 _ (drop 2 s) get_u16_lem (omega arith),
          advance_enough 4 (drop 2 (drop 2 s)) (omega arith),
          copy_enough 16 (drop 4 (drop 2 (drop 2 s))) (omega arith),
          advance_enough 4 (drop 16 (drop 4 (drop 2 (drop 2 s)))) (omega arith),
        )
        (omega arith)

  pub read_address-Takes : (s : Bytes) → Takes 7 s (read_address s)
  unfolding read_address
  read_address-Takes s =
      read_guard-Takes 1 7 s _
        λ _. bind-Takes 1 6 7 s (read_u8 s) _ (omega arith) (read_u8-Takes s) variant
    where
      variant :
          (ip_variant : ℕ) (t : Bytes)
          → Takes 6 t (
              (if ip_variant == 4
                  then read_v4
                  else (if ip_variant == 6 then read_v6 else λ u. fail invalid_adrress))
                t)
      variant v t = elim (Bool-cases (v == 4)) [
        | inl four ↦ rw four (read_v4-Takes t)
        | inr other ↦ rw other (elim (Bool-cases (v == 6)) [
          | inl six ↦ rw six (Takes-later 28 6 t t (read_v6 t) (omega arith) (read_v6-Takes t))
          | inr neither ↦ rw neither tt
        ])
      ]
