-- ===== src/Raknet/Endian.antt =====
-- Fixed-width integers as bytes: the standard library's `to_le_bytes` and `from_le_bytes`, and the
-- big-endian order in which the buffers of the `bytes` crate hold integers.
use native.Mathlib.Nat.{pow-succ'}
use mathlib.Core.List.{reverse-reverse}
use trakt.Base.{
  ℕ, zero, suc, ◌+◌, ◌*◌, ◌/◌, ◌%◌, ◌^◌, ◌<◌, ◌≡◌, refl, ap, ◌∙◌, List, [], ◌∷◌, reverse, arith,
  length, length-reverse,
}

abbrev pub IsByte : ℕ → Type 0
IsByte b = b < 256

-- The `n` low bytes of `v`, lowest first.
unfoldable pub le_bytes : ℕ → ℕ → List ℕ
le_bytes zero v = []
le_bytes (suc n) v = (v % 256) ∷ le_bytes n (v / 256)

unfoldable pub le_value : List ℕ → ℕ
le_value [] = 0
le_value (b ∷ bs) = b + 256 * le_value bs

unfoldable pub be_bytes : ℕ → ℕ → List ℕ
unfolding le_bytes
be_bytes n v = reverse (le_bytes n v)

unfoldable pub be_value : List ℕ → ℕ
unfolding le_value
be_value bs = le_value (reverse bs)

pub length-le_bytes : (n v : ℕ) → length (le_bytes n v) ≡ n
unfolding le_bytes
length-le_bytes zero v = refl
length-le_bytes (suc n) v = ap suc (length-le_bytes n (v / 256))

pub length-be_bytes : (n v : ℕ) → length (be_bytes n v) ≡ n
length-be_bytes n v = unfold be_bytes in length-reverse (le_bytes n v) ∙ length-le_bytes n v

pub le_value-le_bytes : (n v : ℕ) → v < 256 ^ n → le_value (le_bytes n v) ≡ v
unfolding le_bytes le_value
le_value-le_bytes zero v h = omega arith
le_value-le_bytes (suc n) v h =
    omega (arith, le_value-le_bytes n (v / 256) (omega (arith, pow-succ' 256 n)))

pub be_value-be_bytes : (n v : ℕ) → v < 256 ^ n → be_value (be_bytes n v) ≡ v
be_value-be_bytes n v h =
    unfold be_value be_bytes in
    ap le_value (reverse-reverse (le_bytes n v)) ∙ le_value-le_bytes n v h
