-- ===== src/Raknet/Decimal/RoundTrip.antt =====
-- Numbers in decimal, as src/raknet/ping.rs prints and parses them.
use trakt.Base.{
  ℕ, zero, suc, ◌+◌, ◌-◌, ◌*◌, ◌/◌, ◌%◌, ◌^◌, ◌≤◌, ◌<◌, ◌≡◌, refl, true, false, Option, some, [],
  ◌∷◌, ◌++◌, arith, ap, sym, ◌∙◌, length, length-append, All, inl, inr, Bool-cases, ltb,
  if◌then◌else◌,
}
use trakt.Raknet.Bytes.{Bytes}
use trakt.Raknet.Decimal.{
  digits, display, display_i64, parse_digits, parse_some, parse_unsigned, parse_signed,
}

abbrev pub IsDigit : ℕ → Type 0
IsDigit b = (48 ≤ b) × (b ≤ 57)

-- `10 ^ k`
abbrev pow10 : ℕ → ℕ
pow10 zero = 1
pow10 (suc k) = 10 * pow10 k

All-append : (P : ℕ → Type 0) (xs ys : Bytes) → All P xs → All P ys → All P (xs ++ ys)
All-append P [] ys hx hy = hy
All-append P (x ∷ xs) ys hx hy = (hx.0, All-append P xs ys hx.1 hy)

last-IsDigit : (n : ℕ) → All IsDigit ((48 + n % 10) ∷ [])
last-IsDigit n = ((omega arith, omega arith), tt)

digits-IsDigit : (k n : ℕ) → All IsDigit (digits k n)
unfolding digits
digits-IsDigit zero n = tt
digits-IsDigit (suc k) n = elim (Bool-cases (ltb n 10)) [
  | inl small ↦ rw small (last-IsDigit n)
  | inr large ↦ rw large (All-append IsDigit _ _ (digits-IsDigit k (n / 10)) (last-IsDigit n))
]

parse_digits-append :
    (limit acc n : ℕ) (xs ys : Bytes)
    → parse_digits limit acc xs ≡ some n
    → parse_digits limit acc (xs ++ ys) ≡ parse_digits limit n ys
unfolding parse_digits
parse_digits-append limit acc n [] ys h = ground arith
parse_digits-append limit acc n (x ∷ xs) ys h =
    ground (arith, parse_digits-append limit (acc * 10 + (x - 48)) n xs ys)

parse_last : (limit n : ℕ) → n ≤ limit → parse_digits limit (n / 10) ((48 + n % 10) ∷ []) ≡ some n
unfolding parse_digits
parse_last limit n h = ground arith

parse_digits-digits :
    (limit k n : ℕ) → n < pow10 k → n ≤ limit → parse_digits limit 0 (digits k n) ≡ some n
unfolding digits parse_digits
parse_digits-digits limit zero n h le = ap some (omega arith)
parse_digits-digits limit (suc k) n h le = elim (Bool-cases (ltb n 10)) [
  | inl small ↦ ground arith
  | inr large ↦
      rw
        (
          large,
          parse_digits-append limit 0 (n / 10) (digits k (n / 10)) _
              (parse_digits-digits limit k (n / 10) (omega arith) (omega arith)),
        )
        (parse_last limit n le)
]

length-digits : (k n : ℕ) → 0 < k → 0 < length (digits k n)
unfolding digits
length-digits zero n h = absurd (omega arith)
length-digits (suc k) n h =
    omega (arith, length-append (if ltb n 10 then [] else digits k (n / 10)) ((48 + n % 10) ∷ []))

-- The first byte of the digits is no sign, and there is one.
digits-cons : (k n : ℕ) → 0 < k → (b : ℕ) × (bs : Bytes) × (digits k n ≡ b ∷ bs) × IsDigit b
digits-cons k n h = go (digits k n) (digits-IsDigit k n) (length-digits k n h)
  where
    go :
        (s : Bytes)
        → All IsDigit s
        → 0 < length s
        → (b : ℕ) × (bs : Bytes) × (s ≡ b ∷ bs) × IsDigit b
    go [] d l = absurd (omega arith)
    go (b ∷ bs) d l = (b, bs, refl, d.0)

pub display-IsDigit : (n : ℕ) → All IsDigit (display n)
unfolding display
display-IsDigit n = digits-IsDigit 20 n

parse_some-display :
    (limit n : ℕ) → n ≤ limit → limit < 2 ^ 64 → parse_some limit (display n) ≡ some n
unfolding display parse_some
parse_some-display limit n le h =
    let first = digits-cons 20 n (omega arith) in
    rw first.2
      (sym (ap (parse_digits limit 0) first.2) ∙ parse_digits-digits limit 20 n (omega arith) le)

-- A digit in front is no sign.
unsigned_digit :
    (limit b : ℕ) (bs : Bytes)
    → IsDigit b
    → parse_unsigned limit (b ∷ bs) ≡ parse_some limit (b ∷ bs)
unfolding parse_unsigned
unsigned_digit limit b bs h = ground arith

signed_digit :
    (w b : ℕ) (bs : Bytes)
    → IsDigit b
    → parse_signed w (b ∷ bs) ≡ parse_some (2 ^ (w - 1) - 1) (b ∷ bs)
unfolding parse_signed
signed_digit w b bs h = ground arith

-- A parser that reads a digit in front as `parse_some` does reads a printed number as it does.
on_display :
    (parse : Bytes → Option ℕ) (limit n : ℕ)
    → ((b : ℕ) (bs : Bytes) → IsDigit b → parse (b ∷ bs) ≡ parse_some limit (b ∷ bs))
    → n ≤ limit
    → limit < 2 ^ 64
    → parse (display n) ≡ some n
unfolding display
on_display parse limit n same le h =
    let first = digits-cons 20 n (omega arith) in
    rw first.2 (
      same first.0 first.1 first.3
      ∙ sym (ap (parse_some limit) first.2)
      ∙ parse_some-display limit n le h)

pub parse_unsigned-display :
    (limit n : ℕ) → n ≤ limit → limit < 2 ^ 64 → parse_unsigned limit (display n) ≡ some n
parse_unsigned-display limit n le h =
    on_display (parse_unsigned limit) limit n (unsigned_digit limit) le h

ltb-ge : (a b : ℕ) → ltb a b ≡ false → b ≤ a
ltb-ge a b h = ground arith

ltb-lt : (a b : ℕ) → ltb a b ≡ true → a < b
ltb-lt a b h = ground arith

minus_back : (v : ℕ) → 2 ^ 63 ≤ v → v < 2 ^ 64 → (2 ^ 64 - (2 ^ 64 - v)) % 2 ^ 64 ≡ v
minus_back v ge h = omega arith

-- The number of the 64 bits comes back, whatever its sign.
pub parse_signed-display_i64 : (v : ℕ) → v < 2 ^ 64 → parse_signed 64 (display_i64 v) ≡ some v
unfolding display_i64 parse_signed
parse_signed-display_i64 v h = elim (Bool-cases (ltb v (2 ^ 63))) [
  | inl positive ↦
      let lt = ltb-lt v (2 ^ 63) positive in
      rw positive
        (on_display (parse_signed 64) (2 ^ 63 - 1) v (signed_digit 64) (omega arith) (omega arith))
  | inr negative ↦
      let ge = ltb-ge v (2 ^ 63) negative in
      rw (negative, parse_some-display (2 ^ 63) (2 ^ 64 - v) (omega arith) (omega arith))
        (ap some (minus_back v ge h))
]
