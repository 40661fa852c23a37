-- ===== src/Raknet/Decimal.antt =====
-- `Display` and `FromStr` of the integers of the language, in decimal, as src/raknet/ping.rs uses
-- them: a string is its UTF-8 bytes, and an i64 is the number of its 64 bits.
pub mod RoundTrip
pub mod Bounds
use trakt.Base.{
  ℕ, zero, suc, ◌+◌, ◌-◌, ◌*◌, ◌/◌, ◌%◌, ◌^◌, Option, none, some, [], ◌∷◌, ◌++◌, ltb, leb, ◌==◌,
  if◌then◌else◌,
}
use trakt.Raknet.Bytes.{Bytes}
use trakt.Raknet.Utf8.{within}

-- The digits of `n`, the last one written last; `k` bounds their number.
unfoldable pub digits : ℕ → ℕ → Bytes
digits zero n = []
digits (suc k) n =
    let front = digits k (n / 10) in (if ltb n 10 then [] else front) ++ ((48 + n % 10) ∷ [])

-- An unsigned number of at most 64 bits has at most 20 digits.
unfoldable pub display : ℕ → Bytes
display n = digits 20 n

unfoldable pub display_i64 : ℕ → Bytes
display_i64 v = if ltb v (2 ^ 63) then display v else 0x2d ∷ display (2 ^ 64 - v)

-- The loop of `from_str`: a byte that is no digit is an error, and so is a value above `limit`.
unfoldable pub parse_digits : ℕ → ℕ → Bytes → Option ℕ
parse_digits limit acc [] = some acc
parse_digits limit acc (b ∷ bs) =
    let value = acc * 10 + (b - 48) in
    let rest = parse_digits limit value bs in
    if within 48 57 b then (if leb value limit then rest else none) else none

-- An empty string and a sign alone are errors.
unfoldable pub parse_some : ℕ → Bytes → Option ℕ
parse_some limit [] = none
parse_some limit (b ∷ bs) = parse_digits limit 0 (b ∷ bs)

unfoldable pub parse_unsigned : ℕ → Bytes → Option ℕ
parse_unsigned limit [] = none
parse_unsigned limit (b ∷ bs) = if b == 0x2b then parse_some limit bs else parse_some limit (b ∷ bs)

-- `w` is the width; a negative number goes down to `- 2 ^ (w - 1)`.
unfoldable pub parse_signed : ℕ → Bytes → Option ℕ
parse_signed w [] = none
parse_signed w (b ∷ bs) =
    if b == 0x2b
    then parse_some (2 ^ (w - 1) - 1) bs
    else if b == 0x2d
    then (elim (parse_some (2 ^ (w - 1)) bs) [ none ↦ none | some n ↦ some ((2 ^ w - n) % 2 ^ w) ])
    else parse_some (2 ^ (w - 1) - 1) (b ∷ bs)
