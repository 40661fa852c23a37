-- ===== src/Raknet/Decimal/Bounds.antt =====
-- What `parse` of an integer returns fits the integer, in src/raknet/ping.rs.
use trakt.Base.{ℕ, ◌+◌, ◌*◌, ◌-◌, ◌%◌, ◌^◌, ◌≤◌, ◌<◌, ◌≡◌, Option, none, some, [], ◌∷◌, arith}
use trakt.Raknet.Bytes.{Bytes}
use trakt.Raknet.Decimal.{parse_digits, parse_some, parse_unsigned, parse_signed}

parse_digits-le :
    (limit acc : ℕ) (bs : Bytes) (n : ℕ)
    → acc ≤ limit
    → parse_digits limit acc bs ≡ some n
    → n ≤ limit
unfolding parse_digits
parse_digits-le limit acc [] n h e = ground arith
parse_digits-le limit acc (b ∷ bs) n h e =
    ground (arith, parse_digits-le limit (acc * 10 + (b - 48)) bs n)

parse_some-le : (limit : ℕ) (bs : Bytes) (n : ℕ) → parse_some limit bs ≡ some n → n ≤ limit
unfolding parse_some
parse_some-le limit [] n e = cc
parse_some-le limit (b ∷ bs) n e = parse_digits-le limit 0 (b ∷ bs) n (omega arith) e

pub parse_unsigned-le :
    (limit : ℕ) (bs : Bytes) (n : ℕ) → parse_unsigned limit bs ≡ some n → n ≤ limit
unfolding parse_unsigned
parse_unsigned-le limit [] n e = cc
parse_unsigned-le limit (b ∷ bs) n e =
    ground (arith, parse_some-le limit bs n, parse_some-le limit (b ∷ bs) n)

negative-lt :
    (o : Option ℕ) (n : ℕ)
    → (elim o [ none ↦ none | some v ↦ some ((2 ^ 64 - v) % 2 ^ 64) ]) ≡ some n
    → n < 2 ^ 64
negative-lt none n e = cc
negative-lt (some v) n e = ground arith

pub parse_signed-lt : (bs : Bytes) (n : ℕ) → parse_signed 64 bs ≡ some n → n < 2 ^ 64
unfolding parse_signed
parse_signed-lt [] n e = cc
parse_signed-lt (b ∷ bs) n e = ground (
  arith,
  parse_some-le (2 ^ 63 - 1) bs n,
  parse_some-le (2 ^ 63 - 1) (b ∷ bs) n,
  negative-lt (parse_some (2 ^ 63) bs) n,
)
