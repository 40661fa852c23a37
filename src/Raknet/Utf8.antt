-- ===== src/Raknet/Utf8.antt =====
-- A `String` is the list of its UTF-8 bytes. `valid` is the test of `String::from_utf8`: the
-- well-formed byte sequences of the Unicode standard (table 3-7).
pub mod Append
use trakt.Base.{ℕ, zero, suc, Bool, true, false, ◌&&◌, List, [], ◌∷◌, ltb, leb, ◌==◌, if◌then◌else◌}

abbrev pub within : ℕ → ℕ → ℕ → Bool
within lo hi b = leb lo b && leb b hi

-- What must follow: the range of the next byte, and how many continuation bytes come behind it.
pub data Expect : Type 0 where
  start : Expect
  next : ℕ → ℕ → ℕ → Expect
  broken : Expect

-- The first byte of a character decides the range of its second one.
unfoldable pub first_byte : ℕ → Expect
first_byte b =
    if ltb b 0x80
    then start
    else if within 0xc2 0xdf b
    then next 0x80 0xbf 0
    else if b == 0xe0
    then next 0xa0 0xbf 1
    else if b == 0xed
    then next 0x80 0x9f 1
    else if within 0xe1 0xef b
    then next 0x80 0xbf 1
    else if b == 0xf0
    then next 0x90 0xbf 2
    else if within 0xf1 0xf3 b
    then next 0x80 0xbf 2
    else if b == 0xf4
    then next 0x80 0x8f 2
    else broken

unfoldable pub step : Expect → ℕ → Expect
unfolding first_byte
step start b = first_byte b
step (next lo hi k) b =
    if within lo hi b then (elim k [ zero ↦ start | suc j ↦ next 0x80 0xbf j ]) else broken
step broken b = broken

abbrev pub is_start : Expect → Bool
is_start start = true
is_start (next lo hi k) = false
is_start broken = false

unfoldable pub scan : Expect → List ℕ → Bool
unfolding step
scan e [] = is_start e
scan e (b ∷ bs) = scan (step e b) bs

-- `is_ok` of `String::from_utf8`
unfoldable pub valid : List ℕ → Bool
unfolding scan
valid bs = scan start bs
