-- ===== src/Raknet/Motd/Strings.antt =====
-- The parts of a string at its semicolons, in `decode_payload` of src/raknet/ping.rs, are strings.
use trakt.Base.{
  ℕ, zero, suc, ◌≡◌, refl, ap, inl, inr, Bool, true, false, List, [], ◌∷◌, arith, All, Bool-cases,
  ◌==◌, ==_iff, if◌then◌else◌, leb,
}
use mathlib.Core.Path.{subst}
use trakt.Raknet.Bytes.{Bytes}
use trakt.Raknet.Utf8.{Expect, start, next, broken, within, first_byte, step, scan, valid}
use trakt.Raknet.Motd.{in_front, split}
use trakt.Raknet.Datatypes.Strings.{IsString}

-- No semicolon is expected behind a first byte.
abbrev high : Expect → Bool
high start = true
high (next lo hi k) = leb 0x80 lo
high broken = true

if-high :
    (b : Bool) (e f : Expect) → high e ≡ true → high f ≡ true → high (if b then e else f) ≡ true
if-high true e f he hf = he
if-high false e f he hf = hf

first_byte-high : (b : ℕ) → high (first_byte b) ≡ true
unfolding first_byte
first_byte-high b = ground arith

continue-high : (k : ℕ) → high (elim k [ zero ↦ start | suc j ↦ next 0x80 0xbf j ]) ≡ true
continue-high zero = refl
continue-high (suc j) = refl

step-high : (e : Expect) (b : ℕ) → high e ≡ true → high (step e b) ≡ true
unfolding step
step-high start b h = first_byte-high b
step-high (next lo hi k) b h =
    if-high (within lo hi b) (elim k [ zero ↦ start | suc j ↦ next 0x80 0xbf j ]) broken
      (continue-high k) refl
step-high broken b h = refl

scan-broken : (bs : Bytes) → scan broken bs ≡ false
unfolding scan step
scan-broken [] = refl
scan-broken (b ∷ bs) = scan-broken bs

too_low : (lo hi : ℕ) → leb 0x80 lo ≡ true → within lo hi 0x3b ≡ false
too_low lo hi h = ground arith

step_too_low : (lo hi k : ℕ) → leb 0x80 lo ≡ true → step (next lo hi k) 0x3b ≡ broken
unfolding step
step_too_low lo hi k h = rw (too_low lo hi h) refl

-- A semicolon stands only where a character begins.
at_semicolon :
    (e : Expect) (bs : Bytes)
    → high e ≡ true
    → scan (step e 0x3b) bs ≡ true
    → (e ≡ start) × (scan start bs ≡ true)
unfolding step first_byte
at_semicolon start bs h s = (refl, s)
at_semicolon (next lo hi k) bs h s =
    absurd (cc (ap (λ e. scan e bs) (step_too_low lo hi k h), scan-broken bs))
at_semicolon broken bs h s = absurd (cc (scan-broken bs))

-- The first part goes on where the reading stands, and the others are strings.
abbrev Parted : Expect → List Bytes → Type 0
Parted e [] = scan e [] ≡ true
Parted e (part ∷ parts) = (scan e part ≡ true) × All IsString parts

in_front-Parted :
    (e : Expect) (b : ℕ) (parts : List Bytes)
    → Parted (step e b) parts
    → Parted e (in_front b parts)
unfolding scan
in_front-Parted e b [] h = (h, tt)
in_front-Parted e b (part ∷ parts) h = h

Parted-semicolon :
    (e : Expect) (parts : List Bytes) → e ≡ start → Parted start parts → Parted e ([] ∷ parts)
unfolding scan valid
Parted-semicolon e [] same h = (rw same refl, tt)
Parted-semicolon e (part ∷ parts) same h = (rw same refl, h)

split-Parted : (e : Expect) (bs : Bytes) → high e ≡ true → scan e bs ≡ true → Parted e (split bs)
unfolding scan split
split-Parted e [] h s = (s, tt)
split-Parted e (b ∷ bs) h s = elim (Bool-cases (b == 0x3b)) [
  | inl semicolon ↦
      let stop =
        at_semicolon e bs h
          (subst (λ c. scan (step e c) bs ≡ true) ((==_iff b 0x3b).0 semicolon) s) in
      rw semicolon (Parted-semicolon e (split bs) stop.0 (split-Parted start bs refl stop.1))
  | inr other ↦
      rw other (in_front-Parted e b (split bs) (split-Parted (step e b) bs (step-high e b h) s))
]

pub split-IsString : (bs : Bytes) → IsString bs → All IsString (split bs)
unfolding valid
split-IsString bs h = whole (split bs) (split-Parted start bs refl h)
  where
    whole : (parts : List Bytes) → Parted start parts → All IsString parts
    whole [] h = tt
    whole (part ∷ parts) h = h
