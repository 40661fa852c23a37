-- ===== src/Raknet/Utf8/Append.antt =====
-- The test of `String::from_utf8` on texts behind one another.
use trakt.Base.{ℕ, ◌<◌, ◌≡◌, refl, ◌∙◌, true, [], ◌∷◌, ◌++◌, arith, All, ltb}
use trakt.Raknet.Bytes.{Bytes}
use trakt.Raknet.Utf8.{Expect, start, next, broken, first_byte, step, scan, valid}

ltb-true : (a b : ℕ) → a < b → ltb a b ≡ true
ltb-true a b h = ground arith

scan-append : (e : Expect) (xs ys : Bytes) → scan e xs ≡ true → scan e (xs ++ ys) ≡ scan start ys
unfolding scan
scan-append start [] ys h = refl
scan-append (next lo hi k) [] ys h = cc
scan-append broken [] ys h = cc
scan-append e (x ∷ xs) ys h = scan-append (step e x) xs ys h

-- Text behind valid text is valid if it is so by itself.
pub valid-append : (xs ys : Bytes) → valid xs ≡ true → valid ys ≡ true → valid (xs ++ ys) ≡ true
unfolding valid
valid-append xs ys hx hy = scan-append start xs ys hx ∙ hy

ascii_first : (b : ℕ) → b < 0x80 → first_byte b ≡ start
unfolding first_byte
ascii_first b h = rw (ltb-true b 0x80 h) refl

pub valid_ascii : (bs : Bytes) → All (λ b. b < 0x80) bs → valid bs ≡ true
unfolding valid scan step
valid_ascii [] h = refl
valid_ascii (b ∷ bs) h = rw (ascii_first b h.0) (valid_ascii bs h.1)

pub valid-cons : (b : ℕ) (bs : Bytes) → b < 0x80 → valid bs ≡ true → valid (b ∷ bs) ≡ true
valid-cons b bs h hb = valid-append (b ∷ []) bs (valid_ascii (b ∷ []) (h, tt)) hb
