-- ===== src/Proxy/Clients/Counts.antt =====
-- Counting the clients with a property, and what a change of one client does to the count.
use trakt.Base.{
  ℕ, zero, suc, ◌+◌, ◌<◌, ◌≡◌, refl, sym, Bool, true, false, arith, if◌then◌else◌, ◌==◌,
}
use native.Mathlib.Decide.{dec_lt}

-- How many of the numbers below `n` pass the test.
unfoldable pub count_upto : (ℕ → Bool) → ℕ → ℕ
count_upto p zero = 0
count_upto p (suc n) = (if p n then 1 else 0) + count_upto p n

pub count_upto-ext :
    (p q : ℕ → Bool) (n : ℕ) → ((j : ℕ) → j < n → p j ≡ q j) → count_upto p n ≡ count_upto q n
unfolding count_upto
count_upto-ext p q zero e = refl
count_upto-ext p q (suc n) e =
    rw (e n (omega arith), count_upto-ext p q n (λ j h. e j (omega arith)))

-- One number counts differently, and the others as before.
pub count_upto-change :
    (p q : ℕ → Bool) (i n : ℕ)
    → i < n
    → ((j : ℕ) → (j == i) ≡ false → p j ≡ q j)
    → count_upto q n + (if p i then 1 else 0) ≡ count_upto p n + (if q i then 1 else 0)
unfolding count_upto
count_upto-change p q i zero lt e = absurd (omega arith)
count_upto-change p q i (suc n) lt e = elim (dec_lt i n) [
  | yes lt' ↦
      let rest = count_upto-change p q i n lt' e in
      let same = e n (ground arith) in rw same (omega arith)
  | no ge ↦
      let i_last : i ≡ n = omega arith in
      let rest = count_upto-ext p q n (λ j h. e j (ground arith)) in rw (i_last, rest) (omega arith)
]

pub count_upto-none : (p : ℕ → Bool) (n : ℕ) → ((j : ℕ) → j < n → p j ≡ false) → count_upto p n ≡ 0
unfolding count_upto
count_upto-none p zero e = refl
count_upto-none p (suc n) e =
    rw (e n (omega arith), count_upto-none p n (λ j h. e j (omega arith))) refl

pub count_upto-skip : (p : ℕ → Bool) (n : ℕ) → p n ≡ false → count_upto p (n + 1) ≡ count_upto p n
unfolding count_upto
count_upto-skip p n e = let next : n + 1 ≡ suc n = omega arith in rw next (rw e (omega arith))

pub count_upto-pos : (p : ℕ → Bool) (i n : ℕ) → i < n → p i ≡ true → 0 < count_upto p n
unfolding count_upto
count_upto-pos p i zero lt e = absurd (omega arith)
count_upto-pos p i (suc n) lt e = elim (dec_lt i n) [
  | yes lt' ↦ omega (arith, count_upto-pos p i n lt' e)
  | no ge ↦ let last : i ≡ n = omega arith in rw (sym last, e) (omega arith)
]
