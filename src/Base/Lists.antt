-- ===== src/Base/Lists.antt =====
-- Lists measured and indexed by native numbers, under the library's names.
use Prim.Native.Nat.{ℕ, zero, suc, ◌+◌, ◌-◌, ◌≤◌, ◌<◌}
use mathlib.Core.Path.{◌≡◌, refl, ap, subst}
use mathlib.Core.List.{List, [], ◌∷◌, ◌++◌, map, reverse, reverse-cons}
use mathlib.Core.Option.{Option, none, some}
use mathlib.Core.Bool.{Bool, true, false, ◌&&◌}
use native.Mathlib.Omega.{arith}
use trakt.Base.Tests.{◌==◌}

module _ {ℓ} {A : Type ℓ} where
  abbrev pub length : List A → ℕ
  length [] = 0
  length (x ∷ xs) = suc (length xs)

  abbrev pub get_elem? : List A → ℕ → Option A
  get_elem? [] i = none
  get_elem? (x ∷ xs) zero = some x
  get_elem? (x ∷ xs) (suc i) = get_elem? xs i

  abbrev pub take : ℕ → List A → List A
  take zero xs = []
  take (suc n) [] = []
  take (suc n) (x ∷ xs) = x ∷ take n xs

  abbrev pub drop : ℕ → List A → List A
  drop zero xs = xs
  drop (suc n) [] = []
  drop (suc n) (x ∷ xs) = drop n xs

  abbrev pub replicate : ℕ → A → List A
  replicate zero a = []
  replicate (suc n) a = a ∷ replicate n a

  abbrev pub All {κ} : (A → Type κ) → List A → Type κ
  All P [] = Unit
  All P (x ∷ xs) = P x × All P xs

module _ {ℓ} {A : Type ℓ} where
  pub length-append : (xs ys : List A) → length (xs ++ ys) ≡ length xs + length ys
  length-append [] ys = omega arith
  length-append (x ∷ xs) ys = omega (arith, length-append xs ys)

  pub length-reverse : (xs : List A) → length (reverse xs) ≡ length xs
  length-reverse [] = refl
  length-reverse (x ∷ xs) =
      omega (
        arith,
        ap length (reverse-cons x xs),
        length-append (reverse xs) (x ∷ []),
        length-reverse xs,
      )

  pub length-replicate : (n : ℕ) (a : A) → length (replicate n a) ≡ n
  length-replicate zero a = refl
  length-replicate (suc n) a = ap suc (length-replicate n a)

  pub take-append-drop : (n : ℕ) (xs : List A) → take n xs ++ drop n xs ≡ xs
  take-append-drop zero xs = refl
  take-append-drop (suc n) [] = refl
  take-append-drop (suc n) (x ∷ xs) = rw (take-append-drop n xs)

  pub length-take_le : (n : ℕ) (xs : List A) → n ≤ length xs → length (take n xs) ≡ n
  length-take_le zero xs h = refl
  length-take_le (suc n) [] h = absurd (omega arith)
  length-take_le (suc n) (x ∷ xs) h = ap suc (length-take_le n xs (omega arith))

  pub take_all : (n : ℕ) (xs : List A) → length xs ≤ n → take n xs ≡ xs
  take_all zero [] h = refl
  take_all zero (x ∷ xs) h = absurd (omega arith)
  take_all (suc n) [] h = refl
  take_all (suc n) (x ∷ xs) h = ap (λ r. x ∷ r) (take_all n xs (omega arith))

  pub length-drop : (n : ℕ) (xs : List A) → length (drop n xs) ≡ length xs - n
  length-drop zero xs = omega arith
  length-drop (suc n) [] = omega arith
  length-drop (suc n) (x ∷ xs) = omega (arith, length-drop n xs)

  pub length-map {κ} : {B : Type κ} (xs : List A) (f : A → B) → length (map f xs) ≡ length xs
  length-map [] f = refl
  length-map (x ∷ xs) f = ap suc (length-map xs f)

  pub map_self : (f : A → A) (xs : List A) → All (λ x. f x ≡ x) xs → map f xs ≡ xs
  map_self f [] h = refl
  map_self f (x ∷ xs) h = cc (map_self f xs h.1)

  pub get_elem?-some : (xs : List A) (i : ℕ) → i < length xs → (x : A) × (get_elem? xs i ≡ some x)
  get_elem?-some [] i h = absurd (omega arith)
  get_elem?-some (x ∷ xs) zero h = (x, refl)
  get_elem?-some (x ∷ xs) (suc i) h = get_elem?-some xs i (omega arith)

  pub get_elem?-lt : (xs : List A) (i : ℕ) {x : A} → get_elem? xs i ≡ some x → i < length xs
  get_elem?-lt [] i h = cc
  get_elem?-lt (x ∷ xs) zero h = omega arith
  get_elem?-lt (x ∷ xs) (suc i) h = omega (arith, get_elem?-lt xs i h)

  pub All-get_elem? {κ} :
      (P : A → Type κ) (xs : List A) (i : ℕ) {x : A} → All P xs → get_elem? xs i ≡ some x → P x
  All-get_elem? P [] i h e = cc
  All-get_elem? P (y ∷ xs) zero {x} h e = let same : y ≡ x = cc in subst P same h.0
  All-get_elem? P (y ∷ xs) (suc i) h e = All-get_elem? P xs i h.1 e

  pub get_elem?-none : (xs : List A) (i : ℕ) → length xs ≤ i → get_elem? xs i ≡ none
  get_elem?-none [] i h = refl
  get_elem?-none (x ∷ xs) zero h = absurd (omega arith)
  get_elem?-none (x ∷ xs) (suc i) h = get_elem?-none xs i (omega arith)

  pub drop-cons :
      (xs : List A) (i : ℕ) {x : A} → get_elem? xs i ≡ some x → drop i xs ≡ x ∷ drop (suc i) xs
  drop-cons [] i h = cc
  drop-cons (y ∷ xs) zero h = ground arith
  drop-cons (y ∷ xs) (suc i) h = drop-cons xs i h

  pub drop_all : (xs : List A) (i : ℕ) → length xs ≤ i → drop i xs ≡ []
  drop_all [] zero h = refl
  drop_all [] (suc i) h = refl
  drop_all (x ∷ xs) zero h = absurd (omega arith)
  drop_all (x ∷ xs) (suc i) h = drop_all xs i (omega arith)

-- `==` on slices of bytes.
unfoldable pub list_eq : List ℕ → List ℕ → Bool
list_eq [] [] = true
list_eq [] (y ∷ ys) = false
list_eq (x ∷ xs) [] = false
list_eq (x ∷ xs) (y ∷ ys) = x == y && list_eq xs ys

pub list_eq_self : (xs : List ℕ) → list_eq xs xs ≡ true
unfolding list_eq
list_eq_self [] = refl
list_eq_self (x ∷ xs) = ground (arith, list_eq_self xs)

pub list_eq→eq : (xs ys : List ℕ) → list_eq xs ys ≡ true → xs ≡ ys
unfolding list_eq
list_eq→eq [] [] h = refl
list_eq→eq [] (y ∷ ys) h = cc
list_eq→eq (x ∷ xs) [] h = cc
list_eq→eq (x ∷ xs) (y ∷ ys) h = ground (arith, list_eq→eq xs ys)
