-- ===== src/Health/Rounds.antt =====
-- A round of checks, and a server that is registered more than once.
use trakt.Base.{
  Bool-cases, inl, inr, ℕ, suc, ◌+◌, ◌≡◌, refl, ap, ◌∙◌, Bool, true, false, List, [], ◌∷◌, ◌++◌,
  arith, length, if◌then◌else◌, ◌==◌,
}
use trakt.Server.{ServerHealth, Store}
use trakt.Health.{
  update_health, check_health, JoinAll, all_joined, join_next, retain_held, Execute, executed,
}
use trakt.Health.Check.{after}

-- How often the list has the number.
unfoldable pub count : ℕ → List ℕ → ℕ
count id [] = 0
count id (x ∷ xs) = if x == id then suc (count id xs) else count id xs

-- The answers of one server, in the order in which its pings ended.
abbrev pub answers_of : ℕ → List (ℕ × Bool) → List Bool
answers_of id [] = []
answers_of id ((x, success) ∷ rounds) =
    let rest = answers_of id rounds in if x == id then success ∷ rest else rest

check_one :
    (success : Bool) (x id : ℕ) (s : Store)
    → ((check_health success x s).0.at id).health
      ≡ (if x == id then update_health success (s.at id).health else (s.at id).health)
unfolding check_health
check_one success x id s = elim (Bool-cases (x == id)) [
  | inl same ↦ let e : x ≡ id = ground arith in rw e (ground arith)
  | inr differ ↦ ground arith
]

after_one :
    (c success : Bool) (h : ServerHealth) (rest : List Bool)
    → after (if c then update_health success h else h) rest
      ≡ after h (if c then success ∷ rest else rest)
after_one true success h rest = refl
after_one false success h rest = refl

joined_health :
    (ids : List ℕ) (rounds : List (ℕ × Bool)) (s t : Store) (id : ℕ)
    → JoinAll ids rounds s t
    → (t.at id).health ≡ after (s.at id).health (answers_of id rounds)
joined_health ids rounds s t id all_joined = refl
joined_health ids rounds s t id (join_next {rounds = rest} before behind x success more) =
    joined_health (before ++ behind) rest (check_health success x s).0 t id more
    ∙ ap (λ h. after h (answers_of id rest)) (check_one success x id s)
    ∙ after_one (x == id) success (s.at id).health (answers_of id rest)

count-append : (id : ℕ) (xs ys : List ℕ) → count id (xs ++ ys) ≡ count id xs + count id ys
unfolding count
count-append id [] ys = omega arith
count-append id (x ∷ xs) ys = ground (arith, count-append id xs ys)

joined_count :
    (ids : List ℕ) (rounds : List (ℕ × Bool)) (s t : Store) (id : ℕ)
    → JoinAll ids rounds s t
    → length (answers_of id rounds) ≡ count id ids
unfolding count
joined_count ids rounds s t id all_joined = refl
joined_count ids rounds s t id (join_next {rounds = rest} before behind x success more) = ground (
  arith,
  joined_count (before ++ behind) rest (check_health success x s).0 t id more,
  count-append id before behind,
  count-append id before (x ∷ behind),
)

count-retain :
    (held : ℕ → Bool) (ids : List ℕ) (id : ℕ)
    → count id (retain_held held ids) ≡ (if held id then count id ids else 0)
unfolding count retain_held
count-retain held [] id = ground arith
count-retain held (x ∷ ids) id = elim (Bool-cases (x == id)) [
  | inl same ↦ let e : x ≡ id = ground arith in rw e (ground (arith, count-retain held ids id))
  | inr differ ↦ ground (arith, count-retain held ids id)
]

-- A round pings every server that someone still holds, as often as it is registered, and no other,
-- each time with an answer of its own. In whatever order the pings end, the health of a server is
-- then what its answers make of it one by one; and the list keeps just the registrations of the
-- servers that are held.
pub execute_lem :
    (held : ℕ → Bool) (ids left : List ℕ) (rounds : List (ℕ × Bool)) (s t : Store) (id : ℕ)
    → Execute held ids s rounds left t
    → (count id left ≡ (if held id then count id ids else 0))
      × (length (answers_of id rounds) ≡ count id left)
      × ((t.at id).health ≡ after (s.at id).health (answers_of id rounds))
execute_lem held ids left rounds s t id (executed joined) = (
  count-retain held ids id,
  joined_count (retain_held held ids) rounds s t id joined,
  joined_health (retain_held held ids) rounds s t id joined,
)
