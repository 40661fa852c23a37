-- ===== src/Balancer/RoundRobin.antt =====
-- The round robin of `LoadBalancer::next`: the first server from the index on that may be picked.
use trakt.Base.{
  ℕ, zero, suc, ◌+◌, ◌-◌, ◌≤◌, ◌<◌, ◌≡◌, refl, ap, ◌∙◌, Bool, true, List, [], ◌∷◌, ◌++◌, Option,
  none, some, arith, length, length-append, take-append-drop, get_elem?, get_elem?-some, drop-cons,
  drop_all, take, drop, leb, ==-zero, Bool-cases, Option-cases, if◌then◌else◌, inl, inr,
}
use trakt.Server.{Store}
use trakt.Balancer.{round_robin, is_alive, eligible, any_alive, count_alive, round_robin_loop, next}

-- The first server of a list that may be picked, alive ones only if `respect`.
unfoldable pub first_eligible : Store → Bool → List ℕ → Option ℕ
first_eligible store respect [] = none
first_eligible store respect (id ∷ ids) =
    let rest = first_eligible store respect ids in
    if eligible store respect id then some id else rest

pub first_eligible_sound :
    (store : Store) (respect : Bool) (ids : List ℕ) {id : ℕ}
    → first_eligible store respect ids ≡ some id
    → eligible store respect id ≡ true
unfolding first_eligible
first_eligible_sound store respect [] h = cc
first_eligible_sound store respect (x ∷ ids) {id} h =
    ground (arith, first_eligible_sound store respect ids {id = id})

first_eligible_alive :
    (store : Store) (ids : List ℕ)
    → 0 < count_alive store ids
    → (id : ℕ) × (first_eligible store true ids ≡ some id)
unfolding first_eligible count_alive
first_eligible_alive store [] h = absurd (omega arith)
first_eligible_alive store (x ∷ ids) h = elim (Bool-cases (is_alive store x)) [
  | inl alive ↦ (x, ground arith)
  | inr dead ↦ let (id, e) = first_eligible_alive store ids (ground arith) in (id, ground arith)
]

-- A list that is not empty has a server that may be picked.
pub first_eligible-some :
    (store : Store) (ids : List ℕ)
    → 0 < length ids
    → (id : ℕ) × (first_eligible store (any_alive store ids) ids ≡ some id)
first_eligible-some store [] h = absurd (omega arith)
first_eligible-some store (x ∷ ids) h = elim (Bool-cases (any_alive store (x ∷ ids))) [
  | inl alive ↦ rw alive (first_eligible_alive store (x ∷ ids) (ground arith))
  | inr dead ↦ rw dead (x, unfold first_eligible in refl)
]

count_alive-append :
    (store : Store) (xs ys : List ℕ)
    → count_alive store (xs ++ ys) ≡ count_alive store xs + count_alive store ys
unfolding count_alive
count_alive-append store [] ys = omega arith
count_alive-append store (x ∷ xs) ys = omega (arith, count_alive-append store xs ys)

-- The servers in the order in which they are tried from an index on.
abbrev pub rotation : ℕ → List ℕ → List ℕ
rotation i ids = drop i ids ++ take i ids

count_alive-rotation :
    (store : Store) (i : ℕ) (ids : List ℕ)
    → count_alive store (rotation i ids) ≡ count_alive store ids
count_alive-rotation store i ids = omega (
  arith,
  count_alive-append store (drop i ids) (take i ids),
  count_alive-append store (take i ids) (drop i ids),
  ap (count_alive store) (take-append-drop i ids),
)

pub rotation-some :
    (store : Store) (i : ℕ) (ids : List ℕ)
    → 0 < length ids
    → (id : ℕ) × (first_eligible store (any_alive store ids) (rotation i ids) ≡ some id)
rotation-some store i ids h = rw (← count_alive-rotation store i ids) (
    first_eligible-some store (rotation i ids) (
      omega (
        arith,
        length-append (drop i ids) (take i ids),
        length-append (take i ids) (drop i ids),
        ap length (take-append-drop i ids),
      )))

-- The index behind `i`, back to 0 at the end.
abbrev pub wrap : List ℕ → ℕ → ℕ
wrap ids i = if leb (length ids) (i + 1) then 0 else i + 1

-- The servers that `n` rounds look at.
unfoldable pub window : List ℕ → ℕ → ℕ → List ℕ
window ids zero i = []
window ids (suc n) i =
    let rest = window ids n (wrap ids i) in
    elim (get_elem? ids i) [ some id ↦ id ∷ rest | none ↦ rest ]

module _ (store : Store) (respect : Bool) (ids : List ℕ) where
  pub loop-window :
      (n i : ℕ)
      → (round_robin_loop store respect ids n i).0 ≡ first_eligible store respect (window ids n i)
  unfolding round_robin_loop first_eligible window
  loop-window zero i = refl
  loop-window (suc n) i = ground (arith, loop-window n (wrap ids i))

  -- A server that is found stands at a position of the list, and the index goes behind it.
  pub loop_found :
      (n i : ℕ) {id : ℕ}
      → (round_robin_loop store respect ids n i).0 ≡ some id
      → (p : ℕ) × (get_elem? ids p ≡ some id)
        × ((round_robin_loop store respect ids n i).1 ≡ wrap ids p)
  unfolding round_robin_loop
  loop_found zero i h = cc
  loop_found (suc n) i {id} h = elim (Option-cases (get_elem? ids i)) [
    | inl out ↦
        let (p, at_p, behind) = loop_found n (wrap ids i) {id = id} (ground arith) in
        (p, at_p, ground arith)
    | inr (x, e) ↦ elim (Bool-cases (eligible store respect x)) [
      | inl taken ↦ (i, ground arith, ground arith)
      | inr skipped ↦
          let (p, at_p, behind) = loop_found n (wrap ids i) {id = id} (ground arith) in
          (p, at_p, ground arith)
    ]
  ]

  -- The index stays in range.
  loop_index : (n i : ℕ) → i < length ids → (round_robin_loop store respect ids n i).1 < length ids
  unfolding round_robin_loop
  loop_index zero i h = h
  loop_index (suc n) i h = ground (arith, loop_index n (wrap ids i))

module _ (ids : List ℕ) where
  pub window_step :
      (n i : ℕ) {id : ℕ}
      → get_elem? ids i ≡ some id
      → window ids (suc n) i ≡ id ∷ window ids n (wrap ids i)
  unfolding window
  window_step n i e = rw (e, window)

  wrap_next : (i : ℕ) → i + 1 < length ids → wrap ids i ≡ suc i
  wrap_next i h = ground arith

  wrap_end : (i : ℕ) → i + 1 ≡ length ids → wrap ids i ≡ 0
  wrap_end i h = ground arith

  pub window_straight : (n i : ℕ) → i + n ≤ length ids → window ids n i ≡ take n (drop i ids)
  window_straight zero i h = unfold window in refl
  window_straight (suc zero) i h =
      let (x, e) = get_elem?-some ids i (omega arith) in
      rw (window_step zero i e, drop-cons ids i e) (unfold window in refl)
  window_straight (suc (suc n)) i h =
      let (x, e) = get_elem?-some ids i (omega arith) in
      rw (
        window_step (suc n) i e,
        wrap_next i (omega arith),
        window_straight (suc n) (suc i) (omega arith),
        drop-cons ids i e,
      )

  window_round :
      (a r b i : ℕ)
      → i + suc a ≡ length ids
      → r ≡ suc a + b
      → b ≤ length ids
      → window ids r i ≡ drop i ids ++ take b ids
  window_round a zero b i h k l = absurd (omega arith)
  window_round zero (suc r) b i h k l =
      let (x, e) = get_elem?-some ids i (omega arith) in
      rw
        (
          window_step r i e,
          wrap_end i (omega arith),
          drop-cons ids i e,
          drop_all ids (suc i) (omega arith),
          window_straight r 0 (omega arith),
        )
        (ap (λ (m : ℕ). x ∷ take m ids) (omega arith))
  window_round (suc a) (suc r) b i h k l =
      let (x, e) = get_elem?-some ids i (omega arith) in
      rw (
        window_step r i e,
        wrap_next i (omega arith),
        window_round a r b (suc i) (omega arith) (omega arith) l,
        drop-cons ids i e,
      )

  -- As many rounds as there are servers look at each server once.
  pub window_all : (i : ℕ) → i < length ids → window ids (length ids) i ≡ rotation i ids
  window_all i h =
      window_round (length ids - suc i) (length ids) i i (omega arith) (omega arith) (omega arith)

-- `next` on a list that is not empty, under the round robin.
pub next_round_robin :
    (store : Store) (ids : List ℕ) (i : ℕ)
    → 0 < length ids
    → let (found, index) = round_robin_loop store (any_alive store ids) ids (length ids) i in
      next store (record { algo = round_robin i; servers = ids })
      ≡ (found, record { algo = round_robin index; servers = ids })
unfolding next
next_round_robin store ids i h = rw (==-zero (length ids) h)

-- While the index is in range, the round robin picks the first server, in the order that starts at
-- the index and goes round, that is alive; if none is alive it picks the one at the index.
pub next-first_eligible :
    (store : Store) (ids : List ℕ) (i : ℕ)
    → i < length ids
    → (next store (record { algo = round_robin i; servers = ids })).0
      ≡ first_eligible store (any_alive store ids) (rotation i ids)
next-first_eligible store ids i h = rw (next_round_robin store ids i (omega arith)) (
    loop-window store (any_alive store ids) ids (length ids) i
    ∙ ap (first_eligible store (any_alive store ids)) (window_all ids i h))
