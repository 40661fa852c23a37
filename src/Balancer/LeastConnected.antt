-- ===== src/Balancer/LeastConnected.antt =====
-- The least-connected method of `LoadBalancer::next`.
use trakt.Base.{
  ℕ, suc, ◌≤◌, ◌<◌, ◌≡◌, refl, ◌⊎◌, inl, inr, Bool, true, false, List, [], ◌∷◌, Option, none, some,
  arith, length, get_elem?, All, ==-zero, Bool-cases,
}
use native.Mathlib.Decide.{dec_lt}
use trakt.Server.{Store}
use trakt.Balancer.RoundRobin.{first_eligible, first_eligible-some}
use trakt.Balancer.{least_connected, eligible, any_alive, least_connected_loop, next, usize_max}

module _ (store : Store) where
  abbrev pub load_of : ℕ → ℕ
  load_of id = (store.at id).load

  -- No server of the list that may be picked has a load below `bound`.
  abbrev pub NoneBelow : Bool → ℕ → List ℕ → Type 0
  NoneBelow respect bound = All λ id. (eligible store respect id ≡ false) ⊎ (bound ≤ load_of id)

  NoneBelow-weaken :
      (respect : Bool) (b c : ℕ) (ids : List ℕ)
      → b ≤ c
      → NoneBelow respect c ids
      → NoneBelow respect b ids
  NoneBelow-weaken respect b c [] le h = tt
  NoneBelow-weaken respect b c (id ∷ ids) le (inl barred, h) =
      (inl barred, NoneBelow-weaken respect b c ids le h)
  NoneBelow-weaken respect b c (id ∷ ids) le (inr above, h) =
      (inr (omega arith), NoneBelow-weaken respect b c ids le h)

  -- What the loop leaves: the target that it was given, if nothing beats the bound, or else a server
  -- of the list that does, with nothing below it.
  abbrev pub Outcome : Bool → List ℕ → ℕ → Option ℕ → Option ℕ → Type 0
  Outcome respect ids bound target found =
      ((found ≡ target) × NoneBelow respect bound ids)
      ⊎ ((p id : ℕ) × (found ≡ some id)
          × (get_elem? ids p ≡ some id)
          × (eligible store respect id ≡ true)
          × (load_of id < bound)
          × NoneBelow respect (load_of id) ids)

  -- One more server in front, which was passed over.
  pass :
      (respect : Bool) (x : ℕ) (ids : List ℕ) (bound : ℕ) (target found : Option ℕ)
      → (eligible store respect x ≡ false) ⊎ (bound ≤ load_of x)
      → Outcome respect ids bound target found
      → Outcome respect (x ∷ ids) bound target found
  pass respect x ids bound target found out (inl (same, none_below)) = inl (same, (out, none_below))
  pass respect x ids bound target found (inl barred) (inr (p, id, e, at_p, ok, lt, least)) =
      inr (suc p, id, e, at_p, ok, lt, (inl barred, least))
  pass respect x ids bound target found (inr above) (inr (p, id, e, at_p, ok, lt, least)) =
      inr (suc p, id, e, at_p, ok, lt, (inr (omega arith), least))

  -- One more server in front, which became the target.
  beat :
      (respect : Bool) (x : ℕ) (ids : List ℕ) (bound : ℕ) (target found : Option ℕ)
      → eligible store respect x ≡ true
      → load_of x < bound
      → Outcome respect ids (load_of x) (some x) found
      → Outcome respect (x ∷ ids) bound target found
  beat respect x ids bound target found ok lt (inl (same, none_below)) =
      inr (0, x, same, refl, ok, lt, (inr (omega arith), none_below))
  beat respect x ids bound target found ok lt (inr (p, id, e, at_p, ok', lt', least)) =
      inr (suc p, id, e, at_p, ok', omega arith, (inr (omega arith), least))

  loop_pass :
      (respect : Bool) (x : ℕ) (ids : List ℕ) (bound : ℕ) (target : Option ℕ)
      → (eligible store respect x ≡ false) ⊎ (bound ≤ load_of x)
      → least_connected_loop store respect (x ∷ ids) bound target
        ≡ least_connected_loop store respect ids bound target
  unfolding least_connected_loop
  loop_pass respect x ids bound target (inl barred) = ground arith
  loop_pass respect x ids bound target (inr above) = ground arith

  loop_beat :
      (respect : Bool) (x : ℕ) (ids : List ℕ) (bound : ℕ) (target : Option ℕ)
      → eligible store respect x ≡ true
      → load_of x < bound
      → least_connected_loop store respect (x ∷ ids) bound target
        ≡ least_connected_loop store respect ids (load_of x) (some x)
  unfolding least_connected_loop
  loop_beat respect x ids bound target ok lt = ground arith

  pub loop-Outcome :
      (respect : Bool) (ids : List ℕ) (bound : ℕ) (target : Option ℕ)
      → Outcome respect ids bound target (least_connected_loop store respect ids bound target)
  loop-Outcome respect [] bound target = inl (unfold least_connected_loop in refl, tt)
  loop-Outcome respect (x ∷ ids) bound target = elim (Bool-cases (eligible store respect x)) [
    | inr barred ↦
        rw (loop_pass respect x ids bound target (inl barred))
          (pass respect x ids bound target _ (inl barred) (loop-Outcome respect ids bound target))
    | inl ok ↦ elim (dec_lt (load_of x) bound) [
      | yes lt ↦
          rw (loop_beat respect x ids bound target ok lt) (
            beat respect x ids bound target _ ok lt (loop-Outcome respect ids (load_of x) (some x)))
      | no above ↦ rw (loop_pass respect x ids bound target (inr (omega arith))) (
          pass respect x ids bound target _ (inr (omega arith))
            (loop-Outcome respect ids bound target))
    ]
  ]

  none_eligible :
      (respect : Bool) (bound : ℕ) (ids : List ℕ)
      → NoneBelow respect bound ids
      → All (λ id. load_of id < bound) ids
      → first_eligible store respect ids ≡ none
  unfolding first_eligible
  none_eligible respect bound [] n b = refl
  none_eligible respect bound (x ∷ ids) (inl barred, n) b =
      rw barred (none_eligible respect bound ids n b.1)
  none_eligible respect bound (x ∷ ids) (inr above, n) b = absurd (omega arith)

  pub next_least_connected :
      (ids : List ℕ)
      → 0 < length ids
      → next store (record { algo = least_connected; servers = ids }) ≡ (
        least_connected_loop store (any_alive store ids) ids usize_max none,
        record { algo = least_connected; servers = ids },
      )
  unfolding next
  next_least_connected ids h = rw (==-zero (length ids) h)

  -- A call on a list that is not empty, with no load at the limit of `usize`, finds a server of the
  -- list, an alive one if any is alive, and no server that may be picked has a lesser load. The
  -- state stays as it is.
  pub next_least :
      (ids : List ℕ)
      → 0 < length ids
      → All (λ id. load_of id < usize_max) ids
      → (p id : ℕ) × (next store (record { algo = least_connected; servers = ids })
          ≡ (some id, record { algo = least_connected; servers = ids }))
        × (get_elem? ids p ≡ some id)
        × (eligible store (any_alive store ids) id ≡ true)
        × NoneBelow (any_alive store ids) (load_of id) ids
  next_least ids pos below = elim (loop-Outcome (any_alive store ids) ids usize_max none) [
    | inl (same, none_below) ↦
        let (id, e) = first_eligible-some store ids pos in
        absurd (cc (none_eligible (any_alive store ids) usize_max ids none_below below))
    | inr (p, id, e, at_p, ok, lt, least) ↦
        (p, id, rw (next_least_connected ids pos, e), at_p, ok, least)
  ]
