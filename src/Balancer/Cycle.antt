-- ===== src/Balancer/Cycle.antt =====
-- The round robin over several calls, and after a reload that left its index behind.
use trakt.Base.{
  ℕ, zero, suc, ◌-◌, ◌≤◌, ◌<◌, ◌≡◌, refl, sym, ap, ◌∙◌, ◌⊎◌, Bool, true, false, List, [], ◌∷◌,
  Option, some, map, arith, length, get_elem?, get_elem?-some, get_elem?-none, get_elem?-lt,
  All-get_elem?, All, take, inl, inr,
}
use trakt.Server.{Store}
use trakt.Balancer.{
  LoadBalancerState, round_robin, is_alive, eligible, any_alive, round_robin_loop, next,
}
use trakt.Balancer.RoundRobin.{
  first_eligible, first_eligible_sound, rotation, rotation-some, next-first_eligible, wrap, window,
  window_all, window_step, window_straight, loop-window, loop_found, next_round_robin,
}

-- The results of `n` calls of `next`, with nothing else in between.
pub picks : ℕ → Store → LoadBalancerState → List (Option ℕ)
picks zero store state = []
picks (suc n) store state = (next store state).0 ∷ picks n store (next store state).1

module _ (store : Store) (ids : List ℕ) where
  -- With no server alive, or all of them, every call takes the server at the index.
  abbrev pub AllAlike : Type 0
  AllAlike = (any_alive store ids ≡ false) ⊎ All (λ id. is_alive store id ≡ true) ids

  alike_eligible :
      AllAlike
      → (i : ℕ) {id : ℕ} → get_elem? ids i ≡ some id
      → eligible store (any_alive store ids) id ≡ true
  alike_eligible (inl dead) i e = rw dead
  alike_eligible (inr alive) i {id} e = let a = All-get_elem? _ ids i alive e in ground arith

  loop_first :
      (respect : Bool) (n i : ℕ) {id : ℕ}
      → get_elem? ids i ≡ some id
      → eligible store respect id ≡ true
      → round_robin_loop store respect ids (suc n) i ≡ (some id, wrap ids i)
  unfolding round_robin_loop
  loop_first respect n i e h = ground arith

  loop_some :
      (n i : ℕ) {id : ℕ} (respect : Bool)
      → 0 < n
      → get_elem? ids i ≡ some id
      → eligible store respect id ≡ true
      → round_robin_loop store respect ids n i ≡ (some id, wrap ids i)
  loop_some zero i respect pos e h = absurd (omega arith)
  loop_some (suc n) i respect pos e h = loop_first respect n i e h

  next_first :
      (i : ℕ) {id : ℕ}
      → AllAlike
      → get_elem? ids i ≡ some id
      → next store (record { algo = round_robin i; servers = ids })
        ≡ (some id, record { algo = round_robin (wrap ids i); servers = ids })
  next_first i {id} h e = rw (
    next_round_robin store ids i (omega (arith, get_elem?-lt ids i e)),
    loop_some (length ids) i {id = id} (any_alive store ids) (omega (arith, get_elem?-lt ids i e)) e
        (alike_eligible h i e),
  )

  picks-window :
      (n i : ℕ)
      → AllAlike
      → i < length ids
      → picks n store (record { algo = round_robin i; servers = ids }) ≡ map some (window ids n i)
  unfolding picks
  picks-window zero i h lt = unfold window in refl
  picks-window (suc n) i h lt =
      let (x, e) = get_elem?-some ids i lt in
      rw (next_first i h e, window_step ids n i e, picks-window n (wrap ids i) h (ground arith))

  -- If the servers are all alive, or all not, then as many calls as there are servers pick each of
  -- them once, in the order of the list from the index on.
  picks-rotation :
      (i : ℕ)
      → AllAlike
      → i < length ids
      → picks (length ids) store (record { algo = round_robin i; servers = ids })
        ≡ map some (rotation i ids)
  picks-rotation i h lt = picks-window (length ids) i h lt ∙ ap (map some) (window_all ids i lt)

  window_stale : (n i : ℕ) → length ids ≤ i → n < length ids → window ids (suc n) i ≡ take n ids
  unfolding window
  window_stale n i h lt =
      rw (get_elem?-none ids i h, window) (rw (wraps i h) (window_straight ids n 0 (omega arith)))
    where
      wraps : (j : ℕ) → length ids ≤ j → wrap ids j ≡ 0
      wraps j k = ground arith

  -- With the index out of range, as a reload that removes servers leaves it, a call skips the last
  -- server: it picks the first eligible one of the others.
  pub next_stale :
      (i : ℕ)
      → 0 < length ids
      → length ids ≤ i
      → (next store (record { algo = round_robin i; servers = ids })).0
        ≡ first_eligible store (any_alive store ids) (take (length ids - 1) ids)
  next_stale i pos h = rw (next_round_robin store ids i pos) (
      loop-window store (any_alive store ids) ids (length ids) i
      ∙ ap (first_eligible store (any_alive store ids)) (
          ap (λ (n : ℕ). window ids n i) (omega arith)
          ∙ window_stale (length ids - 1) i h (omega arith)))

  in_range : (p : ℕ) → p < length ids → wrap ids p < length ids
  in_range p h = ground arith

  -- While the index is in range, a call on a list that is not empty finds a server: one of the list,
  -- and an alive one if any is alive. The index goes behind that server, and stays in range.
  pub next_available :
      (i : ℕ)
      → i < length ids
      → let (found, state) = next store (record { algo = round_robin i; servers = ids }) in
        (p id : ℕ) × (found ≡ some id)
        × (get_elem? ids p ≡ some id)
        × (eligible store (any_alive store ids) id ≡ true)
        × (state ≡ record { algo = round_robin (wrap ids p); servers = ids })
        × (wrap ids p < length ids)
  next_available i h =
      let respect = any_alive store ids in
      let (id, e) = rotation-some store i ids (omega arith) in
      let looked = next-first_eligible store ids i h ∙ e in
      let found =
        ap (λ (r : Option ℕ × LoadBalancerState). r.0)
          (sym (next_round_robin store ids i (omega arith)))
        ∙ looked in
      let (p, at_p, behind) = loop_found store respect ids (length ids) i found in
      (
        p,
        id,
        looked,
        at_p,
        first_eligible_sound store respect (rotation i ids) e,
        ap (λ (r : Option ℕ × LoadBalancerState). r.1) (next_round_robin store ids i (omega arith))
            ∙ ap (λ (k : ℕ). record { algo = round_robin k; servers = ids }) behind,
        in_range p (get_elem?-lt ids p at_p),
      )
