-- ===== src/Balancer/Member.antt =====
-- `next` of src/load_balancer.rs: where the server that it finds stands.
use trakt.Base.{
  ℕ, ◌≡◌, ap, ◌∙◌, sym, inl, inr, List, [], ◌∷◌, none, some, arith, length, All, All-get_elem?,
}
use trakt.Server.{Store}
use trakt.Balancer.{
  LoadBalanceAlgorithm, LoadBalancerState, round_robin, least_connected, any_alive, next, usize_max,
}
use trakt.Balancer.RoundRobin.{loop_found, next_round_robin}
use trakt.Balancer.LeastConnected.{loop-Outcome, next_least_connected}

next_of-All :
    (P : ℕ → Type 0) (store : Store) (algo : LoadBalanceAlgorithm) (ids : List ℕ) {id : ℕ}
    → All P ids
    → (next store (record { algo = algo; servers = ids })).0 ≡ some id
    → P id
next_of-All P store (round_robin index) [] h e = absurd (unfold next in cc e)
next_of-All P store least_connected [] h e = absurd (unfold next in cc e)
next_of-All P store (round_robin index) (x ∷ ids) {id} h e =
    let (p, at_p, behind) =
      loop_found store (any_alive store (x ∷ ids)) (x ∷ ids) (length (x ∷ ids)) index {id = id}
        (ap (λ r. r.0) (sym (next_round_robin store (x ∷ ids) index (omega arith))) ∙ e) in
    All-get_elem? P (x ∷ ids) p h at_p
next_of-All P store least_connected (x ∷ ids) {id} h e =
    let found = ap (λ r. r.0) (sym (next_least_connected store (x ∷ ids) (omega arith))) ∙ e in
    elim (loop-Outcome store (any_alive store (x ∷ ids)) (x ∷ ids) usize_max none) [
      | inl (same, none_below) ↦ absurd (cc (same, found))
      | inr (p, id', e', at_p, ok, lt, least) ↦ All-get_elem? P (x ∷ ids) p h (cc (at_p, e', found))
    ]

pub next-All :
    (P : ℕ → Type 0) (store : Store) (b : LoadBalancerState) {id : ℕ}
    → All P b.servers
    → (next store b).0 ≡ some id
    → P id
next-All P store b {id} h e = next_of-All P store b.algo b.servers {id = id} h e
