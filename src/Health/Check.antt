-- ===== src/Health/Check.antt =====
-- One server's health over a history of checks.
use trakt.Base.{
  ℕ, ◌+◌, ◌≡◌, refl, Bool, true, false, ◌&&◌, ◌||◌, List, [], ◌∷◌, arith, ltb, if◌then◌else◌,
}
use trakt.Server.{ServerHealth, default_health}
use trakt.Health.{update_health}

-- The health after a history of pings, the oldest first.
abbrev pub after : ServerHealth → List Bool → ServerHealth
after h [] = h
after h (success ∷ later) = after (update_health success h) later

-- What the history says: whether a ping ever succeeded, and how many failed since.
abbrev pub ever : List Bool → Bool
ever [] = false
ever (b ∷ bs) = b || ever bs

abbrev pub count_failures : ℕ → List Bool → ℕ
count_failures n [] = n
count_failures n (b ∷ bs) = count_failures (if b then 0 else n + 1) bs

after-fields :
    (h : ServerHealth) (bs : List Bool)
    → ((after h bs).ever_alive ≡ (h.ever_alive || ever bs))
      × ((after h bs).failed_attempts ≡ count_failures h.failed_attempts bs)
unfolding update_health
after-fields h [] = ground arith
after-fields h (true ∷ bs) = ground (arith, after-fields (update_health true h) bs)
after-fields h (false ∷ bs) = ground (arith, after-fields (update_health false h) bs)

-- Alive means that the server answered at some time, and fewer than three pings failed since.
abbrev pub IsConsistent : ServerHealth → Type 0
IsConsistent h = h.alive ≡ (h.ever_alive && ltb h.failed_attempts 3)

update-IsConsistent :
    (b : Bool) (h : ServerHealth) → IsConsistent h → IsConsistent (update_health b h)
unfolding update_health
update-IsConsistent true h c = refl
update-IsConsistent false h c = refl

after-IsConsistent :
    (h : ServerHealth) (bs : List Bool) → IsConsistent h → IsConsistent (after h bs)
after-IsConsistent h [] c = c
after-IsConsistent h (b ∷ bs) c =
    after-IsConsistent (update_health b h) bs (update-IsConsistent b h c)

-- After any history of pings a server counts as alive exactly if one of them succeeded and fewer than
-- three failed since the last success.
pub alive_exactly :
    (bs : List Bool) → (after default_health bs).alive ≡ (ever bs && ltb (count_failures 0 bs) 3)
alive_exactly bs =
    ground (arith, after-fields default_health bs, after-IsConsistent default_health bs refl)
