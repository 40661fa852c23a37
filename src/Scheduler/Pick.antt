-- ===== src/Scheduler/Pick.antt =====
-- Which pending task of src/scheduler.rs goes on, when at most one is there.
use trakt.Base.{◌≡◌, refl, List, [], ◌∷◌, ◌++◌}
use trakt.Scheduler.{Pending, Scheduler, perform}

pub none_there : {A : Type 0} (p : A) (before behind : List A) → [] ≡ before ++ (p ∷ behind) → ⊥
none_there p [] behind e = cc
none_there p (b ∷ before) behind e = cc

one_there :
    {A : Type 0} {x : A} (p : A) (before behind : List A)
    → x ∷ [] ≡ before ++ (p ∷ behind)
    → (before ≡ []) × (p ≡ x) × (behind ≡ [])
one_there p [] behind e = (refl, cc, cc)
one_there p (b ∷ before) behind e = absurd (none_there p before behind cc)

-- The state after `go_on`.
abbrev pub gone_on : List Pending → Pending → List Pending → Scheduler → Scheduler
gone_on before p behind s = record (perform p s).0 {
  pending = before ++ ((perform p s).1 ++ behind);
}

pub alone :
    (s : Scheduler) (x : Pending) (P : Scheduler → Type 0) (before : List Pending) (p : Pending)
    (behind : List Pending)
    → x ∷ [] ≡ before ++ (p ∷ behind)
    → P (gone_on [] x [] s)
    → P (gone_on before p behind s)
alone s x P before p behind e h =
    let one = one_there p before behind e in rw (one.0, one.1, one.2) h
