-- ===== src/Reflector/Latest.antt =====
-- What a round of `execute` of src/motd.rs leaves behind.
use trakt.Base.{
  ℕ, suc, ◌+◌, ◌≡◌, refl, ap, ◌⊎◌, inl, inr, Bool, true, Option, none, some, Option-cases, List, [],
  ◌∷◌, ◌++◌, length, arith,
}
use trakt.Config.{Text, RootConfig, unwrap_or}
use trakt.Raknet.Motd.{Motd}
use trakt.Reflector.{MotdReflector, sources, fetch_all, fetch_round}

-- None of the sources, the first of which has place `k`, gives an answer.
abbrev pub Silent : (ℕ → Text → Option Motd) → ℕ → List Text → Type 0
Silent ping k [] = Unit
Silent ping k (source ∷ later) = (ping k source ≡ none) × Silent ping (k + 1) later

-- The last source that answers, at place `k + length before`.
pub record LastAnswer (ping : ℕ → Text → Option Motd) (k : ℕ) (sources : List Text) (motd : Motd)
    : Type 0 where
  pub before : List Text
  pub source : Text
  pub behind : List Text
  pub at : sources ≡ before ++ (source ∷ behind)
  pub answer : ping (k + length before) source ≡ some motd
  pub silent : Silent ping (k + length before + 1) behind

-- The sources in front of others do not change which answer is the last.
later-LastAnswer :
    (ping : ℕ → Text → Option Motd) (k : ℕ) (s : Text) (later : List Text) (motd : Motd)
    → LastAnswer ping (k + 1) later motd
    → LastAnswer ping k (s ∷ later) motd
later-LastAnswer ping k s later motd h =
    let shift : k + suc (length h.before) ≡ k + 1 + length h.before = omega arith in
    record {
      before = s ∷ h.before;
      source = h.source;
      behind = h.behind;
      at = ap (λ r. s ∷ r) h.at;
      answer = rw shift h.answer;
      silent = rw shift h.silent;
    }

Silent-fetch_all :
    (ping : ℕ → Text → Option Motd) (k : ℕ) (later : List Text) (r : MotdReflector)
    → Silent ping k later
    → fetch_all ping k later r ≡ r
unfolding fetch_all
Silent-fetch_all ping k [] r h = refl
Silent-fetch_all ping k (source ∷ later) r h = rw h.0 (Silent-fetch_all ping (k + 1) later r h.1)

-- What the sources leave.
abbrev pub Left : (ℕ → Text → Option Motd) → ℕ → List Text → MotdReflector → MotdReflector → Type 0
Left ping k sources r left =
    (Silent ping k sources × (left ≡ r))
    ⊎ ((motd : Motd) × LastAnswer ping k sources motd × (left.last_motd ≡ some motd))

fetch_all-Left :
    (ping : ℕ → Text → Option Motd) (k : ℕ) (later : List Text) (r : MotdReflector)
    → Left ping k later r (fetch_all ping k later r)
unfolding fetch_all
fetch_all-Left ping k [] r = inl (tt, refl)
fetch_all-Left ping k (source ∷ later) r = elim (Option-cases (ping k source)) [
  | inl failed ↦ elim (fetch_all-Left ping (k + 1) later r) [
    | inl (silent, same) ↦ inl ((failed, silent), rw failed same)
    | inr (motd, last, kept) ↦
        inr (motd, later-LastAnswer ping k source later motd last, rw (fetch_all, failed) kept)
  ]
  | inr (motd, good) ↦
      elim (fetch_all-Left ping (k + 1) later (record r { last_motd = some motd })) [
        | inl (silent, same) ↦
            let at_k : k + length {A = Text} [] ≡ k = omega arith in
            inr (
              motd,
              record {
                before = [];
                source = source;
                behind = later;
                at = refl;
                answer = rw at_k good;
                silent = rw at_k silent;
              },
              rw (fetch_all, good) (ap (λ (s : MotdReflector). s.last_motd) same),
            )
        | inr (other, last, kept) ↦
            inr (other, later-LastAnswer ping k source later other last, rw (fetch_all, good) kept)
      ]
]

-- After a round the reflector holds the MOTD of the last of its sources that answered; when none did
-- it is as it was before, so a MOTD once held is never lost to failing servers.
pub fetch_round-Left :
    (ping : ℕ → Text → Text → Bool → Option Motd) (config : RootConfig) (r : MotdReflector)
    → Left
        (λ k source. ping k config.proxy_bind source (unwrap_or config.proxy_protocol true))
        0
        (sources config)
        r
        (fetch_round ping config r)
unfolding fetch_round
fetch_round-Left ping config r = fetch_all-Left _ 0 (sources config) r
