-- ===== src/Entry/Startup.antt =====
-- What src/main.rs starts from.
use mathlib.Core.Path.{subst}
use trakt.Base.{
  ℕ, ◌+◌, ◌-◌, ◌≤◌, ◌<◌, ◌≡◌, refl, sym, ap, ◌∙◌, ◌↔◌, inl, inr, Bool, true, false, Option, none,
  some, ltb, leb, arith, if◌then◌else◌, Bool-cases,
}
use trakt.Config.{RootConfig}
use trakt.Config.Provider.{read_config}
use trakt.Proxy.Snapshot.{RaknetProxySnapshot}
use trakt.Entry.{
  SnapshotFile, unreadable, absent, present, elapsed, ten_seconds, too_old, usable_snapshot,
  provider_at_start, bind_address_at_start, Start, launch, startup,
}

-- A snapshot that is read and was taken in the ten seconds before `now`.
abbrev pub Recent : ℕ → SnapshotFile → RaknetProxySnapshot → Type 0
Recent now file snapshot =
    (file ≡ present snapshot) × (snapshot.taken_at ≤ now) × (now < snapshot.taken_at + ten_seconds)

-- The program starts with the clients, the configuration and the address of a snapshot.
abbrev pub Recovers : RaknetProxySnapshot → Option Start → Type 0
Recovers snapshot none = ⊥
Recovers snapshot (some start) =
    (start.recovered ≡ some snapshot)
    × (start.provider.config ≡ snapshot.config)
    × (start.bind_address ≡ snapshot.player_proxy_bind)

if-some :
    (b : Bool) (x y : RaknetProxySnapshot)
    → (if b then none else some x) ≡ some y
    → (b ≡ false) × (x ≡ y)
if-some true x y h = absurd cc
if-some false x y h = (refl, cc)

young :
    (now taken_at : ℕ)
    → taken_at ≤ now
    → now < taken_at + ten_seconds
    → too_old (elapsed now taken_at) ≡ false
young now taken_at h1 h2 = elim (Bool-cases (ltb now taken_at)) [
  | inl behind ↦ absurd (lt_absurd now taken_at behind h1)
  | inr fine ↦ rw fine (fresh (now - taken_at) (omega arith))
]
  where
    lt_absurd : (a b : ℕ) → ltb a b ≡ true → b ≤ a → ⊥
    lt_absurd a b h le = ground arith

    fresh : (age : ℕ) → age < ten_seconds → leb ten_seconds age ≡ false
    fresh age h = ground arith

age_limits :
    (now taken_at : ℕ)
    → too_old (elapsed now taken_at) ≡ false
    → (taken_at ≤ now) × (now < taken_at + ten_seconds)
age_limits now taken_at h = elim (Bool-cases (ltb now taken_at)) [
  | inl behind ↦ absurd (cc (ap (λ b. too_old (if b then none else some (now - taken_at))) behind))
  | inr fine ↦
      let recent : leb ten_seconds (now - taken_at) ≡ false =
        sym (ap (λ b. too_old (if b then none else some (now - taken_at))) fine) ∙ h in
      (
        not_behind now taken_at fine,
        within_limit now taken_at (not_behind now taken_at fine) recent,
      )
]
  where
    not_behind : (a b : ℕ) → ltb a b ≡ false → b ≤ a
    not_behind a b h = ground arith

    within_limit : (a b : ℕ) → b ≤ a → leb ten_seconds (a - b) ≡ false → a < b + ten_seconds
    within_limit a b le h = ground arith

Recent-usable :
    (now : ℕ) (file : SnapshotFile) (snapshot : RaknetProxySnapshot)
    → Recent now file snapshot
    → usable_snapshot now file ≡ some snapshot
unfolding usable_snapshot
Recent-usable now file snapshot h =
    ap (usable_snapshot now) h.0 ∙ rw (young now snapshot.taken_at h.1 h.2) refl

usable-Recent :
    (now : ℕ) (file : SnapshotFile) (snapshot : RaknetProxySnapshot)
    → usable_snapshot now file ≡ some snapshot
    → Recent now file snapshot
unfolding usable_snapshot
usable-Recent now unreadable snapshot e = absurd cc
usable-Recent now absent snapshot e = absurd cc
usable-Recent now (present found) snapshot e =
    let parts = if-some _ found snapshot e in
    let limits = age_limits now found.taken_at parts.0 in
    (
      ap present parts.1,
      subst (λ (s : RaknetProxySnapshot). s.taken_at ≤ now) parts.1 limits.0,
      subst (λ (s : RaknetProxySnapshot). now < s.taken_at + ten_seconds) parts.1 limits.1,
    )

launch-Recovers :
    (snapshot : RaknetProxySnapshot) (config_file : Option RootConfig)
    → Recovers snapshot (launch (some snapshot) config_file)
unfolding launch provider_at_start bind_address_at_start
launch-Recovers snapshot config_file = (refl, refl, refl)

Recovers-launch :
    (snapshot : RaknetProxySnapshot) (o : Option RaknetProxySnapshot)
    (config_file : Option RootConfig)
    → Recovers snapshot (launch o config_file)
    → o ≡ some snapshot
unfolding launch provider_at_start read_config
Recovers-launch snapshot none none h = absurd h
Recovers-launch snapshot none (some config) h = h.0
Recovers-launch snapshot (some found) config_file h = h.0

-- The program starts with the clients, the configuration and the address of a snapshot exactly when
-- the snapshot file could be read and holds that snapshot, which is not from the future and less than
-- ten seconds old; whatever the configuration file is then.
pub startup-Recovers :
    (snapshot : RaknetProxySnapshot) (now : ℕ) (file : SnapshotFile)
    (config_file : Option RootConfig)
    → Recovers snapshot (startup now file config_file) ↔ Recent now file snapshot
unfolding startup
startup-Recovers snapshot now file config_file = (
  λ h.
      usable-Recent now file snapshot
        (Recovers-launch snapshot (usable_snapshot now file) config_file h),
  λ h.
      subst (λ o. Recovers snapshot (launch o config_file))
        (sym (Recent-usable now file snapshot h)) (launch-Recovers snapshot config_file),
)
