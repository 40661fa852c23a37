-- ===== src/Raknet/Motd/Fields.antt =====
-- The parts that `split(';')` of src/raknet/ping.rs finds, and the fields without a semicolon.
use trakt.Base.{
  ℕ, ◌≡◌, refl, ap, ◌≢◌, inl, inr, false, some, List, [], ◌∷◌, ◌++◌, arith, All, Bool-cases, ◌==◌,
  list_eq, list_eq→eq, ltb, ◌^◌, ◌-◌,
}
use trakt.Raknet.Bytes.{Bytes}
use trakt.Raknet.Decimal.{display, display_i64}
use trakt.Raknet.Decimal.RoundTrip.{IsDigit, display-IsDigit}
use trakt.Raknet.Motd.{
  BedrockEdition, pocket_edition, education_edition, other_edition, GameMode, survival, creative,
  other_mode, mcpe, mcbe, survival_text, creative_text, edition_text, gamemode_text, join, split,
  edition_of, gamemode_of,
}

-- A field without a semicolon.
abbrev pub IsField : Bytes → Type 0
IsField bs = All (λ b. (b == 0x3b) ≡ false) bs

split-append :
    (field rest : Bytes) → IsField field → split (field ++ (0x3b ∷ rest)) ≡ field ∷ split rest
unfolding split
split-append [] rest h = refl
split-append (b ∷ bs) rest h = rw (h.0, split-append bs rest h.1) refl

-- The parts of joined fields are the fields, and the empty string behind the last semicolon.
pub split-join :
    (fields : List Bytes) → All IsField fields → split (join fields) ≡ fields ++ ([] ∷ [])
unfolding join split
split-join [] h = refl
split-join (field ∷ fields) h =
    rw (split-append field (join fields) h.0) (ap (λ r. field ∷ r) (split-join fields h.1))

digits-IsField : (bs : Bytes) → All IsDigit bs → IsField bs
digits-IsField [] h = tt
digits-IsField (b ∷ bs) h = (ground arith, digits-IsField bs h.1)

pub display-IsField : (n : ℕ) → IsField (display n)
display-IsField n = digits-IsField (display n) (display-IsDigit n)

pub display_i64-IsField : (v : ℕ) → IsField (display_i64 v)
unfolding display_i64
display_i64-IsField v = elim (Bool-cases (ltb v (2 ^ 63))) [
  | inl positive ↦ rw positive (display-IsField v)
  | inr negative ↦ rw negative (refl, display-IsField (2 ^ 64 - v))
]

-- An edition that is written as no other one is.
abbrev pub IsEdition : BedrockEdition → Type 0
IsEdition pocket_edition = Unit
IsEdition education_edition = Unit
IsEdition (other_edition str) = IsField str × (str ≢ []) × (str ≢ mcpe) × (str ≢ mcbe)

abbrev pub IsGameMode : GameMode → Type 0
IsGameMode survival = Unit
IsGameMode creative = Unit
IsGameMode (other_mode str) = IsField str × (str ≢ survival_text) × (str ≢ creative_text)

list_eq-ne : (xs ys : Bytes) → xs ≢ ys → list_eq xs ys ≡ false
list_eq-ne xs ys h = elim (Bool-cases (list_eq xs ys)) [
  | inl e ↦ absurd (h (list_eq→eq xs ys e))
  | inr e ↦ e
]

pub edition_text-IsField : (e : BedrockEdition) → IsEdition e → IsField (edition_text e)
unfolding edition_text
edition_text-IsField pocket_edition h = (refl, (refl, (refl, (refl, tt))))
edition_text-IsField education_edition h = (refl, (refl, (refl, (refl, tt))))
edition_text-IsField (other_edition str) h = h.0

pub gamemode_text-IsField : (g : GameMode) → IsGameMode g → IsField (gamemode_text g)
unfolding gamemode_text
gamemode_text-IsField survival h =
    (refl, (refl, (refl, (refl, (refl, (refl, (refl, (refl, tt))))))))
gamemode_text-IsField creative h =
    (refl, (refl, (refl, (refl, (refl, (refl, (refl, (refl, tt))))))))
gamemode_text-IsField (other_mode str) h = h.0

pub edition_of-text :
    (e : BedrockEdition) → IsEdition e → edition_of (some (edition_text e)) ≡ some e
unfolding edition_of edition_text list_eq
edition_of-text pocket_edition h = refl
edition_of-text education_edition h = refl
edition_of-text (other_edition []) h = absurd (h.1 refl)
edition_of-text (other_edition (b ∷ bs)) h =
    rw (list_eq-ne (b ∷ bs) mcpe h.2, list_eq-ne (b ∷ bs) mcbe h.3) refl

pub gamemode_of-text : (g : GameMode) → IsGameMode g → gamemode_of (some (gamemode_text g)) ≡ g
unfolding gamemode_of gamemode_text list_eq
gamemode_of-text survival h = refl
gamemode_of-text creative h = refl
gamemode_of-text (other_mode str) h =
    rw (list_eq-ne str survival_text h.1, list_eq-ne str creative_text h.2) refl
