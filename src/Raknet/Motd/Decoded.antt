-- ===== src/Raknet/Motd/Decoded.antt =====
-- What `decode_payload` of src/raknet/ping.rs returns, whatever the payload.
use trakt.Base.{
  ℕ, ◌-◌, ◌^◌, ◌<◌, ◌≡◌, refl, ap, ◌≢◌, ◌⊎◌, inl, inr, false, Option, none, some, List, [], ◌∷◌,
  arith, All, Bool-cases, Option-cases, ◌==◌, list_eq, list_eq_self,
}
use mathlib.Core.Path.{subst}
use trakt.Raknet.Bytes.{Bytes}
use trakt.Raknet.Decimal.{parse_unsigned, parse_signed}
use trakt.Raknet.Decimal.Bounds.{parse_unsigned-le, parse_signed-lt}
use trakt.Raknet.Motd.{
  BedrockEdition, pocket_edition, education_edition, other_edition, Motd, Parts, mcpe, mcbe,
  survival_text, creative_text, in_front, split, next, edition_of, gamemode_of, text, parsed,
  zero_flag, decode_fields, decode_parts, decode_payload,
}
use trakt.Raknet.Motd.Fields.{IsField, IsEdition, IsGameMode}
use trakt.Raknet.Motd.RoundTrip.{IsMotd}

in_front-IsField :
    (b : ℕ) (parts : List Bytes)
    → (b == 0x3b) ≡ false
    → All IsField parts
    → All IsField (in_front b parts)
in_front-IsField b [] h ok = ((h, tt), tt)
in_front-IsField b (part ∷ parts) h ok = ((h, ok.0), ok.1)

split-IsField : (bs : Bytes) → All IsField (split bs)
unfolding split
split-IsField [] = (tt, tt)
split-IsField (b ∷ bs) = elim (Bool-cases (b == 0x3b)) [
  | inl semicolon ↦ rw semicolon (tt, split-IsField bs)
  | inr other ↦ rw other (in_front-IsField b (split bs) other (split-IsField bs))
]

-- A computation on parts with a property `Q`, whose results have a property `P`.
abbrev pub Gives : (Bytes → Type 0) → {A : Type 0} → (A → Type 0) → Parts A → Type 0
Gives Q P m = (parts : List Bytes) → All Q parts → P (m parts).0 × All Q (m parts).1

abbrev pub OnPart : (Bytes → Type 0) → Option Bytes → Type 0
OnPart Q none = Unit
OnPart Q (some part) = Q part

module _ (Q : Bytes → Type 0) where
  pub next-Gives : Gives Q (OnPart Q) next
  unfolding next
  next-Gives [] h = (tt, tt)
  next-Gives (part ∷ parts) h = h

  pub text-Gives : Q [] → Gives Q Q text
  unfolding text next
  text-Gives empty [] h = (empty, tt)
  text-Gives empty (part ∷ parts) h = h

  pub flag-Gives : Gives Q (λ b. Unit {0}) zero_flag
  unfolding zero_flag next
  flag-Gives [] h = (tt, tt)
  flag-Gives (part ∷ parts) h = (tt, h.1)

  pub parsed-Gives :
      (parse : Bytes → Option ℕ) (P : ℕ → Type 0)
      → ((bs : Bytes) (n : ℕ) → parse bs ≡ some n → P n)
      → P 0
      → Gives Q P (parsed parse)
  unfolding parsed next
  parsed-Gives parse P h pos [] ok = (pos, tt)
  parsed-Gives parse P h pos (part ∷ parts) ok = elim (Option-cases (parse part)) [
    | inl bad ↦ rw bad (pos, ok.1)
    | inr (n, good) ↦ rw good (h part n good, ok.1)
  ]

list_eq-false : (xs ys : Bytes) → list_eq xs ys ≡ false → xs ≢ ys
list_eq-false xs ys h = λ e. cc (list_eq_self xs, ap (list_eq xs) e)

edition_of-IsEdition :
    (o : Option Bytes)
    → OnPart IsField o
    → (edition_of o ≡ none) ⊎ ((e : BedrockEdition) × (edition_of o ≡ some e) × IsEdition e)
unfolding edition_of
edition_of-IsEdition none ok = inl refl
edition_of-IsEdition (some []) ok = inl refl
edition_of-IsEdition (some (b ∷ bs)) ok = elim (Bool-cases (list_eq (b ∷ bs) mcpe)) [
  | inl first ↦ inr (pocket_edition, rw first refl, tt)
  | inr h1 ↦ elim (Bool-cases (list_eq (b ∷ bs) mcbe)) [
    | inl second ↦ inr (education_edition, rw (h1, second) refl, tt)
    | inr h2 ↦ inr (
      other_edition (b ∷ bs),
      rw (h1, h2) refl,
      (ok, (λ e. cc), list_eq-false _ _ h1, list_eq-false _ _ h2),
    )
  ]
]

gamemode_of-IsGameMode : (o : Option Bytes) → OnPart IsField o → IsGameMode (gamemode_of o)
unfolding gamemode_of
gamemode_of-IsGameMode none ok = tt
gamemode_of-IsGameMode (some custom) ok = elim (Bool-cases (list_eq custom survival_text)) [
  | inl first ↦ rw first tt
  | inr h1 ↦ elim (Bool-cases (list_eq custom creative_text)) [
    | inl second ↦ rw (h1, second) tt
    | inr h2 ↦ rw (h1, h2) (ok, list_eq-false _ _ h1, list_eq-false _ _ h2)
  ]
]

decode_fields-IsMotd :
    (edition : BedrockEdition) (parts : List Bytes)
    → IsEdition edition
    → All IsField parts
    → IsMotd (decode_fields edition parts).0
unfolding decode_fields
decode_fields-IsMotd edition parts ok fields =
    let unsigned16 =
      parsed-Gives IsField (parse_unsigned (2 ^ 16 - 1)) (λ n. n < 2 ^ 16)
        (λ bs n e. omega (arith, parse_unsigned-le (2 ^ 16 - 1) bs n e)) (omega arith) in
    let unsigned64 =
      parsed-Gives IsField (parse_unsigned (2 ^ 64 - 1)) (λ n. n < 2 ^ 64)
        (λ bs n e. omega (arith, parse_unsigned-le (2 ^ 64 - 1) bs n e)) (omega arith) in
    let signed64 =
      parsed-Gives IsField (parse_signed 64) (λ n. n < 2 ^ 64) parse_signed-lt (omega arith) in
    let one = text-Gives IsField tt parts fields in
    let version = unsigned16 _ one.1 in
    let name = text-Gives IsField tt _ version.1 in
    let players = unsigned64 _ name.1 in
    let max_players = unsigned64 _ players.1 in
    let uuid = signed64 _ max_players.1 in
    let two = text-Gives IsField tt _ uuid.1 in
    let mode = next-Gives IsField _ two.1 in
    let flag = flag-Gives IsField _ mode.1 in
    let v4 = unsigned16 _ flag.1 in
    let v6 = unsigned16 _ v4.1 in
    record {
      uuid = uuid.0;
      edition_ok = ok;
      version = version.0;
      name = name.0;
      first = one.0;
      second = two.0;
      players = players.0;
      max_players = max_players.0;
      mode = gamemode_of-IsGameMode _ mode.0;
      v4 = v4.0;
      v6 = v6.0;
    }

pub decode_parts-none :
    (parts : List Bytes) → edition_of (next parts).0 ≡ none → decode_parts parts ≡ none
unfolding decode_parts
decode_parts-none parts h = rw (decode_parts, h) refl

pub decode_parts-some :
    (parts : List Bytes) (e : BedrockEdition)
    → edition_of (next parts).0 ≡ some e
    → decode_parts parts ≡ some (decode_fields e (next parts).1).0
unfolding decode_parts
decode_parts-some parts e h = rw (decode_parts, h) refl

decode_parts-IsMotd :
    (parts : List Bytes) (m : Motd) → All IsField parts → decode_parts parts ≡ some m → IsMotd m
decode_parts-IsMotd parts m ok e =
    let first = next-Gives IsField parts ok in
    elim (edition_of-IsEdition (next parts).0 first.0) [
      | inl bad ↦ absurd (cc (decode_parts-none parts bad))
      | inr (edition, good, fine) ↦
          let same : (decode_fields edition (next parts).1).0 ≡ m =
            cc (decode_parts-some parts edition good) in
          subst IsMotd same (decode_fields-IsMotd edition (next parts).1 fine first.1)
    ]

-- Whatever payload is decoded, the MOTD is one that survives its own payload: its integers fit
-- their types, its texts have no semicolon, and its edition and game mode are told apart.
pub decode_payload-IsMotd :
    (payload : Bytes) (m : Motd) → decode_payload payload ≡ some m → IsMotd m
unfolding decode_payload
decode_payload-IsMotd payload m e = decode_parts-IsMotd (split payload) m (split-IsField payload) e
