-- ===== src/Raknet/Motd/Texts.antt =====
-- The texts of what `decode_payload` of src/raknet/ping.rs returns are strings, like the payload.
use mathlib.Core.Path.{subst}
use trakt.Base.{
  ℕ, ◌≡◌, refl, sym, ap, ◌∙◌, inl, inr, Bool, true, false, Option, none, some, List, [], ◌∷◌, All,
  ◌^◌, ◌-◌, Bool-cases, Option-cases, list_eq, list_eq→eq, if◌then◌else◌,
}
use trakt.Raknet.Bytes.{Bytes}
use trakt.Raknet.Utf8.{valid, scan}
use trakt.Raknet.Decimal.{parse_unsigned, parse_signed}
use trakt.Raknet.Motd.{
  BedrockEdition, other_edition, pocket_edition, education_edition, Motd, mcpe, mcbe, survival_text,
  creative_text, edition_text, gamemode_text, split, next, edition_of, gamemode_of, parsed,
  decode_fields, decode_parts, decode_payload,
}
use trakt.Raknet.Datatypes.Strings.{IsString}
use trakt.Raknet.Motd.Valid.{HasStrings}
use trakt.Raknet.Motd.Strings.{split-IsString}
use trakt.Raknet.Motd.Decoded.{
  Gives, OnPart, next-Gives, text-Gives, parsed-Gives, decode_parts-none, decode_parts-some,
}

-- The chain of tests, over their outcomes.
tested :
    (c1 c2 : Bool) (part : Bytes) (e : BedrockEdition)
    → (c1 ≡ true → part ≡ mcpe)
    → (c2 ≡ true → part ≡ mcbe)
    → (if c1
        then some pocket_edition
        else if c2
        then some education_edition
        else some (other_edition part))
      ≡ some e
    → edition_text e ≡ part
unfolding edition_text
tested true c2 part e f g h =
    let same : e ≡ pocket_edition = cc in ap edition_text same ∙ sym (f refl)
tested false true part e f g h =
    let same : e ≡ education_edition = cc in ap edition_text same ∙ sym (g refl)
tested false false part e f g h = let same : e ≡ other_edition part = cc in ap edition_text same

-- An edition is written as it was read.
edition_text-edition_of :
    (part : Bytes) (e : BedrockEdition) → edition_of (some part) ≡ some e → edition_text e ≡ part
unfolding edition_of
edition_text-edition_of [] e h = cc
edition_text-edition_of (b ∷ bs) e h =
    tested (list_eq (b ∷ bs) mcpe) (list_eq (b ∷ bs) mcbe) (b ∷ bs) e (list_eq→eq (b ∷ bs) mcpe)
      (list_eq→eq (b ∷ bs) mcbe) h

edition_text-IsString :
    (o : Option Bytes) (e : BedrockEdition)
    → OnPart IsString o
    → edition_of o ≡ some e
    → IsString (edition_text e)
unfolding edition_of
edition_text-IsString none e ok h = cc
edition_text-IsString (some part) e ok h =
    subst IsString (sym (edition_text-edition_of part e h)) ok

gamemode_text-IsString :
    (o : Option Bytes) → OnPart IsString o → IsString (gamemode_text (gamemode_of o))
unfolding gamemode_of gamemode_text valid scan
gamemode_text-IsString none ok = refl
gamemode_text-IsString (some custom) ok = elim (Bool-cases (list_eq custom survival_text)) [
  | inl first ↦ rw first refl
  | inr h1 ↦ elim (Bool-cases (list_eq custom creative_text)) [
    | inl second ↦ rw (h1, second) refl
    | inr h2 ↦ rw (h1, h2) ok
  ]
]

empty : IsString []
unfolding valid scan
empty = refl

number : (parse : Bytes → Option ℕ) → Gives IsString (λ n. Unit {0}) (parsed parse)
number parse = parsed-Gives IsString parse (λ n. Unit {0}) (λ bs n e. tt) tt

decode_fields-HasStrings :
    (edition : BedrockEdition) (parts : List Bytes)
    → IsString (edition_text edition)
    → All IsString parts
    → HasStrings (decode_fields edition parts).0
unfolding decode_fields
decode_fields-HasStrings edition parts ok fields =
    let one = text-Gives IsString empty parts fields in
    let version = number (parse_unsigned (2 ^ 16 - 1)) _ one.1 in
    let name = text-Gives IsString empty _ version.1 in
    let players = number (parse_unsigned (2 ^ 64 - 1)) _ name.1 in
    let max_players = number (parse_unsigned (2 ^ 64 - 1)) _ players.1 in
    let uuid = number (parse_signed 64) _ max_players.1 in
    let two = text-Gives IsString empty _ uuid.1 in
    let mode = next-Gives IsString _ two.1 in
    record {
      edition_string = ok;
      version_string = name.0;
      one_string = one.0;
      two_string = two.0;
      mode_string = gamemode_text-IsString _ mode.0;
    }

decode_parts-HasStrings :
    (parts : List Bytes) (m : Motd)
    → All IsString parts
    → decode_parts parts ≡ some m
    → HasStrings m
decode_parts-HasStrings parts m ok e =
    let first = next-Gives IsString parts ok in
    elim (Option-cases (edition_of (next parts).0)) [
      | inl bad ↦ absurd (cc (decode_parts-none parts bad))
      | inr (edition, good) ↦
          let same : (decode_fields edition (next parts).1).0 ≡ m =
            cc (decode_parts-some parts edition good) in
          subst HasStrings same (
            decode_fields-HasStrings edition (next parts).1
              (edition_text-IsString (next parts).0 edition first.0 good) first.1)
    ]

-- The MOTD that is decoded from a string is made of strings.
pub decode_payload-HasStrings :
    (payload : Bytes) (m : Motd) → IsString payload → decode_payload payload ≡ some m → HasStrings m
unfolding decode_payload
decode_payload-HasStrings payload m ok e =
    decode_parts-HasStrings (split payload) m (split-IsString payload ok) e
