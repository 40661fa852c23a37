-- ===== src/Raknet/Motd/RoundTrip.antt =====
-- `encode_payload` and `decode_payload` of src/raknet/ping.rs.
use trakt.Base.{
  ℕ, List, inl, inr, sym, ◌≢◌, ◌↔◌, Bool-cases, ==_iff, none, ◌^◌, ◌<◌, ◌≡◌, refl, ap, ◌∙◌, ◌-◌,
  Bool, true, false, not, some, [], ◌∷◌, ◌++◌, arith, All, ◌==◌, if◌then◌else◌,
}
use trakt.Raknet.Bytes.{Bytes}
use trakt.Raknet.Decimal.{display, digits, parse_some, parse_digits, parse_signed}
use trakt.Raknet.Decimal.RoundTrip.{parse_unsigned-display, parse_signed-display_i64}
use trakt.Raknet.Motd.{
  Motd, fields_of, encode_payload, decode_payload, decode_parts, split, in_front, edition_of, next,
  text, parsed, zero_flag, decode_fields,
}
use trakt.Raknet.Motd.Fields.{
  IsField, IsEdition, IsGameMode, split-join, display-IsField, display_i64-IsField,
  edition_text-IsField, gamemode_text-IsField, edition_of-text, gamemode_of-text,
}

-- The numbers fit their types, and the texts can be told apart from each other and from the
-- semicolons between them.
pub record IsMotd (m : Motd) : Type 0 where
  pub uuid : m.server_uuid < 2 ^ 64
  pub edition_ok : IsEdition m.edition
  pub version : m.protocol_version < 2 ^ 16
  pub name : IsField m.version_name
  pub first : IsField m.line_one
  pub second : IsField m.line_two
  pub players : m.player_count < 2 ^ 64
  pub max_players : m.max_player_count < 2 ^ 64
  pub mode : IsGameMode m.gamemode
  pub v4 : m.port_v4 < 2 ^ 16
  pub v6 : m.port_v6 < 2 ^ 16

fields_of-IsField : (m : Motd) → IsMotd m → All IsField (fields_of m)
unfolding fields_of
fields_of-IsField m h = (
  edition_text-IsField m.edition h.edition_ok,
  (
    h.first,
    (
      display-IsField _,
      (
        h.name,
        (
          display-IsField _,
          (
            display-IsField _,
            (
              display_i64-IsField _,
              (
                h.second,
                (
                  gamemode_text-IsField m.gamemode h.mode,
                  (display-IsField _, (display-IsField _, (display-IsField _, tt))),
                ),
              ),
            ),
          ),
        ),
      ),
    ),
  ),
)

flag_back :
    (b : Bool) → (parse_signed 8 (display (if not b then 1 else 0))) ≡ some (if not b then 1 else 0)
unfolding display digits parse_signed parse_some parse_digits
flag_back true = refl
flag_back false = refl

flag_zero : (b : Bool) → ((if not b then 1 else 0) == 0) ≡ b
flag_zero true = refl
flag_zero false = refl

decode_parts-fields_of : (m : Motd) → IsMotd m → decode_parts (fields_of m ++ ([] ∷ [])) ≡ some m
unfolding decode_parts fields_of next decode_fields text parsed zero_flag
decode_parts-fields_of m h =
    rw
      (
        decode_parts,
        edition_of-text m.edition h.edition_ok,
        gamemode_of-text m.gamemode h.mode,
        parse_unsigned-display (2 ^ 16 - 1) m.protocol_version (omega (arith, h.version))
            (omega arith),
        parse_unsigned-display (2 ^ 64 - 1) m.player_count (omega (arith, h.players)) (omega arith),
        parse_unsigned-display (2 ^ 64 - 1) m.max_player_count (omega (arith, h.max_players))
            (omega arith),
        parse_unsigned-display (2 ^ 16 - 1) m.port_v4 (omega (arith, h.v4)) (omega arith),
        parse_unsigned-display (2 ^ 16 - 1) m.port_v6 (omega (arith, h.v6)) (omega arith),
        parse_signed-display_i64 m.server_uuid h.uuid,
        flag_back m.nintendo_limited,
        flag_zero m.nintendo_limited,
      )
      refl

-- A MOTD is decoded from its payload as it was, if its integers fit their types, none of its texts
-- has a semicolon, and an edition or a game mode of its own is not spelled like another one, nor
-- the edition like nothing.
pub decode_payload-encode_payload :
    (m : Motd) → IsMotd m → decode_payload (encode_payload m) ≡ some m
unfolding decode_payload encode_payload
decode_payload-encode_payload m h =
    ap decode_parts (split-join (fields_of m) (fields_of-IsField m h)) ∙ decode_parts-fields_of m h

-- A payload that has no edition: it is empty, or starts with a semicolon.
abbrev pub NoEdition : Bytes → Type 0
NoEdition [] = Unit
NoEdition (b ∷ bs) = b ≡ 0x3b

-- A first part behind a semicolon is empty, and else it starts with the first byte.
split-semicolon : (bs : Bytes) → split (0x3b ∷ bs) ≡ [] ∷ split bs
unfolding split
split-semicolon bs = refl

in_front-cons :
    (b : ℕ) (parts : List Bytes)
    → (part : Bytes) × (others : List Bytes) × (in_front b parts ≡ (b ∷ part) ∷ others)
in_front-cons b [] = ([], [], refl)
in_front-cons b (part ∷ parts) = (part, parts, refl)

split-other : (b : ℕ) (bs : Bytes) → (b == 0x3b) ≡ false → split (b ∷ bs) ≡ in_front b (split bs)
unfolding split
split-other b bs h = rw h refl

decode_parts-cons :
    (b : ℕ) (part : Bytes) (parts : List Bytes) → decode_parts ((b ∷ part) ∷ parts) ≢ none
unfolding decode_parts next edition_of
decode_parts-cons b part parts = λ h. ground arith

no_edition : (parts : List Bytes) → decode_parts ([] ∷ parts) ≡ none
unfolding decode_parts next edition_of
no_edition parts = refl

-- Decoding fails exactly on a payload without an edition; every other field may be missing or
-- malformed.
decode_payload-none_iff : (payload : Bytes) → (decode_payload payload ≡ none) ↔ NoEdition payload
unfolding decode_payload split
decode_payload-none_iff [] = (λ _. tt, λ _. no_edition [])
decode_payload-none_iff (b ∷ bs) = elim (Bool-cases (b == 0x3b)) [
  | inl semicolon ↦ (
    λ _. (==_iff b 0x3b).0 semicolon,
    λ e.
        ap decode_payload (ap (λ c. c ∷ bs) e)
        ∙ ap decode_parts (split-semicolon bs)
        ∙ no_edition (split bs),
  )
  | inr other ↦
      let front = in_front-cons b (split bs) in
      (
        λ h. absurd (
            decode_parts-cons b front.0 front.1
              (ap decode_parts (sym (split-other b bs other ∙ front.2)) ∙ h)),
        λ e. ground arith,
      )
]
