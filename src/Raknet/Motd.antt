-- ===== src/Raknet/Motd.antt =====
-- src/raknet/ping.rs: the MOTD and its text form. A string is its UTF-8 bytes, and the uuid of the
-- server, an i64, is the number of its 64 bits.
pub mod Fields
pub mod Valid
pub mod RoundTrip
pub mod Texts
pub mod Strings
pub mod Decoded
use trakt.Base.{
  ℕ, ◌-◌, ◌^◌, Bool, false, not, Option, none, some, List, [], ◌∷◌, ◌++◌, ◌==◌, if◌then◌else◌,
  list_eq,
}
use trakt.Raknet.Bytes.{Bytes}
use trakt.Raknet.Decimal.{display, display_i64, parse_unsigned, parse_signed}

pub data BedrockEdition : Type 0 where
  pocket_edition education_edition : BedrockEdition
  other_edition : Bytes → BedrockEdition

pub data GameMode : Type 0 where
  survival creative : GameMode
  other_mode : Bytes → GameMode

-- `lines` is `line_one` and `line_two`.
pub record Motd : Type 0 where
  pub server_uuid : ℕ
  pub edition : BedrockEdition
  pub protocol_version : ℕ
  pub version_name : Bytes
  pub line_one : Bytes
  pub line_two : Bytes
  pub player_count : ℕ
  pub max_player_count : ℕ
  pub gamemode : GameMode
  pub nintendo_limited : Bool
  pub port_v4 : ℕ
  pub port_v6 : ℕ

-- "MCPE", "MCBE", "Survival" and "Creative"
abbrev pub mcpe : Bytes
mcpe = 0x4d ∷ 0x43 ∷ 0x50 ∷ 0x45 ∷ []

abbrev pub mcbe : Bytes
mcbe = 0x4d ∷ 0x43 ∷ 0x42 ∷ 0x45 ∷ []

abbrev pub survival_text : Bytes
survival_text = 0x53 ∷ 0x75 ∷ 0x72 ∷ 0x76 ∷ 0x69 ∷ 0x76 ∷ 0x61 ∷ 0x6c ∷ []

abbrev pub creative_text : Bytes
creative_text = 0x43 ∷ 0x72 ∷ 0x65 ∷ 0x61 ∷ 0x74 ∷ 0x69 ∷ 0x76 ∷ 0x65 ∷ []

unfoldable pub edition_text : BedrockEdition → Bytes
edition_text pocket_edition = mcpe
edition_text education_edition = mcbe
edition_text (other_edition str) = str

unfoldable pub gamemode_text : GameMode → Bytes
gamemode_text survival = survival_text
gamemode_text creative = creative_text
gamemode_text (other_mode str) = str

-- The pieces of the format string, each with the semicolon behind it.
unfoldable pub join : List Bytes → Bytes
join [] = []
join (field ∷ fields) = field ++ (0x3b ∷ join fields)

unfoldable pub fields_of : Motd → List Bytes
fields_of m =
    edition_text m.edition
    ∷ m.line_one
    ∷ display m.protocol_version
    ∷ m.version_name
    ∷ display m.player_count
    ∷ display m.max_player_count
    ∷ display_i64 m.server_uuid
    ∷ m.line_two
    ∷ gamemode_text m.gamemode
    ∷ display (if not m.nintendo_limited then 1 else 0)
    ∷ display m.port_v4
    ∷ display m.port_v6
    ∷ []

unfoldable pub encode_payload : Motd → Bytes
unfolding join fields_of
encode_payload m = join (fields_of m)

-- `split(';')`: there is always a first part.
abbrev pub in_front : ℕ → List Bytes → List Bytes
in_front b [] = (b ∷ []) ∷ []
in_front b (part ∷ parts) = (b ∷ part) ∷ parts

unfoldable pub split : Bytes → List Bytes
split [] = [] ∷ []
split (b ∷ bs) = let parts = split bs in if b == 0x3b then [] ∷ parts else in_front b parts

-- A computation on the iterator `parts`.
abbrev pub Parts : Type 0 → Type 0
Parts A = List Bytes → A × List Bytes

abbrev ◌>>=◌ : {A B : Type 0} → Parts A → (A → Parts B) → Parts B
◌>>=◌ m f parts = f (m parts).0 (m parts).1

abbrev return : {A : Type 0} → A → Parts A
return a parts = (a, parts)

unfoldable pub next : Parts (Option Bytes)
next [] = (none, [])
next (part ∷ parts) = (some part, parts)

abbrev pub and_then : {A B : Type 0} → Option A → (A → Option B) → Option B
and_then none f = none
and_then (some a) f = f a

abbrev pub or_default : {A : Type 0} → A → Option A → A
or_default d none = d
or_default d (some a) = a

unfoldable pub edition_of : Option Bytes → Option BedrockEdition
edition_of none = none
edition_of (some []) = none
edition_of (some (b ∷ bs)) =
    if list_eq (b ∷ bs) mcpe
    then some pocket_edition
    else if list_eq (b ∷ bs) mcbe
    then some education_edition
    else some (other_edition (b ∷ bs))

unfoldable pub gamemode_of : Option Bytes → GameMode
gamemode_of none = survival
gamemode_of (some custom) =
    if list_eq custom survival_text
    then survival
    else if list_eq custom creative_text
    then creative
    else other_mode custom

unfoldable pub text : Parts Bytes
unfolding next
text = do part ← next; return (or_default [] part)

unfoldable pub parsed : (Bytes → Option ℕ) → Parts ℕ
unfolding next
parsed parse = do part ← next; return (or_default 0 (and_then part parse))

-- `i == 0` of an i8, false where it is missing or malformed
unfoldable pub zero_flag : Parts Bool
unfolding next
zero_flag = do
  part ← next
  return (elim (and_then part (parse_signed 8)) [ none ↦ false | some i ↦ i == 0 ])

unfoldable pub decode_fields : BedrockEdition → Parts Motd
unfolding text parsed zero_flag next
decode_fields edition = do
  line_one ← text
  protocol_version ← parsed (parse_unsigned (2 ^ 16 - 1))
  version_name ← text
  player_count ← parsed (parse_unsigned (2 ^ 64 - 1))
  max_player_count ← parsed (parse_unsigned (2 ^ 64 - 1))
  server_uuid ← parsed (parse_signed 64)
  line_two ← text
  gamemode ← next
  nintendo_limited ← zero_flag
  port_v4 ← parsed (parse_unsigned (2 ^ 16 - 1))
  port_v6 ← parsed (parse_unsigned (2 ^ 16 - 1))
  return (record {
    server_uuid = server_uuid;
    edition = edition;
    protocol_version = protocol_version;
    version_name = version_name;
    line_one = line_one;
    line_two = line_two;
    player_count = player_count;
    max_player_count = max_player_count;
    gamemode = gamemode_of gamemode;
    nintendo_limited = nintendo_limited;
    port_v4 = port_v4;
    port_v6 = port_v6;
  })

unfoldable pub decode_parts : List Bytes → Option Motd
decode_parts parts =
    let first = next parts in
    elim (edition_of first.0) [
      | none ↦ none
      | some edition ↦ some (decode_fields edition first.1).0
    ]

unfoldable pub decode_payload : Bytes → Option Motd
unfolding split decode_parts
decode_payload payload = decode_parts (split payload)
