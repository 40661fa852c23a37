-- ===== src/Examples/Motds.antt =====
-- The MOTD and its answers at concrete inputs.
use trakt.Base.{
  ℕ, ◌^◌, ◌-◌, ◌≡◌, refl, Bool, true, false, Option, none, some, [], ◌∷◌, ◌==◌, list_eq,
  if◌then◌else◌, arith,
}
use trakt.Config.{Text, unwrap_or}
use trakt.Raknet.Bytes.{Bytes}
use trakt.Raknet.Decimal.{display, display_i64, digits}
use trakt.Raknet.Motd.{
  Motd, pocket_edition, other_edition, survival, other_mode, join, fields_of, edition_text,
  gamemode_text, encode_payload, decode_payload, decode_parts, split, next, edition_of,
  decode_fields, text, parsed, zero_flag, gamemode_of,
}
use trakt.Raknet.Motd.RoundTrip.{IsMotd, decode_payload-encode_payload}
use trakt.Raknet.Message.Offline.RoundTrip.{pong_body}
use trakt.Reflector.{new_reflector, sources, fetch_all, fetch_round}
use trakt.Reflector.Latest.{Left, fetch_round-Left}
use trakt.Reflector.Sound.{AllSound, answer_of, fetch_round-AllSound}
use trakt.Proxy.Ping.Answered.{Answered}
use trakt.Examples.Crate.{std_crate}
use trakt.Examples.Balancing.{config}

-- A server without a first line, whose uuid is negative.
abbrev motd : Motd
motd = record {
  server_uuid = 2 ^ 64 - 42;
  edition = pocket_edition;
  protocol_version = 712;
  version_name = 0x31 ∷ 0x2e ∷ 0x32 ∷ 0x31 ∷ [];
  line_one = [];
  line_two = 0xc3 ∷ 0xa9 ∷ [];
  player_count = 3;
  max_player_count = 100;
  gamemode = other_mode (0x41 ∷ []);
  nintendo_limited = true;
  port_v4 = 19132;
  port_v6 = 0;
}

motd-IsMotd : IsMotd motd
motd-IsMotd = record {
  uuid = omega arith;
  edition_ok = tt;
  version = omega arith;
  name = (refl, (refl, (refl, (refl, tt))));
  first = tt;
  second = (refl, (refl, tt));
  players = omega arith;
  max_players = omega arith;
  mode = ((refl, tt), (λ e. cc), (λ e. cc));
  v4 = omega arith;
  v6 = omega arith;
}

decode_payload-encode_payload_example : decode_payload (encode_payload motd) ≡ some motd
decode_payload-encode_payload_example = decode_payload-encode_payload motd motd-IsMotd

-- "MCPE;;712;1.21;3;100;-42;\u{e9};A;0;19132;0;"
payload :
    encode_payload motd
    ≡ 0x4d ∷ 0x43 ∷ 0x50 ∷ 0x45 ∷ 0x3b ∷ 0x3b ∷ 0x37 ∷ 0x31 ∷ 0x32 ∷ 0x3b ∷ 0x31 ∷ 0x2e ∷ 0x32
      ∷ 0x31 ∷ 0x3b ∷ 0x33 ∷ 0x3b ∷ 0x31 ∷ 0x30 ∷ 0x30 ∷ 0x3b ∷ 0x2d ∷ 0x34 ∷ 0x32 ∷ 0x3b ∷ 0xc3
      ∷ 0xa9 ∷ 0x3b ∷ 0x41 ∷ 0x3b ∷ 0x30 ∷ 0x3b ∷ 0x31 ∷ 0x39 ∷ 0x31 ∷ 0x33 ∷ 0x32 ∷ 0x3b ∷ 0x30
      ∷ 0x3b ∷ []
unfolding encode_payload join fields_of edition_text gamemode_text display display_i64 digits
payload = refl

-- A payload that says only its edition, "x".
short_payload :
    decode_payload (0x78 ∷ [])
    ≡ some (record {
      server_uuid = 0;
      edition = other_edition (0x78 ∷ []);
      protocol_version = 0;
      version_name = [];
      line_one = [];
      line_two = [];
      player_count = 0;
      max_player_count = 0;
      gamemode = survival;
      nintendo_limited = false;
      port_v4 = 0;
      port_v6 = 0;
    })
unfolding decode_payload decode_parts split next edition_of decode_fields text parsed zero_flag
    gamemode_of list_eq
short_payload = refl

-- Every source answers with an edition of its own, and nothing else.
abbrev answers : ℕ → Text → Option Bytes
answers k source =
    some (0x1c ∷ pong_body (record { timestamp = 0; server_uuid = 0; motd = 0x78 ∷ [] }))

fetch_round-AllSound_example :
    AllSound
      (fetch_round (λ k _ source _. answer_of (answers k source)) config new_reflector).last_motd
fetch_round-AllSound_example = fetch_round-AllSound answers config new_reflector tt

-- The second source does not answer.
abbrev first_answers : ℕ → Text → Text → Bool → Option Motd
first_answers k local_addr source proxy_protocol = if k == 0 then some motd else none

fetch_round-Left_example :
    Left
      (λ k source. first_answers k config.proxy_bind source (unwrap_or config.proxy_protocol true))
      0
      (sources config)
      new_reflector
      (fetch_round first_answers config new_reflector)
fetch_round-Left_example = fetch_round-Left first_answers config new_reflector

-- What is left is the answer of the first one.
first_kept : (fetch_round first_answers config new_reflector).last_motd ≡ some motd
unfolding fetch_round fetch_all sources
first_kept = refl
