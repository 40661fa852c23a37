-- ===== src/Raknet/Motd/Valid.antt =====
-- The payload of src/raknet/ping.rs is a `String` like the texts of the MOTD.
use trakt.Base.{ℕ, ◌<◌, refl, List, [], ◌∷◌, arith, All, inl, inr, Bool-cases, ltb, ◌-◌, ◌^◌}
use trakt.Raknet.Bytes.{Bytes}
use trakt.Raknet.Utf8.{valid}
use trakt.Raknet.Utf8.Append.{valid-append, valid_ascii, valid-cons}
use trakt.Raknet.Datatypes.Strings.{IsString}
use trakt.Raknet.Decimal.{display, display_i64}
use trakt.Raknet.Decimal.RoundTrip.{IsDigit, display-IsDigit}
use trakt.Raknet.Motd.{Motd, edition_text, gamemode_text, join, fields_of, encode_payload}

-- The five texts are strings.
pub record HasStrings (m : Motd) : Type 0 where
  pub edition_string : IsString (edition_text m.edition)
  pub version_string : IsString m.version_name
  pub one_string : IsString m.line_one
  pub two_string : IsString m.line_two
  pub mode_string : IsString (gamemode_text m.gamemode)

join-IsString : (fields : List Bytes) → All IsString fields → IsString (join fields)
unfolding join valid
join-IsString [] h = refl
join-IsString (field ∷ fields) h =
    valid-append field _ h.0
      (valid-cons 0x3b (join fields) (omega arith) (join-IsString fields h.1))

digits-IsString : (bs : Bytes) → All IsDigit bs → IsString bs
digits-IsString bs h = valid_ascii bs (low bs h)
  where
    low : (bs : Bytes) → All IsDigit bs → All (λ b. b < 0x80) bs
    low [] h = tt
    low (b ∷ bs) h = (omega (arith, h.0.1), low bs h.1)

display-IsString : (n : ℕ) → IsString (display n)
display-IsString n = digits-IsString (display n) (display-IsDigit n)

display_i64-IsString : (v : ℕ) → IsString (display_i64 v)
unfolding display_i64
display_i64-IsString v = elim (Bool-cases (ltb v (2 ^ 63))) [
  | inl positive ↦ rw positive (display-IsString v)
  | inr negative ↦
      rw negative (valid-cons 0x2d (display (2 ^ 64 - v)) (omega arith) (display-IsString _))
]

pub encode_payload-IsString : (m : Motd) → HasStrings m → IsString (encode_payload m)
unfolding encode_payload fields_of
encode_payload-IsString m h = join-IsString (fields_of m) (
  h.edition_string,
  (
    h.one_string,
    (
      display-IsString _,
      (
        h.version_string,
        (
          display-IsString _,
          (
            display-IsString _,
            (
              display_i64-IsString _,
              (
                h.two_string,
                (
                  h.mode_string,
                  (display-IsString _, (display-IsString _, (display-IsString _, tt))),
                ),
              ),
            ),
          ),
        ),
      ),
    ),
  ),
)
