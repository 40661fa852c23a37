-- ===== src/Examples/Crate.antt =====
-- The `bytes` crate as its documentation describes it, on lists: a value that meets `BytesCrate`.
use trakt.Base.{
  ℕ, ◌<◌, ◌≡◌, refl, sym, ap, ◌∙◌, [], ◌∷◌, ◌++◌, Option, none, some, arith, length, take, drop,
  ltb, if◌then◌else◌, length-append,
}
use trakt.Raknet.Endian.{be_bytes, be_value}
use trakt.Raknet.Bytes.{Bytes, BytesCrate, Gets}

unfoldable pub split : ℕ → Bytes → Option (Bytes × Bytes)
split n bs = if ltb (length bs) n then none else some (take n bs, drop n bs)

unfoldable pub get_be : ℕ → Bytes → Option (ℕ × Bytes)
get_be n bs = if ltb (length bs) n then none else some (be_value (take n bs), drop n bs)

unfoldable pub skip : ℕ → Bytes → Option (Unit {0} × Bytes)
skip n bs = if ltb (length bs) n then none else some (tt, drop n bs)

take-front : (bs rest : Bytes) → take (length bs) (bs ++ rest) ≡ bs
take-front [] rest = refl
take-front (b ∷ bs) rest = ap (◌∷◌ b) (take-front bs rest)

drop-front : (bs rest : Bytes) → drop (length bs) (bs ++ rest) ≡ rest
drop-front [] rest = refl
drop-front (b ∷ bs) rest = drop-front bs rest

long_enough : (bs rest : Bytes) → ltb (length (bs ++ rest)) (length bs) ≡ ltb 1 0
long_enough bs rest = ground (arith, length-append bs rest)

pub split_lem : (bs rest : Bytes) → split (length bs) (bs ++ rest) ≡ some (bs, rest)
unfolding split
split_lem bs rest = rw (long_enough bs rest, take-front bs rest, drop-front bs rest)

pub split_short : (n : ℕ) (bs : Bytes) → length bs < n → split n bs ≡ none
unfolding split
split_short n bs h = ground arith

pub skip_lem : (bs rest : Bytes) → skip (length bs) (bs ++ rest) ≡ some (tt, rest)
unfolding skip
skip_lem bs rest = rw (long_enough bs rest, drop-front bs rest)

pub skip_short : (n : ℕ) (bs : Bytes) → length bs < n → skip n bs ≡ none
unfolding skip
skip_short n bs h = ground arith

get_be_front : (bs rest : Bytes) → get_be (length bs) (bs ++ rest) ≡ some (be_value bs, rest)
unfolding get_be
get_be_front bs rest = rw (long_enough bs rest, take-front bs rest, drop-front bs rest)

pub get_be-Gets : (n : ℕ) → Gets n (get_be n)
get_be-Gets n = (
  λ bs rest e. ap (λ (k : ℕ). get_be k (bs ++ rest)) (sym e) ∙ get_be_front bs rest,
  λ bs h. unfold get_be in ground arith,
)

instance abbrev pub std_crate : BytesCrate
std_crate = record {
  get_u8 = get_be 1;
  get_u16 = get_be 2;
  get_u32 = get_be 4;
  get_i16 = get_be 2;
  get_i64 = get_be 8;
  copy_to_slice = split;
  advance = skip;
  put_u8 = λ buf v. buf ++ be_bytes 1 v;
  put_u16 = λ buf v. buf ++ be_bytes 2 v;
  put_u32 = λ buf v. buf ++ be_bytes 4 v;
  put_i16 = λ buf v. buf ++ be_bytes 2 v;
  put_i64 = λ buf v. buf ++ be_bytes 8 v;
  extend_from_slice = λ buf bs. buf ++ bs;
  get_u8_lem = get_be-Gets 1;
  get_u16_lem = get_be-Gets 2;
  get_u32_lem = get_be-Gets 4;
  get_i16_lem = get_be-Gets 2;
  get_i64_lem = get_be-Gets 8;
  copy_to_slice_lem = split_lem;
  copy_to_slice_short = split_short;
  advance_lem = skip_lem;
  advance_short = skip_short;
  put_u8_lem = λ buf v. refl;
  put_u16_lem = λ buf v. refl;
  put_u32_lem = λ buf v. refl;
  put_i16_lem = λ buf v. refl;
  put_i64_lem = λ buf v. refl;
  extend_from_slice_lem = λ buf bs. refl;
}
