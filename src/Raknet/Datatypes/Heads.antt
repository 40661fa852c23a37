-- ===== src/Raknet/Datatypes/Heads.antt =====
-- The `read_*` of src/raknet/datatypes.rs that a frame begins with, on a buffer that is long enough.
use trakt.Base.{ℕ, ◌+◌, ◌*◌, ◌≤◌, ◌≡◌, refl, [], ◌∷◌, arith, length, take, drop, ◌++◌, length-drop}
use trakt.Raknet.Bytes.{Bytes, BytesCrate}
use trakt.Raknet.Endian.{be_value, le_value}
use trakt.Raknet.Buf.{done}
use trakt.Raknet.Datatypes.{read_u8, read_u16, read_u24}
use trakt.Raknet.Datatypes.Laws.{read_guard_enough}
use trakt.Raknet.Datatypes.Safety.{copy_enough}

module _ ⦃crate : BytesCrate⦄ where
  pub read_first : (b : ℕ) (t : Bytes) → read_u8 (b ∷ t) ≡ done b t
  unfolding read_u8
  read_first b t =
      let value : be_value (b ∷ []) ≡ b = unfold be_value le_value in omega arith in
      rw (read_guard_enough 1 (b ∷ t) (omega arith), crate.get_u8_lem.0 (b ∷ []) t refl, value) refl

  pub read_length : (hi lo : ℕ) (t : Bytes) → read_u16 (hi ∷ lo ∷ t) ≡ done (256 * hi + lo) t
  unfolding read_u16
  read_length hi lo t =
      let value : be_value (hi ∷ lo ∷ []) ≡ 256 * hi + lo =
        unfold be_value le_value in omega arith in
      rw
        (
          read_guard_enough 2 (hi ∷ lo ∷ t) (omega arith),
          crate.get_u16_lem.0 (hi ∷ lo ∷ []) t refl,
          value,
        )
        refl

  pub read_index :
      (s : Bytes)
      → 3 ≤ length s
      → (v : ℕ) × (t : Bytes) × (read_u24 s ≡ done v t) × (length t + 3 ≡ length s)
  unfolding read_u24
  read_index s h = (
    le_value (take 3 s ++ (0 ∷ [])),
    drop 3 s,
    rw (read_guard_enough 3 s h, copy_enough 3 s h) refl,
    omega (arith, length-drop 3 s),
  )
