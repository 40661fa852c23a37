-- ===== src/Raknet/Version.antt =====
-- src/raknet/mod.rs: the protocol versions.
use trakt.Base.{ℕ, ◌<◌, ◌≡◌, ◌==◌, if◌then◌else◌, arith}

pub data ProtocolVersion : Type 0 where
  unsupported : ℕ → ProtocolVersion
  v10 v11 : ProtocolVersion

unfoldable pub from_u8 : ℕ → ProtocolVersion
from_u8 version = if version == 10 then v10 else if version == 11 then v11 else unsupported version

unfoldable pub to_u8 : ProtocolVersion → ℕ
to_u8 (unsupported version) = version
to_u8 v10 = 10
to_u8 v11 = 11

-- Reading a version byte and writing it back gives the same byte, known version or not.
to_u8-from_u8 : (b : ℕ) → to_u8 (from_u8 b) ≡ b
unfolding to_u8 from_u8
to_u8-from_u8 b = ground arith

-- A version as `from_u8` makes it: a supported one is never held as `unsupported`.
abbrev pub IsProtocol : ProtocolVersion → Type 0
IsProtocol v = (to_u8 v < 256) × (from_u8 (to_u8 v) ≡ v)
