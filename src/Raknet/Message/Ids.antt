-- ===== src/Raknet/Message/Ids.antt =====
-- The packet ids of src/raknet/message/mod.rs, and the header of a message.
use trakt.Base.{ℕ, ◌≡◌, refl, sym, ap, ◌∙◌, ◌↔◌, some, ◌++◌, arith}
use trakt.Raknet.Bytes.{Bytes, BytesCrate}
use trakt.Raknet.Endian.{be_bytes}
use trakt.Raknet.Buf.{done}
use trakt.Raknet.Datatypes.Laws.{write_u8_lem}
use trakt.Raknet.Message.{RaknetMessage, connected_ping, from_u8, to_u8, write_header}

from_u8-to_u8 : (m : RaknetMessage) → from_u8 (to_u8 m) ≡ some m
unfolding from_u8 to_u8
from_u8-to_u8 connected_ping = refl
from_u8-to_u8 _ = refl

read : (b : ℕ) (m : RaknetMessage) → from_u8 b ≡ some m → to_u8 m ≡ b
unfolding from_u8 to_u8
read b m h = ground arith

-- A byte is read as a message exactly when it is the id of that message: the table of ids is one to
-- one, and every other byte is refused.
from_u8_iff : (b : ℕ) (m : RaknetMessage) → (from_u8 b ≡ some m) ↔ (to_u8 m ≡ b)
from_u8_iff b m = (read b m, λ e. ap from_u8 (sym e) ∙ from_u8-to_u8 m)

module _ ⦃crate : BytesCrate⦄ where
  pub write_header_lem :
      (m : RaknetMessage) (s : Bytes) → write_header m s ≡ done tt (s ++ be_bytes 1 (to_u8 m))
  unfolding write_header
  write_header_lem m s = rw (write_u8_lem (to_u8 m) s)
