-- ===== src/Proxy/Spy.antt =====
-- `spy_datagram` of src/proxy.rs: looking for a disconnect notification in a datagram.
pub mod Total
pub mod Finds
use trakt.Base.{
  is_some, ℕ, zero, suc, Bool, true, false, [], ◌∷◌, Option, none, some, length, ◌==◌,
  if◌then◌else◌,
}
use trakt.Raknet.Bytes.{Bytes, BytesCrate}
use trakt.Raknet.Buf.{Buf, Outcome, done, fail, panic, bind, ◌>>=◌}
use trakt.Raknet.Datatypes.{read_u8, read_u24}
use trakt.Raknet.Message.{MessageError, RaknetMessage, disconnect_notification, from_u8, up}
use trakt.Raknet.Frame.{Frame, deserialize_frame}

abbrev game_packet_header : ℕ
game_packet_header = 0xfe

pub data SpyDatagramResult : Type 0 where
  ignore disconnect : SpyDatagramResult

-- The `anyhow::Result` of the function, with a panic as a third outcome. `stuck` is no outcome of the
-- program: the loop of the model ran out of fuel.
pub data Spied : Type 0 where
  spied : SpyDatagramResult → Spied
  refused : MessageError → Spied
  panicked stuck : Spied

abbrev is_notification : Option RaknetMessage → Bool
is_notification (some disconnect_notification) = true
is_notification _ = false

-- The tests on one frame: true where the loop returns `Disconnect`, false where it goes on.
unfoldable pub notifies_body : Bytes → Bool
unfolding from_u8
notifies_body [] = false
notifies_body (b ∷ bs) = if b == game_packet_header then false else is_notification (from_u8 b)

unfoldable pub notifies : Frame → Bool
unfolding notifies_body
notifies frame = if is_some frame.fragment then false else notifies_body frame.body

abbrev pub outcome : Outcome MessageError (Option SpyDatagramResult) → Spied
outcome (done (some r) s) = spied r
outcome (done none s) = stuck
outcome (fail e) = refused e
outcome panic = panicked

module _ ⦃crate : BytesCrate⦄ where
  -- `while buf.0.has_remaining()`, with fuel.
  unfoldable pub spy_loop : ℕ → Buf MessageError (Option SpyDatagramResult)
  unfolding notifies
  spy_loop fuel [] = done (some ignore) []
  spy_loop zero (b ∷ bs) = done none (b ∷ bs)
  spy_loop (suc fuel) (b ∷ bs) = bind (deserialize_frame (b ∷ bs)) λ frame t.
      let rest = spy_loop fuel t in if notifies frame then done (some disconnect) t else rest

  -- Each frame takes bytes, so as much fuel as there are bytes is enough.
  unfoldable pub spy_datagram : Bytes → Spied
  unfolding spy_loop
  spy_datagram bytes =
      outcome (bind (up read_u8 bytes) λ _ t. bind (up read_u24 t) λ _ u. spy_loop (length u) u)
