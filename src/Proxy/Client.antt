-- ===== src/Proxy/Client.antt =====
-- `RaknetClient` of src/proxy.rs, and what its handlers do with one datagram.
pub mod Handled
use trakt.Base.{
  ℕ, ◌/◌, ◌%◌, ◌^◌, Bool, true, false, List, [], ◌∷◌, Option, none, some, ◌==◌, if◌then◌else◌,
}
use trakt.Raknet.Bytes.{Bytes, BytesCrate}
use trakt.Raknet.Datatypes.{SocketAddr}
use trakt.Raknet.Message.{RaknetMessage, open_connection_reply2, from_u8}
use trakt.Proxy.Cause.{DisconnectCause}
use trakt.Proxy.Cause
use trakt.Proxy.Spy.{Spied, spied, panicked, disconnect, spy_datagram}

pub data ConnectionStage : Type 0 where
  handshake connected closed : ConnectionStage

-- `matches!(stage, ConnectionStage::Connected)`
abbrev pub is_connected : ConnectionStage → Bool
is_connected connected = true
is_connected _ = false

-- Where the task of a client is, in the block that `new_client` spawns: not begun; at the `select!` of
-- the event loop; in the `send` of `handle_incoming_server`; out of the event loop; after the removal
-- from the map; after the stage was closed; at the end. A panic unwinds the task where it is.
pub data Phase : Type 0 where
  spawned selecting sending left removed notified finished unwound : Phase

-- `server` is a number of the store. `close_rx` is what the channel of capacity 1 holds, and
-- `close_lock` counts permits. The sockets are left out.
pub record RaknetClient : Type 0 where
  pub addr : SocketAddr
  pub server : ℕ
  pub stage : ConnectionStage
  pub close_rx : List DisconnectCause
  pub close_lock : ℕ
  pub phase : Phase

-- The task has yet to remove its client from the map, or was unwound before it could.
abbrev pub is_present : Phase → Bool
is_present removed = false
is_present notified = false
is_present finished = false
is_present _ = true

-- Between `fetch_add` and `fetch_sub`. A task that was unwound never comes to the second.
abbrev pub is_counted : Phase → Bool
is_counted spawned = false
is_counted finished = false
is_counted _ = true

-- What a spied datagram makes of the task that is in `handle_incoming_server`.
abbrev pub after_spying : Spied → Phase
after_spying (spied disconnect) = sending
after_spying panicked = unwound
after_spying _ = selecting

abbrev is_reply : Option RaknetMessage → Bool
is_reply (some open_connection_reply2) = true
is_reply _ = false

module _ ⦃crate : BytesCrate⦄ where
  -- The client after a datagram from the server, with what is forwarded to the player.
  unfoldable pub handle_incoming_server : Bytes → RaknetClient → RaknetClient × List Bytes
  unfolding from_u8
  handle_incoming_server [] client = (client, [])
  handle_incoming_server (b ∷ bs) client = (
    record client {
      stage = if is_reply (from_u8 b) then connected else client.stage;
      phase = after_spying (spy_datagram (b ∷ bs));
    },
    (b ∷ bs) ∷ [],
  )

  -- What a datagram from the player comes to: what is forwarded to the server, and the cause that is
  -- sent to the event loop, if any. A panic ends the task of the datagram only.
  unfoldable pub handle_incoming_player : Bytes → List Bytes × Option DisconnectCause
  handle_incoming_player [] = ([], none)
  handle_incoming_player (b ∷ bs) = (
    (b ∷ bs) ∷ [],
    if b / 2 ^ 7 % 2 == 0
        then none
        else (elim (spy_datagram (b ∷ bs)) [ spied disconnect ↦ some Cause.client | _ ↦ none ]),
  )
