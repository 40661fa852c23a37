-- ===== src/Examples/Online.antt =====
-- Online messages at concrete inputs.
use trakt.Base.{◌↔◌, ◌≡◌, [], ◌∷◌, replicate, arith}
use trakt.Raknet.Bytes.{Bytes}
use trakt.Raknet.Buf.{panic}
use trakt.Raknet.Datatypes.{v6}
use trakt.Raknet.Datatypes.Guards.{Takes}
use trakt.Raknet.Message.{ReadsBack, new_incoming_connection}
use trakt.Raknet.Message.Online.{
  MessageNewIncomingConnection, new_incoming_connection_message,
  connection_request_accepted_message, deserialize_connected_ping, deserialize_connected_pong,
  deserialize_connection_request, deserialize_connection_request_accepted,
  deserialize_new_incoming_connection,
}
use trakt.Raknet.Message.Online.All.{online_Survives}
use trakt.Raknet.Message.Online.All
use trakt.Raknet.Message.Online.Panics.{CutBehind, online_panics}
use trakt.Examples.Crate.{std_crate}
use trakt.Examples.Messages.{scoped}

abbrev incoming : MessageNewIncomingConnection
incoming = record { server_address = scoped; request_timestamp = 1; accept_timestamp = 2 }

online_Survives_example :
    ReadsBack new_incoming_connection incoming
      (record incoming { server_address = v6 (replicate 16 1) 19133 0 0 })
      []
online_Survives_example =
    online_Survives (All.incoming incoming) (omega arith, omega arith, omega arith)

-- An address, and half of the system index.
abbrev cut_short : Bytes
cut_short = 4 ∷ 128 ∷ 255 ∷ 255 ∷ 254 ∷ 74 ∷ 188 ∷ 0 ∷ []

online_panics_example :
    Takes 8 cut_short (deserialize_connected_ping cut_short)
    × Takes 16 cut_short (deserialize_connected_pong cut_short)
    × Takes 17 cut_short (deserialize_connection_request cut_short)
    × Takes 30 cut_short (deserialize_new_incoming_connection cut_short)
    × ((deserialize_connection_request_accepted cut_short ≡ panic) ↔ CutBehind cut_short)
online_panics_example = online_panics cut_short
