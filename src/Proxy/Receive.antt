-- ===== src/Proxy/Receive.antt =====
-- `handle_recv` of src/proxy.rs: what becomes of a datagram from a player.
pub mod Permit
pub mod Routes
use trakt.Base.{ℕ, Bool, true, false, [], ◌∷◌, Option, none, some, if◌then◌else◌}
use trakt.Raknet.Bytes.{Bytes}
use trakt.Raknet.Datatypes.{SocketAddr}
use trakt.Raknet.Message.{
  RaknetMessage, unconnected_ping, unconnected_ping_open_connections, open_connection_request1,
  from_u8,
}
use trakt.Proxy.Client.{is_connected}
use trakt.Proxy.Client.{handshake}
use trakt.Proxy.Clients.{Socket, RaknetProxy, get_client, new_client}

-- The branches. `answer` calls `handle_unconnected_ping` on what follows the id, `incoming`
-- `handle_incoming_player` of a client. `replace` closes a client, waits for its `close_lock`, and
-- goes on like `establish`, which calls `new_client` and forwards the datagram to its server; `relay`
-- only forwards it.
pub data Handling : Type 0 where
  dropped establish : Handling
  answer : Bytes → Handling
  incoming replace relay : ℕ → Handling

abbrev pub is_ping : RaknetMessage → Bool
is_ping unconnected_ping = true
is_ping unconnected_ping_open_connections = true
is_ping _ = false

abbrev pub is_request1 : RaknetMessage → Bool
is_request1 open_connection_request1 = true
is_request1 _ = false

-- The arms of the `match` behind the one for pings.
unfoldable pub route_online : Option RaknetMessage → RaknetProxy → Option ℕ → Handling
route_online message s (some i) =
    if is_connected (s.at i).stage then incoming i else (elim message [
      | none ↦ dropped
      | some message_type ↦ if is_request1 message_type then replace i else relay i
    ])
route_online (some message_type) s none = establish
route_online none s none = dropped

-- The `match` on the message and the client.
unfoldable pub dispatch : Option RaknetMessage → RaknetProxy → Option ℕ → Bytes → Handling
unfolding route_online
dispatch none s client rest = route_online none s client
dispatch (some message_type) s client rest =
    if is_ping message_type then answer rest else route_online (some message_type) s client

unfoldable pub handle_recv : RaknetProxy → SocketAddr → Bytes → Handling
unfolding dispatch
handle_recv s addr [] = dropped
handle_recv s addr (b ∷ bs) = dispatch (from_u8 b) s (get_client addr s.clients) bs

-- The state behind the call of `new_client`, if the branch comes to one. Other tasks run between the
-- look at the map and that call, so it has a state of its own; with `replace` it comes when the old
-- client's `close_lock` was acquired.
unfoldable pub call_new_client : Socket → Bool → SocketAddr → Handling → RaknetProxy → RaknetProxy
unfolding new_client
call_new_client bound announced addr establish s =
    (new_client bound announced addr handshake none s).1
call_new_client bound announced addr (replace i) s =
    (new_client bound announced addr handshake none s).1
call_new_client bound announced addr dropped s = s
call_new_client bound announced addr (answer rest) s = s
call_new_client bound announced addr (incoming i) s = s
call_new_client bound announced addr (relay i) s = s
