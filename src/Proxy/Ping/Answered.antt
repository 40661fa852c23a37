-- ===== src/Proxy/Ping/Answered.antt =====
-- The answer of `handle_unconnected_ping` of src/proxy.rs, as `ping` of src/raknet/ping.rs reads it.
use trakt.Base.{ℕ, false, ◌≡◌, Option, none, some, [], ◌∷◌}
use trakt.Raknet.Bytes.{Bytes, BytesCrate}
use trakt.Raknet.Buf.{Outcome, done, fail}
use trakt.Raknet.Message.Offline.{unconnected_ping_message}
use trakt.Raknet.Motd.{Motd}
use trakt.Raknet.Ping.{PingError, ping_packet, read_answer, empty_payload}
use trakt.Raknet.Datatypes.{SocketAddr}
use trakt.Proxy.Clients.{RaknetProxy}
use trakt.Proxy.Receive.{handle_recv, answer}
use trakt.Proxy.Ping.{shown, handle_unconnected_ping}

module _ ⦃crate : BytesCrate⦄ where
  -- A ping of `ping` at `now` is taken for one, the proxy answers it, and the answer is read as `read`.
  abbrev pub Answered :
      RaknetProxy → SocketAddr → ℕ → ℕ → ℕ → Option Motd → Outcome PingError Motd → Type 0
  Answered s addr now server_uuid in_bound_port last read =
      (body : Bytes) × (pong : Bytes) × (ping_packet (some now) false none ≡ done tt (0x01 ∷ body))
      × (handle_recv s addr (0x01 ∷ body) ≡ answer body)
      × (handle_unconnected_ping server_uuid in_bound_port last body ≡ done tt pong)
      × (read_answer pong ≡ read)

  -- What `ping` should make of the answer.
  abbrev pub read_back : ℕ → ℕ → Option Motd → Outcome PingError Motd
  read_back server_uuid in_bound_port none = fail empty_payload
  read_back server_uuid in_bound_port (some m) = done (shown server_uuid in_bound_port m) []
