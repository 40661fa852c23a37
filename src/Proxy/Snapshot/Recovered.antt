-- ===== src/Proxy/Snapshot/Recovered.antt =====
-- What `recover_from_snapshot` of src/proxy.rs makes of any snapshot.
use trakt.Base.{◌&&◌, List, [], ◌∷◌, Option, none, some, if◌then◌else◌}
use trakt.Config.{Text}
use trakt.Raknet.Datatypes.{SocketAddr}
use trakt.Server.{addr_eq}
use trakt.Proxy.Clients.{Socket}
use trakt.Proxy.Snapshot.{RaknetClientSnapshot}
use trakt.Proxy.Snapshot.Entries.{is_usable}

-- The server at which the list wants the player of an address: that of the first entry for the
-- address whose texts parse and whose socket can be bound.
module _ (from_str : Text → Option SocketAddr) (bound : Text → Socket) where
  unfoldable pub wanted : List RaknetClientSnapshot → SocketAddr → Option SocketAddr
  wanted [] a = none
  wanted (client ∷ clients) a =
      let rest = wanted clients a in
      elim (from_str client.addr) [
        | none ↦ rest
        | some k ↦ elim (from_str client.server_addr) [
          | none ↦ rest
          | some b ↦
              if is_usable (bound client.proxy_server_bind) && addr_eq k a then some b else rest
        ]
      ]
