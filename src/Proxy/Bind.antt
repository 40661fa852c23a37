-- ===== src/Proxy/Bind.antt =====
-- `RaknetProxy::bind` of src/proxy.rs.
pub mod Start
pub mod Addresses
use trakt.Base.{ℕ, Bool, [], Option, none, some, if◌then◌else◌}
use trakt.Config.{Text, RootConfig}
use trakt.Raknet.Datatypes.{SocketAddr}
use trakt.Server.{BackendServer, Store}
use trakt.Balancer.{init}
use trakt.Proxy.Client.{RaknetClient}
use trakt.Proxy.Clients.{RaknetProxy}

-- What the store holds before anything is made: `servers` and `clients` stand for memory that nobody
-- has a number of.
module _ (from_str : Text → Option SocketAddr) (servers : ℕ → BackendServer)
    (clients : ℕ → RaknetClient) where
  -- `bound` is whether the socket of the players could be bound, and its address read. The UUID, the reflector and the
  -- scheduler are not part of the state.
  unfoldable pub bind : Bool → RootConfig → Option RaknetProxy
  unfolding init
  bind bound config =
      let loaded = init from_str config (record { at = servers; fresh = 0 }) [] in
      if bound
      then some (record {
        store = loaded.store;
        balancer = loaded.state;
        registered = loaded.registered;
        clients = [];
        at = clients;
        made = 0;
      })
      else none
