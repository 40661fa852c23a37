-- ===== src/Proxy/Snapshot.antt =====
-- src/snapshot.rs and, of src/proxy.rs, `load_overview`, `take_snapshot` and `recover_from_snapshot`.
pub mod Overview
pub mod Recovery
pub mod Views
pub mod Lookups
pub mod Joined
pub mod Taken
pub mod Restored
pub mod Entries
pub mod Recovered
pub mod Registered
use trakt.Base.{ℕ, ◌+◌, Bool, List, [], ◌∷◌, Option, none, some, if◌then◌else◌}
use trakt.Raknet.Datatypes.{SocketAddr}
use trakt.Config.{Text, RootConfig}
use trakt.Server.{addr_eq, new_server, alloc}
use trakt.Balancer.{get_server}
use trakt.Health.{register_server}
use trakt.Proxy.Client.{connected, is_connected}
use trakt.Proxy.Clients.{Socket, RaknetProxy, new_client}

pub record LoadOverview : Type 0 where
  pub client_count : ℕ
  pub connected_count : ℕ
  pub per_server : List (SocketAddr × ℕ)

-- `*per_server.entry(addr).or_default() += 1`
unfoldable pub add_one : SocketAddr → List (SocketAddr × ℕ) → List (SocketAddr × ℕ)
add_one addr [] = (addr, 1) ∷ []
add_one addr ((a, n) ∷ per_server) =
    if addr_eq a addr then (a, n + 1) ∷ per_server else (a, n) ∷ add_one addr per_server

-- The loop over the clients, in the order of the map.
unfoldable pub overview_loop : RaknetProxy → List (SocketAddr × ℕ) → LoadOverview → LoadOverview
unfolding add_one
overview_loop s [] o = o
overview_loop s ((a, i) ∷ clients) o = overview_loop s clients (record {
  client_count = o.client_count + 1;
  connected_count =
      if is_connected (s.at i).stage then o.connected_count + 1 else o.connected_count;
  per_server = add_one (s.store.at (s.at i).server).addr o.per_server;
})

unfoldable pub load_overview : RaknetProxy → LoadOverview
unfolding overview_loop
load_overview s =
    overview_loop s s.clients (record { client_count = 0; connected_count = 0; per_server = [] })

pub record RaknetClientSnapshot : Type 0 where
  pub addr : Text
  pub server_addr : Text
  pub proxy_server_bind : Text

pub record RaknetProxySnapshot : Type 0 where
  pub taken_at : ℕ
  pub config : RootConfig
  pub player_proxy_bind : Text
  pub clients : List RaknetClientSnapshot

-- `to_string` of a socket address is an argument, and so is what `local_addr` answers for the socket of
-- a client; if it fails for one that is connected, there is no snapshot. The clients are taken in the
-- order of the map.
module _ (to_string : SocketAddr → Text) (local_addr : ℕ → Option SocketAddr) where
  unfoldable pub snapshot_of : RaknetProxy → ℕ → SocketAddr → RaknetClientSnapshot
  snapshot_of s i own = record {
    addr = to_string (s.at i).addr;
    server_addr = to_string (s.store.at (s.at i).server).addr;
    proxy_server_bind = to_string own;
  }

  unfoldable pub snapshot_loop :
      RaknetProxy → List (SocketAddr × ℕ) → Option (List RaknetClientSnapshot)
  unfolding snapshot_of
  snapshot_loop s [] = some []
  snapshot_loop s ((a, i) ∷ clients) =
      let rest = snapshot_loop s clients in
      if is_connected (s.at i).stage
      then (elim (local_addr i) [
        | none ↦ none
        | some own ↦ elim rest [ none ↦ none | some later ↦ some (snapshot_of s i own ∷ later) ]
      ])
      else rest

  -- `in_addr` is what `local_addr` answers for the socket of the players.
  unfoldable pub take_snapshot :
      ℕ → RootConfig → Option SocketAddr → RaknetProxy → Option RaknetProxySnapshot
  unfolding snapshot_loop
  take_snapshot now config none s = none
  take_snapshot now config (some in_addr) s = elim (snapshot_loop s s.clients) [
    | none ↦ none
    | some clients ↦ some (record {
      taken_at = now;
      config = config;
      player_proxy_bind = to_string in_addr;
      clients = clients;
    })
  ]

-- The servers that the recovery has met, by their address.
unfoldable pub find_met : SocketAddr → List (SocketAddr × ℕ) → Option ℕ
find_met addr [] = none
find_met addr ((a, id) ∷ met) = if addr_eq a addr then some id else find_met addr met

-- `servers.entry(server_addr)`: one that was met, or one of the balancer, or a stale one.
unfoldable pub meet :
    SocketAddr → RaknetProxy → List (SocketAddr × ℕ) → ℕ × (RaknetProxy × List (SocketAddr × ℕ))
unfolding find_met
meet server_addr s met = elim (find_met server_addr met) [
  | some id ↦ (id, (s, met))
  | none ↦ elim (get_server s.store s.balancer server_addr) [
    | some id ↦ (id, (s, (server_addr, id) ∷ met))
    | none ↦ (
      s.store.fresh,
      (
        record s { store = alloc s.store (new_server server_addr) },
        (server_addr, s.store.fresh) ∷ met,
      ),
    )
  ]
]

unfoldable pub register_all : List (SocketAddr × ℕ) → RaknetProxy → RaknetProxy
unfolding register_server
register_all [] s = s
register_all ((a, id) ∷ met) s =
    register_all met (record s { registered = register_server id s.registered })

-- `bound` and `announced` say of each bind address what became of its socket, and whether nothing
-- failed behind the insertion of the client.
module _ (from_str : Text → Option SocketAddr) (bound : Text → Socket)
    (announced : Text → Bool) where
  unfoldable pub recover_loop :
      List RaknetClientSnapshot
      → RaknetProxy
      → List (SocketAddr × ℕ)
      → RaknetProxy × List (SocketAddr × ℕ)
  unfolding meet
  recover_loop [] s met = (s, met)
  recover_loop (client ∷ clients) s met = elim (from_str client.addr) [
    | none ↦ recover_loop clients s met
    | some addr ↦ elim (from_str client.server_addr) [
      | none ↦ recover_loop clients s met
      | some server_addr ↦
          let (id, (t, met')) = meet server_addr s met in
          let bind = client.proxy_server_bind in
          recover_loop clients
            (new_client (bound bind) (announced bind) addr connected (some id) t).1 met'
    ]
  ]

  unfoldable pub recover_from_snapshot : RaknetProxySnapshot → RaknetProxy → RaknetProxy
  unfolding recover_loop register_all
  recover_from_snapshot snapshot s =
      let (t, met) = recover_loop snapshot.clients s [] in register_all met t
