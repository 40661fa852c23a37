-- ===== src/Examples/Snapshots.antt =====
-- A snapshot of src/proxy.rs at a concrete input.
use trakt.Base.{Option, list_eq, ℕ, ◌≡◌, refl, true, List, [], ◌∷◌, some, arith}
use trakt.Raknet.Datatypes.{SocketAddr, v4, v6}
use trakt.Config.{Text}
use trakt.Server.{addr_eq, new_server}
use trakt.Proxy.Client.{connected}
use trakt.Proxy.Clients.{
  under_lock, usable, RaknetProxy, get_client, insert_client, new_client, begin_task, Reaches, stay,
  after, recover, begin,
}
use trakt.Proxy.Snapshot.{
  snapshot_loop, snapshot_of, load_overview, RaknetProxySnapshot, take_snapshot,
  recover_from_snapshot,
}
use trakt.Balancer.{get_server, find_server}
use trakt.Health.Rounds.{count}
use trakt.Proxy.Snapshot.Overview.{count_clients, load_at, total, load_overview_lem}
use trakt.Proxy.Snapshot.Registered.{recover_registers_again}
use trakt.Proxy.Snapshot.Views.{view}
use trakt.Proxy.Snapshot.Restored.{recover-take_snapshot}
use trakt.Examples.Crate.{std_crate}
use trakt.Examples.Balancing.{address, from_str, config}
use trakt.Examples.Clients.{fresh_proxy, fresh_proxy-IsStart}

-- The text of an address number n is "n".
abbrev last_of : List ℕ → Text
last_of [] = []
last_of (n ∷ []) = n ∷ []
last_of (n ∷ m ∷ rest) = last_of (m ∷ rest)

abbrev to_string : SocketAddr → Text
to_string (v4 octets port) = last_of octets
to_string (v6 octets port flowinfo scope_id) = last_of octets

-- The player number 7 plays on server 1.
abbrev playing : RaknetProxy
playing = begin_task 0 (new_client usable true (address 7) connected (some 1) fresh_proxy).1

to_playing : Reaches from_str fresh_proxy playing
unfolding new_client under_lock get_client insert_client
to_playing =
    after (after stay (recover usable true (address 7) connected 1 (omega arith)))
      (begin 0 (omega arith) refl)

abbrev local_addr : ℕ → Option SocketAddr
local_addr i = some (address 0)

-- The snapshot of it.
abbrev taken : RaknetProxySnapshot
taken = record {
  taken_at = 0;
  config = config;
  player_proxy_bind = 0 ∷ [];
  clients = record { addr = 7 ∷ []; server_addr = 1 ∷ []; proxy_server_bind = 0 ∷ [] } ∷ [];
}

recover-take_snapshot_example :
    view (recover_from_snapshot from_str (λ t. usable) (λ t. true) taken fresh_proxy) (address 7)
    ≡ some (address 1)
unfolding new_client under_lock get_client insert_client begin_task new_server addr_eq list_eq
    take_snapshot snapshot_loop snapshot_of
recover-take_snapshot_example =
    recover-take_snapshot to_string local_addr from_str (λ t. usable) (λ t. true) fresh_proxy
      playing fresh_proxy fresh_proxy-IsStart to_playing fresh_proxy-IsStart
      ((refl, refl, refl), tt) 0 config (some (address 0)) taken (address 7) refl

-- The first text is no address, and the player stands there twice.
abbrev written : RaknetProxySnapshot
written = record taken {
  clients =
      record { addr = []; server_addr = 1 ∷ []; proxy_server_bind = 0 ∷ [] }
      ∷ record { addr = 7 ∷ []; server_addr = 5 ∷ []; proxy_server_bind = 0 ∷ [] }
      ∷ record { addr = 7 ∷ []; server_addr = 1 ∷ []; proxy_server_bind = 0 ∷ [] }
      ∷ [];
}

load_overview_lem_example :
    let o = load_overview playing in
    (o.client_count ≡ 1)
    × (o.connected_count ≡ 1)
    × (load_at (address 1) o.per_server ≡ 1)
    × (total o.per_server ≡ o.client_count)
unfolding new_client under_lock get_client insert_client begin_task count_clients new_server addr_eq
    list_eq
load_overview_lem_example = load_overview_lem playing (address 1)

-- The texts are those of the parser above: the player is number 7, and number 5 is no server of the
-- balancer.
abbrev snapshot : ℕ → RaknetProxySnapshot
snapshot server = record {
  taken_at = 0;
  config = config;
  player_proxy_bind = [];
  clients = record { addr = 7 ∷ []; server_addr = server ∷ []; proxy_server_bind = 0 ∷ [] } ∷ [];
}

recover_registers_again_example :
    count 1
      (recover_from_snapshot from_str (λ t. usable) (λ t. true) (snapshot 1) fresh_proxy).registered
    ≡ 2
unfolding count
recover_registers_again_example =
    recover_registers_again from_str (λ t. usable) (λ t. true)
      (record { addr = 7 ∷ []; server_addr = 1 ∷ []; proxy_server_bind = 0 ∷ [] }) (snapshot 1)
      fresh_proxy (address 7) (address 1) 1 refl refl refl
      (unfold get_server find_server addr_eq list_eq new_server in refl)
