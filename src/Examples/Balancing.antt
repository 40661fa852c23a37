-- ===== src/Examples/Balancing.antt =====
-- The load balancer and the health checks at concrete inputs.
use trakt.Base.{
  is_some, list_eq, ℕ, ◌-◌, ◌<◌, ◌≡◌, refl, true, false, not, List, [], ◌∷◌, Option, some, none,
  arith, ◌==◌, get_elem?,
}
use trakt.Config.{Text, RootConfig}
use trakt.Raknet.Datatypes.{SocketAddr, v4}
use trakt.Server.{Store, default_health, addr_eq}
use trakt.Balancer.{
  LoadBalancerState, round_robin, least_connected, eligible, any_alive, count_alive, next,
  load_config, get_server, contains, find_server,
}
use trakt.Balancer.RoundRobin.{first_eligible, wrap, next-first_eligible}
use trakt.Balancer.Cycle.{next_available, next_stale}
use trakt.Balancer.LeastConnected.{load_of, NoneBelow, next_least}
use trakt.Balancer.Reload.{parsed, load_config_servers, load_config_keeps}
use trakt.Health.Check.{after, alive_exactly}
use trakt.Examples.Crate.{std_crate}

abbrev pub address : ℕ → SocketAddr
address n = v4 (127 ∷ 0 ∷ 0 ∷ n ∷ []) 19132

-- Three servers; number 1 is down, and number `n` has the load 10 - n.
abbrev store : Store
store = record {
  at = λ n. record {
    addr = address n;
    health = record { alive = not (n == 1); ever_alive = true; failed_attempts = 0 };
    load = 10 - n;
  };
  fresh = 3;
}

abbrev ids : List ℕ
ids = 0 ∷ 1 ∷ 2 ∷ []

next-first_eligible_example :
    (next store (record { algo = round_robin 1; servers = ids })).0 ≡ some 2
unfolding count_alive first_eligible
next-first_eligible_example = next-first_eligible store ids 1 (omega arith)

next_available_example :
    let (found, state) = next store (record { algo = round_robin 1; servers = ids }) in
    (p id : ℕ) × (found ≡ some id)
    × (get_elem? ids p ≡ some id)
    × (eligible store true id ≡ true)
    × (state ≡ record { algo = round_robin (wrap ids p); servers = ids })
    × (wrap ids p < 3)
unfolding count_alive
next_available_example = next_available store ids 1 (omega arith)

-- One server, and the index that a list of two left: the call finds nothing.
next_stale_example : (next store (record { algo = round_robin 1; servers = 0 ∷ [] })).0 ≡ none
unfolding count_alive first_eligible
next_stale_example = next_stale store (0 ∷ []) 1 (omega arith) (omega arith)

next_least_example :
    (p id : ℕ) × (next store (record { algo = least_connected; servers = ids })
      ≡ (some id, record { algo = least_connected; servers = ids }))
    × (get_elem? ids p ≡ some id)
    × (eligible store (any_alive store ids) id ≡ true)
    × NoneBelow store (any_alive store ids) (load_of store id) ids
next_least_example =
    next_least store ids (omega arith) (omega arith, (omega arith, (omega arith, tt)))

-- A parser that knows the text "n" only for the address number n.
abbrev pub from_str : Text → Option SocketAddr
from_str [] = none
from_str (n ∷ rest) = some (address n)

-- Server 0 stays, a new one comes, one is listed twice, and one does not parse.
abbrev pub config : RootConfig
config = record {
  bind_address = [];
  proxy_bind = [];
  load_balance_method = none;
  proxy_protocol = none;
  backend = record {
    health_check_rate = 10;
    motd_refresh_rate = 10;
    motd_source = none;
    servers =
        record { address = 0 ∷ [] }
        ∷ record { address = [] }
        ∷ record { address = 9 ∷ [] }
        ∷ record { address = 9 ∷ [] }
        ∷ [];
  };
}

abbrev state : LoadBalancerState
state = record { algo = round_robin 1; servers = ids }

load_config_servers_example :
    let after = load_config from_str config true store state ids in
    is_some (get_server after.store after.state (address 9)) ≡ true
unfolding contains parsed addr_eq list_eq
load_config_servers_example =
    load_config_servers from_str config true store state ids
      (omega arith, (omega arith, (omega arith, tt))) (address 9)

load_config_keeps_example :
    let after = load_config from_str config true store state ids in
    (get_server after.store after.state (address 0) ≡ some 0) × (after.store.at 0 ≡ store.at 0)
load_config_keeps_example =
    load_config_keeps from_str config true store state ids
      (omega arith, (omega arith, (omega arith, tt))) (address 0) 0
      (unfold contains parsed addr_eq list_eq in refl)
      (unfold get_server find_server addr_eq list_eq in refl)

alive_exactly_example : (after default_health (true ∷ false ∷ false ∷ false ∷ [])).alive ≡ false
alive_exactly_example = alive_exactly (true ∷ false ∷ false ∷ false ∷ [])
