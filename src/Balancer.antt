-- ===== src/Balancer.antt =====
-- src/load_balancer.rs: which backend server the next client goes to.
-- The mutex on the state makes each method one step; the health of the servers is read in that step.
pub mod RoundRobin
pub mod Cycle
pub mod LeastConnected
pub mod Member
pub mod Reload
use trakt.Base.{
  ℕ, zero, suc, ◌+◌, ◌-◌, ◌^◌, Bool, true, false, not, ◌&&◌, ◌||◌, List, [], ◌∷◌, ◌++◌, Option,
  none, some, length, get_elem?, ltb, leb, ◌==◌, if◌then◌else◌,
}
use trakt.Config.{Text, LoadBalanceMethod, BackendServerConfig, RootConfig, unwrap_or}
use trakt.Config
use trakt.Raknet.Datatypes.{SocketAddr}
use trakt.Server.{Store, addr_eq, new_server, alloc}

pub data LoadBalanceAlgorithm : Type 0 where
  round_robin : (index : ℕ) → LoadBalanceAlgorithm
  least_connected : LoadBalanceAlgorithm

-- `servers` holds `Arc`s, as numbers of the store.
pub record LoadBalancerState : Type 0 where
  pub algo : LoadBalanceAlgorithm
  pub servers : List ℕ

unfoldable pub init_algorithm : LoadBalanceMethod → LoadBalanceAlgorithm
init_algorithm Config.round_robin = round_robin 0
init_algorithm Config.least_connected = least_connected

-- `matches!((&state.algo, &new_method), ..)`
unfoldable pub same_method : LoadBalanceAlgorithm → LoadBalanceMethod → Bool
same_method (round_robin index) Config.round_robin = true
same_method least_connected Config.least_connected = true
same_method _ _ = false

abbrev pub usize_max : ℕ
usize_max = 2 ^ 64 - 1

module _ (store : Store) where
  abbrev pub is_alive : ℕ → Bool
  is_alive id = (store.at id).health.alive

  -- A server that may be picked: any one, or an alive one if `respect`.
  abbrev pub eligible : Bool → ℕ → Bool
  eligible respect id = not respect || is_alive id

  unfoldable pub find_server : SocketAddr → List ℕ → Option ℕ
  find_server addr [] = none
  find_server addr (id ∷ ids) =
      if addr_eq (store.at id).addr addr then some id else find_server addr ids

  unfoldable pub count_alive : List ℕ → ℕ
  count_alive [] = 0
  count_alive (id ∷ ids) = (if is_alive id then 1 else 0) + count_alive ids

  -- Some server is alive, so that the alive status is respected.
  abbrev pub any_alive : List ℕ → Bool
  any_alive ids = ltb 0 (count_alive ids)

  -- The loop of the round robin. `rounds` are the rounds left, and the index is returned as it is at
  -- the end.
  unfoldable pub round_robin_loop : Bool → List ℕ → ℕ → ℕ → Option ℕ × ℕ
  round_robin_loop respect servers zero index = (none, index)
  round_robin_loop respect servers (suc rounds) index =
      let index' = if leb (length servers) (index + 1) then 0 else index + 1 in
      let onward = round_robin_loop respect servers rounds index' in
      elim (get_elem? servers index) [
        | some id ↦
            if respect
            then (if is_alive id then (some id, index') else onward)
            else (some id, index')
        | none ↦ onward
      ]

  unfoldable pub least_connected_loop : Bool → List ℕ → ℕ → Option ℕ → Option ℕ
  least_connected_loop respect [] min_load target = target
  least_connected_loop respect (id ∷ ids) min_load target =
      let skip = least_connected_loop respect ids min_load target in
      let take_it = least_connected_loop respect ids (store.at id).load (some id) in
      if ltb (store.at id).load min_load
      then (if respect && not (is_alive id) then skip else take_it)
      else skip

unfoldable pub next : Store → LoadBalancerState → Option ℕ × LoadBalancerState
unfolding count_alive round_robin_loop least_connected_loop
next store state =
    let server_count = length state.servers in
    let respect_alive_status = ltb 0 (count_alive store state.servers) in
    if server_count == 0 then (none, state) else (elim state.algo [
      | round_robin index ↦
          let (found, index') =
            round_robin_loop store respect_alive_status state.servers server_count index in
          (found, record state { algo = round_robin index' })
      | least_connected ↦
          (least_connected_loop store respect_alive_status state.servers usize_max none, state)
    ])

unfoldable pub get_server : Store → LoadBalancerState → SocketAddr → Option ℕ
unfolding find_server
get_server store state addr = find_server store addr state.servers

-- The variables of the loop of `load_config`, with the list of the health controller, to which
-- `register_server` adds.
pub record Loading : Type 0 where
  pub store : Store
  pub servers : List ℕ
  pub registered : List ℕ
  pub seen : List SocketAddr
  pub new_count : ℕ

-- `seen.contains(&addr)`
unfoldable pub contains : List SocketAddr → SocketAddr → Bool
contains [] addr = false
contains (a ∷ seen) addr = addr_eq a addr || contains seen addr

-- The server is new to the balancer: it is allocated, pushed and registered.
unfoldable pub add_server : SocketAddr → Loading → Loading
unfolding alloc new_server
add_server addr l = record l {
  store = alloc l.store (new_server addr);
  servers = l.servers ++ (l.store.fresh ∷ []);
  registered = l.registered ++ (l.store.fresh ∷ []);
  new_count = l.new_count + 1;
}

unfoldable pub load_address : SocketAddr → Loading → Loading
unfolding contains add_server find_server
load_address addr l =
    if contains l.seen addr
    then l
    else (let l' = record l { seen = addr ∷ l.seen } in
        elim (find_server l.store addr l.servers) [ some active ↦ l' | none ↦ add_server addr l' ])

unfoldable pub retain : Store → List SocketAddr → List ℕ → List ℕ
retain store seen [] = []
retain store seen (id ∷ ids) =
    if contains seen (store.at id).addr then id ∷ retain store seen ids else retain store seen ids

-- The message that `load_config` logs.
pub data LoadLog : Type 0 where
  reloaded : (total added removed : ℕ) → LoadLog
  loaded : (added : ℕ) → LoadLog

pub record Loaded : Type 0 where
  pub store : Store
  pub state : LoadBalancerState
  pub registered : List ℕ
  pub log : LoadLog

-- `SocketAddr::from_str` is an argument: what is proved holds of every parser.
module _ (from_str : Text → Option SocketAddr) where
  unfoldable pub load_servers : List BackendServerConfig → Loading → Loading
  unfolding load_address
  load_servers [] l = l
  load_servers (config_server ∷ rest) l =
      load_servers rest
        (elim (from_str config_server.address) [ none ↦ l | some addr ↦ load_address addr l ])

  unfoldable pub load_config : RootConfig → Bool → Store → LoadBalancerState → List ℕ → Loaded
  unfolding load_servers retain same_method init_algorithm
  load_config config reload store state registered =
      let new_method = unwrap_or config.load_balance_method Config.round_robin in
      let algo =
        if same_method state.algo new_method then state.algo else init_algorithm new_method in
      let l = load_servers config.backend.servers (record {
        store = store;
        servers = state.servers;
        registered = registered;
        seen = [];
        new_count = 0;
      }) in
      let servers = retain l.store l.seen l.servers in
      let removed_count = length l.servers - length servers in
      record {
        store = l.store;
        state = record { algo = algo; servers = servers };
        registered = l.registered;
        log =
            if reload || ltb 0 removed_count
            then reloaded (length servers) l.new_count removed_count
            else loaded l.new_count;
      }

  -- `LoadBalancer::init`
  unfoldable pub init : RootConfig → Store → List ℕ → Loaded
  unfolding load_config init_algorithm
  init config store registered =
      let method = unwrap_or config.load_balance_method Config.round_robin in
      load_config config false store (record { algo = init_algorithm method; servers = [] })
        registered
