-- ===== src/Proxy/Clients.antt =====
-- The clients of `RaknetProxy` in src/proxy.rs: the map, `new_client`, and the task of each client,
-- cut at the points where another task may come in between.
pub mod Counts
pub mod Opening
pub mod Outcomes
pub mod Map
pub mod Loads
pub mod Reach
pub mod Halt
pub mod Ends
pub mod Distinct
use trakt.Base.{
  ℕ, ◌+◌, ◌-◌, ◌<◌, ◌≡◌, Bool, true, false, List, [], ◌∷◌, Option, none, some, ◌==◌, if◌then◌else◌,
}
use trakt.Raknet.Bytes.{Bytes, BytesCrate}
use trakt.Raknet.Datatypes.{SocketAddr}
use trakt.Config.{Text, RootConfig}
use trakt.Server.{Store, addr_eq, write, new_server, alloc}
use trakt.Balancer.{LoadBalancerState, next, load_config}
use trakt.Health.{check_health, register_server}
use trakt.Proxy.Cause.{DisconnectCause}
use trakt.Proxy.Cause
use trakt.Proxy.Client.{
  ConnectionStage, closed, Phase, spawned, selecting, sending, left, removed, notified, finished,
  RaknetClient, handle_incoming_server,
}

-- `clients` is the map, and an `Arc<RaknetClient>` a number below `made`.
pub record RaknetProxy : Type 0 where
  pub store : Store
  pub balancer : LoadBalancerState
  pub registered : List ℕ
  pub clients : List (SocketAddr × ℕ)
  pub at : ℕ → RaknetClient
  pub made : ℕ

-- `clients.get(&addr)`
unfoldable pub get_client : SocketAddr → List (SocketAddr × ℕ) → Option ℕ
get_client addr [] = none
get_client addr ((a, i) ∷ clients) = if addr_eq a addr then some i else get_client addr clients

-- `clients.remove(&addr)`
unfoldable pub remove_client : SocketAddr → List (SocketAddr × ℕ) → List (SocketAddr × ℕ)
remove_client addr [] = []
remove_client addr ((a, i) ∷ clients) =
    if addr_eq a addr then remove_client addr clients else (a, i) ∷ remove_client addr clients

abbrev pub set_client : ℕ → RaknetClient → RaknetProxy → RaknetProxy
set_client i c s = record s { at = λ j. if j == i then c else s.at j }

abbrev pub set_load : ℕ → ℕ → RaknetProxy → RaknetProxy
set_load id n s = record s { store = write s.store id (record (s.store.at id) { load = n }) }

-- The new client is inserted, and its task is spawned.
unfoldable pub insert_client : SocketAddr → ConnectionStage → ℕ → RaknetProxy → RaknetProxy
insert_client addr stage id s = record s {
  clients = (addr, s.made) ∷ s.clients;
  at = λ j.
      if j == s.made
      then record {
        addr = addr;
        server = id;
        stage = stage;
        close_rx = [];
        close_lock = 0;
        phase = spawned;
      }
      else s.at j;
  made = s.made + 1;
}

-- The socket that `new_client` asks for: it cannot be bound, or its address cannot be read, or neither
-- fails.
pub data Socket : Type 0 where
  refused unnamed usable : Socket

-- What `new_client` returns: the client, or an error. `nameless` is the error of `local_addr` before
-- the client is there; `failed_late` is one that comes when the client is there already, that of
-- `local_addr` in the log line or one of `send_haproxy_info`.
pub data NewClient : Type 0 where
  opened : ℕ → NewClient
  nameless failed_late unbound still_there no_server : NewClient

-- The end of `new_client`, when it has a server.
abbrev pub establish_client :
    Socket → Bool → SocketAddr → ConnectionStage → ℕ → RaknetProxy → NewClient × RaknetProxy
establish_client usable announced addr stage id s =
    ((if announced then opened s.made else failed_late), insert_client addr stage id s)
establish_client _ announced addr stage id s = (nameless, s)

-- What `new_client` does under the lock of the map, with a socket that is bound.
unfoldable pub under_lock :
    Socket → Bool → SocketAddr → ConnectionStage → Option ℕ → RaknetProxy → NewClient × RaknetProxy
unfolding get_client insert_client
under_lock bound announced addr stage server s = elim (get_client addr s.clients) [
  | some there ↦ (still_there, s)
  | none ↦ elim server [
    | some id ↦ establish_client bound announced addr stage id s
    | none ↦
        let (found, balancer) = next s.store s.balancer in
        let t : RaknetProxy = record s { balancer = balancer } in
        elim found [
          | some id ↦ establish_client bound announced addr stage id t
          | none ↦ (no_server, t)
        ]
  ]
]

-- `announced` is whether nothing fails behind the insertion: `local_addr`, where the log line is
-- written, and `send_haproxy_info`, where it is asked for.
unfoldable pub new_client :
    (bound : Socket)
    → (announced : Bool) → SocketAddr
    → ConnectionStage
    → Option ℕ
    → RaknetProxy
    → NewClient × RaknetProxy
unfolding under_lock
new_client refused announced addr stage server s = (unbound, s)
new_client unnamed announced addr stage server s = under_lock unnamed announced addr stage server s
new_client usable announced addr stage server s = under_lock usable announced addr stage server s

-- `client.server.load.fetch_add(1, ..)`, and the event loop begins.
unfoldable pub begin_task : ℕ → RaknetProxy → RaknetProxy
begin_task i s =
    let id = (s.at i).server in
    set_client i (record (s.at i) { phase = selecting }) (set_load id ((s.store.at id).load + 1) s)

-- `clients.remove(&client.addr)`
unfoldable pub remove_task : ℕ → RaknetProxy → RaknetProxy
unfolding remove_client
remove_task i s =
    set_client i (record (s.at i) { phase = removed })
      (record s { clients = remove_client (s.at i).addr s.clients })

-- The stage is closed, and a permit is added to `close_lock`.
unfoldable pub close_task : ℕ → RaknetProxy → RaknetProxy
close_task i s =
    set_client i
      (record (s.at i) { stage = closed; close_lock = (s.at i).close_lock + 1; phase = notified }) s

-- `client.server.load.fetch_sub(1, ..)`
unfoldable pub finish_task : ℕ → RaknetProxy → RaknetProxy
finish_task i s =
    let id = (s.at i).server in
    set_client i (record (s.at i) { phase = finished }) (set_load id ((s.store.at id).load - 1) s)

-- `reload_config`, less the restart of the scheduler. The health controller's list is part of the state.
unfoldable pub reload_config : (Text → Option SocketAddr) → RootConfig → RaknetProxy → RaknetProxy
reload_config from_str config s =
    let loaded = load_config from_str config true s.store s.balancer s.registered in
    record s { store = loaded.store; balancer = loaded.state; registered = loaded.registered }

-- The receiver of the channel lives until the event loop returns.
abbrev pub listens : Phase → Bool
listens spawned = true
listens selecting = true
listens sending = true
listens _ = false

-- The steps of the program: one critical section of one task each, in any order.
module _ ⦃crate : BytesCrate⦄ (from_str : Text → Option SocketAddr) where
  pub data Step (s : RaknetProxy) : RaknetProxy → Type 0 where
    -- `new_client` for a new connection, under the lock of the map.
    connect :
        (bound : Socket) (announced : Bool) (addr : SocketAddr) (stage : ConnectionStage)
        → Step s (new_client bound announced addr stage none s).1
    -- The same for a recovered client: its server is one of the balancer.
    recover :
        (bound : Socket) (announced : Bool) (addr : SocketAddr) (stage : ConnectionStage) (id : ℕ)
        → id < s.store.fresh
        → Step s (new_client bound announced addr stage (some id) s).1
    -- A stale server that `recover_from_snapshot` makes.
    stale : (addr : SocketAddr) → Step s (record s { store = alloc s.store (new_server addr) })
    begin : (i : ℕ) → i < s.made → (s.at i).phase ≡ spawned → Step s (begin_task i s)
    -- `udp_sock.recv`, and `handle_incoming_server` up to its `send`.
    datagram :
        (i : ℕ) (data_received : Bytes)
        → i < s.made
        → (s.at i).phase ≡ selecting
        → Step s (set_client i (handle_incoming_server data_received (s.at i)).0 s)
    -- The `send` of `handle_incoming_server`, which waits until the channel is empty.
    send :
        (i : ℕ)
        → i < s.made
        → (s.at i).phase ≡ sending
        → (s.at i).close_rx ≡ []
        → Step s
            (set_client i (record (s.at i) { close_rx = Cause.server ∷ []; phase = selecting }) s)
    -- The `send` of another task: `Client` from `handle_incoming_player`, `Unknown` from `handle_recv`.
    notify :
        (i : ℕ) (cause : DisconnectCause)
        → i < s.made
        → listens (s.at i).phase ≡ true
        → (s.at i).close_rx ≡ []
        → Step s (set_client i (record (s.at i) { close_rx = cause ∷ [] }) s)
    -- `rx.recv()`: the event loop returns the cause.
    recv :
        (i : ℕ) (cause : DisconnectCause) (causes : List DisconnectCause)
        → i < s.made
        → (s.at i).phase ≡ selecting
        → (s.at i).close_rx ≡ cause ∷ causes
        → Step s (set_client i (record (s.at i) { close_rx = causes; phase = left }) s)
    -- The time is out, or the socket fails.
    timeout :
        (i : ℕ)
        → i < s.made
        → (s.at i).phase ≡ selecting
        → Step s (set_client i (record (s.at i) { phase = left }) s)
    remove : (i : ℕ) → i < s.made → (s.at i).phase ≡ left → Step s (remove_task i s)
    close : (i : ℕ) → i < s.made → (s.at i).phase ≡ removed → Step s (close_task i s)
    finish : (i : ℕ) → i < s.made → (s.at i).phase ≡ notified → Step s (finish_task i s)
    -- A registration with the health controller, at the end of a recovery.
    register : (id : ℕ) → Step s (record s { registered = register_server id s.registered })
    -- A health check, and a reload of the configuration.
    check :
        (success : Bool) (id : ℕ)
        → Step s (record s { store = (check_health success id s.store).0 })
    reload : (config : RootConfig) → Step s (reload_config from_str config s)

  -- What the program may come to.
  pub data Reaches : RaknetProxy → RaknetProxy → Type 0 where
    stay : {s : RaknetProxy} → Reaches s s
    after : {s t u : RaknetProxy} → Reaches s t → Step t u → Reaches s u
