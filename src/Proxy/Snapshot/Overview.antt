-- ===== src/Proxy/Snapshot/Overview.antt =====
-- `load_overview` of src/proxy.rs.
use trakt.Base.{ℕ, ◌+◌, ◌≡◌, refl, Bool, List, [], ◌∷◌, arith, if◌then◌else◌, length}
use trakt.Raknet.Datatypes.{SocketAddr}
use trakt.Server.{addr_eq, addr_eq→eq, addr_eq_self}
use trakt.Proxy.Client.{is_connected}
use trakt.Proxy.Clients.{RaknetProxy}
use trakt.Proxy.Snapshot.{LoadOverview, add_one, overview_loop, load_overview}

-- How many clients of the map pass the test.
unfoldable pub count_clients : (ℕ → Bool) → List (SocketAddr × ℕ) → ℕ
count_clients p [] = 0
count_clients p ((a, i) ∷ clients) = (if p i then 1 else 0) + count_clients p clients

-- What the breakdown says of an address, and its total.
unfoldable pub load_at : SocketAddr → List (SocketAddr × ℕ) → ℕ
load_at addr [] = 0
load_at addr ((a, n) ∷ per_server) = if addr_eq a addr then n else load_at addr per_server

unfoldable pub total : List (SocketAddr × ℕ) → ℕ
total [] = 0
total ((a, n) ∷ per_server) = n + total per_server

load_at-add_one :
    (b a : SocketAddr) (per_server : List (SocketAddr × ℕ))
    → load_at a (add_one b per_server) ≡ (if addr_eq b a then 1 else 0) + load_at a per_server
unfolding load_at add_one
load_at-add_one b a [] = ground arith
load_at-add_one b a ((k, n) ∷ rest) = ground (
  arith,
  addr_eq→eq k b,
  addr_eq→eq k a,
  addr_eq→eq b a,
  addr_eq_self a,
  addr_eq_self b,
  load_at-add_one b a rest,
)

total-add_one :
    (b : SocketAddr) (per_server : List (SocketAddr × ℕ))
    → total (add_one b per_server) ≡ 1 + total per_server
unfolding total add_one
total-add_one b [] = refl
total-add_one b ((k, n) ∷ rest) = ground (arith, total-add_one b rest)

-- The clients of the map on a server with the address.
abbrev pub serves : RaknetProxy → SocketAddr → ℕ → Bool
serves s a i = addr_eq (s.store.at (s.at i).server).addr a

loop_lem :
    (s : RaknetProxy) (clients : List (SocketAddr × ℕ)) (o : LoadOverview) (a : SocketAddr)
    → let end = overview_loop s clients o in
      (end.client_count ≡ o.client_count + length clients)
      × (end.connected_count
          ≡ o.connected_count + count_clients (λ i. is_connected (s.at i).stage) clients)
      × (load_at a end.per_server ≡ load_at a o.per_server + count_clients (serves s a) clients)
      × (total end.per_server ≡ total o.per_server + length clients)
unfolding overview_loop count_clients
loop_lem s [] o a = (omega arith, omega arith, omega arith, omega arith)
loop_lem s ((k, i) ∷ clients) o a =
    let server_addr = (s.store.at (s.at i).server).addr in
    let (c, n, l, t) =
      loop_lem s clients
        (record {
          client_count = o.client_count + 1;
          connected_count =
              if is_connected (s.at i).stage then o.connected_count + 1 else o.connected_count;
          per_server = add_one server_addr o.per_server;
        })
        a in
    let one = load_at-add_one server_addr a o.per_server in
    let more = total-add_one server_addr o.per_server in
    (omega arith, ground arith, ground arith, omega arith)

-- The overview counts every client of the map, the connected ones among them, and for every address
-- the clients on a server with that address; the breakdown adds up to the number of clients.
pub load_overview_lem :
    (s : RaknetProxy) (a : SocketAddr)
    → let o = load_overview s in
      (o.client_count ≡ length s.clients)
      × (o.connected_count ≡ count_clients (λ i. is_connected (s.at i).stage) s.clients)
      × (load_at a o.per_server ≡ count_clients (serves s a) s.clients)
      × (total o.per_server ≡ o.client_count)
unfolding load_overview load_at total
load_overview_lem s a =
    let (c, n, l, t) =
      loop_lem s s.clients (record { client_count = 0; connected_count = 0; per_server = [] }) a in
    (omega (arith, c), omega (arith, n), omega (arith, l), omega (arith, t, c))
