-- ===== src/Proxy/Clients/Outcomes.antt =====
-- What `new_client` returns, and the state that goes with it.
use trakt.Base.{ℕ, ◌≡◌, Option, none, some}
use trakt.Raknet.Datatypes.{SocketAddr}
use trakt.Balancer.{LoadBalancerState, next}
use trakt.Proxy.Client.{ConnectionStage, spawned}
use trakt.Proxy.Clients.{
  Socket, refused, unnamed, usable, RaknetProxy, NewClient, opened, nameless, failed_late, unbound,
  still_there, no_server, get_client, insert_client,
}
use trakt.Proxy.Clients.Opening.{Given}

-- The balancer behind the choice of a server: it is asked only where no server was given.
abbrev pub balancer_after : Option ℕ → RaknetProxy → LoadBalancerState
balancer_after none s = (next s.store s.balancer).1
balancer_after (some id) s = s.balancer

-- The client `i` is new: it stands in the map with the server that was given or found, its channel is
-- empty, and its task is to begin.
abbrev pub IsNew : SocketAddr → ConnectionStage → Option ℕ → RaknetProxy → ℕ → RaknetProxy → Type 0
IsNew addr stage server s i t =
    (get_client addr s.clients ≡ none)
    × (i ≡ s.made)
    × Given s server (t.at i).server
    × (t
        ≡ insert_client addr stage (t.at i).server
            (record s { balancer = balancer_after server s }))
    × (get_client addr t.clients ≡ some i)
    × ((t.at i).phase ≡ spawned)
    × ((t.at i).addr ≡ addr)
    × ((t.at i).stage ≡ stage)

abbrev pub Explains :
    Socket
    → SocketAddr
    → ConnectionStage
    → Option ℕ
    → RaknetProxy
    → NewClient
    → RaknetProxy
    → Type 0
Explains bound addr stage server s (opened i) t = (bound ≡ usable) × IsNew addr stage server s i t
Explains bound addr stage server s failed_late t =
    (bound ≡ usable) × IsNew addr stage server s s.made t
Explains bound addr stage server s nameless t =
    (bound ≡ unnamed)
    × (get_client addr s.clients ≡ none)
    × ((id : ℕ) × Given s server id)
    × (t ≡ record s { balancer = balancer_after server s })
Explains bound addr stage server s unbound t = (bound ≡ refused) × (t ≡ s)
Explains bound addr stage server s still_there t =
    ((i : ℕ) × (get_client addr s.clients ≡ some i)) × (t ≡ s)
Explains bound addr stage server s no_server t =
    (get_client addr s.clients ≡ none)
    × (server ≡ none)
    × ((next s.store s.balancer).0 ≡ none)
    × (t ≡ record s { balancer = balancer_after server s })
