-- ===== src/Examples/Bound.antt =====
-- `bind` of src/proxy.rs at a concrete input, and the proxy after it.
use trakt.Base.{list_eq, ℕ, ◌≡◌, refl, true, [], ◌∷◌, Option, none, some}
use trakt.Server.{BackendServer, new_server, alloc, addr_eq}
use trakt.Balancer.{
  get_server, next, init, load_config, load_servers, load_address, contains, find_server,
  add_server, retain, same_method,
}
use trakt.Proxy.Client.{handshake}
use trakt.Proxy.Clients.{
  under_lock, usable, RaknetProxy, new_client, reload_config, stay, after, reload, connect,
}
use trakt.Proxy.Bind.{bind}
use trakt.Proxy.Bind.Addresses.{get_server_own}
use trakt.Examples.Crate.{std_crate}
use trakt.Examples.Balancing.{address, from_str, config}
use trakt.Examples.Clients.{fresh_proxy}

abbrev servers : ℕ → BackendServer
servers n = new_server (address n)

abbrev bound_to : Option RaknetProxy → RaknetProxy
bound_to none = fresh_proxy
bound_to (some s) = s

-- The configuration lists one of its servers twice.
abbrev started : RaknetProxy
started = bound_to (bind from_str servers fresh_proxy.at true config)

-- The configuration is loaded once more, and a player joins.
abbrev joined : RaknetProxy
joined =
    (new_client usable true (address 7) handshake none (reload_config from_str config started)).1

get_server_own_example :
    (◌≡◌ {A = ℕ} 1 1) × (get_server joined.store joined.balancer (joined.store.at 1).addr ≡ some 1)
unfolding bind init load_config load_servers load_address contains find_server addr_eq list_eq
    add_server alloc new_server retain same_method reload_config new_client under_lock next
get_server_own_example =
    get_server_own from_str servers fresh_proxy.at true config started joined refl
      (after (after stay (reload config)) (connect usable true (address 7) handshake)) 1 1 1 1 refl
      refl refl

-- The addresses number 0 and 9.
two_servers : joined.balancer.servers ≡ 0 ∷ 1 ∷ []
unfolding bind init load_config load_servers load_address contains find_server addr_eq list_eq
    add_server alloc new_server retain same_method reload_config new_client under_lock next
two_servers = refl
