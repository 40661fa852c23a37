-- ===== src/Proxy/Bind/Start.antt =====
-- The state that `bind` of src/proxy.rs gives.
use mathlib.Core.Path.{subst}
use trakt.Base.{ℕ, ◌≡◌, refl, Bool, true, false, [], Option, some, arith}
use trakt.Config.{Text, RootConfig, unwrap_or}
use trakt.Raknet.Datatypes.{SocketAddr}
use trakt.Server.{BackendServer, Store}
use trakt.Config
use trakt.Balancer.{LoadBalancerState, Loaded, init, init_algorithm}
use trakt.Balancer.Reload.Apart.{Apart, load_config-Apart}
use trakt.Balancer.Reload.Fresh.{load_config-Extends, load_config-Allocated}
use trakt.Proxy.Client.{RaknetClient}
use trakt.Proxy.Clients.{RaknetProxy}
use trakt.Proxy.Clients.Reach.{IsStart}
use trakt.Proxy.Bind.{bind}

-- A start whose servers have different addresses.
abbrev pub IsBound : RaknetProxy → Type 0
IsBound s = IsStart s × Apart s.store s.balancer.servers

module _ (from_str : Text → Option SocketAddr) (servers : ℕ → BackendServer)
    (clients : ℕ → RaknetClient) where
  before : Store
  before = record { at = servers; fresh = 0 }

  loaded : RootConfig → Loaded
  loaded config = init from_str config before []

  started : RootConfig → RaknetProxy
  started config = record {
    store = (loaded config).store;
    balancer = (loaded config).state;
    registered = (loaded config).registered;
    clients = [];
    at = clients;
    made = 0;
  }

  started-IsBound : (config : RootConfig) → IsBound (started config)
  unfolding started loaded before init
  started-IsBound config =
      let method = unwrap_or config.load_balance_method Config.round_robin in
      let empty : LoadBalancerState = record { algo = init_algorithm method; servers = [] } in
      (
        record {
          unmade = refl;
          empty = refl;
          given_out = load_config-Allocated from_str config false before empty [] tt;
          unloaded = λ id lt.
              (load_config-Extends from_str config false before empty []).unloaded id (omega arith)
                lt;
        },
        load_config-Apart from_str config false before empty [] tt tt,
      )

  pub bind-IsBound :
      (bound : Bool) (config : RootConfig) (s : RaknetProxy)
      → bind from_str servers clients bound config ≡ some s
      → IsBound s
  unfolding bind
  bind-IsBound false config s e = cc
  bind-IsBound true config s e =
      let same : started config ≡ s = unfold started loaded before in cc e in
      subst IsBound same (started-IsBound config)
