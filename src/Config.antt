-- ===== src/Config.antt =====
-- src/config.rs: the contents of the configuration file.
pub mod Provider
use trakt.Base.{ℕ, Bool, List, Option, none, some}

-- A `String`, as its UTF-8 bytes.
abbrev pub Text : Type 0
Text = List ℕ

pub data LoadBalanceMethod : Type 0 where
  round_robin least_connected : LoadBalanceMethod

pub record BackendServerConfig : Type 0 where
  pub address : Text

pub record BackendConfig : Type 0 where
  pub health_check_rate : ℕ
  pub motd_refresh_rate : ℕ
  pub motd_source : Option Text
  pub servers : List BackendServerConfig

pub record RootConfig : Type 0 where
  pub bind_address : Text
  pub proxy_bind : Text
  pub load_balance_method : Option LoadBalanceMethod
  pub proxy_protocol : Option Bool
  pub backend : BackendConfig

-- `unwrap_or`
abbrev pub unwrap_or {ℓ} : {A : Type ℓ} → Option A → A → A
unwrap_or none d = d
unwrap_or (some a) d = a
