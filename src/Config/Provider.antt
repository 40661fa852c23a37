-- ===== src/Config/Provider.antt =====
-- `ConfigProvider` of src/config.rs. What reading the file and parsing it gave is an argument, none
-- for an error of either.
use trakt.Base.{Bool, true, false, Option, none, some}
use trakt.Config.{RootConfig}

-- The path of the file and the waiters of the notification stand outside.
pub record ConfigProvider : Type 0 where
  pub config : RootConfig

abbrev pub new_provider : RootConfig → ConfigProvider
new_provider config = record { config = config }

unfoldable pub read_config : Option RootConfig → Option ConfigProvider
read_config none = none
read_config (some config) = some (new_provider config)

-- The Boolean says whether `notify_waiters` is called.
unfoldable pub reload : Option RootConfig → ConfigProvider → ConfigProvider × Bool
reload none provider = (provider, false)
reload (some config) provider = (record provider { config = config }, true)
