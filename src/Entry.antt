-- ===== src/Entry.antt =====
-- src/main.rs: what the program starts from, its commands, and its loop over reloads and shutdowns.
pub mod Startup
pub mod Steps
pub mod Reloads
pub mod Shutdown
use trakt.Base.{
  ℕ, ◌+◌, ◌-◌, ◌*◌, ◌^◌, Bool, true, Option, none, some, List, [], ◌∷◌, ltb, leb, list_eq,
  if◌then◌else◌,
}
use trakt.Config.{Text, RootConfig}
use trakt.Config.Provider.{ConfigProvider, new_provider, read_config, reload}
use trakt.Proxy.Snapshot.{RaknetProxySnapshot}

-- `taken_at.elapsed()` in nanoseconds, none for a clock that is behind.
abbrev pub elapsed : ℕ → ℕ → Option ℕ
elapsed now taken_at = if ltb now taken_at then none else some (now - taken_at)

abbrev pub ten_seconds : ℕ
ten_seconds = 10 * 10 ^ 9

-- What `read_snapshot_file` returns.
pub data SnapshotFile : Type 0 where
  unreadable absent : SnapshotFile
  present : RaknetProxySnapshot → SnapshotFile

abbrev pub too_old : Option ℕ → Bool
too_old none = true
too_old (some age) = leb ten_seconds age

unfoldable pub usable_snapshot : ℕ → SnapshotFile → Option RaknetProxySnapshot
usable_snapshot now unreadable = none
usable_snapshot now absent = none
usable_snapshot now (present snapshot) =
    if too_old (elapsed now snapshot.taken_at) then none else some snapshot

unfoldable pub provider_at_start :
    Option RaknetProxySnapshot → Option RootConfig → Option ConfigProvider
unfolding read_config
provider_at_start (some snapshot) file = some (new_provider snapshot.config)
provider_at_start none file = read_config file

unfoldable pub bind_address_at_start : Option RaknetProxySnapshot → ConfigProvider → Text
bind_address_at_start (some snapshot) provider = snapshot.player_proxy_bind
bind_address_at_start none provider = provider.config.bind_address

-- What `run` is given, and the address that it binds; none is the early return of `main`.
pub record Start : Type 0 where
  pub provider : ConfigProvider
  pub bind_address : Text
  pub recovered : Option RaknetProxySnapshot

unfoldable pub launch : Option RaknetProxySnapshot → Option RootConfig → Option Start
unfolding provider_at_start bind_address_at_start
launch snapshot config_file = elim (provider_at_start snapshot config_file) [
  | none ↦ none
  | some provider ↦ some (record {
    provider = provider;
    bind_address = bind_address_at_start snapshot provider;
    recovered = snapshot;
  })
]

unfoldable pub startup : ℕ → SnapshotFile → Option RootConfig → Option Start
startup now snapshot_file config_file = launch (usable_snapshot now snapshot_file) config_file

-- A line of the console, trimmed and in lower case.
pub data Command : Type 0 where
  reload_command load_command snapshot_command unknown_command : Command

-- "reload", "list", "load", "recover-able-shutdown" and "ras"
abbrev pub words : List (Text × Command)
words =
    (0x72 ∷ 0x65 ∷ 0x6c ∷ 0x6f ∷ 0x61 ∷ 0x64 ∷ [], reload_command)
    ∷ (0x6c ∷ 0x69 ∷ 0x73 ∷ 0x74 ∷ [], load_command)
    ∷ (0x6c ∷ 0x6f ∷ 0x61 ∷ 0x64 ∷ [], load_command)
    ∷ (
      0x72 ∷ 0x65 ∷ 0x63 ∷ 0x6f ∷ 0x76 ∷ 0x65 ∷ 0x72 ∷ 0x2d ∷ 0x61 ∷ 0x62 ∷ 0x6c ∷ 0x65 ∷ 0x2d
          ∷ 0x73 ∷ 0x68 ∷ 0x75 ∷ 0x74 ∷ 0x64 ∷ 0x6f ∷ 0x77 ∷ 0x6e ∷ [],
      snapshot_command,
    )
    ∷ (0x72 ∷ 0x61 ∷ 0x73 ∷ [], snapshot_command)
    ∷ []

abbrev pub find_command : List (Text × Command) → Text → Command
find_command [] line = unknown_command
find_command ((word, command) ∷ others) line =
    if list_eq line word then command else find_command others line

unfoldable pub command_of : Text → Command
command_of line = find_command words line

-- Where the loop over `ctrl_c` and `wait_reload` is: before its `select!`; in it, before or after a
-- reload has woken it; in `load_config`, which holds the lock of the configuration; in the restart
-- of the scheduler; in the writing of a snapshot; or the process has exited.
pub data Loop : Type 0 where
  before_select selecting woken loading restarting saving : Loop
  exited : (code : ℕ) → Loop

-- `loaded` is the configuration that the balancer loaded last.
pub record Program : Type 0 where
  pub provider : ConfigProvider
  pub loaded : RootConfig
  pub loop : Loop
  pub shutdown_requests : ℕ

-- `notify_waiters` wakes the loop only where it waits.
abbrev pub wake : Bool → Loop → Loop
wake true selecting = woken
wake _ loop = loop

unfoldable pub on_reload : Option RootConfig → Program → Program
unfolding reload
on_reload file p =
    let (provider, notifies) = reload file p.provider in
    record p { provider = provider; loop = wake notifies p.loop }

unfoldable pub on_ctrl_c : Program → Program
on_ctrl_c p =
    let shutdown_requests = p.shutdown_requests + 1 in
    record p {
      shutdown_requests = shutdown_requests;
      loop = if leb 3 shutdown_requests then exited 1 else saving;
    }

-- The end of `take_and_write_snapshot`.
unfoldable pub on_saved : Bool → Program → Program
on_saved saved p = record p { loop = if saved then exited 0 else before_select }

-- `load_config` takes the lock of the configuration and reads all of it under the lock.
unfoldable pub on_load : Program → Program
on_load p = record p { loaded = p.provider.config; loop = loading }
