-- ===== src/Examples/Running.antt =====
-- The scheduler and the entry point at concrete inputs.
use trakt.Base.{ℕ, ◌*◌, ◌^◌, ◌<◌, list_eq, ◌≡◌, refl, ◌↔◌, ◌⊎◌, none, some, [], ◌∷◌}
use trakt.Config.{RootConfig}
use trakt.Config.Provider.{reload}
use trakt.Scheduler.{
  restart_call, caller, returned, Scheduler, check, notify, acquire, perform, rates,
}
use trakt.Scheduler.Steps.{Work, go_on, stop_taken, motd_tick, Worked, idle, worked, ticked, called}
use trakt.Scheduler.Restart.{running_with, restart_completes}
use trakt.Proxy.Snapshot.{RaknetProxySnapshot}
use trakt.Entry.{
  Program, selecting, saving, present, startup, on_reload, on_load, command_of, snapshot_command,
  unknown_command,
}
use trakt.Entry.Steps.{
  begun, select, load, load_end, restart_end, reloads, Calm, calm_stay, calm_own, calm_reload,
  Unreloaded,
}
use trakt.Entry.Startup.{Recent, Recovers, startup-Recovers}
use trakt.Entry.Reloads.{reloads_applied}
use trakt.Entry.Steps
use trakt.Examples.Balancing.{config}

-- A restart up to where the loop has taken the notification, with a tick in between.
abbrev halfway : Scheduler
halfway = record (running_with 1 0) { permit = returned; queue = caller restart_call ∷ [] }

underway : Worked 4 (called restart_call (running_with 0 0)) halfway
unfolding perform
underway =
    worked 3 _ _ _
      (worked 2 _ _ _
        (worked 1 _ _ _
          (ticked 1 _ _ _ (worked 0 _ _ _ (idle _) (go_on [] (check restart_call) [] _ refl))
            (motd_tick _ refl))
          (go_on [] (notify restart_call) [] _ refl))
        (go_on [] (acquire (caller restart_call)) [] _ refl))
      (stop_taken _ refl refl)

restart_completes_example :
    ((4 < 8) × (u : Scheduler) × Work halfway u)
    ⊎ (◌≡◌ {A = ℕ} 4 8 × (m : ℕ) × (h : ℕ) × (halfway ≡ running_with m h))
restart_completes_example = restart_completes 4 0 0 halfway underway

-- A rate of 0 counts as one second.
quick : (rates (record config { backend = record config.backend { motd_refresh_rate = 0 } })).0 ≡ 1
unfolding rates
quick = refl

abbrev snapshot : RaknetProxySnapshot
snapshot = record {
  taken_at = 5 * 10 ^ 9;
  config = config;
  player_proxy_bind = 1 ∷ [];
  clients = [];
}

-- 9.9 s later, with a configuration file that does not parse.
startup-Recovers_example :
    Recovers snapshot (startup (149 * 10 ^ 8) (present snapshot) none)
    ↔ Recent (149 * 10 ^ 8) (present snapshot) snapshot
startup-Recovers_example = startup-Recovers snapshot (149 * 10 ^ 8) (present snapshot) none

-- "ras" and "raz"
ras : command_of (0x72 ∷ 0x61 ∷ 0x73 ∷ []) ≡ snapshot_command
unfolding command_of list_eq
ras = refl

raz : command_of (0x72 ∷ 0x61 ∷ 0x7a ∷ []) ≡ unknown_command
unfolding command_of list_eq
raz = refl

abbrev other_config : RootConfig
other_config = record config { proxy_bind = 9 ∷ [] }

-- A reload that the loop hears, and its answer.
heard : Calm (begun config) (record (begun other_config) { loop = selecting })
unfolding on_reload reload on_load
heard =
    calm_own _ _ _
      (calm_own _ _ _
        (calm_own _ _ _
          (calm_own _ _ _
            (calm_reload _ _ (some other_config)
              (calm_own _ _ _ (calm_stay (begun config)) (select _ refl)) refl)
            (load _ refl))
          (load_end _ refl))
        (restart_end _ refl))
      (select _ refl)

reloads_applied_example : other_config ≡ other_config
reloads_applied_example = reloads_applied config _ heard refl

-- Two requests, the first of which could not be saved.
abbrev asked_twice : Program
asked_twice = record (begun config) { loop = saving; shutdown_requests = 2 }
