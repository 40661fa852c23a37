-- ===== src/Entry/Steps.antt =====
-- The steps of the loop of src/main.rs, and of the reloads that other tasks call.
use trakt.Base.{◌≡◌, Bool, true, false, Option}
use trakt.Config.{RootConfig}
use trakt.Config.Provider.{new_provider}
use trakt.Entry.{
  Loop, before_select, selecting, woken, loading, restarting, saving, exited, Program, on_reload,
  on_ctrl_c, on_saved, on_load,
}

-- `LoadBalancer::init` has loaded the configuration when the loop begins.
abbrev pub begun : RootConfig → Program
begun config = record {
  provider = new_provider config;
  loaded = config;
  loop = before_select;
  shutdown_requests = 0;
}

-- The loop goes on.
pub data Own : Program → Program → Type 0 where
  select : (p : Program) → p.loop ≡ before_select → Own p (record p { loop = selecting })
  load : (p : Program) → p.loop ≡ woken → Own p (on_load p)
  load_end : (p : Program) → p.loop ≡ loading → Own p (record p { loop = restarting })
  restart_end : (p : Program) → p.loop ≡ restarting → Own p (record p { loop = before_select })
  save_end : (b : Bool) (p : Program) → p.loop ≡ saving → Own p (on_saved b p)

-- A reload writes the configuration when nobody holds its lock.
abbrev pub may_write : Loop → Bool
may_write loading = false
may_write (exited code) = false
may_write _ = true

abbrev pub in_select : Loop → Bool
in_select selecting = true
in_select woken = true
in_select _ = false

-- Everything that may happen. A signal is taken by a `select!`, even by one that a reload has woken,
-- whose other arm is then dropped.
pub data Reaches : Program → Program → Type 0 where
  stay : (p : Program) → Reaches p p
  own : (p q r : Program) → Reaches p q → Own q r → Reaches p r
  reloads :
      (p q : Program) (file : Option RootConfig)
      → Reaches p q
      → may_write q.loop ≡ true
      → Reaches p (on_reload file q)
  interrupt : (p q : Program) → Reaches p q → in_select q.loop ≡ true → Reaches p (on_ctrl_c q)

-- No reload comes while the loop is away from its `select!`, and no signal between a reload and the
-- end of its `select!`.
pub data Calm : Program → Program → Type 0 where
  calm_stay : (p : Program) → Calm p p
  calm_own : (p q r : Program) → Calm p q → Own q r → Calm p r
  calm_reload :
      (p q : Program) (file : Option RootConfig)
      → Calm p q
      → in_select q.loop ≡ true
      → Calm p (on_reload file q)
  calm_interrupt : (p q : Program) → Calm p q → q.loop ≡ selecting → Calm p (on_ctrl_c q)

-- No reload comes.
pub data Unreloaded : Program → Program → Type 0 where
  same_stay : (p : Program) → Unreloaded p p
  same_own : (p q r : Program) → Unreloaded p q → Own q r → Unreloaded p r
  same_interrupt :
      (p q : Program) → Unreloaded p q → in_select q.loop ≡ true → Unreloaded p (on_ctrl_c q)
