-- ===== src/Scheduler/Race.antt =====
-- `start` of src/scheduler.rs tests for a runner, and takes the permit only in the task that it
-- spawns: two calls may both pass the test.
use trakt.Base.{ℕ, false, [], ◌∷◌}
use trakt.Scheduler.{restart_call, starter, caller, held, Scheduler}

-- A scheduler that runs while a restart waits behind the running task, whose notification the task
-- before it took.
abbrev pub waiting_with : ℕ → ℕ → Scheduler
waiting_with m h = record {
  permit = held starter;
  queue = caller restart_call ∷ [];
  notified = false;
  pending = [];
  motd_rounds = m;
  health_rounds = h;
}
