-- ===== src/Scheduler/Steps.antt =====
-- The steps of src/scheduler.rs: the calls from outside, and what runs by itself.
use trakt.Base.{ℕ, ◌+◌, ◌≡◌, true, false, List, ◌∷◌, ◌++◌}
use trakt.Scheduler.{
  Call, starter, caller, Pending, begin, check, returned, held, Scheduler, after_stop, perform,
  release,
}

-- Work of the tasks that are there. `go_on` runs a pending task to its next place, and `stop_taken`
-- is the arm of the loop that takes the notification. A task behind `run` drops the permit at its
-- end, and a call as soon as it has it.
pub data Work : Scheduler → Scheduler → Type 0 where
  go_on :
      (before : List Pending) (p : Pending) (behind : List Pending) (s : Scheduler)
      → s.pending ≡ before ++ (p ∷ behind)
      → Work s (record (perform p s).0 { pending = before ++ ((perform p s).1 ++ behind) })
  stop_taken :
      (s : Scheduler)
      → s.permit ≡ held starter
      → s.notified ≡ true
      → Work s (record s { permit = returned; notified = false })
  run_dropped : (s : Scheduler) → s.permit ≡ returned → Work s (release s)
  call_dropped :
      (s : Scheduler) (call : Call)
      → s.permit ≡ held (caller call)
      → Work s (record (release s) { pending = after_stop call ++ s.pending })

-- The other arms of the loop, in a task that runs.
pub data Tick : Scheduler → Scheduler → Type 0 where
  motd_tick :
      (s : Scheduler)
      → s.permit ≡ held starter
      → Tick s (record s { motd_rounds = s.motd_rounds + 1 })
  health_tick :
      (s : Scheduler)
      → s.permit ≡ held starter
      → Tick s (record s { health_rounds = s.health_rounds + 1 })

-- What follows without a call from outside, with the number of steps that are no ticks.
pub data Worked : ℕ → Scheduler → Scheduler → Type 0 where
  idle : (s : Scheduler) → Worked 0 s s
  worked : (n : ℕ) (s t u : Scheduler) → Worked n s t → Work t u → Worked (n + 1) s u
  ticked : (n : ℕ) (s t u : Scheduler) → Worked n s t → Tick t u → Worked n s u

abbrev pub started : Scheduler → Scheduler
started s = record s { pending = begin ∷ s.pending }

abbrev pub called : Call → Scheduler → Scheduler
called c s = record s { pending = check c ∷ s.pending }

-- With calls of `start`, `stop` and `restart` at any time.
pub data Reaches : Scheduler → Scheduler → Type 0 where
  stay : (s : Scheduler) → Reaches s s
  start : (s t : Scheduler) → Reaches s t → Reaches s (started t)
  call : (s t : Scheduler) (c : Call) → Reaches s t → Reaches s (called c t)
  works : (s t u : Scheduler) → Reaches s t → Work t u → Reaches s u
  ticks : (s t u : Scheduler) → Reaches s t → Tick t u → Reaches s u
