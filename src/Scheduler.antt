-- ===== src/Scheduler.antt =====
-- src/scheduler.rs: the permit, the notification, and the tasks that want them.
-- `Semaphore::new(1)` hands its permit to the tasks in the order of their arrival: it is free only
-- when none waits. `Notify` keeps one notification that nobody has taken; only the loop of `run` takes
-- it. The rounds that a tick spawns are counted, not run: they are src/motd.rs and src/health.rs.
pub mod Steps
pub mod Pick
pub mod Restart
pub mod Permits
pub mod Race
use trakt.Base.{ℕ, ◌+◌, Bool, true, false, List, [], ◌∷◌, ◌++◌, if◌then◌else◌, ltb}
use trakt.Config.{RootConfig}

-- A call of `stop(wait)` or of `restart()`.
pub data Call : Type 0 where
  stop_call : (wait : Bool) → Call
  restart_call : Call

-- What waits for the permit: the task that `start` spawns, or a call.
pub data Task : Type 0 where
  starter : Task
  caller : Call → Task

-- Where a task or a call stands: before a call of `start`; before the test of `stop`; before its
-- notification; before the first poll of `acquire`.
pub data Pending : Type 0 where
  begin : Pending
  check notify : Call → Pending
  acquire : Task → Pending

-- `held starter` is a task in `run`, and `returned` one whose `run` has returned.
pub data Permit : Type 0 where
  free returned : Permit
  held : Task → Permit

pub record Scheduler : Type 0 where
  pub permit : Permit
  pub queue : List Task
  pub notified : Bool
  pub pending : List Pending
  pub motd_rounds : ℕ
  pub health_rounds : ℕ

-- `new`
abbrev pub new_scheduler : Scheduler
new_scheduler = record {
  permit = free;
  queue = [];
  notified = false;
  pending = [];
  motd_rounds = 0;
  health_rounds = 0;
}

-- `available_permits() == 0`
abbrev pub is_running : Scheduler → Bool
is_running s = elim s.permit [ free ↦ false | returned ↦ true | held t ↦ true ]

-- What a call does when `stop` has returned.
abbrev pub after_stop : Call → List Pending
after_stop (stop_call wait) = []
after_stop restart_call = begin ∷ []

-- Whether `stop` waits; `restart` has it wait.
abbrev pub waits : Call → Bool
waits (stop_call wait) = wait
waits restart_call = true

-- The next piece of a pending task, and where it stands then.
unfoldable pub perform : Pending → Scheduler → Scheduler × List Pending
perform begin s = (s, if is_running s then [] else acquire starter ∷ [])
perform (check call) s = (s, if is_running s then notify call ∷ [] else after_stop call)
perform (notify call) s = (
  record s { notified = true },
  if waits call then acquire (caller call) ∷ [] else after_stop call,
)
perform (acquire task) s = (
  elim s.permit [
    | free ↦ record s { permit = held task }
    | returned ↦ record s { queue = s.queue ++ (task ∷ []) }
    | held t ↦ record s { queue = s.queue ++ (task ∷ []) }
  ],
  [],
)

-- The permit is dropped, and the first task in the queue has it.
unfoldable pub release : Scheduler → Scheduler
release s = elim s.queue [
  | [] ↦ record s { permit = free }
  | task ∷ later ↦ record s { permit = held task; queue = later }
]

-- The periods of the two intervals, in seconds.
abbrev pub at_least_one : ℕ → ℕ
at_least_one n = if ltb n 1 then 1 else n

unfoldable pub rates : RootConfig → ℕ × ℕ
rates config =
    (at_least_one config.backend.motd_refresh_rate, at_least_one config.backend.health_check_rate)
