-- ===== src/Scheduler/Restart.antt =====
-- One `restart` of src/scheduler.rs, while nothing else is under way.
use trakt.Base.{
  ℕ, zero, suc, ◌+◌, ◌<◌, ◌≡◌, refl, sym, ap, ◌∙◌, ◌⊎◌, inl, inr, Bool, true, false, List, [], ◌∷◌,
  ◌++◌, arith,
}
use trakt.Scheduler.{
  Call, restart_call, Task, starter, caller, Pending, begin, check, notify, acquire, Permit, free,
  returned, held, Scheduler, after_stop, perform, release,
}
use trakt.Scheduler.Steps.{
  Work, go_on, stop_taken, run_dropped, call_dropped, Tick, motd_tick, health_tick, Worked, idle,
  worked, ticked, called,
}
use trakt.Scheduler.Pick.{gone_on, none_there, alone}
use mathlib.Core.Path.{subst}

-- Where a restart is: the test, the notification, the request for the permit before or after the
-- loop takes the notification and its task drops the permit, the drop of it, and the new start.
pub data Phase : Type 0 where
  testing telling asking : Phase
  asking_returned asking_free : Phase
  queued queued_returned : Phase
  granted starting spawned running : Phase

abbrev pub rank : Phase → ℕ
rank testing = 8
rank telling = 7
rank asking = 6
rank asking_returned = 5
rank queued = 5
rank asking_free = 4
rank queued_returned = 4
rank granted = 3
rank starting = 2
rank spawned = 1
rank running = 0

abbrev pub permit_in : Phase → Permit
permit_in testing = held starter
permit_in telling = held starter
permit_in asking = held starter
permit_in asking_returned = returned
permit_in queued = held starter
permit_in asking_free = free
permit_in queued_returned = returned
permit_in granted = held (caller restart_call)
permit_in starting = free
permit_in spawned = free
permit_in running = held starter

abbrev pub queue_in : Phase → List Task
queue_in queued = caller restart_call ∷ []
queue_in queued_returned = caller restart_call ∷ []
queue_in _ = []

abbrev pub notified_in : Phase → Bool
notified_in asking = true
notified_in queued = true
notified_in _ = false

abbrev pub pending_in : Phase → List Pending
pending_in testing = check restart_call ∷ []
pending_in telling = notify restart_call ∷ []
pending_in asking = acquire (caller restart_call) ∷ []
pending_in asking_returned = acquire (caller restart_call) ∷ []
pending_in queued = []
pending_in asking_free = acquire (caller restart_call) ∷ []
pending_in queued_returned = []
pending_in granted = []
pending_in starting = begin ∷ []
pending_in spawned = acquire starter ∷ []
pending_in running = []

abbrev pub at : Phase → ℕ → ℕ → Scheduler
at ph m h = record {
  permit = permit_in ph;
  queue = queue_in ph;
  notified = notified_in ph;
  pending = pending_in ph;
  motd_rounds = m;
  health_rounds = h;
}

pos_or_zero : (n : ℕ) → (n ≡ 0) ⊎ (0 < n)
pos_or_zero zero = inl refl
pos_or_zero (suc n) = inr (omega arith)

-- Any work brings a restart one step further.
abbrev Further : Phase → ℕ → ℕ → Scheduler → Type 0
Further ph m h t = (next : Phase) × (t ≡ at next m h) × (rank ph ≡ rank next + 1)

go_on-Further :
    (ph : Phase) (m h : ℕ) (before : List Pending) (p : Pending) (behind : List Pending)
    → pending_in ph ≡ before ++ (p ∷ behind)
    → Further ph m h (gone_on before p behind (at ph m h))
unfolding perform
go_on-Further testing m h before p behind e =
    alone (at testing m h) _ (Further testing m h) before p behind e (telling, refl, refl)
go_on-Further telling m h before p behind e =
    alone (at telling m h) _ (Further telling m h) before p behind e (asking, refl, refl)
go_on-Further asking m h before p behind e =
    alone (at asking m h) _ (Further asking m h) before p behind e (queued, refl, refl)
go_on-Further asking_returned m h before p behind e =
    alone (at asking_returned m h) _ (Further asking_returned m h) before p behind e
      (queued_returned, refl, refl)
go_on-Further asking_free m h before p behind e =
    alone (at asking_free m h) _ (Further asking_free m h) before p behind e (granted, refl, refl)
go_on-Further starting m h before p behind e =
    alone (at starting m h) _ (Further starting m h) before p behind e (spawned, refl, refl)
go_on-Further spawned m h before p behind e =
    alone (at spawned m h) _ (Further spawned m h) before p behind e (running, refl, refl)
go_on-Further queued m h before p behind e = absurd (none_there p before behind e)
go_on-Further queued_returned m h before p behind e = absurd (none_there p before behind e)
go_on-Further granted m h before p behind e = absurd (none_there p before behind e)
go_on-Further running m h before p behind e = absurd (none_there p before behind e)

stop_taken-Further :
    (ph : Phase) (m h : ℕ)
    → permit_in ph ≡ held starter
    → notified_in ph ≡ true
    → Further ph m h (record (at ph m h) { permit = returned; notified = false })
stop_taken-Further asking m h held_it told = (asking_returned, refl, refl)
stop_taken-Further queued m h held_it told = (queued_returned, refl, refl)
stop_taken-Further ph m h held_it told = absurd cc

run_dropped-Further :
    (ph : Phase) (m h : ℕ) → permit_in ph ≡ returned → Further ph m h (release (at ph m h))
unfolding release
run_dropped-Further asking_returned m h e = (asking_free, refl, refl)
run_dropped-Further queued_returned m h e = (granted, refl, refl)
run_dropped-Further ph m h e = absurd cc

call_dropped-Further :
    (ph : Phase) (m h : ℕ) (c : Call)
    → permit_in ph ≡ held (caller c)
    → Further ph m h (record (release (at ph m h)) { pending = after_stop c ++ pending_in ph })
unfolding release
call_dropped-Further granted m h c e =
    let same : restart_call ≡ c = cc in
    subst
      (λ c.
        Further granted m h (record (release (at granted m h)) { pending = after_stop c ++ [] }))
      same (starting, refl, refl)
call_dropped-Further ph m h c e = absurd cc

Work-Further : (ph : Phase) (m h : ℕ) (t : Scheduler) → Work (at ph m h) t → Further ph m h t
Work-Further ph m h t (go_on before p behind _ there) = go_on-Further ph m h before p behind there
Work-Further ph m h t (stop_taken _ held_it told) = stop_taken-Further ph m h held_it told
Work-Further ph m h t (run_dropped _ back) = run_dropped-Further ph m h back
Work-Further ph m h t (call_dropped _ c back) = call_dropped-Further ph m h c back

-- A tick changes nothing of it.
Tick-same :
    (ph : Phase) (m h : ℕ) (t : Scheduler)
    → Tick (at ph m h) t
    → (m' : ℕ) × (h' : ℕ) × (t ≡ at ph m' h')
Tick-same ph m h t (motd_tick _ on) = (m + 1, h, refl)
Tick-same ph m h t (health_tick _ on) = (m, h + 1, refl)

-- After `n` steps that are no ticks.
abbrev Along : ℕ → Scheduler → Type 0
Along n t = (ph : Phase) × (m : ℕ) × (h : ℕ) × (t ≡ at ph m h) × (n + rank ph ≡ 8)

Worked-Along : (n m h : ℕ) (s t : Scheduler) → s ≡ at testing m h → Worked n s t → Along n t
Worked-Along n m h s t e (idle _) = (testing, m, h, e, refl)
Worked-Along n m h s t e (worked k _ u _ before w) =
    let ih = Worked-Along k m h s u e before in
    let next = Work-Further ih.0 ih.1 ih.2 t (subst (λ u. Work u t) ih.3 w) in
    (next.0, ih.1, ih.2, next.1, omega (arith, ih.4, next.2))
Worked-Along n m h s t e (ticked _ _ u _ before w) =
    let ih = Worked-Along n m h s u e before in
    let next = Tick-same ih.0 ih.1 ih.2 t (subst (λ u. Tick u t) ih.3 w) in
    (ih.0, next.0, next.1, next.2, ih.4)

-- Until the scheduler runs again there is work to do.
more : (ph : Phase) (m h : ℕ) → 0 < rank ph → (u : Scheduler) × Work (at ph m h) u
more testing m h r = (_, go_on [] _ [] _ refl)
more telling m h r = (_, go_on [] _ [] _ refl)
more asking m h r = (_, go_on [] _ [] _ refl)
more asking_returned m h r = (_, go_on [] _ [] _ refl)
more asking_free m h r = (_, go_on [] _ [] _ refl)
more queued m h r = (_, stop_taken _ refl refl)
more queued_returned m h r = (_, run_dropped _ refl)
more granted m h r = (_, call_dropped _ restart_call refl)
more starting m h r = (_, go_on [] _ [] _ refl)
more spawned m h r = (_, go_on [] _ [] _ refl)
more running m h r = absurd (omega arith)

-- A scheduler that runs, with no call under way and no notification left.
abbrev pub running_with : ℕ → ℕ → Scheduler
running_with m h = at running m h

rank_zero : (ph : Phase) → rank ph ≡ 0 → ph ≡ running
rank_zero running e = refl
rank_zero ph e = absurd (omega arith)

-- A `restart` of a running scheduler, with nothing else under way, takes exactly eight steps, in
-- whatever order its tasks get on and however many ticks fall in between: until the eighth there is
-- a further one to take, and after it the scheduler runs again with no call under way, no task that
-- waits for the permit and no notification left.
pub restart_completes :
    (n m h : ℕ) (t : Scheduler)
    → Worked n (called restart_call (running_with m h)) t
    → ((n < 8) × (u : Scheduler) × Work t u)
      ⊎ ((n ≡ 8) × (m' : ℕ) × (h' : ℕ) × (t ≡ running_with m' h'))
restart_completes n m h t run =
    let along = Worked-Along n m h _ t refl run in
    elim (pos_or_zero (rank along.0)) [
      | inl zero_left ↦ inr (
        omega (arith, along.4),
        along.1,
        along.2,
        along.3 ∙ ap (λ ph. at ph along.1 along.2) (rank_zero along.0 zero_left),
      )
      | inr left_over ↦
          let next = more along.0 along.1 along.2 left_over in
          inl (omega (arith, along.4), next.0, subst (λ t. Work t next.0) (sym along.3) next.1)
    ]
