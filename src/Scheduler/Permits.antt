-- ===== src/Scheduler/Permits.antt =====
-- The permit of src/scheduler.rs, in every interleaving of its calls and tasks.
use mathlib.Core.Path.{subst}
use trakt.Base.{◌≡◌, refl, sym, List, [], ◌∷◌, ◌++◌}
use trakt.Scheduler.{
  Task, Pending, begin, check, notify, acquire, Permit, free, returned, held, Scheduler,
  new_scheduler, perform, release,
}
use trakt.Scheduler.Steps.{
  Work, go_on, stop_taken, run_dropped, call_dropped, Tick, motd_tick, health_tick, Reaches, stay,
  start, call, works, ticks,
}

-- What holds of a permit and a queue.
abbrev Queued : Permit → List Task → Type 0
Queued free queue = queue ≡ []
Queued returned queue = Unit
Queued (held t) queue = Unit

abbrev Fair : Scheduler → Type 0
Fair s = Queued s.permit s.queue

acquire-Fair :
    (pm : Permit) (task : Task) (s : Scheduler) → s.permit ≡ pm → Fair (perform (acquire task) s).0
unfolding perform
acquire-Fair free task s e = rw (Queued, e) tt
acquire-Fair returned task s e =
    rw (Queued, e) (subst (λ pm. Queued pm (s.queue ++ (task ∷ []))) (sym e) tt)
acquire-Fair (held t) task s e =
    rw (Queued, e) (subst (λ pm. Queued pm (s.queue ++ (task ∷ []))) (sym e) tt)

perform-Fair : (p : Pending) (s : Scheduler) → Fair s → Fair (perform p s).0
unfolding perform
perform-Fair begin s h = h
perform-Fair (check c) s h = h
perform-Fair (notify c) s h = h
perform-Fair (acquire task) s h = acquire-Fair s.permit task s refl

release-Fair : (queue : List Task) (s : Scheduler) → s.queue ≡ queue → Fair (release s)
unfolding release
release-Fair [] s e = rw e refl
release-Fair (task ∷ later) s e = rw e tt

Work-Fair : (s t : Scheduler) → Fair s → Work s t → Fair t
Work-Fair s t h (go_on before p behind _ there) = perform-Fair p s h
Work-Fair s t h (stop_taken _ on told) = tt
Work-Fair s t h (run_dropped _ back) = release-Fair s.queue s refl
Work-Fair s t h (call_dropped _ c back) = release-Fair s.queue s refl

Tick-Fair : (s t : Scheduler) → Fair s → Tick s t → Fair t
Tick-Fair s t h (motd_tick _ on) = h
Tick-Fair s t h (health_tick _ on) = h

Reaches-Fair : (s : Scheduler) → Reaches new_scheduler s → Fair s
Reaches-Fair s (stay _) = refl
Reaches-Fair s (start _ t before) = Reaches-Fair t before
Reaches-Fair s (call _ t c before) = Reaches-Fair t before
Reaches-Fair s (works _ t _ before w) = Work-Fair t s (Reaches-Fair t before) w
Reaches-Fair s (ticks _ t _ before w) = Tick-Fair t s (Reaches-Fair t before) w

-- However calls and tasks fall in between each other, the permit is free only when no task and no
-- call waits for it: whoever waits does so behind one that runs, has returned or is about to drop it.
free_permit : (s : Scheduler) → Reaches new_scheduler s → s.permit ≡ free → s.queue ≡ []
free_permit s reached e = subst (λ pm. Queued pm s.queue) e (Reaches-Fair s reached)
