-- ===== src/Scheduler/Tests.antt =====
-- A queue with tasks for two threads.
use mnser.Common.{
  ℕ, ◌+◌, ◌%◌, ◌^◌, List, [], ◌∷◌, Bool, true, false, if◌then◌else◌, Option, none, some, is_some,
}
use mnser.Common.{◌≡◌, refl, ok}
use mnser.Common.{err, assert_failed, ◌>>=◌}
use mnser.Scheduler.{
  FiberState, ready, init, hold, exec, FiberAndFunc, Scheduler, set_state, pick, take_task,
  yield_to_ready, yield_to_hold,
}
use mnser.Common.{◌≤◌, All, arith}
use mnser.Scheduler.{
  term, start_func, swap_in, count_out, ask_stop, start_fiber, stopping, schedule, schedule_no_lock,
}
use mnser.Scheduler.System.{
  System, Owner, Thread, PoliteRun, func_task, schedules_func, starts_func, ends, comes_back,
  asks_stop, inside, back, Reach, took, queued, run_by, taken, fiber_task, schedules, takes, next,
  here,
}
use mnser.Scheduler.Safety.{at_phase}
use mnser.Scheduler.Reached.{
  new_system, at_rest, Reach-alone, Reach-stopping, Reach-start, Reach-stopping_early,
}
use mnser.Scheduler.Queue.{AllTasks, Picked, take_task_lem}

abbrev for_seven : FiberAndFunc
for_seven = record { fiber = none; func = some 1; thread_id = some 7 }

abbrev running : FiberAndFunc
running = record { fiber = some 3; func = none; thread_id = none }

abbrev free_fiber : FiberAndFunc
free_fiber = record { fiber = some 4; func = none; thread_id = none }

abbrev void : FiberAndFunc
void = record { fiber = none; func = none; thread_id = none }

abbrev states : ℕ → FiberState
states = set_state (set_state (λ f. hold) 3 exec) 5 init

abbrev scheduler : Scheduler
scheduler = record {
  fibers = for_seven ∷ running ∷ free_fiber ∷ [];
  state = states;
  active_thread_count = 1;
  stopping_asked = false;
  auto_stop = false;
}

-- Thread 8 passes the task of thread 7 and the fiber that runs.
takes_third :
    take_task scheduler 8
    ≡ ok (
      some free_fiber,
      record scheduler { fibers = for_seven ∷ running ∷ []; active_thread_count = 2 },
      true,
    )
unfolding take_task pick
takes_third = refl

take_task_example :
    (r : Option FiberAndFunc × List FiberAndFunc × Bool) × Picked states 8
      (for_seven ∷ running ∷ free_fiber ∷ [])
      r
    × AllTasks r.1
    × (take_task scheduler 8
        ≡ ok (
          r.0,
          record scheduler {
            fibers = r.1;
            active_thread_count = if is_some r.0 then (1 + 1) % 2 ^ 64 else 1;
          },
          r.2,
        ))
take_task_example = take_task_lem scheduler 8 (refl, (refl, (refl, tt)))

yields : (yield_to_ready states 3 >>= λ state. ok (state 3)) ≡ ok ready
unfolding yield_to_ready
yields = refl

cannot_yield : yield_to_hold states 4 ≡ err assert_failed
unfolding yield_to_hold
cannot_yield = refl

-- A scheduler with two threads and a fiber that is put in, taken, run, and yields.
abbrev held : ℕ → FiberState
held f = hold

stopped_early :
    (s : System) × Reach (new_system held false (8 ∷ 9 ∷ [])) s
    × (stopping s.sched ≡ true)
    × (s.sched.state 4 ≡ ready)
    × (queued s 4 ≡ 0)
    × (run_by s 4 ≡ 1)
stopped_early = Reach-stopping_early held false 8 (9 ∷ []) 4 refl refl

Reach-stopping_early_example :
    (s : System) × Reach (new_system held false (8 ∷ [])) s
    × (stopping s.sched ≡ true)
    × (s.sched.state 4 ≡ ready)
    × (queued s 4 ≡ 0)
    × (run_by s 4 ≡ 1)
Reach-stopping_early_example = Reach-stopping_early held false 8 [] 4 refl refl

abbrev eight : Owner
eight = record { id = 8; cb_fiber = none; in_func = false }

-- A thread takes a function, and runs it in a new fiber, 6, which ends.
abbrev idle_eight : System
idle_eight = new_system held false (8 ∷ [])

abbrev with_function : Scheduler
with_function = record idle_eight.sched { fibers = func_task 2 none ∷ [] }

abbrev function_taken : Scheduler
function_taken = record with_function { fibers = []; active_thread_count = 1 }

abbrev function_runs : Scheduler
function_runs = record function_taken { state = set_state (set_state held 6 init) 6 exec }

abbrev function_ended : Scheduler
function_ended = record function_runs { state = set_state function_runs.state 6 term }

abbrev eight_busy : Owner
eight_busy = record { id = 8; cb_fiber = some 6; in_func = true }

abbrev function_back : System
function_back = record {
  sched = record function_ended {
    active_thread_count = 0;
    auto_stop = true;
    stopping_asked = true;
  };
  threads = (eight_busy, back 6) ∷ [];
}

runs_function : Reach idle_eight (at_phase function_ended [] [] eight_busy (inside 6))
unfolding schedule schedule_no_lock take_task pick start_func swap_in
runs_function =
    next
      (next
        (next (next here (schedules_func idle_eight 2 none))
          (takes with_function [] [] eight (some (func_task 2 none), function_taken, false) refl))
        (starts_func function_taken [] [] eight 2 6 6 (func_task 2 none) function_runs refl refl
          refl))
      (ends function_runs [] [] eight_busy 6 term refl refl)

runs_function-Polite : PoliteRun runs_function
unfolding runs_function schedule schedule_no_lock take_task pick start_func swap_in
runs_function-Polite = ((((tt, tt), tt), refl), tt)

Reach-alone_example :
    (run_by (at_phase function_ended [] [] eight_busy (inside 6)) 6 ≤ 1)
    × (queued (at_phase function_ended [] [] eight_busy (inside 6)) 6
          + taken (at_phase function_ended [] [] eight_busy (inside 6)) 6
        ≤ 1)
Reach-alone_example =
    Reach-alone held false (8 ∷ []) (λ f. refl) (omega arith)
      (at_phase function_ended [] [] eight_busy (inside 6)) runs_function runs_function-Polite 6

stops_after : Reach idle_eight function_back
unfolding count_out ask_stop
stops_after = next (next runs_function (comes_back function_ended [] [] eight_busy 6)) (
    asks_stop
      (at_phase (record function_ended { active_thread_count = 0 }) [] [] eight_busy (back 6)))

Reach-stopping_example :
    (true ≡ true)
    × (function_back.sched.fibers ≡ [])
    × All (λ (x : Thread). at_rest x.1 ≡ true) ((eight_busy, back 6) ∷ [])
Reach-stopping_example =
    Reach-stopping held false (8 ∷ []) (omega arith) function_back stops_after refl

abbrev with_task : Scheduler
with_task = record (new_system held false (8 ∷ [])).sched { fibers = fiber_task 4 none ∷ [] }

abbrev after_taking : Scheduler
after_taking = record with_task { fibers = []; active_thread_count = 1 }

has_task : Reach idle_eight (at_phase after_taking [] [] eight (took (fiber_task 4 none)))
unfolding schedule schedule_no_lock take_task pick
has_task =
    next (next here (schedules idle_eight 4 none))
      (takes with_task [] [] eight (some (fiber_task 4 none), after_taking, false) refl)

has_task-Polite : PoliteRun has_task
unfolding has_task schedule schedule_no_lock take_task pick
has_task-Polite = ((tt, (refl, λ h. absurd (omega arith))), tt)

Reach-start_example :
    (r : Bool × Scheduler) × (start_fiber after_taking 4 ≡ ok r)
    × (r.0 ≡ true
        → (run_by (at_phase after_taking [] [] eight (took (fiber_task 4 none))) 4 ≡ 0)
          × (r.1.state 4 ≡ exec))
Reach-start_example =
    Reach-start held false (8 ∷ []) (λ f. refl) (omega arith) after_taking [] [] eight 4
      (fiber_task 4 none) refl has_task has_task-Polite
