-- ===== src/Scheduler/Reached.antt =====
-- What holds in every state that the threads of a scheduler can reach.
use mnser.Common.{
  ℕ, ◌+◌, ◌-◌, ◌%◌, ◌^◌, ◌≤◌, ◌<◌, List, [], ◌∷◌, Bool, true, false, not, none, some, ◌==◌, All,
  length,
}
use mnser.Common.{◌≡◌, refl, sym, arith, ok, err, assert_failed, Bool-cases, inl, inr}
use mnser.Scheduler.{
  FiberState, exec, ready, yield_to_ready, schedule, schedule_no_lock, count_out, ask_stop, is_exec,
  is_over, FiberAndFunc, Scheduler, take_task, start_fiber, swap_in, set_state, empty, stopping,
  pick,
}
use mnser.Scheduler.Fine.{Fine-eq, not_exec}
use mnser.Scheduler.System.{
  Phase, looking, took, inside, back, Thread, Owner, System, total_by, of_task, took_one,
  inside_one, busy_one, queued, taken, run_by, fiber_task, Step, Reach, schedules, schedules_func,
  takes, starts, starts_func, yields_ready, ends, comes_back, asks_stop, settles, settles_func,
  here, next, Owner, Polite, PoliteRun,
}
use mnser.Scheduler.Counted.{Counted, Step-Counted}
use mnser.Scheduler.Safety.{Inv, at_phase, schedules-Inv, takes-Inv, taken-put, equals}
use mnser.Scheduler.Starting.{starts-Inv}
use mnser.Scheduler.Returning.{yields_ready-Inv, ends-Inv, comes_back-Inv, asks_stop-Inv}
use mnser.Scheduler.Settling.{settles-Inv}
use mnser.Scheduler.Functions.{schedules_func-Inv, starts_func-Inv, settles_func-Inv}

Step-Inv : {s t : System} (st : Step s t) → Polite st → Inv s → Inv t
Step-Inv (schedules s f thread_id) p v = schedules-Inv s f thread_id p.0 p.1 v
Step-Inv (schedules_func s g thread_id) p v = schedules_func-Inv s g thread_id v
Step-Inv (takes sched before after me r e) p v = takes-Inv sched before after me r e v
Step-Inv (starts sched before after me f t r tf e) p v =
    starts-Inv sched before after me f t r tf e v
Step-Inv (starts_func sched before after me g f fresh t n tf tg e) p v =
    starts_func-Inv sched before after me g f fresh t n tf e p v
Step-Inv (yields_ready sched before after me f state e) p v =
    yields_ready-Inv sched before after me f state p e v
Step-Inv (ends sched before after me f x runs over) p v = ends-Inv sched before after me f x over v
Step-Inv (settles sched before after me f own) p v = settles-Inv sched before after me f v
Step-Inv (settles_func sched before after me f r own e) p v =
    settles_func-Inv sched before after me (record me { cb_fiber = r.0; in_func = false }) f r e v
Step-Inv (comes_back sched before after me f) p v = comes_back-Inv sched before after me f v
Step-Inv (asks_stop s) p v = asks_stop-Inv s v

Reach-Inv : {s t : System} → Inv s → (r : Reach s t) → PoliteRun r → Inv t
Reach-Inv v here p = v
Reach-Inv v (next r st) p = Step-Inv st p.1 (Reach-Inv v r p.0)

-- The threads of a new scheduler.
abbrev pub waiting : List ℕ → List Thread
waiting [] = []
waiting (me ∷ ids) = (record { id = me; cb_fiber = none; in_func = false }, looking) ∷ waiting ids

abbrev pub new_system : (ℕ → FiberState) → Bool → List ℕ → System
new_system state auto_stop ids = record {
  sched = record {
    fibers = [];
    state = state;
    active_thread_count = 0;
    stopping_asked = false;
    auto_stop = auto_stop;
  };
  threads = waiting ids;
}

waiting-taken : (ids : List ℕ) (f : ℕ) → total_by (took_one f) (waiting ids) ≡ 0
waiting-taken [] f = refl
waiting-taken (me ∷ ids) f = omega (arith, waiting-taken ids f)

waiting-run_by : (ids : List ℕ) (f : ℕ) → total_by (inside_one f) (waiting ids) ≡ 0
waiting-run_by [] f = refl
waiting-run_by (me ∷ ids) f = omega (arith, waiting-run_by ids f)

waiting-busy : (ids : List ℕ) → total_by busy_one (waiting ids) ≡ 0
waiting-busy [] = refl
waiting-busy (me ∷ ids) = omega (arith, waiting-busy ids)

waiting-length : (ids : List ℕ) → total_by (λ x. 1) (waiting ids) ≡ length ids
waiting-length [] = refl
waiting-length (me ∷ ids) = omega (arith, waiting-length ids)

new-Inv :
    (state : ℕ → FiberState) (auto_stop : Bool) (ids : List ℕ)
    → ((f : ℕ) → is_exec (state f) ≡ false)
    → length ids < 2 ^ 64
    → Inv (new_system state auto_stop ids)
new-Inv state auto_stop ids still few = record {
  fine = λ f. record {
    once = omega (arith, waiting-taken ids f);
    alone = omega (arith, waiting-run_by ids f);
    exec_run = λ h. absurd (cc (still f));
    taken_free = λ h k. waiting-run_by ids f;
    run_state = λ h k. absurd (omega (arith, waiting-run_by ids f));
  };
  counted = sym (waiting-busy ids);
  room = omega (arith, waiting-length ids);
  tasks = tt;
}

abbrev pub at_rest : Phase → Bool
at_rest looking = true
at_rest (back f) = true
at_rest _ = false

module _ (state : ℕ → FiberState) (auto_stop : Bool) (ids : List ℕ)
    (still : (f : ℕ) → is_exec (state f) ≡ false) (few : length ids < 2 ^ 64) (s : System)
    (r : Reach (new_system state auto_stop ids) s) (polite : PoliteRun r) where
  -- Whatever the threads of a new scheduler do, with fibers and functions, no two are inside one
  -- fiber, and no fiber waits twice, in the queue and with the threads that took it; as long as
  -- nobody schedules a fiber that waits already or that has yielded to READY and not come back, no
  -- fiber yields to READY that was scheduled while it ran, and the fiber in which a thread starts a
  -- function is neither scheduled nor run by anybody.
  pub Reach-alone : (f : ℕ) → (run_by s f ≤ 1) × (queued s f + taken s f ≤ 1)
  Reach-alone f =
      let v = (Reach-Inv (new-Inv state auto_stop ids still few) r polite).fine f in
      (v.alone, v.once)

Reach-Counted : {s t : System} → Counted s → Reach s t → Counted t
Reach-Counted v here = v
Reach-Counted v (next r st) = Step-Counted st (Reach-Counted v r)

new-Counted :
    (state : ℕ → FiberState) (auto_stop : Bool) (ids : List ℕ)
    → length ids < 2 ^ 64
    → Counted (new_system state auto_stop ids)
new-Counted state auto_stop ids few = record {
  count = sym (waiting-busy ids);
  room = omega (arith, waiting-length ids, few);
  tasks = tt;
}

-- In every state that fewer than 2 ^ 64 threads of a new scheduler can reach with fibers and
-- functions, however fibers are scheduled and yield, when `stopping` says that the scheduler may
-- stop, `stop` was called, no task waits, and no thread has taken a task or is inside a fiber: it
-- looks for work, or has come back. For the count of active threads is then exact.
pub Reach-stopping :
    (state : ℕ → FiberState) (auto_stop : Bool) (ids : List ℕ)
    → length ids < 2 ^ 64
    → (s : System) → Reach (new_system state auto_stop ids) s
    → stopping s.sched ≡ true
    → (s.sched.stopping_asked ≡ true)
      × (s.sched.fibers ≡ [])
      × All (λ x. at_rest x.1 ≡ true) s.threads
Reach-stopping state auto_stop ids few s r h =
    let v = Reach-Counted (new-Counted state auto_stop ids few) r in
    (
      ground arith,
      no_tasks s.sched.fibers (ground arith),
      all_looking s.threads (ground (arith, v.count)),
    )
  where
    no_tasks : (q : List FiberAndFunc) → empty q ≡ true → q ≡ []
    no_tasks [] h = refl
    no_tasks (t ∷ q) h = cc

    all_looking : (xs : List Thread) → total_by busy_one xs ≡ 0 → All (λ x. at_rest x.1 ≡ true) xs
    all_looking [] h = tt
    all_looking ((me, looking) ∷ xs) h = (refl, all_looking xs (omega arith))
    all_looking ((me, back f) ∷ xs) h = (refl, all_looking xs (omega arith))
    all_looking ((me, took t) ∷ xs) h = absurd (omega arith)
    all_looking ((me, inside f) ∷ xs) h = absurd (omega arith)

-- In every state that the threads of a new scheduler can reach with fibers and functions, a thread
-- that has taken a fiber can start it: `swapIn` does not fail its assertion, and if the fiber is
-- switched to, no thread was inside it. The conditions are that nobody has scheduled a fiber that
-- waited already or that had yielded to READY and not come back, that no fiber has yielded to READY
-- that was scheduled while it ran, and that the fiber in which a thread started a function was
-- neither scheduled nor run by anybody.
pub Reach-start :
    (state : ℕ → FiberState) (auto_stop : Bool) (ids : List ℕ)
    → ((f : ℕ) → is_exec (state f) ≡ false)
    → length ids < 2 ^ 64
    → (sched : Scheduler) (before after : List Thread) (me : Owner) (f : ℕ) (t : FiberAndFunc)
    → t.fiber ≡ some f
    → (r : Reach (new_system state auto_stop ids) (at_phase sched before after me (took t)))
    → PoliteRun r
    → (r : Bool × Scheduler) × (start_fiber sched f ≡ ok r)
      × (r.0 ≡ true
          → (run_by (at_phase sched before after me (took t)) f ≡ 0) × (r.1.state f ≡ exec))
unfolding start_fiber swap_in
Reach-start state auto_stop ids still few sched before after me f t tf r polite =
    let v = (Reach-Inv (new-Inv state auto_stop ids still few) r polite).fine f in
    let waits : 1 ≤ taken (at_phase sched before after me (took t)) f =
      omega (arith, taken-put sched before after me (took t) f, one_task) in
    elim (Bool-cases (is_over (sched.state f))) [
      | inl over ↦ rw over (_, refl, λ h. absurd (cc))
      | inr lives ↦
          let free = v.taken_free waits lives in
          let still_now : is_exec (sched.state f) ≡ false = not_exec _ _ _ _ lives (
            Fine-eq {t' = 1 + (taken (at_phase sched before after me (took t)) f - 1)} refl refl
              (omega arith) refl v) in
          rw (lives, still_now) (_, refl, λ h. (free, ground arith))
    ]
  where
    one_task : of_task f t ≡ 1
    one_task = rw tf (equals f)

eq_self : (f : ℕ) → (f == f) ≡ true
eq_self f = ground arith

-- A thread that comes back from a fiber counts itself out before it sees to the fiber. So there is a
-- state that a new scheduler with at least one thread can reach, for any fiber that is not run and
-- not over, in which `stopping` says that the scheduler may stop, and the fiber, which yielded to
-- READY, is not over and not yet in the queue again.
pub Reach-stopping_early :
    (state : ℕ → FiberState) (auto_stop : Bool) (me : ℕ) (ids : List ℕ) (f : ℕ)
    → is_exec (state f) ≡ false
    → is_over (state f) ≡ false
    → (s : System) × Reach (new_system state auto_stop (me ∷ ids)) s
      × (stopping s.sched ≡ true)
      × (s.sched.state f ≡ ready)
      × (queued s f ≡ 0)
      × (run_by s f ≡ 1)
unfolding take_task pick start_fiber swap_in yield_to_ready schedule schedule_no_lock count_out
    ask_stop
Reach-stopping_early state auto_stop me ids f still lives =
    let you : Owner = record { id = me; cb_fiber = none; in_func = false } in
    let s1 : Scheduler =
      (schedule (new_system state auto_stop (me ∷ ids)).sched (fiber_task f none)).0 in
    let s2 : Scheduler = record s1 { fibers = []; active_thread_count = 1 } in
    let s3 : Scheduler = record s2 { state = set_state state f exec } in
    let s4 : Scheduler = record s3 { state = set_state (set_state state f exec) f ready } in
    (
      at_phase (ask_stop (count_out s4)) [] (waiting ids) you (back f),
      next
          (next
            (next
              (next
                (next (next here (schedules (new_system state auto_stop (me ∷ ids)) f none)) (
                  takes s1 [] (waiting ids) you (some (fiber_task f none), s2, false)
                    (rw still refl)))
                (starts s2 [] (waiting ids) you f (fiber_task f none) (true, s3) refl
                  (rw (lives, still) refl)))
              (yields_ready s3 [] (waiting ids) you f s4.state (rw (eq_self f) refl)))
            (comes_back s4 [] (waiting ids) you f))
          (asks_stop (at_phase (count_out s4) [] (waiting ids) you (back f))),
      refl,
      rw (eq_self f) refl,
      refl,
      omega (arith, waiting-run_by ids f, equals f),
    )

-- If one fiber is put into the queue twice, two threads can take it one after the other, before
-- either of them switches to it: then the first that starts it does switch, and the second fails the
-- assertion of `swapIn`.
pub take_task_twice :
    (s : Scheduler) (q : List FiberAndFunc) (a b f : ℕ)
    → is_exec (s.state f) ≡ false
    → is_over (s.state f) ≡ false
    → (x y z : Scheduler) × (m n : Bool) × (take_task
          (record s { fibers = fiber_task f none ∷ fiber_task f none ∷ q })
          a
        ≡ ok (some (fiber_task f none), x, m))
      × (take_task x b ≡ ok (some (fiber_task f none), y, n))
      × (start_fiber y f ≡ ok (true, z))
      × (start_fiber z f ≡ err assert_failed)
unfolding take_task pick start_fiber swap_in
take_task_twice s q a b f still lives =
    let n : ℕ = (s.active_thread_count + 1) % 2 ^ 64 in
    let x : Scheduler = record s { fibers = fiber_task f none ∷ q; active_thread_count = n } in
    let y : Scheduler = record s { fibers = q; active_thread_count = (n + 1) % 2 ^ 64 } in
    let z : Scheduler = record y { state = set_state s.state f exec } in
    (
      x,
      y,
      z,
      true,
      not (empty q),
      rw still refl,
      rw still refl,
      rw (lives, still) refl,
      rw (eq_self f) refl,
    )
