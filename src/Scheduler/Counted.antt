-- ===== src/Scheduler/Counted.antt =====
-- The count of active threads is exact, however fibers are used.
use mnser.Common.{
  ℕ, ◌+◌, ◌%◌, ◌^◌, ◌<◌, List, [], ◌∷◌, ◌++◌, Bool, true, false, Option, none, some, is_some,
  if◌then◌else◌,
}
use mnser.Common.{ap, ◌≡◌, refl, arith, ok, sub_size, Bool-cases, inl, inr, subst}
use mnser.Scheduler.{
  FiberState, init, hold, exec, term, ready, except, is_exec, is_over, is_resettable, FiberAndFunc,
  Scheduler, schedule, schedule_no_lock, take_task, start_fiber, swap_in, count_out, put_back,
  put_back_func, start_func, set_state, empty, ask_stop,
}
use mnser.Scheduler.Queue.{AllTasks, take_task_lem}
use mnser.Scheduler.Settled.{reset_fiber_lem}
use mnser.Scheduler.System.{
  Phase, looking, took, inside, back, Thread, Owner, System, total_by, busy_one, busy, after_take,
  after_start, fiber_task, func_task, Step, schedules, schedules_func, takes, starts, starts_func,
  yields_ready, ends, comes_back, settles, settles_func, asks_stop,
}
use mnser.Scheduler.Safety.{at_phase, busy-le, total_by-put, AllTasks-append}
use mnser.Scheduler.Functions.{started}

pub record Counted (s : System) : Type 0 where
  pub count : s.sched.active_thread_count ≡ busy s
  pub room : total_by (λ x. 1) s.threads < 2 ^ 64
  pub tasks : AllTasks s.sched.fibers

-- A thread goes on, and the count with it; `rest` are the other threads that are active.
goes_on :
    (sched n : Scheduler) (before after : List Thread) (me you : Owner) (p q : Phase)
    → Counted (at_phase sched before after me p)
    → ((rest : ℕ)
        → sched.active_thread_count ≡ rest + busy_one (me, p)
        → rest + 1 < 2 ^ 64
        → n.active_thread_count ≡ rest + busy_one (you, q))
    → AllTasks n.fibers
    → Counted (at_phase n before after you q)
goes_on sched n before after me you p q v change tasks =
    let was = total_by-put busy_one before (me, p) after in
    let is = total_by-put busy_one before (you, q) after in
    let long = total_by-put (λ (x : Thread). 1) before (me, p) after in
    let rest : ℕ = total_by busy_one before + total_by busy_one after in
    record {
      count = omega (
        arith,
        is,
        change rest (omega (arith, v.count, was))
            (omega (arith, v.room, long, busy-le before, busy-le after)),
      );
      room = omega (arith, v.room, long, total_by-put (λ (x : Thread). 1) before (you, q) after);
      tasks = tasks;
    }

module _ (sched : Scheduler) (before after : List Thread) (me : Owner) where
  takes-Counted :
      (r : Option FiberAndFunc × Scheduler × Bool)
      → take_task sched me.id ≡ ok r
      → Counted (at_phase sched before after me looking)
      → Counted (at_phase r.1 before after me (after_take r.0))
  takes-Counted r e v =
      let (p, picked, tasks, e') = take_task_lem sched me.id v.tasks in
      let same : (p.0, took_of p, p.2) ≡ r = cc in
      subst (λ x. Counted (at_phase x.1 before after me (after_take x.0))) same (go p tasks)
    where
      took_of : Option FiberAndFunc × List FiberAndFunc × Bool → Scheduler
      took_of p = record sched {
        fibers = p.1;
        active_thread_count =
            if is_some p.0
            then (sched.active_thread_count + 1) % 2 ^ 64
            else sched.active_thread_count;
      }

      go :
          (p : Option FiberAndFunc × List FiberAndFunc × Bool)
          → AllTasks p.1
          → Counted (at_phase (took_of p) before after me (after_take p.0))
      go (none, q, b) tasks =
          goes_on sched (took_of (none, q, b)) before after me me looking looking v (λ rest h k. h)
            tasks
      go (some t, q, b) tasks =
          goes_on sched (took_of (some t, q, b)) before after me me looking (took t) v
            (λ rest h k. omega (arith, h, k)) tasks

  starts-Counted :
      (f : ℕ) (t : FiberAndFunc) (r : Bool × Scheduler)
      → start_fiber sched f ≡ ok r
      → Counted (at_phase sched before after me (took t))
      → Counted (at_phase r.1 before after me (after_start r.0 f))
  unfolding start_fiber swap_in
  starts-Counted f t r e v = elim (Bool-cases (is_over (sched.state f))) [
    | inl over ↦
        let gone : Scheduler = record sched {
          active_thread_count = sub_size sched.active_thread_count 1;
        } in
        let same : (false, gone) ≡ r = ground (arith, over, e) in
        subst (λ x. Counted (at_phase x.1 before after me (after_start x.0 f))) same
          (goes_on sched gone before after me me (took t) looking v
            (λ rest h k. omega (arith, h, k)) v.tasks)
    | inr lives ↦ elim (Bool-cases (is_exec (sched.state f))) [
      | inl runs ↦ absurd (ground (arith, lives, runs, e))
      | inr still ↦
          let in_it : Scheduler = record sched { state = set_state sched.state f exec } in
          let same : (true, in_it) ≡ r = ground (arith, lives, still, e) in
          subst (λ x. Counted (at_phase x.1 before after me (after_start x.0 f))) same
            (goes_on sched in_it before after me me (took t) (inside f) v (λ rest h k. h) v.tasks)
    ]
  ]

  starts_func-Counted :
      (f fresh : ℕ) (t : FiberAndFunc) (n : Scheduler) (you : Owner)
      → start_func sched me.cb_fiber fresh ≡ ok (f, n)
      → Counted (at_phase sched before after me (took t))
      → Counted (at_phase n before after you (inside f))
  starts_func-Counted f fresh t n you e v =
      rw (started sched me.cb_fiber fresh f n e)
        (goes_on sched _ before after me you (took t) (inside f) v (λ rest h k. h) v.tasks)

  yields_ready-Counted :
      (f : ℕ) (state : ℕ → FiberState)
      → Counted (at_phase sched before after me (inside f))
      → Counted (at_phase (record sched { state = state }) before after me (inside f))
  yields_ready-Counted f state v = record { count = v.count; room = v.room; tasks = v.tasks }

  comes_back-Counted :
      (f : ℕ)
      → Counted (at_phase sched before after me (inside f))
      → Counted (at_phase (count_out sched) before after me (back f))
  unfolding count_out
  comes_back-Counted f v =
      goes_on sched (count_out sched) before after me me (inside f) (back f) v
        (λ rest h k. omega (arith, h, k)) v.tasks

  -- A thread that puts its fiber away has been counted out already.
  settled-Counted :
      (f : ℕ) (n : Scheduler) (you : Owner)
      → n.active_thread_count ≡ sched.active_thread_count
      → AllTasks n.fibers
      → Counted (at_phase sched before after me (back f))
      → Counted (at_phase n before after you looking)
  settled-Counted f n you same tasks v =
      goes_on sched n before after me you (back f) looking v (λ rest h k. omega (arith, h, same))
        tasks

put_back-keeps :
    (s : Scheduler) (f : ℕ)
    → AllTasks s.fibers
    → ((put_back s f).0.active_thread_count ≡ s.active_thread_count)
      × AllTasks (put_back s f).0.fibers
unfolding put_back schedule schedule_no_lock
put_back-keeps s f v = go (s.state f) refl
  where
    go :
        (x : FiberState)
        → s.state f ≡ x
        → ((put_back s f).0.active_thread_count ≡ s.active_thread_count)
          × AllTasks (put_back s f).0.fibers
    go init e = rw (e, put_back) (refl, v)
    go hold e = rw (e, put_back) (refl, v)
    go exec e = rw (e, put_back) (refl, v)
    go ready e = rw (e, put_back) (refl, AllTasks-append s.fibers (fiber_task f none) v refl)
    go term e = rw (e, put_back) (refl, v)
    go except e = rw (e, put_back) (refl, v)

put_back_func-keeps :
    (s : Scheduler) (f : ℕ) (r : Option ℕ × Scheduler × Bool)
    → put_back_func s f ≡ ok r
    → AllTasks s.fibers
    → (r.1.active_thread_count ≡ s.active_thread_count) × AllTasks r.1.fibers
unfolding put_back_func schedule schedule_no_lock
put_back_func-keeps s f r eq v = go (s.state f) refl
  where
    left :
        (x : Option ℕ × Scheduler × Bool)
        → put_back_func s f ≡ ok x
        → (x.1.active_thread_count ≡ s.active_thread_count) × AllTasks x.1.fibers
        → (r.1.active_thread_count ≡ s.active_thread_count) × AllTasks r.1.fibers
    left x e i =
        let same : x ≡ r = cc in
        subst (λ z. (z.1.active_thread_count ≡ s.active_thread_count) × AllTasks z.1.fibers) same i

    at_rest : FiberState → Scheduler
    at_rest y = record s { state = set_state s.state f y }

    waits : Scheduler
    waits = record s { fibers = s.fibers ++ fiber_task f none ∷ [] }

    go :
        (x : FiberState)
        → s.state f ≡ x
        → (r.1.active_thread_count ≡ s.active_thread_count) × AllTasks r.1.fibers
    go init e = left (none, at_rest hold, false) (rw (e, put_back_func) refl) (refl, v)
    go hold e = left (none, at_rest hold, false) (rw (e, put_back_func) refl) (refl, v)
    go exec e = left (none, at_rest hold, false) (rw (e, put_back_func) refl) (refl, v)
    go ready e =
        left (none, waits, empty s.fibers) (rw (e, put_back_func) refl)
          (refl, AllTasks-append s.fibers (fiber_task f none) v refl)
    go term e =
        left (some f, at_rest init, false)
          (rw (e, put_back_func, reset_fiber_lem s.state f (ap is_resettable e)) refl) (refl, v)
    go except e =
        left (some f, at_rest init, false)
          (rw (e, put_back_func, reset_fiber_lem s.state f (ap is_resettable e)) refl) (refl, v)

pub Step-Counted : {s t : System} → Step s t → Counted s → Counted t
unfolding schedule schedule_no_lock ask_stop
Step-Counted (schedules s f thread_id) v = record {
  count = v.count;
  room = v.room;
  tasks = AllTasks-append s.sched.fibers (fiber_task f thread_id) v.tasks refl;
}
Step-Counted (schedules_func s g thread_id) v = record {
  count = v.count;
  room = v.room;
  tasks = AllTasks-append s.sched.fibers (func_task g thread_id) v.tasks refl;
}
Step-Counted (takes sched before after me r e) v = takes-Counted sched before after me r e v
Step-Counted (starts sched before after me f t r tf e) v =
    starts-Counted sched before after me f t r e v
Step-Counted (starts_func sched before after me g f fresh t n tf tg e) v =
    starts_func-Counted sched before after me f fresh t n
      (record me { cb_fiber = some f; in_func = true }) e v
Step-Counted (yields_ready sched before after me f state e) v =
    yields_ready-Counted sched before after me f state v
Step-Counted (ends sched before after me f x runs over) v =
    yields_ready-Counted sched before after me f (set_state sched.state f x) v
Step-Counted (comes_back sched before after me f) v = comes_back-Counted sched before after me f v
Step-Counted (settles sched before after me f own) v =
    let (same, tasks) = put_back-keeps sched f v.tasks in
    settled-Counted sched before after me f (put_back sched f).0 me same tasks v
Step-Counted (settles_func sched before after me f r own e) v =
    let (same, tasks) = put_back_func-keeps sched f r e v.tasks in
    settled-Counted sched before after me f r.1 (record me { cb_fiber = r.0; in_func = false }) same
      tasks v
Step-Counted (asks_stop s) v = record { count = v.count; room = v.room; tasks = v.tasks }
