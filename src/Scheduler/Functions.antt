-- ===== src/Scheduler/Functions.antt =====
-- A function that a thread runs in a fiber of its own leaves the order of the threads as it should be.
use mnser.Common.{ℕ, ◌+◌, List, [], ◌∷◌, Bool, true, false, Option, none, some}
use mnser.Common.{ap, sym, ◌≡◌, refl, arith, ok, Bool-cases, inl, inr}
use mnser.Scheduler.{
  init, exec, is_exec, is_resettable, FiberAndFunc, Scheduler, schedule, schedule_no_lock,
  put_back_func, start_func, reset_fiber, swap_in, set_state,
}
use mnser.Scheduler.Fine.{Fine-eq, Fine-fresh}
use mnser.Scheduler.System.{
  Phase, looking, took, inside, back, Thread, Owner, System, total_by-append, of_task, queued,
  taken, run_by, func_task,
}
use mnser.Scheduler.Safety.{
  at_phase, Inv, taken-put, run_by-put, busy-put, same_state, AllTasks-append, differs, equals,
  total_by-put,
}
use mnser.Scheduler.Starting.{moves-Inv}
use mnser.Scheduler.Settling

-- What a thread keeps does not matter to the others.
renamed-Inv :
    (sched : Scheduler) (before after : List Thread) (me you : Owner) (p : Phase)
    → Inv (at_phase sched before after me p)
    → Inv (at_phase sched before after you p)
renamed-Inv sched before after me you p v = record {
  fine = λ f.
      Fine-eq refl refl
        (omega (arith, taken-put sched before after me p f, taken-put sched before after you p f))
        (omega (arith, run_by-put sched before after me p f, run_by-put sched before after you p f))
        (v.fine f);
  counted =
      omega (arith, v.counted, busy-put sched before after me p, busy-put sched before after you p);
  room = omega (
    arith,
    v.room,
    total_by-put (λ (x : Thread). 1) before (me, p) after,
    total_by-put (λ (x : Thread). 1) before (you, p) after,
  );
  tasks = v.tasks;
}

pub schedules_func-Inv :
    (s : System) (g : ℕ) (thread_id : Option ℕ)
    → Inv s
    → Inv (record s { sched = (schedule s.sched (func_task g thread_id)).0 })
unfolding schedule schedule_no_lock
schedules_func-Inv s g thread_id v = record {
  fine = λ f.
      Fine-eq refl
        (omega (arith, total_by-append (of_task f) s.sched.fibers (func_task g thread_id ∷ [])))
        refl refl (v.fine f);
  counted = v.counted;
  room = v.room;
  tasks = AllTasks-append s.sched.fibers (func_task g thread_id) v.tasks refl;
}

-- The fiber of a function is new, or was kept, and is EXEC from then on.
pub started :
    (s : Scheduler) (cb_fiber : Option ℕ) (fresh f : ℕ) (n : Scheduler)
    → start_func s cb_fiber fresh ≡ ok (f, n)
    → n ≡ record s { state = set_state (set_state s.state f init) f exec }
unfolding start_func reset_fiber swap_in
started s none fresh f n e =
    let new : is_exec (set_state s.state fresh init fresh) ≡ false =
      ap is_exec (same_state s.state fresh init) in
    let k = rw (start_func, new) at e in cc
started s (some g) fresh f n e = elim (Bool-cases (is_resettable (s.state g))) [
  | inl free ↦
      let new : is_exec (set_state s.state g init g) ≡ false =
        ap is_exec (same_state s.state g init) in
      let k = rw (start_func, free, new) at e in cc
  | inr held ↦ let k = rw (start_func, held) at e in cc
]

pub starts_func-Inv :
    (sched : Scheduler) (before after : List Thread) (me : Owner) (g f fresh : ℕ) (t : FiberAndFunc)
    (n : Scheduler)
    → t.fiber ≡ none
    → start_func sched me.cb_fiber fresh ≡ ok (f, n)
    → queued (at_phase sched before after me (took t)) f
        + taken (at_phase sched before after me (took t)) f
        + run_by (at_phase sched before after me (took t)) f
      ≡ 0
    → Inv (at_phase sched before after me (took t))
    → Inv (at_phase n before after (record me { cb_fiber = some f; in_func = true }) (inside f))
starts_func-Inv sched before after me g f fresh t n tf e free v =
    let in_it : Scheduler = record sched {
      state = set_state (set_state sched.state f init) f exec;
    } in
    let is_it : n ≡ in_it = started sched me.cb_fiber fresh f n e in
    rw is_it (
      renamed-Inv in_it before after me (record me { cb_fiber = some f; in_func = true }) (inside f)
        (moves-Inv sched in_it before after me f (took t) (inside f) v
          (Fine-eq (same_state (set_state sched.state f init) f exec) refl
            (omega (
              arith,
              taken-put sched before after me (took t) f,
              taken-put sched before after me (inside f) f,
              no_task f,
            ))
            (omega (
              arith,
              run_by-put sched before after me (took t) f,
              run_by-put sched before after me (inside f) f,
              equals f,
            ))
            (Fine-fresh _ _ _ _ free (v.fine f)))
          (λ h other. (rw other refl, refl, sym (no_task h), differs f h other))
          (omega (
            arith,
            v.counted,
            busy-put sched before after me (took t),
            busy-put in_it before after me (inside f),
          ))
          v.tasks))
  where
    no_task : (h : ℕ) → of_task h t ≡ 0
    no_task h = rw tf refl

pub settles_func-Inv :
    (sched : Scheduler) (before after : List Thread) (me you : Owner) (f : ℕ)
    (r : Option ℕ × Scheduler × Bool)
    → put_back_func sched f ≡ ok r
    → Inv (at_phase sched before after me (back f))
    → Inv (at_phase r.1 before after you looking)
settles_func-Inv sched before after me you f r e v =
    renamed-Inv r.1 before after me you looking
      (Settling.settles_func-Inv sched before after me f v r e)
