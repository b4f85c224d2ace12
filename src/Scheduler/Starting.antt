-- ===== src/Scheduler/Starting.antt =====
-- A task that a thread starts leaves the order of the threads as it should be.
use mnser.Common.{ℕ, ◌+◌, List, ◌∷◌, ◌++◌, Bool, true, false, some, ◌==◌}
use mnser.Common.{sym, ◌≡◌, refl, arith, ok, sub_size, Bool-cases, inl, inr}
use mnser.Scheduler.{
  exec, is_exec, is_over, FiberAndFunc, Scheduler, start_fiber, set_state, swap_in,
}
use mnser.Scheduler.Queue.{AllTasks}
use mnser.Scheduler.Fine.{Fine, Fine-eq, Fine-skip, Fine-start, each, not_exec}
use mnser.Scheduler.System.{
  Phase, looking, took, inside, Thread, Owner, total_by, of_task, took_one, inside_one, busy_one,
  queued, taken, run_by, busy, after_start,
}
use mnser.Scheduler.Safety.{
  at_phase, Inv, busy-le, taken-put, run_by-put, busy-put, room-put, same_state, differs, equals,
}

-- A thread goes on from one phase to another, and changes what concerns one fiber.
pub moves-Inv :
    (sched sched' : Scheduler) (before after : List Thread) (me : Owner) (f : ℕ) (p p' : Phase)
    → Inv (at_phase sched before after me p)
    → Fine
        (sched'.state f)
        (queued (at_phase sched' before after me p') f)
        (taken (at_phase sched' before after me p') f)
        (run_by (at_phase sched' before after me p') f)
    → ((g : ℕ)
        → (g == f) ≡ false
        → (sched'.state g ≡ sched.state g)
          × (total_by (of_task g) sched'.fibers ≡ total_by (of_task g) sched.fibers)
          × (took_one g (me, p') ≡ took_one g (me, p))
          × (inside_one g (me, p') ≡ inside_one g (me, p)))
    → sched'.active_thread_count ≡ busy (at_phase sched' before after me p')
    → AllTasks sched'.fibers
    → Inv (at_phase sched' before after me p')
moves-Inv sched sched' before after me f p p' v this others count tasks = record {
  fine = each _ f this (λ g other.
      let (a, b, c, d) = others g other in
      Fine-eq a b
        (omega (arith, taken-put sched before after me p g, taken-put sched' before after me p' g))
        (omega
          (arith, run_by-put sched before after me p g, run_by-put sched' before after me p' g))
        (v.fine g));
  counted = count;
  room = room-put sched before after me p p' v.room;
  tasks = tasks;
}

-- The thread that comes back was counted.
pub counted_out :
    (sched sched' : Scheduler) (before after : List Thread) (me : Owner) (p : Phase)
    → busy_one (me, p) ≡ 1
    → Inv (at_phase sched before after me p)
    → sub_size sched.active_thread_count 1 ≡ busy (at_phase sched' before after me looking)
counted_out sched sched' before after me p one v = omega (
  arith,
  v.counted,
  v.room,
  busy-le (before ++ (me, p) ∷ after),
  busy-put sched before after me p,
  busy-put sched' before after me looking,
)

pub starts-Inv :
    (sched : Scheduler) (before after : List Thread) (me : Owner) (f : ℕ) (t : FiberAndFunc)
    (r : Bool × Scheduler)
    → t.fiber ≡ some f
    → start_fiber sched f ≡ ok r
    → Inv (at_phase sched before after me (took t))
    → Inv (at_phase r.1 before after me (after_start r.0 f))
unfolding start_fiber swap_in
starts-Inv sched before after me f t r tf e v =
    let was_taken =
      Fine-eq {t' = 1 + taken (at_phase sched before after me looking) f} refl refl
        (omega (
          arith,
          taken-put sched before after me (took t) f,
          one_task,
          taken-put sched before after me looking f,
        ))
        refl (v.fine f) in
    elim (Bool-cases (is_over (sched.state f))) [
      | inl over ↦
          let gone : Scheduler = record sched {
            active_thread_count = sub_size sched.active_thread_count 1;
          } in
          let done : r ≡ (false, gone) = ground arith in
          rw done (
            moves-Inv sched gone before after me f (took t) looking v
              (Fine-eq refl refl refl
                (omega (
                  arith,
                  run_by-put sched before after me (took t) f,
                  run_by-put sched before after me looking f,
                ))
                (Fine-skip _ _ _ _ over was_taken))
              (λ g other. (refl, refl, sym (no_task g other), refl))
              (counted_out sched gone before after me (took t) refl v) v.tasks)
      | inr lives ↦
          let not_exec : is_exec (sched.state f) ≡ false = not_exec _ _ _ _ lives was_taken in
          let in_it : Scheduler = record sched { state = set_state sched.state f exec } in
          let done : r ≡ (true, in_it) = ground arith in
          rw done (
            moves-Inv sched in_it before after me f (took t) (inside f) v
              (Fine-eq (same_state sched.state f exec) refl
                (omega (
                  arith,
                  taken-put sched before after me (inside f) f,
                  taken-put sched before after me looking f,
                ))
                (omega (
                  arith,
                  run_by-put sched before after me (took t) f,
                  run_by-put sched before after me (inside f) f,
                  equals f,
                ))
                (Fine-start _ _ _ _ lives was_taken))
              (λ g other. (rw other refl, refl, sym (no_task g other), differs f g other))
              (omega (
                arith,
                v.counted,
                busy-put sched before after me (took t),
                busy-put in_it before after me (inside f),
              ))
              v.tasks)
    ]
  where
    one_task : of_task f t ≡ 1
    one_task = rw tf (equals f)

    no_task : (g : ℕ) → (g == f) ≡ false → of_task g t ≡ 0
    no_task g other = rw tf (differs f g other)
