-- ===== src/Scheduler/Settling.antt =====
-- A fiber that its thread puts away leaves the order of the threads as it should be.
use mnser.Common.{ℕ, ◌+◌, List, [], ◌∷◌, ◌++◌, Bool, false, Option, none, some, ok, subst, ◌==◌}
use mnser.Common.{ap, sym, ◌≡◌, refl, arith}
use mnser.Scheduler.{
  FiberState, init, hold, exec, term, ready, except, is_exec, FiberAndFunc, Scheduler, schedule,
  schedule_no_lock, put_back, put_back_func, is_resettable, empty, set_state,
}
use mnser.Scheduler.Fine.{Fine, Fine-eq, Fine-over, Fine-rest, Fine-again}
use mnser.Scheduler.System.{
  looking, back, Thread, Owner, total_by-append, of_task, inside_one, queued, taken, run_by, busy,
  fiber_task,
}
use mnser.Scheduler.Safety.{
  at_phase, Inv, taken-put, run_by-put, busy-put, same_state, AllTasks-append, differs, equals,
}
use mnser.Scheduler.Starting.{moves-Inv}
use mnser.Scheduler.Settled.{reset_fiber_lem}

module _ (sched : Scheduler) (before after : List Thread) (me : Owner) (f : ℕ)
    (v : Inv (at_phase sched before after me (back f))) where
  count : sched.active_thread_count ≡ busy (at_phase sched before after me looking)
  count = omega (
    arith,
    v.counted,
    busy-put sched before after me (back f),
    busy-put sched before after me looking,
  )

  came_back :
      Fine
        (sched.state f)
        (queued (at_phase sched before after me looking) f)
        (taken (at_phase sched before after me looking) f)
        (1 + run_by (at_phase sched before after me looking) f)
  came_back =
      Fine-eq refl refl
        (omega (
          arith,
          taken-put sched before after me (back f) f,
          taken-put sched before after me looking f,
        ))
        (omega (
          arith,
          run_by-put sched before after me (back f) f,
          run_by-put sched before after me looking f,
          equals f,
        ))
        (v.fine f)

  others :
      (state : ℕ → FiberState) (x : FiberState) (g : ℕ)
      → (g == f) ≡ false
      → (set_state state f x g ≡ state g) × (inside_one g (me, looking) ≡ inside_one g (me, back f))
  others state x g other = (rw other refl, sym (differs f g other))

  -- The fiber is left in a state other than EXEC.
  rests :
      (y : FiberState)
      → is_exec y ≡ false
      → Inv (at_phase (record sched { state = set_state sched.state f y }) before after me looking)
  rests y h =
      moves-Inv sched (record sched { state = set_state sched.state f y }) before after me f
        (back f) looking v
        (Fine-eq (same_state sched.state f y) refl refl refl
          (Fine-rest (sched.state f) y _ _ _ h came_back))
        (λ g other.
          ((others sched.state y g other).0, refl, refl, (others sched.state y g other).1))
        count v.tasks

  is_done : is_exec (sched.state f) ≡ false → Inv (at_phase sched before after me looking)
  is_done h =
      moves-Inv sched sched before after me f (back f) looking v (Fine-over _ _ _ _ h came_back)
        (λ g other. (refl, refl, refl, (others sched.state hold g other).1)) count v.tasks

  again :
      sched.state f ≡ ready
      → Inv (
          at_phase
            (record sched { fibers = sched.fibers ++ fiber_task f none ∷ [] })
            before
            after
            me
            looking)
  again e =
      let q : List FiberAndFunc = sched.fibers ++ fiber_task f none ∷ [] in
      let n : Scheduler = record sched { fibers = q } in
      moves-Inv sched n before after me f (back f) looking v
        (Fine-eq e
          (omega
            (arith, total_by-append (of_task f) sched.fibers (fiber_task f none ∷ []), equals f))
          refl refl (Fine-again _ _ _ (Fine-eq (sym e) refl refl refl came_back)))
        (λ g other. (
          refl,
          omega (
            arith,
            total_by-append (of_task g) sched.fibers (fiber_task f none ∷ []),
            differs f g other,
          ),
          refl,
          (others sched.state hold g other).1,
        ))
        count (AllTasks-append sched.fibers (fiber_task f none) v.tasks refl)

  pub settles-Inv : Inv (at_phase (put_back sched f).0 before after me looking)
  unfolding put_back schedule schedule_no_lock
  settles-Inv = go (sched.state f) refl
    where
      go :
          (x : FiberState)
          → sched.state f ≡ x
          → Inv (at_phase (put_back sched f).0 before after me looking)
      go init e = rw (e, put_back) (rests hold refl)
      go hold e = rw (e, put_back) (rests hold refl)
      go exec e = rw (e, put_back) (rests hold refl)
      go ready e = rw (e, put_back) (again e)
      go term e = rw (e, put_back) (is_done (ap is_exec e))
      go except e = rw (e, put_back) (is_done (ap is_exec e))

  pub settles_func-Inv :
      (r : Option ℕ × Scheduler × Bool)
      → put_back_func sched f ≡ ok r
      → Inv (at_phase r.1 before after me looking)
  unfolding put_back_func schedule schedule_no_lock
  settles_func-Inv r eq = go (sched.state f) refl
    where
      at_rest : FiberState → Scheduler
      at_rest y = record sched { state = set_state sched.state f y }

      waits : Scheduler
      waits = record sched { fibers = sched.fibers ++ fiber_task f none ∷ [] }

      left :
          (x : Option ℕ × Scheduler × Bool)
          → put_back_func sched f ≡ ok x
          → Inv (at_phase x.1 before after me looking)
          → Inv (at_phase r.1 before after me looking)
      left x e i =
          let same : x ≡ r = cc in subst (λ z. Inv (at_phase z.1 before after me looking)) same i

      go : (x : FiberState) → sched.state f ≡ x → Inv (at_phase r.1 before after me looking)
      go init e = left (none, at_rest hold, false) (rw (e, put_back_func) refl) (rests hold refl)
      go hold e = left (none, at_rest hold, false) (rw (e, put_back_func) refl) (rests hold refl)
      go exec e = left (none, at_rest hold, false) (rw (e, put_back_func) refl) (rests hold refl)
      go ready e = left (none, waits, empty sched.fibers) (rw (e, put_back_func) refl) (again e)
      go term e =
          left (some f, at_rest init, false)
            (rw (e, put_back_func, reset_fiber_lem sched.state f (ap is_resettable e)) refl)
            (rests init refl)
      go except e =
          left (some f, at_rest init, false)
            (rw (e, put_back_func, reset_fiber_lem sched.state f (ap is_resettable e)) refl)
            (rests init refl)
