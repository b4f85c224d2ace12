-- ===== src/Scheduler/Safety.antt =====
-- What holds in every state that the threads can reach, and the steps that move a task.
use mnser.Common.{
  ℕ, ◌+◌, ◌%◌, ◌^◌, ◌≤◌, ◌<◌, List, [], ◌∷◌, ◌++◌, Bool, true, false, Option, none, some, ◌==◌,
  ==_iff, if◌then◌else◌,
}
use mnser.Common.{ap, ◌≡◌, refl, arith, ok, Option-cases, inl, inr, is_some}
use mnser.Scheduler.{
  FiberState, is_exec, FiberAndFunc, Scheduler, schedule, schedule_no_lock, take_task, set_state,
  is_task,
}
use mnser.Scheduler.Settled.{is_ready}
use mnser.Scheduler.Queue.{AllTasks, take_task_lem, Picked, nothing_to_take, eligible}
use mnser.Scheduler.Queue.{took as took_first}
use mnser.Scheduler.Fine.{Fine, Fine-eq, Fine-schedule, Fine-takes, each}
use mnser.Scheduler.System.{
  Phase, looking, took, inside, back, Thread, Owner, System, total_by, total_by-append, if_same,
  of_task, took_one, inside_one, busy_one, queued, taken, run_by, busy, fiber_task, after_take,
}

-- The count of active threads is that of the threads that are not looking.
pub record Inv (s : System) : Type 0 where
  pub fine : (f : ℕ) → Fine (s.sched.state f) (queued s f) (taken s f) (run_by s f)
  pub counted : s.sched.active_thread_count ≡ busy s
  pub room : total_by (λ x. 1) s.threads < 2 ^ 64
  pub tasks : AllTasks s.sched.fibers

pub total_by-put {ℓ} :
    {A : Type ℓ} (g : A → ℕ) (before : List A) (x : A) (after : List A)
    → total_by g (before ++ x ∷ after) ≡ total_by g before + (g x + total_by g after)
total_by-put g before x after = total_by-append g before (x ∷ after)

pub busy-le : (xs : List Thread) → total_by busy_one xs ≤ total_by (λ x. 1) xs
busy-le [] = omega arith
busy-le ((me, looking) ∷ xs) = omega (arith, busy-le xs)
busy-le ((me, took t) ∷ xs) = omega (arith, busy-le xs)
busy-le ((me, inside f) ∷ xs) = omega (arith, busy-le xs)
busy-le ((me, back f) ∷ xs) = omega (arith, busy-le xs)

-- A thread changes its phase, and the counts with it.
module _ (sched : Scheduler) (before after : List Thread) (me : Owner) where
  abbrev pub at_phase : Phase → System
  at_phase p = record { sched = sched; threads = before ++ (me, p) ∷ after }

  pub taken-put :
      (p : Phase) (f : ℕ)
      → taken (at_phase p) f
        ≡ total_by (took_one f) before + (took_one f (me, p) + total_by (took_one f) after)
  taken-put p f = total_by-put (took_one f) before (me, p) after

  pub run_by-put :
      (p : Phase) (f : ℕ)
      → run_by (at_phase p) f
        ≡ total_by (inside_one f) before + (inside_one f (me, p) + total_by (inside_one f) after)
  run_by-put p f = total_by-put (inside_one f) before (me, p) after

  pub busy-put :
      (p : Phase)
      → busy (at_phase p) ≡ total_by busy_one before + (busy_one (me, p) + total_by busy_one after)
  busy-put p = total_by-put busy_one before (me, p) after

  pub room-put :
      (p q : Phase)
      → total_by (λ x. 1) (at_phase p).threads < 2 ^ 64
      → total_by (λ x. 1) (at_phase q).threads < 2 ^ 64
  room-put p q h = omega (
    arith,
    total_by-put (λ (x : Thread). 1) before (me, p) after,
    total_by-put (λ (x : Thread). 1) before (me, q) after,
  )

pub same_state : (state : ℕ → FiberState) (f : ℕ) (x : FiberState) → set_state state f x f ≡ x
same_state state f x = ground arith

pub AllTasks-append :
    (q : List FiberAndFunc) (t : FiberAndFunc)
    → AllTasks q
    → is_task t ≡ true
    → AllTasks (q ++ t ∷ [])
AllTasks-append [] t h k = (k, tt)
AllTasks-append (x ∷ q) t h k = (h.0, AllTasks-append q t h.1 k)

queued-schedule :
    (s : System) (f g : ℕ) (thread_id : Option ℕ)
    → queued (record s { sched = (schedule s.sched (fiber_task f thread_id)).0 }) g
      ≡ queued s g + if_same f g
unfolding schedule schedule_no_lock
queued-schedule s f g thread_id =
    omega (arith, total_by-append (of_task g) s.sched.fibers (fiber_task f thread_id ∷ []))

pub differs : (f g : ℕ) → (g == f) ≡ false → if_same f g ≡ 0
differs f g h = ground arith

pub equals : (f : ℕ) → if_same f f ≡ 1
equals f = ground arith

pub schedules-Inv :
    (s : System) (f : ℕ) (thread_id : Option ℕ)
    → queued s f + taken s f ≡ 0
    → (1 ≤ run_by s f → is_ready (s.sched.state f) ≡ false)
    → Inv s
    → Inv (record s { sched = (schedule s.sched (fiber_task f thread_id)).0 })
unfolding schedule schedule_no_lock
schedules-Inv s f thread_id free not_ready v = record {
  fine =
      each _ f
        (Fine-eq refl (omega (arith, queued-schedule s f f thread_id, equals f)) refl refl (
          Fine-schedule (s.sched.state f) (queued s f) (taken s f) (run_by s f) free not_ready
            (v.fine f)))
        (λ g other.
          Fine-eq refl (omega (arith, queued-schedule s f g thread_id, differs f g other)) refl refl
            (v.fine g));
  counted = v.counted;
  room = v.room;
  tasks = AllTasks-append s.sched.fibers (fiber_task f thread_id) v.tasks refl;
}

free_task :
    (state : ℕ → FiberState) (me g : ℕ) (t : FiberAndFunc)
    → eligible state me t ≡ true
    → 1 ≤ of_task g t
    → is_exec (state g) ≡ false
free_task state me g t el h = elim (Option-cases t.fiber) [
  | inl e ↦ absurd (omega (arith, ap (task_at g) e))
  | inr (f, e) ↦ ground (arith, el, ap (task_at g) e, ap (exec_at state) e, ==_iff g f)
]
  where
    task_at : ℕ → Option ℕ → ℕ
    task_at g o = elim o [ none ↦ 0 | some k ↦ if_same k g ]

    exec_at : (ℕ → FiberState) → Option ℕ → Bool
    exec_at state o = elim o [ none ↦ false | some k ↦ is_exec (state k) ]

pub takes-Inv :
    (sched : Scheduler) (before after : List Thread) (me : Owner)
    (r : Option FiberAndFunc × Scheduler × Bool)
    → take_task sched me.id ≡ ok r
    → Inv (at_phase sched before after me looking)
    → Inv (at_phase r.1 before after me (after_take r.0))
takes-Inv sched before after me r e v =
    let (p, picked, tasks, e') = take_task_lem sched me.id v.tasks in
    let same : r ≡ (p.0, took_of p, p.2) = cc in rw same (go p picked tasks)
  where
    took_of : Option FiberAndFunc × List FiberAndFunc × Bool → Scheduler
    took_of p = record sched {
      fibers = p.1;
      active_thread_count =
          if is_some p.0
          then (sched.active_thread_count + 1) % 2 ^ 64
          else sched.active_thread_count;
    }

    go :
        (p : Option FiberAndFunc × List FiberAndFunc × Bool)
        → Picked sched.state me.id sched.fibers p
        → AllTasks p.1
        → Inv (at_phase (took_of p) before after me (after_take p.0))
    go p (nothing_to_take all) tasks = record {
      fine = v.fine;
      counted = v.counted;
      room = v.room;
      tasks = v.tasks;
    }
    go p (took_first xs t ys q all el) tasks = record {
      fine = λ g.
          Fine-eq refl refl
            (omega (
              arith,
              taken-put sched before after me looking g,
              taken-put sched before after me (took t) g,
            ))
            (omega (
              arith,
              run_by-put sched before after me looking g,
              run_by-put sched before after me (took t) g,
            ))
            (Fine-takes (sched.state g) (of_task g t) (total_by (of_task g) (xs ++ ys))
              (taken (at_phase sched before after me looking) g)
              (run_by (at_phase sched before after me looking) g)
              (free_task sched.state me.id g t el)
              (Fine-eq refl
                (omega (
                  arith,
                  ap (total_by (of_task g)) q,
                  total_by-append (of_task g) xs ys,
                  total_by-put (of_task g) xs t ys,
                ))
                refl refl (v.fine g)));
      counted = omega (
        arith,
        v.counted,
        v.room,
        busy-put sched before after me looking,
        busy-put sched before after me (took t),
        room-put sched before after me looking (took t) v.room,
        busy-le (before ++ (me, took t) ∷ after),
      );
      room = room-put sched before after me looking (took t) v.room;
      tasks = tasks;
    }
