-- ===== src/Scheduler/System.antt =====
-- The threads of a scheduler and the fibers that they run, as a step relation: a step is a part of
-- `Scheduler::run`, `Scheduler::stop` (src/scheduler.cpp) or of a yield (src/fiber.cpp). A thread
-- looks for work, has taken a task out of the queue, is inside a fiber, or has come back from it and
-- counted itself out, and has still to see to the fiber.
use mnser.Common.{
  ℕ, ◌+◌, ◌≤◌, List, [], ◌∷◌, ◌++◌, Bool, true, false, Option, none, some, ◌==◌, if◌then◌else◌,
}
use mnser.Common.{◌≡◌, arith, ok}
use mnser.Scheduler.{
  FiberState, is_exec, is_over, FiberAndFunc, Scheduler, schedule, take_task, start_fiber,
  count_out, put_back, put_back_func, start_func, ask_stop, set_state, yield_to_ready,
}
use mnser.Scheduler.Settled.{is_ready}

pub data Phase : Type 0 where
  looking : Phase
  took : FiberAndFunc → Phase
  inside : ℕ → Phase
  back : ℕ → Phase

-- A thread: its number, the fiber that it keeps for functions (`cb_fiber`), and whether the fiber
-- that it is inside of, or has come back from, is one that runs a function.
pub record Owner : Type 0 where
  pub id : ℕ
  pub cb_fiber : Option ℕ
  pub in_func : Bool

abbrev pub Thread : Type 0
Thread = Owner × Phase

pub record System : Type 0 where
  pub sched : Scheduler
  pub threads : List Thread

abbrev pub total_by {ℓ} : {A : Type ℓ} → (A → ℕ) → List A → ℕ
total_by g [] = 0
total_by g (x ∷ xs) = g x + total_by g xs

pub total_by-append {ℓ} :
    {A : Type ℓ} (g : A → ℕ) (xs ys : List A)
    → total_by g (xs ++ ys) ≡ total_by g xs + total_by g ys
total_by-append g [] ys = omega arith
total_by-append g (x ∷ xs) ys = omega (arith, total_by-append g xs ys)

abbrev pub if_same : ℕ → ℕ → ℕ
if_same g f = if g == f then 1 else 0

abbrev pub of_task : ℕ → FiberAndFunc → ℕ
of_task f t = elim t.fiber [ none ↦ 0 | some g ↦ if_same g f ]

abbrev pub took_one : ℕ → Thread → ℕ
took_one f x = elim x.1 [ looking ↦ 0 | took t ↦ of_task f t | inside g ↦ 0 | back g ↦ 0 ]

abbrev pub inside_one : ℕ → Thread → ℕ
inside_one f x = elim x.1 [
  | looking ↦ 0
  | took t ↦ 0
  | inside g ↦ if_same g f
  | back g ↦ if_same g f
]

abbrev pub busy_one : Thread → ℕ
busy_one x = elim x.1 [ looking ↦ 0 | took t ↦ 1 | inside g ↦ 1 | back g ↦ 0 ]

-- How often a fiber stands in the queue, is taken out and not started, and is run.
abbrev pub queued : System → ℕ → ℕ
queued s f = total_by (of_task f) s.sched.fibers

abbrev pub taken : System → ℕ → ℕ
taken s f = total_by (took_one f) s.threads

abbrev pub run_by : System → ℕ → ℕ
run_by s f = total_by (inside_one f) s.threads

abbrev pub busy : System → ℕ
busy s = total_by busy_one s.threads

abbrev pub fiber_task : ℕ → Option ℕ → FiberAndFunc
fiber_task f thread_id = record { fiber = some f; func = none; thread_id = thread_id }

abbrev pub after_take : Option FiberAndFunc → Phase
after_take none = looking
after_take (some t) = took t

abbrev pub after_start : Bool → ℕ → Phase
after_start true f = inside f
after_start false f = looking

abbrev pub func_task : ℕ → Option ℕ → FiberAndFunc
func_task g thread_id = record { fiber = none; func = some g; thread_id = thread_id }

-- What can happen. A function runs in a fiber of its own, in which it may yield and end as others do.
pub data Step : System → System → Type 0 where
  schedules :
      (s : System) (f : ℕ) (thread_id : Option ℕ)
      → Step s (record s { sched = (schedule s.sched (fiber_task f thread_id)).0 })
  schedules_func :
      (s : System) (g : ℕ) (thread_id : Option ℕ)
      → Step s (record s { sched = (schedule s.sched (func_task g thread_id)).0 })
  takes :
      (sched : Scheduler) (before after : List Thread) (me : Owner)
      (r : Option FiberAndFunc × Scheduler × Bool)
      → take_task sched me.id ≡ ok r
      → Step
          (record { sched = sched; threads = before ++ (me, looking) ∷ after })
          (record { sched = r.1; threads = before ++ (me, after_take r.0) ∷ after })
  starts :
      (sched : Scheduler) (before after : List Thread) (me : Owner) (f : ℕ) (t : FiberAndFunc)
      (r : Bool × Scheduler)
      → t.fiber ≡ some f
      → start_fiber sched f ≡ ok r
      → Step
          (record { sched = sched; threads = before ++ (me, took t) ∷ after })
          (record { sched = r.1; threads = before ++ (me, after_start r.0 f) ∷ after })
  starts_func :
      (sched : Scheduler) (before after : List Thread) (me : Owner) (g f fresh : ℕ)
      (t : FiberAndFunc) (n : Scheduler)
      → t.fiber ≡ none
      → t.func ≡ some g
      → start_func sched me.cb_fiber fresh ≡ ok (f, n)
      → Step
          (record { sched = sched; threads = before ++ (me, took t) ∷ after })
          (record {
            sched = n;
            threads = before ++ (record me { cb_fiber = some f; in_func = true }, inside f) ∷ after;
          })
  yields_ready :
      (sched : Scheduler) (before after : List Thread) (me : Owner) (f : ℕ) (state : ℕ → FiberState)
      → yield_to_ready sched.state f ≡ ok state
      → Step
          (record { sched = sched; threads = before ++ (me, inside f) ∷ after })
          (record {
            sched = record sched { state = state };
            threads = before ++ (me, inside f) ∷ after;
          })
  ends :
      (sched : Scheduler) (before after : List Thread) (me : Owner) (f : ℕ) (x : FiberState)
      → is_exec (sched.state f) ≡ true
      → is_over x ≡ true
      → Step
          (record { sched = sched; threads = before ++ (me, inside f) ∷ after })
          (record {
            sched = record sched { state = set_state sched.state f x };
            threads = before ++ (me, inside f) ∷ after;
          })
  comes_back :
      (sched : Scheduler) (before after : List Thread) (me : Owner) (f : ℕ)
      → Step
          (record { sched = sched; threads = before ++ (me, inside f) ∷ after })
          (record { sched = count_out sched; threads = before ++ (me, back f) ∷ after })
  settles :
      (sched : Scheduler) (before after : List Thread) (me : Owner) (f : ℕ)
      → me.in_func ≡ false
      → Step
          (record { sched = sched; threads = before ++ (me, back f) ∷ after })
          (record { sched = (put_back sched f).0; threads = before ++ (me, looking) ∷ after })
  settles_func :
      (sched : Scheduler) (before after : List Thread) (me : Owner) (f : ℕ)
      (r : Option ℕ × Scheduler × Bool)
      → me.in_func ≡ true
      → put_back_func sched f ≡ ok r
      → Step
          (record { sched = sched; threads = before ++ (me, back f) ∷ after })
          (record {
            sched = r.1;
            threads = before ++ (record me { cb_fiber = r.0; in_func = false }, looking) ∷ after;
          })
  asks_stop : (s : System) → Step s (record s { sched = ask_stop s.sched })

pub data Reach (s : System) : System → Type 0 where
  here : Reach s s
  next : {t u : System} → Reach s t → Step t u → Reach s u

-- The use of fibers that the scheduler relies on and does not check. Nobody schedules a fiber that
-- waits already, or that has yielded to READY and not come back; no fiber yields to READY that
-- somebody has scheduled while it ran; and the fiber in which a thread starts a function is nobody
-- else's: neither scheduled nor run.
abbrev pub Polite : {s t : System} → Step s t → Type 0
Polite (schedules s f thread_id) =
    (queued s f + taken s f ≡ 0) × (1 ≤ run_by s f → is_ready (s.sched.state f) ≡ false)
Polite (schedules_func s g thread_id) = Unit {0}
Polite (takes sched before after me r e) = Unit {0}
Polite (starts sched before after me f t r tf e) = Unit {0}
Polite (starts_func sched before after me g f fresh t n tf tg e) =
    let s : System = record { sched = sched; threads = before ++ (me, took t) ∷ after } in
    queued s f + taken s f + run_by s f ≡ 0
Polite (yields_ready sched before after me f state e) =
    let s : System = record { sched = sched; threads = before ++ (me, inside f) ∷ after } in
    queued s f + taken s f ≡ 0
Polite (ends sched before after me f x runs over) = Unit {0}
Polite (comes_back sched before after me f) = Unit {0}
Polite (settles sched before after me f own) = Unit {0}
Polite (settles_func sched before after me f r own e) = Unit {0}
Polite (asks_stop s) = Unit {0}

-- All steps of a run are such.
abbrev pub PoliteRun : {s t : System} → Reach s t → Type 0
PoliteRun here = Unit {0}
PoliteRun (next r st) = PoliteRun r × Polite st
