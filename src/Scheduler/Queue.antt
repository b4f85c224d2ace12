-- ===== src/Scheduler/Queue.antt =====
-- The queue: what is put in and what a thread takes out.
use mnser.Common.{
  ℕ, ◌+◌, ◌%◌, ◌^◌, List, [], ◌∷◌, ◌++◌, Bool, true, false, not, ◌&&◌, ◌||◌, if◌then◌else◌, Option,
  none, some, is_some, All,
}
use mnser.Common.{subst, ◌≡◌, refl, ap, arith, Bool-cases, inl, inr, ok, append-nil, append_assoc}
use mnser.Scheduler.{
  FiberState, FiberAndFunc, Scheduler, is_task, empty, schedule_no_lock, schedule_range, foreign,
  in_use, pick, take_task,
}

abbrev pub tasks_only : List FiberAndFunc → List FiberAndFunc
tasks_only [] = []
tasks_only (t ∷ ts) = let rest = tasks_only ts in if is_task t then t ∷ rest else rest

and_false : (b : Bool) → (b && false) ≡ false
and_false b = ground arith

or_assoc : (a b c : Bool) → ((a || b) || c) ≡ (a || (b || c))
or_assoc a b c = ground arith

empty-append : (q : List FiberAndFunc) (t : FiberAndFunc) → empty (q ++ t ∷ []) ≡ false
empty-append [] t = refl
empty-append (x ∷ q) t = refl

absorbed : (a b : Bool) → (a || a && b) ≡ (a && true)
absorbed a b = ground arith

kept : (a b : Bool) → (a || false && b) ≡ (a && true)
kept a b = ground arith

-- `schedule` of a range puts the tasks that are not empty behind the queue, in their order, and asks
-- for `tickle` exactly if the queue was empty and the range is not.
pub schedule_range_lem :
    (q ts : List FiberAndFunc)
    → schedule_range q ts ≡ (q ++ tasks_only ts, empty q && not (empty ts))
unfolding schedule_range schedule_no_lock
schedule_range_lem q [] = rw (append-nil q, and_false (empty q)) refl
schedule_range_lem q (t ∷ ts) = elim (Bool-cases (is_task t)) [
  | inl real ↦
      rw
        (
          real,
          schedule_range_lem (q ++ t ∷ []) ts,
          append_assoc q (t ∷ []) (tasks_only ts),
          empty-append q t,
          kept (empty q) (not (empty ts)),
        )
        refl
  | inr void ↦ rw (void, schedule_range_lem q ts, absorbed (empty q) (not (empty ts))) refl
]

-- A thread may take a task that is not bound to another and whose fiber nobody runs.
abbrev pub eligible : (ℕ → FiberState) → ℕ → FiberAndFunc → Bool
eligible state me t = not (foreign me t) && not (in_use state t)

abbrev pub any_foreign : ℕ → List FiberAndFunc → Bool
any_foreign me [] = false
any_foreign me (t ∷ ts) = foreign me t || any_foreign me ts

pub data Picked (state : ℕ → FiberState) (me : ℕ) (q : List FiberAndFunc)
    : Option FiberAndFunc × List FiberAndFunc × Bool → Type 0 where
  took :
      (before : List FiberAndFunc) (t : FiberAndFunc) (after : List FiberAndFunc)
      → q ≡ before ++ t ∷ after
      → All (λ x. eligible state me x ≡ false) before
      → eligible state me t ≡ true
      → Picked state me q (some t, before ++ after, any_foreign me before || not (empty after))
  nothing_to_take :
      All (λ x. eligible state me x ≡ false) q → Picked state me q (none, q, any_foreign me q)

abbrev pub AllTasks : List FiberAndFunc → Type 0
AllTasks = All (λ t. is_task t ≡ true)

-- A task that is passed by.
passed :
    (state : ℕ → FiberState) (me : ℕ) (t : FiberAndFunc) (ts : List FiberAndFunc)
    (r : Option FiberAndFunc × List FiberAndFunc × Bool)
    → eligible state me t ≡ false
    → Picked state me ts r
    → Picked state me (t ∷ ts) (r.0, t ∷ r.1, foreign me t || r.2)
passed state me t ts r h (took before x after e all el) =
    subst (λ b. Picked state me (t ∷ ts) (some x, t ∷ (before ++ after), b))
      (or_assoc (foreign me t) (any_foreign me before) (not (empty after)))
      (took (t ∷ before) x after (ap (◌∷◌ t) e) (h, all) el)
passed state me t ts r h (nothing_to_take all) = nothing_to_take (h, all)

pub pick_lem :
    (state : ℕ → FiberState) (me : ℕ) (q : List FiberAndFunc)
    → AllTasks q
    → (r : Option FiberAndFunc × List FiberAndFunc × Bool) × (pick state me q ≡ ok r)
      × Picked state me q r
unfolding pick
pick_lem state me [] a = (_, refl, nothing_to_take tt)
pick_lem state me (t ∷ ts) a =
    let (r, e, p) = pick_lem state me ts a.1 in
    elim (Bool-cases (foreign me t)) [
      | inl far ↦
          rw (far, e)
            (
              _,
              refl,
              subst (λ b. Picked state me (t ∷ ts) (r.0, t ∷ r.1, b || r.2)) far
                  (passed state me t ts r (rw far refl) p),
            )
      | inr near ↦ elim (Bool-cases (in_use state t)) [
        | inl used ↦
            rw (near, a.0, used, e)
              (
                _,
                refl,
                subst (λ b. Picked state me (t ∷ ts) (r.0, t ∷ r.1, b || r.2)) near
                    (passed state me t ts r (rw (near, used) refl) p),
              )
        | inr free ↦ rw (near, a.0, free) (_, refl, took [] t ts refl tt (rw (near, free) refl))
      ]
    ]

Picked-AllTasks :
    (state : ℕ → FiberState) (me : ℕ) (q : List FiberAndFunc)
    (r : Option FiberAndFunc × List FiberAndFunc × Bool)
    → AllTasks q
    → Picked state me q r
    → AllTasks r.1
Picked-AllTasks state me q r a (took before t after e all el) =
    without_one before t after (subst AllTasks e a)
  where
    without_one :
        (xs : List FiberAndFunc) (y : FiberAndFunc) (ys : List FiberAndFunc)
        → AllTasks (xs ++ y ∷ ys)
        → AllTasks (xs ++ ys)
    without_one [] y ys h = h.1
    without_one (x ∷ xs) y ys h = (h.0, without_one xs y ys h.1)
Picked-AllTasks state me q r a (nothing_to_take all) = a

-- A thread that looks for work never meets an empty task, if there is none in the queue: it takes
-- the first task that is not bound to another thread and whose fiber no thread runs, leaves the
-- others in their order, counts itself as active exactly if it took one, and tells the others if it
-- passed a task bound to one of them or left any behind.
pub take_task_lem :
    (s : Scheduler) (me : ℕ)
    → AllTasks s.fibers
    → (r : Option FiberAndFunc × List FiberAndFunc × Bool) × Picked s.state me s.fibers r
      × AllTasks r.1
      × (take_task s me
          ≡ ok (
            r.0,
            record s {
              fibers = r.1;
              active_thread_count =
                  if is_some r.0
                  then (s.active_thread_count + 1) % 2 ^ 64
                  else s.active_thread_count;
            },
            r.2,
          ))
unfolding take_task
take_task_lem s me a =
    let (r, e, p) = pick_lem s.state me s.fibers a in
    (r, p, Picked-AllTasks s.state me s.fibers r a p, rw e refl)
