-- ===== src/Scheduler/Settled.antt =====
-- A task that comes back from the switch, and the fiber in which a thread runs functions.
use mnser.Common.{
  ℕ, [], ◌∷◌, ◌++◌, Bool, true, false, not, if◌then◌else◌, Option, none, some, sub_size,
}
use mnser.Common.{◌≡◌, refl, ap, sym, arith, Bool-cases, inl, inr, ok, append-nil}
use mnser.Scheduler.{
  FiberState, init, hold, exec, term, ready, except, is_exec, is_over, is_resettable, Scheduler,
  schedule, schedule_no_lock, set_state, settle_fiber, count_out, put_back, reset_fiber, swap_in,
  start_func, settle_func, put_back_func, in_use, start_fiber,
}

abbrev pub is_ready : FiberState → Bool
is_ready ready = true
is_ready _ = false

abbrev pub is_init : FiberState → Bool
is_init init = true
is_init _ = false

-- The fiber that a thread keeps for functions is ready to be used again.
abbrev pub Reusable : Scheduler → Option ℕ → Type 0
Reusable s none = Unit {0}
Reusable s (some f) = s.state f ≡ init

set_state-same : (state : ℕ → FiberState) (f : ℕ) (x : FiberState) → set_state state f x f ≡ x
set_state-same state f x = ground arith

-- However a fiber comes back, the thread counts itself out and leaves it so that a thread can run
-- it again or nobody will: never in the state EXEC, and in the queue again exactly if it is READY.
pub settle_fiber_lem :
    (s : Scheduler) (f : ℕ)
    → let r = (settle_fiber s f).0 in
      (is_exec (r.state f) ≡ false)
      × (r.active_thread_count ≡ sub_size s.active_thread_count 1)
      × (r.fibers
          ≡ s.fibers
            ++ (if is_ready (s.state f)
                then record { fiber = some f; func = none; thread_id = none } ∷ []
                else []))
unfolding settle_fiber count_out put_back schedule schedule_no_lock
settle_fiber_lem s f = go (s.state f) refl
  where
    go :
        (x : FiberState)
        → s.state f ≡ x
        → let r = (settle_fiber s f).0 in
          (is_exec (r.state f) ≡ false)
          × (r.active_thread_count ≡ sub_size s.active_thread_count 1)
          × (r.fibers
              ≡ s.fibers
                ++ (if is_ready (s.state f)
                    then record { fiber = some f; func = none; thread_id = none } ∷ []
                    else []))
    go init e =
        rw (e, put_back)
          (ap is_exec (set_state-same s.state f hold), refl, sym (append-nil s.fibers))
    go hold e =
        rw (e, put_back)
          (ap is_exec (set_state-same s.state f hold), refl, sym (append-nil s.fibers))
    go exec e =
        rw (e, put_back)
          (ap is_exec (set_state-same s.state f hold), refl, sym (append-nil s.fibers))
    go term e = rw (e, put_back) (ap is_exec e, refl, sym (append-nil s.fibers))
    go ready e = rw (e, put_back) (ap is_exec e, refl, refl)
    go except e = rw (e, put_back) (ap is_exec e, refl, sym (append-nil s.fibers))

pub reset_fiber_lem :
    (state : ℕ → FiberState) (f : ℕ)
    → is_resettable (state f) ≡ true
    → reset_fiber state f ≡ ok (set_state state f init)
unfolding reset_fiber
reset_fiber_lem state f h = rw h refl

swap_in_lem :
    (state : ℕ → FiberState) (f : ℕ)
    → is_exec (state f) ≡ false
    → swap_in state f ≡ ok (set_state state f exec)
unfolding swap_in
swap_in_lem state f h = rw h refl

-- A thread that took a fiber which nobody runs never fails the assertion of `swapIn`: it switches to
-- the fiber, or counts itself out again if the fiber is over.
pub start_fiber_lem :
    (s : Scheduler) (f : ℕ)
    → in_use s.state (record { fiber = some f; func = none; thread_id = none }) ≡ false
    → (n : Scheduler) × (start_fiber s f ≡ ok (not (is_over (s.state f)), n))
      × (n.state f ≡ (if is_over (s.state f) then s.state f else exec))
      × (n.active_thread_count ≡ (
          if is_over (s.state f) then sub_size s.active_thread_count 1 else s.active_thread_count))
unfolding start_fiber
start_fiber_lem s f h = elim (Bool-cases (is_over (s.state f))) [
  | inl over ↦ rw over (_, refl, refl, refl)
  | inr lives ↦ rw (lives, swap_in_lem s.state f h) (_, refl, set_state-same s.state f exec, refl)
]

-- A thread can always start a function, if the fiber that it keeps is ready: neither `reset` nor
-- `swapIn` fails its assertion, and the function's fiber is in the state EXEC.
pub start_func_lem :
    (s : Scheduler) (cb_fiber : Option ℕ) (fresh : ℕ)
    → Reusable s cb_fiber
    → (r : ℕ × Scheduler) × (start_func s cb_fiber fresh ≡ ok r) × (r.1.state r.0 ≡ exec)
unfolding start_func
start_func_lem s none fresh h =
    let made = set_state s.state fresh init in
    rw (swap_in_lem made fresh (ap is_exec (set_state-same s.state fresh init)))
      (_, refl, set_state-same made fresh exec)
start_func_lem s (some f) fresh h =
    let again = set_state s.state f init in
    rw
      (
        reset_fiber_lem s.state f (ap is_resettable h),
        swap_in_lem again f (ap is_exec (set_state-same s.state f init)),
      )
      (_, refl, set_state-same again f exec)

-- However a function's fiber comes back, no assertion fails, it is not left in the state EXEC, and
-- a fiber that the thread keeps is ready for the next function.
pub settle_func_lem :
    (s : Scheduler) (f : ℕ)
    → (r : Option ℕ × Scheduler × Bool) × (settle_func s f ≡ ok r)
      × Reusable r.1 r.0
      × (is_exec (r.1.state f) ≡ false)
unfolding settle_func put_back_func count_out schedule schedule_no_lock
settle_func_lem s f = go (s.state f) refl
  where
    held : is_exec (set_state s.state f hold f) ≡ false
    held = ap is_exec (set_state-same s.state f hold)

    clean : set_state s.state f init f ≡ init
    clean = set_state-same s.state f init

    go :
        (x : FiberState)
        → s.state f ≡ x
        → (r : Option ℕ × Scheduler × Bool) × (settle_func s f ≡ ok r)
          × Reusable r.1 r.0
          × (is_exec (r.1.state f) ≡ false)
    go init e = rw (e, put_back_func) (_, refl, tt, held)
    go hold e = rw (e, put_back_func) (_, refl, tt, held)
    go exec e = rw (e, put_back_func) (_, refl, tt, held)
    go ready e = rw (e, put_back_func) (_, refl, tt, ap is_exec e)
    go term e =
        rw (e, put_back_func, reset_fiber_lem s.state f (ap is_resettable e))
          (_, refl, clean, ap is_exec clean)
    go except e =
        rw (e, put_back_func, reset_fiber_lem s.state f (ap is_resettable e))
          (_, refl, clean, ap is_exec clean)
