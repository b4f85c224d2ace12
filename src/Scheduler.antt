-- ===== src/Scheduler.antt =====
-- inc/scheduler.h, src/scheduler.cpp and the states of inc/fiber.h: the queue of tasks, how a
-- thread takes one, and what becomes of it when it comes back. Fibers and functions are numbers,
-- `state` is the store of the fibers' states. Running a task is not a step: `take_task` ends
-- before it, and `settle_fiber` starts from the state that it left the fiber in.
pub mod Queue
pub mod Settled
pub mod System
pub mod Fine
pub mod Safety
pub mod Starting
pub mod Returning
pub mod Settling
pub mod Functions
pub mod Counted
pub mod Reached
mod Tests
use mnser.Common.{
  ℕ, ◌+◌, ◌-◌, ◌%◌, ◌^◌, List, [], ◌∷◌, ◌++◌, Bool, true, false, not, ◌&&◌, ◌||◌, ◌==◌,
  if◌then◌else◌,
}
use mnser.Common.{
  sub_size, Option, none, some, is_some, Result, ok, err, assert_failed, ◌>>=◌, ◌>>◌, guard,
}

pub data FiberState : Type 0 where
  init hold exec term ready except : FiberState

abbrev pub is_exec : FiberState → Bool
is_exec exec = true
is_exec _ = false

abbrev pub is_over : FiberState → Bool
is_over term = true
is_over except = true
is_over _ = false

abbrev pub is_resettable : FiberState → Bool
is_resettable init = true
is_resettable term = true
is_resettable except = true
is_resettable _ = false

-- A thread of `none` is -1, any thread.
pub record FiberAndFunc : Type 0 where
  pub fiber : Option ℕ
  pub func : Option ℕ
  pub thread_id : Option ℕ

pub record Scheduler : Type 0 where
  pub fibers : List FiberAndFunc
  pub state : ℕ → FiberState
  pub active_thread_count : ℕ
  pub stopping_asked : Bool
  pub auto_stop : Bool

abbrev pub is_task : FiberAndFunc → Bool
is_task t = is_some t.fiber || is_some t.func

abbrev pub empty : List FiberAndFunc → Bool
empty [] = true
empty (t ∷ ts) = false

-- The queue, and whether to call `tickle`.
unfoldable pub schedule_no_lock : List FiberAndFunc → FiberAndFunc → List FiberAndFunc × Bool
schedule_no_lock q t = (if is_task t then q ++ t ∷ [] else q, empty q)

unfoldable pub schedule : Scheduler → FiberAndFunc → Scheduler × Bool
schedule s t =
    let (q, need_tickle) = schedule_no_lock s.fibers t in (record s { fibers = q }, need_tickle)

-- `schedule` of a range.
unfoldable pub schedule_range : List FiberAndFunc → List FiberAndFunc → List FiberAndFunc × Bool
schedule_range q [] = (q, false)
schedule_range q (t ∷ ts) =
    let (q', need_tickle) = schedule_no_lock q t in
    let rest = schedule_range q' ts in (rest.0, need_tickle || rest.1)

-- A task that is bound to another thread.
abbrev pub foreign : ℕ → FiberAndFunc → Bool
foreign me t = elim t.thread_id [ none ↦ false | some id ↦ not (id == me) ]

-- A fiber that another thread is running.
abbrev pub in_use : (ℕ → FiberState) → FiberAndFunc → Bool
in_use state t = elim t.fiber [ none ↦ false | some f ↦ is_exec (state f) ]

-- The loop over the queue: the task, the rest of the queue and `tickle_me`.
unfoldable pub pick :
    (ℕ → FiberState)
    → ℕ
    → List FiberAndFunc
    → Result (Option FiberAndFunc × List FiberAndFunc × Bool)
pick state me [] = ok (none, [], false)
pick state me (t ∷ ts) =
    let rest = pick state me ts in
    if foreign me t
    then (rest >>= λ r. ok (r.0, t ∷ r.1, true))
    else (guard (is_task t) assert_failed
        >> (if in_use state t
            then (rest >>= λ r. ok (r.0, t ∷ r.1, r.2))
            else ok (some t, ts, not (empty ts))))

-- The part of `run` under the lock.
unfoldable pub take_task : Scheduler → ℕ → Result (Option FiberAndFunc × Scheduler × Bool)
take_task s me = pick s.state me s.fibers >>= λ r. ok (
  r.0,
  record s {
    fibers = r.1;
    active_thread_count =
        if is_some r.0 then (s.active_thread_count + 1) % 2 ^ 64 else s.active_thread_count;
  },
  r.2,
)

abbrev pub set_state : (ℕ → FiberState) → ℕ → FiberState → ℕ → FiberState
set_state state f x g = if g == f then x else state g

-- What `run` does with a fiber that `swapIn` came back from: the thread counts itself out, and then
-- sees to the fiber; whether to call `tickle`.
unfoldable pub count_out : Scheduler → Scheduler
count_out s = record s { active_thread_count = sub_size s.active_thread_count 1 }

unfoldable pub put_back : Scheduler → ℕ → Scheduler × Bool
put_back s f = elim (s.state f) [
  | ready ↦ schedule s (record { fiber = some f; func = none; thread_id = none })
  | term ↦ (s, false)
  | except ↦ (s, false)
  | _ ↦ (record s { state = set_state s.state f hold }, false)
]

unfoldable pub settle_fiber : Scheduler → ℕ → Scheduler × Bool
settle_fiber s f = put_back (count_out s) f

-- `Fiber::reset`, of a fiber with a stack, and `Fiber::swapIn` up to the switch.
unfoldable pub reset_fiber : (ℕ → FiberState) → ℕ → Result (ℕ → FiberState)
reset_fiber state f = guard (is_resettable (state f)) assert_failed >> ok (set_state state f init)

unfoldable pub swap_in : (ℕ → FiberState) → ℕ → Result (ℕ → FiberState)
swap_in state f = guard (not (is_exec (state f))) assert_failed >> ok (set_state state f exec)

-- `Fiber::YieldToReady` and `Fiber::YieldToHold` of the running fiber, up to the switch; it is `run`
-- that sets HOLD.
unfoldable pub yield_to_ready : (ℕ → FiberState) → ℕ → Result (ℕ → FiberState)
yield_to_ready state f = guard (is_exec (state f)) assert_failed >> ok (set_state state f ready)

unfoldable pub yield_to_hold : (ℕ → FiberState) → ℕ → Result (ℕ → FiberState)
yield_to_hold state f = guard (is_exec (state f)) assert_failed >> ok state

-- `run` on a fiber that it took: up to the switch, or, where the fiber is over, past it to the next
-- round; the result says whether it is switched to.
unfoldable pub start_fiber : Scheduler → ℕ → Result (Bool × Scheduler)
start_fiber s f =
    if is_over (s.state f)
    then ok (false, record s { active_thread_count = sub_size s.active_thread_count 1 })
    else (swap_in s.state f >>= λ state. ok (true, record s { state = state }))

-- `run` on a function, up to the switch into the fiber that runs it: the thread's `cb_fiber` if it
-- has one, and else a new one, at the address `fresh`.
unfoldable pub start_func : Scheduler → Option ℕ → ℕ → Result (ℕ × Scheduler)
start_func s cb_fiber fresh = elim cb_fiber [
  | some f ↦ reset_fiber s.state f >>= λ state.
      swap_in state f >>= λ state'. ok (f, record s { state = state' })
  | none ↦ swap_in (set_state s.state fresh init) fresh >>= λ state'.
      ok (fresh, record s { state = state' })
]

-- What `run` does with that fiber when it comes back: the thread's `cb_fiber`, and whether to call
-- `tickle`.
unfoldable pub put_back_func : Scheduler → ℕ → Result (Option ℕ × Scheduler × Bool)
put_back_func s f = elim (s.state f) [
  | ready ↦
      let (n, tickle) = schedule s (record { fiber = some f; func = none; thread_id = none }) in
      ok (none, n, tickle)
  | term ↦ reset_fiber s.state f >>= λ state. ok (some f, record s { state = state }, false)
  | except ↦ reset_fiber s.state f >>= λ state. ok (some f, record s { state = state }, false)
  | _ ↦ ok (none, record s { state = set_state s.state f hold }, false)
]

unfoldable pub settle_func : Scheduler → ℕ → Result (Option ℕ × Scheduler × Bool)
settle_func s f = put_back_func (count_out s) f

-- What `stop` sets before it waits for the threads.
unfoldable pub ask_stop : Scheduler → Scheduler
ask_stop s = record s { auto_stop = true; stopping_asked = true }

abbrev pub stopping : Scheduler → Bool
stopping s = s.auto_stop && s.stopping_asked && empty s.fibers && s.active_thread_count == 0
