-- ===== src/IoManager/Round.antt =====
-- src/iomanager.cpp: one round of `idle`, up to `swapOut`. What happens while the thread waits for
-- epoll, on this thread and on others, is the argument `epoll_wait`.
use mnser.Common.{
  ℕ, zero, suc, ◌+◌, ◌%◌, ◌^◌, List, [], ◌∷◌, ◌++◌, Bool, true, false, if◌then◌else◌,
}
use mnser.Common.{Option, none, some, Error, Result, ok, err}
use mnser.Timer.{TimerManager, get_next_timer, list_expired_cb}
use mnser.IoManager.{
  EpollEvent, Task, run_func, Epoll, IoManager, clamp_timeout, wait_timeout, stopping,
  handle_events,
}
pub mod Ran
mod Tests

-- What a thread in `idle` reads and writes. `now` is the clock, `fresh` an address that is free for
-- the timer that only carries the time, and `os` the rest.
pub record Loop (Kernel Os : Type 0) : Type 0 where
  pub io : IoManager Kernel
  pub timers : TimerManager
  pub now : ℕ
  pub fresh : ℕ
  pub os : Os

-- What `epoll_wait` returns: events, -1 with EINTR, or -1 with another error.
pub data Polled : Type 0 where
  reported : List (Option ℕ × EpollEvent) → Polled
  interrupted : Polled
  poll_failed : Polled

-- How a round ends: the loop is left, or the thread switches out of `idle`; `running` stands for a
-- wait that has used up its fuel.
pub data Round (Kernel Os : Type 0) : Type 0 where
  running : Round Kernel Os
  fault : Error → Round Kernel Os
  left_loop : Loop Kernel Os → Round Kernel Os
  swapped_out : Loop Kernel Os → Round Kernel Os

-- The events that the loop of `idle` goes through.
abbrev pub events_of : Polled → List (Option ℕ × EpollEvent)
events_of (reported es) = es
events_of interrupted = []
events_of poll_failed = []

-- The callbacks as tasks of a scheduler, which passes by an empty function.
unfoldable pub func_tasks : ℕ → List (Option ℕ) → List (ℕ × Task)
func_tasks s [] = []
func_tasks s (none ∷ cbs) = func_tasks s cbs
func_tasks s (some f ∷ cbs) = (s, run_func f) ∷ func_tasks s cbs

-- `schedule(cbs.begin(), cbs.end())`.
unfoldable pub schedule_all :
    {Kernel : Type 0} → ℕ → List (Option ℕ) → IoManager Kernel → IoManager Kernel
schedule_all self cbs m = record m { scheduled = m.scheduled ++ func_tasks self cbs }

module _ (E : Epoll) {Os : Type 0}
    (epoll_wait : ℕ → Loop E.Kernel Os → Polled × Loop E.Kernel Os) where
  -- The loop around `epoll_wait`.
  unfoldable pub wait_events : ℕ → ℕ → Loop E.Kernel Os → Option (Polled × Loop E.Kernel Os)
  wait_events zero next_timeout l = none
  wait_events (suc fuel) next_timeout l =
      let r = epoll_wait (wait_timeout next_timeout) l in
      let again = wait_events fuel (clamp_timeout next_timeout) r.1 in
      elim r.0 [ interrupted ↦ again | reported es ↦ some r | poll_failed ↦ some r ]

  -- From the return of `epoll_wait` on; `self` is the manager's number as a scheduler.
  unfoldable pub run_expired : ℕ → Loop E.Kernel Os → IoManager E.Kernel × TimerManager
  run_expired self l =
      let (cbs, timers) = list_expired_cb l.timers l.fresh l.now in
      (schedule_all self cbs l.io, timers)

  unfoldable pub after_wait : ℕ → Polled × Loop E.Kernel Os → Round E.Kernel Os
  after_wait self r =
      let (io, timers) = run_expired self r.1 in
      elim (handle_events E io (events_of r.0)) [
        | err e ↦ fault e
        | ok m ↦ swapped_out (record r.1 { io = m; timers = timers })
      ]

  -- `idle` from the top of its loop; `scheduler_stopping` is what `Scheduler::stopping` returns.
  unfoldable pub idle_round : ℕ → ℕ → Bool → Loop E.Kernel Os → Round E.Kernel Os
  idle_round fuel self scheduler_stopping l =
      let (next_timeout, timers) = get_next_timer l.timers l.now in
      let l' = record l { timers = timers } in
      if stopping l.io next_timeout scheduler_stopping
      then left_loop l'
      else elim (wait_events fuel next_timeout l') [ none ↦ running | some r ↦ after_wait self r ]
