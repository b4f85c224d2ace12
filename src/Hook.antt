-- ===== src/Hook.antt =====
-- src/hook.cpp: the hooked calls. A call that would block waits on its fiber: for an event of its
-- descriptor, which the IoManager watches, and for a timer. The original functions are arguments.
-- What the thread runs between `YieldToHold` and the return to the fiber is `others`.
pub mod Waiting
pub mod Arriving
pub mod Retrying
pub mod Timeouts
pub mod Expired
pub mod Connecting
pub mod Sleeping
pub mod Descriptors
mod Tests
use mnser.Common.{ℕ, zero, suc, ◌+◌, ◌-◌, ◌*◌, ◌/◌, ◌%◌, ◌^◌, Bool, true, false, not, ◌||◌, ◌&&◌}
use mnser.Common.{Option, none, some, is_some, ◌==◌, if◌then◌else◌}
use mnser.Common.{Error, Result, ok, err, ◌>>=◌}
use mnser.FdManager.{FdCtx, FdManager, get_timeout, get_ctx}
use mnser.Timer.{TimerManager, add_timer}
use mnser.Timer
use mnser.IoManager.{Event, Events, Epoll, IoManager, add_event, cancel_event}

-- Of a call that returns -1, `failed` has `errno`, and `unarmed` leaves it as `epoll_ctl` set it.
pub data IoResult : Type 0 where
  returned : ℕ → IoResult
  failed : ℕ → IoResult
  unarmed : IoResult

abbrev pub eintr : ℕ
eintr = 4

abbrev pub ebadf : ℕ
ebadf = 9

abbrev pub eagain : ℕ
eagain = 11

abbrev pub etimedout : ℕ
etimedout = 110

abbrev pub einprogress : ℕ
einprogress = 115

abbrev pub failed_with : ℕ → IoResult → Bool
failed_with e (returned n) = false
failed_with e (failed k) = k == e
failed_with e unarmed = false

-- -1, whatever `errno`.
abbrev pub is_minus_one : IoResult → Bool
is_minus_one (returned n) = false
is_minus_one (failed k) = true
is_minus_one unarmed = true

-- What a call reads and writes. `fresh` is where the next timer is allocated, and `cancelled` the
-- field of the call's `timer_info`; `os` stands for descriptors and buffers.
pub record World (Kernel Os : Type 0) : Type 0 where
  pub io : IoManager Kernel
  pub timers : TimerManager
  pub fds : FdManager
  pub os : Os
  pub now : ℕ
  pub fresh : ℕ
  pub cancelled : ℕ

-- One call: its descriptor and event, the scheduler and fiber that it runs on, the callback that
-- it gives to its timers, and what `new` leaves in `curEvents` of a context.
pub record Call : Type 0 where
  pub fd : ℕ
  pub event : Event
  pub scheduler : ℕ
  pub fiber : ℕ
  pub on_timeout : ℕ
  pub junk : Events

-- What `connect` makes of the error of its socket.
abbrev pub connect_error : ℕ → IoResult
connect_error error = if error == 0 then returned 0 else failed error

-- How a wait ends: `addEvent` failed, `cancelled` was set to an error, or the event came.
pub data Waited : Type 0 where
  not_added : Waited
  timed_out : ℕ → Waited
  woken : Waited

-- How a call ends; `running` stands for a loop that has used up its fuel.
pub data Outcome (Kernel Os : Type 0) : Type 0 where
  running : Outcome Kernel Os
  fault : Error → Outcome Kernel Os
  done : IoResult → World Kernel Os → Outcome Kernel Os

abbrev pub after :
    {Kernel Os Next : Type 0} → Result Next → (Next → Outcome Kernel Os) → Outcome Kernel Os
after (err e) f = fault e
after (ok v) f = f v

module _ (E : Epoll) {Os : Type 0} (c : Call) where
  -- The condition timer of a call; -1 is no timeout.
  unfoldable pub start_timer : ℕ → World E.Kernel Os → Option ℕ × World E.Kernel Os
  start_timer to w = if to == 2 ^ 64 - 1 then (none, w) else (
    some w.fresh,
    record w {
      timers = (add_timer w.timers w.fresh to (some c.on_timeout) false w.now).0;
      fresh = w.fresh + 1;
    },
  )

  unfoldable pub stop_timer : Option ℕ → World E.Kernel Os → Result (World E.Kernel Os)
  stop_timer none w = ok w
  stop_timer (some a) w = Timer.cancel w.timers a >>= λ r. ok (record w { timers = r.1 })

  -- The callback of the timer: it sets the error and cancels the event.
  unfoldable pub timed_out_cb : World E.Kernel Os → Result (World E.Kernel Os)
  timed_out_cb w =
      if not (w.cancelled == 0)
      then ok w
      else (cancel_event E w.io c.fd c.event >>= λ r.
          ok (record w { io = r.1; cancelled = etimedout }))

  -- How the fiber finds `cancelled` when it goes on.
  abbrev pub waited : World E.Kernel Os → Waited
  waited w = if w.cancelled == 0 then woken else timed_out w.cancelled

  module _ (others : World E.Kernel Os → World E.Kernel Os) where
    -- From the start of the timer to the test of `cancelled`.
    unfoldable pub wait : ℕ → World E.Kernel Os → Result (Waited × World E.Kernel Os)
    wait to w =
        let (timer, w1) = start_timer to w in
        add_event E c.junk w1.io c.fd c.event none (some c.scheduler) c.fiber true >>= λ r.
        (if r.0
          then (let w2 = others (record w1 { io = r.1 }) in
              stop_timer timer w2 >>= λ w3. ok (waited w3, w3))
          else (stop_timer timer (record w1 { io = r.1 }) >>= λ w3. ok (not_added, w3)))

    module _ (fun : Os → IoResult × Os) where
      -- The call, and once more each time that a signal interrupts it.
      unfoldable pub uninterrupted : ℕ → Os → Option (IoResult × Os)
      uninterrupted zero os = none
      uninterrupted (suc fuel) os =
          let r = fun os in
          let rest = uninterrupted fuel r.1 in if failed_with eintr r.0 then rest else some r

      -- After a wait: return, or go back to `retry`.
      unfoldable pub go_on :
          Waited
          → World E.Kernel Os
          → (World E.Kernel Os → Outcome E.Kernel Os)
          → Outcome E.Kernel Os
      go_on not_added w again = done unarmed w
      go_on (timed_out e) w again = done (failed e) w
      go_on woken w again = again w

      -- From the label `retry` on.
      unfoldable pub retry : ℕ → ℕ → World E.Kernel Os → Outcome E.Kernel Os
      retry zero to w = running
      retry (suc fuel) to w = elim (uninterrupted (suc fuel) w.os) [
        | none ↦ running
        | some r ↦
            let w' = record w { os = r.1 } in
            if failed_with eagain r.0
            then after (wait to w') (λ x. go_on x.0 x.1 (retry fuel to))
            else done r.0 w'
      ]

      -- The original function, as it is.
      abbrev pub direct : World E.Kernel Os → Outcome E.Kernel Os
      direct w = let r = fun w.os in done r.0 (record w { os = r.1 })

      -- `do_io`; `receives` says whether the timeout is that of SO_RCVTIMEO.
      unfoldable pub do_io : Bool → Bool → ℕ → World E.Kernel Os → Outcome E.Kernel Os
      do_io hook_enabled receives fuel w =
          if not hook_enabled then direct w else elim (get_ctx w.fds (some c.fd) false 0 none).0 [
            | none ↦ direct w
            | some a ↦
                let ctx = w.fds.ctx a in
                if ctx.is_closed
                then done (failed ebadf) w
                else if not ctx.is_socket || ctx.user_nonblock
                then direct w
                else retry fuel (get_timeout ctx receives) (record w { cancelled = 0 })
          ]

      abbrev pub after_connect : World E.Kernel Os → (Os → IoResult × ℕ × Os) → Outcome E.Kernel Os
      after_connect w get_error =
          let s = get_error w.os in
          done (if is_minus_one s.0 then s.0 else connect_error s.1) (record w { os = s.2 })

      -- After the wait of a connection, which goes on also if `addEvent` failed.
      unfoldable pub connected :
          Waited → World E.Kernel Os → (Os → IoResult × ℕ × Os) → Outcome E.Kernel Os
      connected (timed_out e) w get_error = done (failed e) w
      connected not_added w get_error = after_connect w get_error
      connected woken w get_error = after_connect w get_error

      -- `connect_with_timeout`, where `fun` is `connect` and `get_error` is `getsockopt` of
      -- SO_ERROR, with the error that it writes.
      unfoldable pub connect_with_timeout :
          Bool → ℕ → (Os → IoResult × ℕ × Os) → World E.Kernel Os → Outcome E.Kernel Os
      connect_with_timeout hook_enabled timeout_ms get_error w =
          if not hook_enabled then direct w else elim (get_ctx w.fds (some c.fd) false 0 none).0 [
            | none ↦ done (failed ebadf) w
            | some a ↦
                let ctx = w.fds.ctx a in
                if ctx.is_closed
                then done (failed ebadf) w
                else if not ctx.is_socket || ctx.user_nonblock
                then direct w
                else (let r = fun w.os in
                    let w' = record w { os = r.1; cancelled = 0 } in
                    if not (failed_with einprogress r.0)
                    then done r.0 w'
                    else after (wait timeout_ms w') (λ x. connected x.0 x.1 get_error))
          ]
