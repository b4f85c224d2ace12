-- ===== src/Hook/Sleeping.antt =====
-- src/hook.cpp: `sleep`, `usleep` and `nanosleep`, which wait for a timer. A timer of `addTimer`
-- with the callback `wake` schedules the fiber.
use mnser.Common.{ℕ, ◌+◌, ◌-◌, ◌*◌, ◌/◌, ◌%◌, ◌^◌, Bool, true, false, not, some, ltb, if◌then◌else◌}
use mnser.Timer.{add_timer}
use mnser.Hook.{World, IoResult, returned, Outcome, done}
pub mod Woken

-- `seconds * 1000`, on 32 bits without a sign.
unfoldable pub sleep_ms : ℕ → ℕ
sleep_ms seconds = seconds * 1000 % 2 ^ 32

unfoldable pub usleep_ms : ℕ → ℕ
usleep_ms usec = usec / 1000

-- The `int` of `nanosleep`, as the 64 bits without a sign of `addTimer`.
unfoldable pub nanosleep_ms : ℕ → ℕ → ℕ
nanosleep_ms tv_sec tv_nsec =
    let timeout_ms : ℕ = (tv_sec * 1000 + tv_nsec / 1000 / 1000) % 2 ^ 32 in
    if ltb timeout_ms (2 ^ 31) then timeout_ms else 2 ^ 64 - 2 ^ 32 + timeout_ms

module _ {Kernel Os : Type 0} where
  -- The fiber's timer, at the time of the call.
  unfoldable pub asleep : ℕ → ℕ → World Kernel Os → World Kernel Os
  asleep wake ms w = record w {
    timers = (add_timer w.timers w.fresh ms (some wake) false w.now).0;
    fresh = w.fresh + 1;
  }

  -- The three calls, by their milliseconds; `fun` is the original function.
  unfoldable pub sleep_for :
      (World Kernel Os → World Kernel Os)
      → Bool
      → (Os → IoResult × Os)
      → ℕ
      → ℕ
      → World Kernel Os
      → Outcome Kernel Os
  sleep_for others hook_enabled fun wake ms w =
      if not hook_enabled
      then (let r = fun w.os in done r.0 (record w { os = r.1 }))
      else done (returned 0) (others (asleep wake ms w))
