-- ===== src/Timer/Tests.antt =====
-- Timers at concrete times, and the theorems applied to them.
use mnser.Common.{ℕ, [], ◌∷◌, true, false, not, ◌&&◌, ◌||◌}
use mnser.Common.{◌≡◌, refl, arith, ◌==◌, none, some, ok}
use mnser.Timer.{
  Timer, TimerManager, update, earlier, set_insert, insert_timer, add_timer, cancel,
  detect_clock_rollover, skip_due, lower_bound, expire, fire, list_expired_cb,
}
use mnser.Timer.Order.{mem}
use mnser.Timer.Invariant.{Inv, add_timer-Inv, cancel_lem}
use mnser.Timer.Expired.{overdue, Ran, list_expired_cb_lem}

-- Timer 1 is due at 50, the recurring timer 2 at 30.
abbrev one_shot : Timer
one_shot = record { recurring = false; ms = 50; next = 50; cb = some 7 }

abbrev every_thirty : Timer
every_thirty = record { recurring = true; ms = 30; next = 30; cb = some 8 }

abbrev spent : Timer
spent = record { recurring = false; ms = 0; next = 0; cb = none }

abbrev store : ℕ → Timer
store = update (update (λ a. spent) 1 one_shot) 2 every_thirty

abbrev two_timers : TimerManager
two_timers = record { obj = store; timers = 2 ∷ 1 ∷ []; tickled = false; previous_time = 0 }

two_timers-Inv : Inv two_timers
unfolding earlier
two_timers-Inv = record { sorted = ((refl, tt), (tt, tt)); armed = λ a. ground arith }

-- A callback at 30 puts the recurring timer behind the other.
rotated : (list_expired_cb two_timers 9 30).1.timers ≡ 1 ∷ 2 ∷ []
unfolding list_expired_cb detect_clock_rollover expire lower_bound skip_due fire set_insert earlier
rotated = refl

all_run : (list_expired_cb two_timers 9 55).0 ≡ some 8 ∷ some 7 ∷ []
unfolding list_expired_cb detect_clock_rollover expire lower_bound skip_due fire set_insert earlier
all_run = refl

front : (add_timer two_timers 3 10 (some 9) false 5).0.timers ≡ 3 ∷ 2 ∷ 1 ∷ []
unfolding add_timer insert_timer set_insert earlier
front = refl

add_timer-Inv_example :
    Inv (add_timer two_timers 3 10 (some 9) false 5).0
    × ((b : ℕ)
        → mem b (add_timer two_timers 3 10 (some 9) false 5).0.timers
          ≡ (b == 3 || mem b (2 ∷ 1 ∷ [])))
add_timer-Inv_example = add_timer-Inv two_timers 3 10 9 false 5 two_timers-Inv refl

cancel_example :
    (n : TimerManager) × (cancel two_timers 1 ≡ ok (true, n))
    × Inv n
    × ((b : ℕ) → mem b n.timers ≡ (not (b == 1) && mem b (2 ∷ 1 ∷ [])))
    × ((b : ℕ) → n.obj b ≡ update store 1 (record one_shot { cb = none }) b)
cancel_example = cancel_lem two_timers 1 two_timers-Inv

list_expired_cb_example :
    Ran two_timers 30 (overdue two_timers 30) (list_expired_cb two_timers 9 30)
list_expired_cb_example = list_expired_cb_lem two_timers 9 30 two_timers-Inv refl (omega arith)
