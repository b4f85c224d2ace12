-- ===== src/IoManager/Round/Tests.antt =====
-- A thread in `idle` with a timer that is due and a descriptor that can be read.
use mnser.Common.{
  ℕ, zero, suc, ◌+◌, ◌-◌, ◌^◌, ◌≤◌, ◌<◌, not, ◌&&◌, List, [], ◌∷◌, true, false, ◌≡◌, ◌⊎◌, refl,
  arith, ◌==◌, if◌then◌else◌, Option, none, some, get_elem?, Bool-cases, inl, inr, is_some,
}
use mnser.Timer.{
  TimerManager, update, get_next_timer, list_expired_cb, detect_clock_rollover, fire, expire,
  earlier, lower_bound, set_insert, skip_due,
}
use mnser.Timer.Order.{mem}
use mnser.IoManager.{
  blank, nothing, EpollEvent, FdContext, IoManager, Task, run_func, handle_events, handle_event,
  fire_if, fire_event, trigger_event, get_context, hand_over, wait_timeout, clamp_timeout,
}
use mnser.IoManager.Sample.{Interests, epoll}
use mnser.IoManager.Contexts.{Fits-blank}
use mnser.IoManager.Invariant.{cur_at, registered, Fine}
use mnser.IoManager.Willing.{Willing}
use mnser.IoManager.Handling.{Fresh}
use mnser.IoManager.Round.{
  Loop, Polled, reported, interrupted, Round, running, fault, left_loop, swapped_out, events_of,
  wait_events, idle_round, after_wait, run_expired, schedule_all, func_tasks,
}
use mnser.IoManager.Round.Ran.{Sound, Waits, Finished, idle_round_lem}

abbrev contexts : List FdContext
contexts =
    record { read = blank; write = blank; cur_events = nothing }
    ∷ record {
      read = record { scheduler = some 3; fiber = none; func = some 5 };
      write = blank;
      cur_events = record { reading = true; writing = false };
    }
    ∷ []

abbrev manager : IoManager Interests
manager = record {
  fd_contexts = contexts;
  pending_event_count = 1;
  kernel = λ g. registered (cur_at contexts g);
  tickle_fd = 9;
  scheduled = [];
}

fine : (fd : ℕ) → Fine (get_elem? contexts fd)
fine zero = record { read = Fits-blank; write = Fits-blank }
fine (suc zero) = record {
  read = record { scheduler = refl; one = refl; only = refl };
  write = Fits-blank;
}
fine (suc (suc fd)) = tt

-- Timer 1 is due at 150.
abbrev one_timer : TimerManager
one_timer = record {
  obj =
      update (λ a. record { recurring = false; ms = 0; next = 0; cb = none }) 1
        (record { recurring = false; ms = 50; next = 150; cb = some 7 });
  timers = 1 ∷ [];
  tickled = false;
  previous_time = 0;
}

-- Two signals come before epoll returns.
abbrev start : Loop Interests ℕ
start = record { io = manager; timers = one_timer; now = 100; fresh = 2; os = 2 }

-- Descriptor 1 can be read.
abbrev report : IoManager Interests → List (Option ℕ × EpollEvent)
report m =
    if is_some (get_elem? m.fd_contexts 1) && not (1 == m.tickle_fd)
    then (
      some 1,
      record { readable = (cur_at m.fd_contexts 1).reading; writable = false; broken = false },
    )
      ∷ []
    else []

abbrev poll_at : ℕ → ℕ → Loop Interests ℕ → Polled × Loop Interests ℕ
poll_at zero t l = (reported (report l.io), record l { now = l.now + t })
poll_at (suc n) t l = (interrupted, record l { os = n })

abbrev polls : ℕ → Loop Interests ℕ → Polled × Loop Interests ℕ
polls t l = poll_at l.os t l

report-Fresh : (m : IoManager Interests) → Fresh m.fd_contexts m.tickle_fd (report m)
report-Fresh m = elim (Bool-cases (is_some (get_elem? m.fd_contexts 1) && not (1 == m.tickle_fd))) [
  | inl here ↦ rw here (
    record {
      out = ground (arith, here);
      known = ground (arith, here);
      reads = λ h. h;
      writes = λ h. cc;
    },
    tt,
    tt,
  )
  | inr out ↦ rw out tt
]

fewer :
    (n t : ℕ) (l : Loop Interests ℕ) → (poll_at n t l).0 ≡ interrupted → (poll_at n t l).1.os < n
fewer zero t l h = cc
fewer (suc n) t l h = omega arith

still : (n t : ℕ) (l : Loop Interests ℕ) → Sound epoll polls l → Sound epoll polls (poll_at n t l).1
still zero t l s = record { io = s.io; timers = s.timers; free = s.free; clock = s.clock }
still (suc n) t l s = record { io = s.io; timers = s.timers; free = s.free; clock = s.clock }

fits :
    (n t : ℕ) (l : Loop Interests ℕ)
    → Fresh
        (poll_at n t l).1.io.fd_contexts
        (poll_at n t l).1.io.tickle_fd
        (events_of (poll_at n t l).0)
fits zero t l = report-Fresh l.io
fits (suc n) t l = tt

polls-Waits : Waits epoll polls (λ n. n)
polls-Waits = record {
  interrupted_lem = λ t l. fewer l.os t l;
  sound = λ t l. still l.os t l;
  fresh = λ t l s. fits l.os t l;
}

start-Sound : Sound epoll polls start
start-Sound = record {
  io = record {
    counted = record { contexts = fine; count = refl; room = omega arith };
    known = λ g out. refl;
  };
  timers = record { sorted = (tt, tt); armed = λ a. ground arith };
  free = refl;
  clock = omega arith;
}

epoll-Willing : Willing epoll
epoll-Willing fd s t k h = rw h (ground arith)

near : (a : ℕ) → mem a (1 ∷ []) ≡ true → (start.timers.obj a).next - 100 < 2 ^ 31
near a h = ground arith

idle_round_example :
    (false ≡ true)
      × (◌≡◌ {A = List ℕ} (1 ∷ []) [])
      × ((fd : ℕ) → cur_at contexts fd ≡ nothing)
      × (idle_round epoll polls 3 3 false start
          ≡ left_loop (record start { timers = (get_next_timer one_timer 100).1 }))
    ⊎ (t : ℕ) × (v n : Loop Interests ℕ) × (idle_round epoll polls 3 3 false start ≡ swapped_out n)
      × (wait_events epoll polls 3
            (get_next_timer one_timer 100).0
            (record start { timers = (get_next_timer one_timer 100).1 })
          ≡ some (polls t v))
      × (t ≤ 3000)
      × ((a : ℕ) → mem a (1 ∷ []) ≡ true → t ≤ (start.timers.obj a).next - 100)
      × Finished epoll polls 3 (polls t v).0 (polls t v).1 n
idle_round_example =
    idle_round_lem epoll polls (λ n. n) polls-Waits 3 3 false start epoll-Willing (omega arith)
      start-Sound near

abbrev handed : Round Interests ℕ → List (ℕ × Task)
handed (swapped_out l) = l.io.scheduled
handed running = []
handed (fault e) = []
handed (left_loop l) = []

-- The timer's callback comes first, then the descriptor's.
both_run : handed (idle_round epoll polls 3 3 false start) ≡ (3, run_func 7) ∷ (3, run_func 5) ∷ []
unfolding idle_round get_next_timer wait_events after_wait handle_events handle_event run_expired
    schedule_all fire_if fire_event trigger_event get_context hand_over func_tasks list_expired_cb
    detect_clock_rollover wait_timeout fire expire clamp_timeout earlier lower_bound set_insert
    skip_due
both_run = refl
