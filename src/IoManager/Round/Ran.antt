-- ===== src/IoManager/Round/Ran.antt =====
-- What one round of `idle` does: the timers that are due and the events that are reported.
use mnser.Common.{
  ℕ, zero, suc, ◌-◌, ◌^◌, ◌≤◌, ◌<◌, [], ◌++◌, Bool, true, false, ◌≡◌, ◌⊎◌, refl, ap, ◌∙◌, arith,
  some, map, Bool-cases, inl, inr,
}
use mnser.Timer.{get_next_timer, list_expired_cb}
use mnser.Timer.Order.{mem}
use mnser.Timer.Invariant
use mnser.Timer.Expired.{overdue, list_expired_cb_lem, get_next_timer_lem}
use mnser.IoManager.{nothing, Epoll, IoManager, clamp_timeout, wait_timeout, stopping}
use mnser.IoManager.Invariant.{cur_at, Inv}
use mnser.IoManager.Willing.{Willing}
use mnser.IoManager.Stale.{stopping_lem}
use mnser.IoManager.Handling.{Fresh, reported_tasks, left_of, handle_events_lem}
use mnser.IoManager.Round.{
  Loop, Polled, reported, interrupted, poll_failed, left_loop, swapped_out, events_of, func_tasks,
  schedule_all, wait_events, run_expired, after_wait, idle_round,
}

-- A timeout of `getNextTimer` that an `int` holds, or none.
abbrev pub Near : ℕ → Type 0
Near next = (next < 2 ^ 31) ⊎ (next ≡ 2 ^ 64 - 1)

clamp_timeout_lem :
    (next : ℕ)
    → Near next
    → (wait_timeout next ≤ 3000)
      × (wait_timeout next ≤ next)
      × (clamp_timeout next < 2 ^ 31)
      × (clamp_timeout next ≤ next)
unfolding wait_timeout clamp_timeout
clamp_timeout_lem next (inl h) = (ground arith, ground arith, ground arith, ground arith)
clamp_timeout_lem next (inr h) = (ground arith, ground arith, ground arith, ground arith)

module _ (E : Epoll) {Os : Type 0}
    (epoll_wait : ℕ → Loop E.Kernel Os → Polled × Loop E.Kernel Os) where
  -- The managers are in order, and the address for the next object is free.
  pub record Sound (l : Loop E.Kernel Os) : Type 0 where
    pub io : Inv E l.io
    pub timers : Invariant.Inv l.timers
    pub free : mem l.fresh l.timers.timers ≡ false
    pub clock : l.timers.previous_time < 2 ^ 64

  -- What is asked of the wait: signals interrupt it at most `left` times in a row, all that runs
  -- meanwhile keeps the managers in order, and what is reported fits the contexts as they are when
  -- the loop comes to it.
  pub record Waits (left : Os → ℕ) : Type 0 where
    pub interrupted_lem :
        (t : ℕ) (l : Loop E.Kernel Os)
        → (epoll_wait t l).0 ≡ interrupted
        → left (epoll_wait t l).1.os < left l.os
    pub sound : (t : ℕ) (l : Loop E.Kernel Os) → Sound l → Sound (epoll_wait t l).1
    pub fresh :
        (t : ℕ) (l : Loop E.Kernel Os)
        → Sound l
        → Fresh
            (epoll_wait t l).1.io.fd_contexts
            (epoll_wait t l).1.io.tickle_fd
            (events_of (epoll_wait t l).0)

  wait_round :
      (fuel next : ℕ) (l : Loop E.Kernel Os) (p : Polled) (v : Loop E.Kernel Os)
      → epoll_wait (wait_timeout next) l ≡ (p, v)
      → (p ≡ interrupted)
          × (wait_events E epoll_wait (suc fuel) next l
              ≡ wait_events E epoll_wait fuel (clamp_timeout next) v)
        ⊎ (wait_events E epoll_wait (suc fuel) next l ≡ some (p, v))
  unfolding wait_events
  wait_round fuel next l (reported es) v h = inr (rw (h, wait_events) (ap some h))
  wait_round fuel next l interrupted v h = inl (
    refl,
    rw (h, wait_events) (ap (λ r. wait_events E epoll_wait fuel (clamp_timeout next) r.1) h),
  )
  wait_round fuel next l poll_failed v h = inr (rw (h, wait_events) (ap some h))

  -- From the return of `epoll_wait` on: what came of the events and the timers.
  pub record Finished (self : ℕ) (p : Polled) (v n : Loop E.Kernel Os) : Type 0 where
    pub io : Inv E n.io
    pub timers : Invariant.Inv n.timers
    pub scheduled :
        n.io.scheduled
        ≡ v.io.scheduled
          ++ func_tasks self (map (λ a. (v.timers.obj a).cb) (overdue v.timers v.now))
          ++ reported_tasks v.io.fd_contexts (events_of p)
    pub events :
        (g : ℕ) → cur_at n.io.fd_contexts g ≡ left_of (events_of p) g (cur_at v.io.fd_contexts g)
    pub expired : n.timers ≡ (list_expired_cb v.timers v.fresh v.now).1

  module _ (left : Os → ℕ) (w : Waits left) where
    wait_events_lem :
        (fuel next : ℕ) (l : Loop E.Kernel Os)
        → left l.os < fuel
        → Sound l
        → Near next
        → (t : ℕ) × (v : Loop E.Kernel Os) × (wait_events E epoll_wait fuel next l
            ≡ some (epoll_wait t v))
          × Sound v
          × (t ≤ 3000)
          × (t ≤ next)
    wait_events_lem zero next l h s near = absurd (omega arith)
    wait_events_lem (suc fuel) next l h s near =
        let c = clamp_timeout_lem next near in
        let t = wait_timeout next in
        elim (wait_round fuel next l (epoll_wait t l).0 (epoll_wait t l).1 refl) [
          | inr once ↦ (t, l, once, s, c.0, c.1)
          | inl (signal, again) ↦
              let (u, v, eq, sv, three, near_v) =
                wait_events_lem fuel (clamp_timeout next) (epoll_wait t l).1
                  (omega (arith, h, w.interrupted_lem t l signal)) (w.sound t l s) (inl c.2) in
              (u, v, again ∙ eq, sv, three, omega (arith, near_v, c.3))
        ]

    after_wait_lem :
        (self : ℕ) (p : Polled) (v : Loop E.Kernel Os)
        → Willing E
        → Sound v
        → Fresh v.io.fd_contexts v.io.tickle_fd (events_of p)
        → (n : Loop E.Kernel Os) × (after_wait E epoll_wait self (p, v) ≡ swapped_out n)
          × Finished self p v n
    unfolding after_wait run_expired schedule_all
    after_wait_lem self p v willing s f =
        let r = list_expired_cb_lem v.timers v.fresh v.now s.timers s.free s.clock in
        let cbs = (list_expired_cb v.timers v.fresh v.now).0 in
        let io : IoManager E.Kernel = schedule_all self cbs v.io in
        let inv : Inv E io = record { counted = s.io.counted; known = s.io.known } in
        let (m, eq, h) = handle_events_lem E willing io (events_of p) inv f in
        (
          record v { io = m; timers = (list_expired_cb v.timers v.fresh v.now).1 },
          rw (eq, after_wait) refl,
          record {
            io = h.inv;
            timers = r.inv;
            scheduled = h.scheduled ∙ rw r.callbacks refl;
            events = h.events;
            expired = refl;
          },
        )

    -- `getNextTimer` only clears the mark that it tickled.
    next_timer-Sound :
        (l : Loop E.Kernel Os)
        → Sound l
        → Sound (record l { timers = (get_next_timer l.timers l.now).1 })
    unfolding get_next_timer
    next_timer-Sound l s = record {
      io = s.io;
      timers = record { sorted = s.timers.sorted; armed = s.timers.armed };
      free = s.free;
      clock = s.clock;
    }

    -- How the round of a loop ends that is not to stop.
    round_of :
        (fuel self t : ℕ) (stops : Bool) (l v n : Loop E.Kernel Os)
        → stopping l.io (get_next_timer l.timers l.now).0 stops ≡ false
        → wait_events E epoll_wait fuel
            (get_next_timer l.timers l.now).0
            (record l { timers = (get_next_timer l.timers l.now).1 })
          ≡ some (epoll_wait t v)
        → after_wait E epoll_wait self (epoll_wait t v) ≡ swapped_out n
        → idle_round E epoll_wait fuel self stops l ≡ swapped_out n
    unfolding idle_round
    round_of fuel self t stops l v n go h k = rw (go, h, idle_round) k

    -- Let every timer be less than 2^31 ms away, let epoll take every change, let what runs during
    -- the wait keep the managers in order, and let the reports of epoll fit the contexts when the
    -- loop comes to them: each descriptor once, and no event that no longer waits; and let signals
    -- interrupt the wait a finite number of times, below the fuel. Then a round of `idle` ends, and
    -- no assertion fails. Either the scheduler is stopping, and then there is no timer and no event
    -- waits. Or the last call of `epoll_wait`, the one that no signal interrupts, was given at most 3
    -- seconds and at most the time that any timer was away when the round began; after it the
    -- round hands over the callbacks of the timers that are due by then, or of all where the clock
    -- went back, in the order of their times, and the tasks of the events that were reported, and
    -- just these events wait no more.
    pub idle_round_lem :
        (fuel self : ℕ) (stops : Bool) (l : Loop E.Kernel Os)
        → Willing E
        → left l.os < fuel
        → Sound l
        → ((a : ℕ) → mem a l.timers.timers ≡ true → (l.timers.obj a).next - l.now < 2 ^ 31)
        → (stops ≡ true)
            × (l.timers.timers ≡ [])
            × ((fd : ℕ) → cur_at l.io.fd_contexts fd ≡ nothing)
            × (idle_round E epoll_wait fuel self stops l
                ≡ left_loop (record l { timers = (get_next_timer l.timers l.now).1 }))
          ⊎ (t : ℕ) × (v n : Loop E.Kernel Os) × (idle_round E epoll_wait fuel self stops l
              ≡ swapped_out n)
            × (wait_events E epoll_wait fuel
                  (get_next_timer l.timers l.now).0
                  (record l { timers = (get_next_timer l.timers l.now).1 })
                ≡ some (epoll_wait t v))
            × (t ≤ 3000)
            × ((a : ℕ) → mem a l.timers.timers ≡ true → t ≤ (l.timers.obj a).next - l.now)
            × Finished self (epoll_wait t v).0 (epoll_wait t v).1 n
    unfolding idle_round
    idle_round_lem fuel self stops l willing h s near =
        let (least, which) = get_next_timer_lem l.timers l.now s.timers in
        let next = (get_next_timer l.timers l.now).0 in
        elim (Bool-cases (stopping l.io next stops)) [
          | inl stop ↦ inl (
            ground (arith, stop),
            elim which [
              | inl nobody ↦ nobody.0
              | inr (a, here, e) ↦ absurd (ground (arith, stop, e, near a here))
            ],
            stopping_lem E l.io next stops s.io stop,
            rw stop refl,
          )
          | inr go ↦
              let soon : Near next = elim which [
                | inl nobody ↦ inr nobody.1
                | inr (a, here, e) ↦ inl (omega (arith, e, near a here))
              ] in
              let (t, v, once, sv, three, le) =
                wait_events_lem fuel next (record l { timers = (get_next_timer l.timers l.now).1 })
                  h (next_timer-Sound l s) soon in
              let (n, eq, done) =
                after_wait_lem self (epoll_wait t v).0 (epoll_wait t v).1 willing (w.sound t v sv)
                  (w.fresh t v sv) in
              inr (
                t,
                v,
                n,
                round_of fuel self t stops l v n go once eq,
                once,
                three,
                (λ a here. omega (arith, le, least a here)),
                done,
              )
        ]
