-- ===== src/Hook/Timeouts.antt =====
-- The timeout of a hooked call.
use mnser.Common.{
  ℕ, ◌+◌, ◌-◌, ◌^◌, ◌≤◌, ◌<◌, [], ◌∷◌, ◌++◌, true, false, ◌&&◌, ◌≡◌, refl, ap, sym, subst, ◌∙◌,
  arith,
}
use mnser.Common.{none, some, ◌==◌, if◌then◌else◌, ok, err, ==_iff}
use mnser.IoManager.{
  Event, no_event, read_event, write_event, Events, nothing, has, is_none, with_event, without,
  Epoll, IoManager, run_fiber,
}
use mnser.IoManager.Contexts.{context, tasks}
use mnser.IoManager.Invariant.{cur_at}
use mnser.IoManager.Invariant
use mnser.Timer.{add_timer, list_expired_cb}
use mnser.Timer.Order.{mem}
use mnser.Timer.Invariant.{Inv, add_timer-Inv, cancel_lem}
use mnser.Timer.Expired.{picked_lem}
use mnser.IoManager.Steps.{accepted}
use mnser.IoManager.Calls.{context_at, Removed, cancel_event_lem}
use mnser.IoManager.Arming.{is_event, armed_with, Added}
use mnser.IoManager.Growing.{sized, scheduled-sized}
use mnser.IoManager.Willing.{Willing, Willing-accepted}
use mnser.Hook.{World, Call, etimedout, timed_out_cb, timed_out, wait, stop_timer, start_timer}
use mnser.Hook.Waiting.{wait-event, Ready, accepts}
use mnser.Timer.Due.{contains, due_callback, added_timer}

has-with_event :
    (s : Events) (event : Event) → is_event event ≡ true → has (with_event s event) event ≡ true
has-with_event s no_event h = cc
has-with_event s read_event h = refl
has-with_event s write_event h = refl

has-without : (s : Events) (event : Event) → has (without s event) event ≡ false
has-without s no_event = refl
has-without s read_event = refl
has-without s write_event = refl

some_event : (s : Events) (event : Event) → has s event ≡ true → is_none s ≡ false
some_event s no_event h = cc
some_event s read_event h = ground (arith, h)
some_event s write_event h = ground (arith, h)

-- An event that was just added, once it is cancelled: it is gone, and its fiber handed over.
cancelled_lem :
    (E : Epoll) (m n l : IoManager E.Kernel) (fd : ℕ) (event : Event) (s fiber : ℕ)
    → Added E m fd event (armed_with s none fiber) true n
    → is_event event ≡ true
    → Willing E
    → (fd == n.tickle_fd) ≡ false
    → let cur = cur_at n.fd_contexts fd in
      Removed E n fd
        (without cur event)
        (tasks (context (context_at n.fd_contexts fd) event))
        (has cur event && accepted E n fd (without cur event))
        l
      → (l.scheduled ≡ m.scheduled ++ (s, run_fiber fiber) ∷ [])
        × (has (cur_at l.fd_contexts fd) event ≡ false)
cancelled_lem E m n l fd event s fiber a e willing out r =
    let self : (fd == fd) ≡ true = (==_iff fd fd).1 refl in
    let cur : cur_at n.fd_contexts fd ≡ with_event (cur_at m.fd_contexts fd) event =
      a.events fd ∙ rw self refl in
    let waits : has (cur_at n.fd_contexts fd) event ≡ true =
      ap (λ t. has t event) cur ∙ has-with_event (cur_at m.fd_contexts fd) event e in
    let takes =
      Willing-accepted E n fd (without (cur_at n.fd_contexts fd) event) willing a.inv out
        (some_event (cur_at n.fd_contexts fd) event waits) in
    let done : (has (cur_at n.fd_contexts fd) event
          && accepted E n fd (without (cur_at n.fd_contexts fd) event))
        ≡ true =
      rw (waits, takes) refl in
    (
      r.scheduled
          ∙ rw done (ap (λ xs. n.scheduled ++ xs) (ap tasks a.armed_here))
          ∙ ap (λ xs. xs ++ (s, run_fiber fiber) ∷ []) a.scheduled,
      ap (λ t. has t event) (r.events fd ∙ rw (done, self) refl)
          ∙ has-without (cur_at n.fd_contexts fd) event,
    )

module _ (E : Epoll) {Os : Type 0} (c : Call) where
  timed_out_cb_lem :
      (w : World E.Kernel Os)
      → Invariant.Inv E w.io
      → w.cancelled ≡ 0
      → let cur = cur_at w.io.fd_contexts c.fd in
        let done = has cur c.event && accepted E w.io c.fd (without cur c.event) in
        (n : World E.Kernel Os) × (timed_out_cb E c w ≡ ok n)
        × (n.cancelled ≡ etimedout)
        × (n.timers ≡ w.timers)
        × (n.os ≡ w.os)
        × Removed E w.io c.fd
            (without cur c.event)
            (tasks (context (context_at w.io.fd_contexts c.fd) c.event))
            done
            n.io
  unfolding timed_out_cb
  timed_out_cb_lem w v e =
      let (m, k, r) = cancel_event_lem E w.io c.fd c.event v in
      (record w { io = m; cancelled = etimedout }, rw (e, k) refl, refl, refl, refl, r)

  -- The thread runs the timers that are due at a time, and the callback of the call if it is due.
  unfoldable pub run_timers : ℕ → ℕ → World E.Kernel Os → World E.Kernel Os
  run_timers later probe w =
      let r = list_expired_cb w.timers probe later in
      let w' = record w { timers = r.1; now = later } in
      if contains r.0 c.on_timeout then elim (timed_out_cb E c w') [ ok n ↦ n | err e ↦ w' ] else w'

  run_timers_lem :
      (later probe : ℕ) (v n : World E.Kernel Os)
      → contains (list_expired_cb v.timers probe later).0 c.on_timeout ≡ true
      → timed_out_cb E c
          (record v { timers = (list_expired_cb v.timers probe later).1; now = later })
        ≡ ok n
      → run_timers later probe v ≡ n
  unfolding run_timers
  run_timers_lem later probe v n h e = rw (h, run_timers, e) refl

  -- A wait whose event does not come, with a timeout that does not wrap: once the thread runs its
  -- timers at the time of the timeout or later, the wait ends as timed out, with ETIMEDOUT; the
  -- fiber has been handed, once, to its scheduler, and its event waits no more.
  pub wait_times_out :
      (to later : ℕ) (w : World E.Kernel Os)
      → Ready E c w
      → c.junk ≡ nothing
      → c.fd < 2 ^ 31
      → is_event c.event ≡ true
      → Willing E
      → (c.fd == w.io.tickle_fd) ≡ false
      → w.cancelled ≡ 0
      → accepts E c w ≡ true
      → w.now + to < 2 ^ 64 - 1
      → w.now + to ≤ later
      → (n : World E.Kernel Os) × (wait E c (run_timers later (w.fresh + 1)) to w
          ≡ ok (timed_out etimedout, n))
        × (n.os ≡ w.os)
        × (n.io.scheduled ≡ w.io.scheduled ++ (c.scheduler, run_fiber c.fiber) ∷ [])
        × (has (cur_at n.io.fd_contexts c.fd) c.event ≡ false)
  unfolding wait start_timer stop_timer
  wait_times_out to later w r j small e willing out z takes fits past =
      let never : (to == 2 ^ 64 - 1) ≡ false = ground (arith, fits) in
      let (m, eq, added, two, pipe) = wait-event E c w r j small e in
      let (inv, mem_of) =
        add_timer-Inv w.timers w.fresh to c.on_timeout false w.now r.sound.timers
          (r.sound.unused w.fresh (omega arith)) in
      let timer = added_timer w.timers w.fresh to c.on_timeout w.now (omega (arith, fits)) in
      let w2 : World E.Kernel Os = record w {
        io = m;
        timers = (add_timer w.timers w.fresh to (some c.on_timeout) false w.now).0;
        fresh = w.fresh + 1;
      } in
      let here : mem w.fresh w2.timers.timers ≡ true =
        ground (arith, mem_of w.fresh, ==_iff w.fresh w.fresh) in
      let free : mem (w.fresh + 1) w2.timers.timers ≡ false =
        ground (
          arith,
          mem_of (w.fresh + 1),
          r.sound.unused (w.fresh + 1),
          ==_iff (w.fresh + 1) w.fresh,
        ) in
      let runs =
        due_callback w2.timers (w.fresh + 1) later w.fresh c.on_timeout inv free here
          (omega (arith, timer.0, past)) timer.1 in
      let ran = picked_lem w2.timers (w.fresh + 1) later inv free in
      let v : World E.Kernel Os = record w2 {
        timers = (list_expired_cb w2.timers (w.fresh + 1) later).1;
        now = later;
      } in
      let (n, k, late, same, kept, rem) = timed_out_cb_lem v added.inv z in
      let (t, kt, _, _, _) = cancel_lem n.timers w.fresh (subst Inv (sym same) ran.inv) in
      let fits_pipe : (c.fd == m.tickle_fd) ≡ false =
        subst (λ p. (c.fd == p) ≡ false) (sym pipe) out in
      let armed =
        subst
          (λ b. Added E (sized E w.io c.fd) c.fd c.event (armed_with c.scheduler none c.fiber) b m)
          takes added in
      let freed =
        cancelled_lem E (sized E w.io c.fd) m n.io c.fd c.event c.scheduler c.fiber armed e willing
          fits_pipe rem in
      let others = run_timers_lem later (w.fresh + 1) w2 n runs k in
      (
        record n { timers = t },
        rw (never, eq, takes, others, kt, late) refl,
        kept,
        freed.0
            ∙ ap (λ xs. xs ++ (c.scheduler, run_fiber c.fiber) ∷ []) (scheduled-sized E w.io c.fd),
        freed.1,
      )
