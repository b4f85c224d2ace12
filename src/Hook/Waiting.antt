-- ===== src/Hook/Waiting.antt =====
-- One wait of a hooked call, on its event and its timer.
use mnser.Common.{ℕ, ◌-◌, ◌^◌, ◌≤◌, ◌<◌, Bool, true, false, ◌≡◌, refl, ap, sym, subst, ◌∙◌, arith}
use mnser.Common.{Option, none, some, ◌==◌, length, ok, Bool-cases, inl, inr, ◌⊎◌, ==_iff}
use mnser.Timer.{Timer, add_timer, insert_timer, update}
use mnser.Timer.Order.{mem}
use mnser.Timer.Invariant.{add_timer-Inv, cancel_lem}
use mnser.Timer.Invariant
use mnser.IoManager.{Events, nothing, has, with_event, Epoll, IoManager, add_event}
use mnser.IoManager.Invariant.{Inv, cur_at}
use mnser.IoManager.Arming.{is_event, add_op, armed_with, Added}
use mnser.IoManager.Growing.{sized, cur_at-sized, add_event_lem, add_event-keeps}
use mnser.Hook.{World, Call, Waited, not_added, start_timer, stop_timer, waited, wait}

module _ (E : Epoll) {Os : Type 0} (c : Call) where
  -- The managers are in order, no timer is in the set where the next one is allocated, and the
  -- descriptor is not that of the pipe of `tickle`.
  pub record Sound (w : World E.Kernel Os) : Type 0 where
    pub io : Inv E w.io
    pub timers : Invariant.Inv w.timers
    pub unused : (a : ℕ) → w.fresh ≤ a → mem a w.timers.timers ≡ false
    pub contexts : 2 ≤ length w.io.fd_contexts
    pub out : (c.fd == w.io.tickle_fd) ≡ false

  -- No timer but `t` has the callback of the call.
  abbrev pub Owns : Option ℕ → World E.Kernel Os → Type 0
  Owns t w = (a : ℕ) → (w.timers.obj a).cb ≡ some c.on_timeout → t ≡ some a

  pub record Ready (w : World E.Kernel Os) : Type 0 where
    pub sound : Sound w
    pub clean : Owns none w
    pub absent : has (cur_at w.io.fd_contexts c.fd) c.event ≡ false

  -- Whether epoll takes the event of the call.
  abbrev pub accepts : World E.Kernel Os → Bool
  accepts w =
      let cur = cur_at w.io.fd_contexts c.fd in
      (E.ctl (add_op cur) c.fd (with_event cur c.event) w.io.kernel).0

  -- What the thread does while a fiber waits: the managers stay in order, nobody else sets a timer
  -- with the callback of the call, and the fiber goes on only when its event waits no more.
  pub record Fair (others : World E.Kernel Os → World E.Kernel Os) : Type 0 where
    pub sound : (w : World E.Kernel Os) → Sound w → Sound (others w)
    pub absent :
        (w : World E.Kernel Os)
        → Sound w
        → has (cur_at (others w).io.fd_contexts c.fd) c.event ≡ false
    pub own :
        (w : World E.Kernel Os) (a : ℕ)
        → ((others w).timers.obj a).cb ≡ some c.on_timeout
        → (w.timers.obj a).cb ≡ some c.on_timeout

  added_own :
      (to : ℕ) (w : World E.Kernel Os)
      → Owns none w
      → (a : ℕ) → ((a == w.fresh) ≡ true) ⊎ ((a == w.fresh) ≡ false)
      → ((add_timer w.timers w.fresh to (some c.on_timeout) false w.now).0.obj a).cb
        ≡ some c.on_timeout
      → some w.fresh ≡ some a
  unfolding add_timer insert_timer
  added_own to w own a (inl same) h = ap some (sym ((==_iff a w.fresh).0 same))
  added_own to w own a (inr other) h =
      let k : (w.timers.obj a).cb ≡ some c.on_timeout = ground (arith, h, other) in
      let l = own a k in cc

  start_timer_lem :
      (to : ℕ) (w : World E.Kernel Os)
      → Sound w
      → Owns none w
      → Sound (start_timer E c to w).1
        × Owns (start_timer E c to w).0 (start_timer E c to w).1
        × ((start_timer E c to w).1.io ≡ w.io)
        × ((start_timer E c to w).1.os ≡ w.os)
        × ((start_timer E c to w).1.cancelled ≡ w.cancelled)
  unfolding start_timer
  start_timer_lem to w s own = elim (Bool-cases (to == 2 ^ 64 - 1)) [
    | inl never ↦ rw never (s, own, refl, refl, refl)
    | inr set ↦
        let (inv, mem_of) =
          add_timer-Inv w.timers w.fresh to c.on_timeout false w.now s.timers
            (s.unused w.fresh (omega arith)) in
        rw set (
          record {
            io = s.io;
            timers = inv;
            unused = λ a h. ground (arith, mem_of a, s.unused a);
            contexts = s.contexts;
            out = s.out;
          },
          (λ a h. added_own to w own a (Bool-cases (a == w.fresh)) h),
          refl,
          refl,
          refl,
        )
  ]

  stop_timer_lem :
      (t : Option ℕ) (w : World E.Kernel Os)
      → Sound w
      → Owns t w
      → (n : World E.Kernel Os) × (stop_timer E c t w ≡ ok n)
        × Sound n
        × Owns none n
        × (n.io ≡ w.io)
        × (n.os ≡ w.os)
        × (n.cancelled ≡ w.cancelled)
  unfolding stop_timer
  stop_timer_lem none w s own = (w, refl, s, own, refl, refl, refl)
  stop_timer_lem (some a) w s own =
      let (n, e, inv, mem_of, obj_of) = cancel_lem w.timers a s.timers in
      (
        record w { timers = n },
        rw e refl,
        record {
          io = s.io;
          timers = inv;
          unused = λ b h. ground (arith, mem_of b, s.unused b);
          contexts = s.contexts;
          out = s.out;
        },
        (λ b h.
            let k : ((update w.timers.obj a (record (w.timers.obj a) { cb = none })) b).cb
                ≡ some c.on_timeout =
              ap (λ (x : Timer). x.cb) (sym (obj_of b)) ∙ h in
            ground (arith, k, own b, ==_iff b a)),
        refl,
        refl,
        refl,
      )

  ready :
      (n : World E.Kernel Os) {s : Events}
      → Sound n
      → Owns none n
      → cur_at n.io.fd_contexts c.fd ≡ s
      → has s c.event ≡ false
      → Ready n
  ready n sound own e h = record {
    sound = sound;
    clean = own;
    absent = ap (λ t. has t c.event) e ∙ h;
  }

  pub wait-event :
      (w : World E.Kernel Os)
      → Ready w
      → c.junk ≡ nothing
      → c.fd < 2 ^ 31
      → is_event c.event ≡ true
      → (n : IoManager E.Kernel) × (add_event E c.junk w.io c.fd c.event none
            (some c.scheduler)
            c.fiber
            true
          ≡ ok (accepts w, n))
        × Added E
            (sized E w.io c.fd)
            c.fd
            c.event
            (armed_with c.scheduler none c.fiber)
            (accepts w)
            n
        × (2 ≤ length n.fd_contexts)
        × (n.tickle_fd ≡ w.io.tickle_fd)
  wait-event w r j small e =
      let (n, eq, added) =
        add_event_lem E w.io c.fd c.event none c.scheduler c.fiber true r.sound.io r.sound.contexts
          small e r.absent refl in
      let (long, pipe) =
        add_event-keeps E w.io c.fd c.event c.scheduler c.fiber (accepts w) n eq r.sound.contexts in
      rw j (n, eq, added, long, pipe)

  module _ (others : World E.Kernel Os → World E.Kernel Os) where
    -- How a wait ended: as `cancelled` says, after the others ran, if epoll took the event; and
    -- otherwise at once.
    abbrev pub Ended : World E.Kernel Os → Waited → World E.Kernel Os → Type 0
    Ended w x n =
        (accepts w ≡ true)
          × (x ≡ waited E c n)
          × ((v : World E.Kernel Os) × (v.os ≡ w.os) × (n.os ≡ (others v).os))
        ⊎ (accepts w ≡ false) × (x ≡ not_added) × (n.os ≡ w.os) × (n.cancelled ≡ w.cancelled)

    -- A wait never fails an assertion nor erases past the end of the timers, and leaves neither a
    -- timer with the callback of the call nor its event.
    pub wait_lem :
        (to : ℕ) (w : World E.Kernel Os)
        → Ready w
        → Fair others
        → c.junk ≡ nothing
        → c.fd < 2 ^ 31
        → is_event c.event ≡ true
        → (x : Waited) × (n : World E.Kernel Os) × (wait E c others to w ≡ ok (x, n))
          × Ready n
          × Ended w x n
    unfolding wait
    wait_lem to w r f j small e =
        let (s1, own1, io1, os1, set1) = start_timer_lem to w r.sound r.clean in
        let (t, w1) = start_timer E c to w in
        let (m, added, a, two, pipe) = wait-event w r j small e in
        let added1 =
          subst
            (λ i.
              add_event E c.junk i c.fd c.event none (some c.scheduler) c.fiber true
              ≡ ok (accepts w, m))
            (sym io1) added in
        let w2 : World E.Kernel Os = record w1 { io = m } in
        let s2 : Sound w2 = record {
          io = a.inv;
          timers = s1.timers;
          unused = s1.unused;
          contexts = two;
          out = ap (λ (q : ℕ). c.fd == q) pipe ∙ r.sound.out;
        } in
        elim (Bool-cases (accepts w)) [
          | inl takes ↦
              let (n, e3, s3, own3, io3, os3, _) =
                stop_timer_lem t (others w2) (f.sound w2 s2) (λ b h. own1 b (f.own w2 b h)) in
              (
                waited E c n,
                n,
                rw (added1, takes, e3) refl,
                ready n s3 own3 (ap (λ i. cur_at i.fd_contexts c.fd) io3) (f.absent w2 s2),
                inl (takes, refl, (w2, os1, os3)),
              )
          | inr refuses ↦
              let (n, e3, s3, own3, io3, os3, set3) = stop_timer_lem t w2 s2 own1 in
              (
                not_added,
                n,
                rw (added1, refuses, e3) refl,
                ready n s3 own3
                    (ap (λ i. cur_at i.fd_contexts c.fd) io3
                      ∙ a.events c.fd
                      ∙ rw refuses (cur_at-sized E w.io c.fd c.fd r.sound.contexts))
                    r.absent,
                inr (refuses, refl, os3 ∙ os1, set3 ∙ set1),
              )
        ]
