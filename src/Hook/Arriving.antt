-- ===== src/Hook/Arriving.antt =====
-- A fiber that waits goes on since the event loop of its thread is told of its event.
use mnser.Common.{
  ℕ, true, false, ◌≡◌, refl, sym, ap, ◌∙◌, arith, ◌==◌, ==_iff, none, get_elem?, ok, err, Result,
  undefined_behaviour, Option-cases, inl, inr,
}
use mnser.IoManager.{
  Event, no_event, read_event, write_event, Events, nothing, has, minus, real_events, EpollEvent,
  Epoll, IoManager, handle_event,
}
use mnser.IoManager.Invariant.{cur_of, cur_at}
use mnser.IoManager.Willing.{Willing}
use mnser.IoManager.Handling.{handle_one}
use mnser.Hook.{World, Call}
use mnser.Hook.Waiting.{Sound, Fair}

-- What epoll reports when an event has come that is registered for.
abbrev pub arrival : Event → Events → EpollEvent
arrival event s = record {
  readable = has (record { reading = s.reading; writing = false }) event;
  writable = has (record { reading = false; writing = s.writing }) event;
  broken = false;
}

arrival-reads : (event : Event) (s : Events) → (arrival event s).readable ≡ true → s.reading ≡ true
arrival-reads no_event s h = cc
arrival-reads read_event s h = h
arrival-reads write_event s h = cc

arrival-writes : (event : Event) (s : Events) → (arrival event s).writable ≡ true → s.writing ≡ true
arrival-writes no_event s h = cc
arrival-writes read_event s h = cc
arrival-writes write_event s h = h

arrival-gone :
    (event : Event) (s : Events) → has (minus s (real_events (arrival event s) s)) event ≡ false
arrival-gone no_event s = refl
arrival-gone read_event s = ground arith
arrival-gone write_event s = ground arith

has-nothing : (event : Event) → has nothing event ≡ false
has-nothing no_event = refl
has-nothing read_event = refl
has-nothing write_event = refl

module _ (E : Epoll) {Os : Type 0} (c : Call) where
  -- The loop handles the report of the call's event, which hands the fiber to its scheduler.
  unfoldable pub event_arrives : World E.Kernel Os → World E.Kernel Os
  event_arrives w =
      elim (handle_event E w.io c.fd (arrival c.event (cur_at w.io.fd_contexts c.fd))) [
        | err e ↦ w
        | ok m ↦ record w { io = m }
      ]

  -- What the thread leaves to the fiber.
  pub record Arrived (n : World E.Kernel Os) : Type 0 where
    pub sound : Sound E c n
    pub absent : has (cur_at n.io.fd_contexts c.fd) c.event ≡ false

  event_arrives_lem : (w : World E.Kernel Os) → Willing E → Sound E c w → Arrived (event_arrives w)
  unfolding event_arrives handle_event
  event_arrives_lem w willing s = elim (Option-cases (get_elem? w.io.fd_contexts c.fd)) [
    | inl gone ↦
        rw (unknown gone, event_arrives)
          (record {
            sound = s;
            absent = ap (λ o. has (cur_of o) c.event) gone ∙ has-nothing c.event;
          })
    | inr (x, here) ↦
        let cur = cur_at w.io.fd_contexts c.fd in
        let (n, eq, one) =
          handle_one E willing w.io c.fd (arrival c.event cur) x s.io here (record {
            out = s.out;
            known = rw here refl;
            reads = arrival-reads c.event cur;
            writes = arrival-writes c.event cur;
          }) in
        let self : (c.fd == c.fd) ≡ true = (==_iff c.fd c.fd).1 refl in
        rw (eq, event_arrives)
          (record {
            sound = record {
              io = one.inv;
              timers = s.timers;
              unused = s.unused;
              contexts = omega (arith, one.size, s.contexts);
              out = ap (λ (q : ℕ). c.fd == q) one.pipe ∙ s.out;
            };
            absent =
                ap (λ t. has t c.event) (one.events c.fd ∙ rw self refl) ∙ arrival-gone c.event cur;
          })
  ]
    where
      unknown :
          get_elem? w.io.fd_contexts c.fd ≡ none
          → handle_event E w.io c.fd (arrival c.event (cur_at w.io.fd_contexts c.fd))
            ≡ err undefined_behaviour
      unknown gone = rw (gone, handle_event) refl

  pub only_io :
      (w : World E.Kernel Os)
      → ((event_arrives w).timers ≡ w.timers) × ((event_arrives w).os ≡ w.os)
  unfolding event_arrives
  only_io w = go (handle_event E w.io c.fd (arrival c.event (cur_at w.io.fd_contexts c.fd)))
    where
      go :
          (r : Result (IoManager E.Kernel))
          → ((elim r as (λ x. World E.Kernel Os) [ err e ↦ w | ok m ↦ record w { io = m } ]).timers
              ≡ w.timers)
            × ((elim r as (λ x. World E.Kernel Os) [ err e ↦ w | ok m ↦ record w { io = m } ]).os
                ≡ w.os)
      go (ok m) = (refl, refl)
      go (err e) = (refl, refl)

  -- Where epoll takes every change, the loop that is told of the event does what is asked of the
  -- thread while the fiber waits.
  pub event_arrives-Fair : Willing E → Fair E c event_arrives
  event_arrives-Fair willing = record {
    sound = λ w s. (event_arrives_lem w willing s).sound;
    absent = λ w s. (event_arrives_lem w willing s).absent;
    own = λ w a h. ap (λ m. (m.obj a).cb) (sym (only_io w).0) ∙ h;
  }
