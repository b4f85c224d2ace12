-- ===== src/IoManager/Arming.antt =====
-- `addEvent` on a context that is there.
use mnser.Common.{ℕ, ◌+◌, ◌^◌, ◌%◌, Bool, true, false, not, ◌&&◌, ◌||◌, ◌≡◌, refl}
use mnser.Common.{
  ap, ◌∙◌, arith, ◌==◌, if◌then◌else◌, Option, none, some, is_some, get_elem?, set, length-set,
}
use mnser.Common.{ok, Bool-cases, inl, inr}
use mnser.IoManager.{
  Event, no_event, read_event, write_event, Events, has, is_none, with_event, EventContext,
  FdContext, CtlOp, epoll_ctl_add, epoll_ctl_mod, changed, Epoll, IoManager, set_context,
  get_context, arm, put,
}
use mnser.IoManager.Contexts.{
  ContextInv, context, waiting, total-set, total-le, get_elem?-set, Fits,
}
use mnser.IoManager.Invariant.{
  cur_at, registered, cur_at-set, Counted-set, Inv, known-done, Inv-refused,
}
use mnser.IoManager.Calls.{context_at, context_of, context_inv}

abbrev pub is_event : Event → Bool
is_event no_event = false
is_event read_event = true
is_event write_event = true

abbrev pub add_op : Events → CtlOp
add_op s = if is_none s then epoll_ctl_add else epoll_ctl_mod

-- What a context is armed with: the callback, or else the running fiber.
abbrev pub armed_with : ℕ → Option ℕ → ℕ → EventContext
armed_with s cb self = record {
  scheduler = some s;
  fiber = if is_some cb then none else some self;
  func = cb;
}

abbrev pub armed : FdContext → Event → EventContext → FdContext
armed c event x = set_context (record c { cur_events = with_event c.cur_events event }) event x

changed-add_op :
    (s : Events) (event : Event)
    → is_event event ≡ true
    → changed (add_op s) (with_event s event) ≡ registered (with_event s event)
changed-add_op s no_event h = cc
changed-add_op s read_event h = ground arith
changed-add_op s write_event h = ground arith

waiting-with_event :
    (s : Events) (event : Event)
    → is_event event ≡ true
    → has s event ≡ false
    → waiting (with_event s event) ≡ waiting s + 1
waiting-with_event s no_event h k = cc
waiting-with_event s read_event h k = ground arith
waiting-with_event s write_event h k = ground arith

armed_with-Fits : (s : ℕ) (cb : Option ℕ) (self : ℕ) → Fits true (armed_with s cb self)
armed_with-Fits s none self = record { scheduler = refl; one = refl; only = refl }
armed_with-Fits s (some f) self = record { scheduler = refl; one = refl; only = refl }

armed-ContextInv :
    (c : FdContext) (event : Event) (s : ℕ) (cb : Option ℕ) (self : ℕ)
    → ContextInv c
    → ContextInv (armed c event (armed_with s cb self))
armed-ContextInv c no_event s cb self v = v
armed-ContextInv c read_event s cb self v = record {
  read = armed_with-Fits s cb self;
  write = v.write;
}
armed-ContextInv c write_event s cb self v = record {
  read = v.read;
  write = armed_with-Fits s cb self;
}

cur-armed :
    (c : FdContext) (event : Event) (x : EventContext)
    → (armed c event x).cur_events ≡ with_event c.cur_events event
cur-armed c no_event x = refl
cur-armed c read_event x = refl
cur-armed c write_event x = refl

context-armed :
    (c : FdContext) (event : Event) (x : EventContext)
    → is_event event ≡ true
    → context (armed c event x) event ≡ x
context-armed c no_event x h = cc
context-armed c read_event x h = refl
context-armed c write_event x h = refl

-- The checks of `addEvent` on the context of an event that does not wait.
free :
    (c : FdContext) (event : Event)
    → is_event event ≡ true
    → has c.cur_events event ≡ false
    → ContextInv c
    → (get_context c event ≡ ok (context c event))
      × ((not (is_some (context c event).scheduler)
            && not (is_some (context c event).fiber)
            && not (is_some (context c event).func))
          ≡ true)
unfolding get_context
free c no_event e h v = cc
free c read_event e h v = (refl, ground (arith, v.read.scheduler, v.read.one, h))
free c write_event e h v = (refl, ground (arith, v.write.scheduler, v.write.one, h))

module _ (E : Epoll) (m : IoManager E.Kernel) (fd : ℕ) where
  pub record Added (event : Event) (x : EventContext) (done : Bool) (n : IoManager E.Kernel)
      : Type 0 where
    pub inv : Inv E n
    pub events :
        (g : ℕ)
        → cur_at n.fd_contexts g ≡ (
            if done && g == fd
            then with_event (cur_at m.fd_contexts fd) event
            else cur_at m.fd_contexts g)
    pub armed_here :
        context (context_at n.fd_contexts fd) event
        ≡ (if done then x else context (context_at m.fd_contexts fd) event)
    pub scheduled : n.scheduled ≡ m.scheduled

  Added-done :
      (event : Event) (cb : Option ℕ) (s self : ℕ) (c : FdContext)
      → Inv E m
      → is_event event ≡ true
      → get_elem? m.fd_contexts fd ≡ some c
      → has c.cur_events event ≡ false
      → (E.ctl (add_op c.cur_events) fd (with_event c.cur_events event) m.kernel).0 ≡ true
      → Added event (armed_with s cb self) true (
          put
            (record m {
              pending_event_count = (m.pending_event_count + 1) % 2 ^ 64;
              kernel = (E.ctl (add_op c.cur_events) fd (with_event c.cur_events event) m.kernel).1;
            })
            fd
            (armed c event (armed_with s cb self)))
  Added-done event cb s self c v e here absent done = record {
    inv = record {
      counted =
          Counted-set m.fd_contexts m.pending_event_count fd c d
            ((m.pending_event_count + 1) % 2 ^ 64) v.counted here
            (armed-ContextInv c event s cb self (context_inv E m fd c here v)) count;
      known =
          known-done E m (add_op cur) fd (with_event cur event) (with_event cur event)
            (set m.fd_contexts fd d) v done (changed-add_op cur event e) now;
    };
    events = λ g. now g ∙ rw here refl;
    armed_here =
        ap (λ o. context (context_of o) event) there
        ∙ context-armed c event (armed_with s cb self) e;
    scheduled = refl;
  }
    where
      cur : Events
      cur = c.cur_events

      d : FdContext
      d = armed c event (armed_with s cb self)

      there : get_elem? (set m.fd_contexts fd d) fd ≡ some d
      there = get_elem?-set m.fd_contexts fd c d fd here ∙ ground arith

      one_more : waiting d.cur_events ≡ waiting c.cur_events + 1
      one_more =
          ap waiting (cur-armed c event (armed_with s cb self))
          ∙ waiting-with_event cur event e absent

      count :
          (m.pending_event_count + 1) % 2 ^ 64 + waiting c.cur_events
          ≡ m.pending_event_count + waiting d.cur_events
      count = omega (
        arith,
        one_more,
        total-set m.fd_contexts fd c d here,
        total-le (set m.fd_contexts fd d),
        length-set m.fd_contexts fd d,
        v.counted.count,
        v.counted.room,
      )

      now :
          (g : ℕ)
          → cur_at (set m.fd_contexts fd d) g
            ≡ (if g == fd then with_event cur event else cur_at m.fd_contexts g)
      now g =
          cur_at-set m.fd_contexts fd c d g here
          ∙ rw (cur-armed c event (armed_with s cb self)) refl

  pub arm_lem :
      (event : Event) (cb : Option ℕ) (s self : ℕ) (executing : Bool) (c : FdContext)
      → Inv E m
      → is_event event ≡ true
      → get_elem? m.fd_contexts fd ≡ some c
      → has c.cur_events event ≡ false
      → (is_some cb || executing) ≡ true
      → let cur = c.cur_events in
        let done = (E.ctl (add_op cur) fd (with_event cur event) m.kernel).0 in
        (n : IoManager E.Kernel) × (arm E m fd event cb (some s) self executing ≡ ok (done, n))
        × Added event (armed_with s cb self) done n
  unfolding arm
  arm_lem event cb s self executing c v e here absent runs =
      let inv = context_inv E m fd c here v in
      let d = armed c event (armed_with s cb self) in
      let cur = c.cur_events in
      elim (Bool-cases (E.ctl (add_op cur) fd (with_event cur event) m.kernel).0) [
        | inr refused ↦
            rw (here, arm, absent, refused)
              (
                _,
                refl,
                record {
                  inv = Inv-refused E m (add_op cur) fd (with_event cur event) v refused;
                  events = λ g. refl;
                  armed_here = rw here refl;
                  scheduled = refl;
                },
              )
        | inl done ↦
            rw
              (
                here,
                arm,
                absent,
                done,
                (free c event e absent inv).0,
                (free c event e absent inv).1,
                runs,
              )
              (_, refl, Added-done event cb s self c v e here absent done)
      ]
