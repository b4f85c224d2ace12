-- ===== src/IoManager.antt =====
-- src/iomanager.cpp: the calls on the event contexts of the descriptors. Every call works on one
-- context under that context's mutex, so that it is one step; growing the vector of contexts is a
-- step of its own (`grow`). epoll itself is the parameter `Epoll`.
mod State
pub mod Contexts
pub mod Invariant
pub mod Steps
pub mod Calls
pub mod Both
pub mod Idle
pub mod Arming
pub mod Growing
pub mod Stale
pub mod Willing
pub mod Sample
pub mod Handling
pub mod Round
mod Tests
unfoldable pub use State.*
use mnser.Common.{
  ℕ, ◌+◌, ◌-◌, ◌*◌, ◌/◌, ◌%◌, ◌^◌, List, [], ◌∷◌, ◌++◌, Bool, true, false, not, ◌&&◌, ◌||◌, ◌≡◌,
}
use mnser.Common.{
  ltb, leb, ◌==◌, if◌then◌else◌, sub_size, Option, none, some, length, get_elem?, set,
}
use mnser.Common.{
  take, replicate, is_some, Result, ok, err, Error, assert_failed, undefined_behaviour, ◌>>=◌, ◌>>◌,
  guard,
}

-- `triggerEvent` and the count, on the context at `fd`.
unfoldable pub fire_event :
    {Kernel : Type 0}
    → IoManager Kernel
    → ℕ
    → FdContext
    → Event
    → Result (FdContext × IoManager Kernel)
fire_event m fd c event = trigger_event c event >>= λ r. ok (
  r.0,
  record m {
    fd_contexts = set m.fd_contexts fd r.0;
    pending_event_count = sub_size m.pending_event_count 1;
    scheduled = m.scheduled ++ r.1;
  },
)

-- The same if the test holds, and nothing otherwise.
unfoldable pub fire_if :
    {Kernel : Type 0}
    → Bool
    → IoManager Kernel
    → ℕ
    → FdContext
    → Event
    → Result (FdContext × IoManager Kernel)
fire_if true m fd c event = fire_event m fd c event
fire_if false m fd c event = ok (c, m)

-- `next_timeout` brought below the 3 seconds, by its value as an `int` of 32 bits: those from
-- `2 ^ 31` on are negative.
unfoldable pub clamp_timeout : ℕ → ℕ
clamp_timeout next =
    if next == 2 ^ 64 - 1
    then 3000
    else if ltb 3000 (next % 2 ^ 32) && ltb (next % 2 ^ 32) (2 ^ 31)
    then 3000
    else next

-- The timeout that `epoll_wait` is given, as 32 bits.
unfoldable pub wait_timeout : ℕ → ℕ
unfolding clamp_timeout
wait_timeout next = clamp_timeout next % 2 ^ 32

-- `stopping`, on what `getNextTimer` and `Scheduler::stopping` return.
abbrev pub stopping : {Kernel : Type 0} → IoManager Kernel → ℕ → Bool → Bool
stopping m timeout scheduler_stopping =
    timeout == 2 ^ 64 - 1 && m.pending_event_count == 0 && scheduler_stopping

module _ (E : Epoll) where
  -- `epoll_ctl` on the context's new set of events, with whether it returns 0.
  abbrev pub control : IoManager E.Kernel → CtlOp → ℕ → Events → Bool × IoManager E.Kernel
  control m op fd s =
      let (done, kernel) = E.ctl op fd s m.kernel in (done, record m { kernel = kernel })

  -- The rest of `addEvent`, on a context of the vector; the result says whether it returns 0.
  -- `this` and `self` are `Scheduler::GetThis()` and `Fiber::GetThis()`, where `executing` says
  -- whether that fiber's state is EXEC.
  unfoldable pub arm :
      IoManager E.Kernel
      → ℕ
      → Event
      → Option ℕ
      → Option ℕ
      → ℕ
      → Bool
      → Result (Bool × IoManager E.Kernel)
  arm m fd event cb this self executing = elim (get_elem? m.fd_contexts fd) [
    | none ↦ err undefined_behaviour
    | some c ↦
        let op = if is_none c.cur_events then epoll_ctl_add else epoll_ctl_mod in
        let (done, m') = control m op fd (with_event c.cur_events event) in
        guard (not (has c.cur_events event)) assert_failed
        >> (if not done
            then ok (false, m')
            else (get_context c event >>= λ x.
                guard (not (is_some x.scheduler) && not (is_some x.fiber) && not (is_some x.func))
                  assert_failed
                >> guard (is_some cb || executing) assert_failed
                >> ok (
                  true,
                  put (record m' { pending_event_count = (m'.pending_event_count + 1) % 2 ^ 64 }) fd
                      (set_context (record c { cur_events = with_event c.cur_events event }) event
                        (record {
                          scheduler = this;
                          fiber = if is_some cb then none else some self;
                          func = cb;
                        })),
                )))
  ]

  -- `addEvent` for a descriptor that is not negative.
  unfoldable pub add_event :
      Events
      → IoManager E.Kernel
      → ℕ
      → Event
      → Option ℕ
      → Option ℕ
      → ℕ
      → Bool
      → Result (Bool × IoManager E.Kernel)
  add_event junk m fd event cb this self executing =
      arm (if ltb fd (length m.fd_contexts) then m else grow junk m fd) fd event cb this self
        executing

  unfoldable pub del_event : IoManager E.Kernel → ℕ → Event → Result (Bool × IoManager E.Kernel)
  del_event m fd event = elim (get_elem? m.fd_contexts fd) [
    | none ↦ ok (false, m)
    | some c ↦
        let new_events = without c.cur_events event in
        let op = if is_none new_events then epoll_ctl_del else epoll_ctl_mod in
        let (done, m') = control m op fd new_events in
        if not (has c.cur_events event)
        then ok (false, m)
        else if not done
        then ok (false, m')
        else (get_context c event >>= λ x. ok (
          true,
          put (record m' { pending_event_count = sub_size m'.pending_event_count 1 }) fd
              (set_context (record c { cur_events = new_events }) event (reset_context x)),
        ))
  ]

  unfoldable pub cancel_event : IoManager E.Kernel → ℕ → Event → Result (Bool × IoManager E.Kernel)
  cancel_event m fd event = elim (get_elem? m.fd_contexts fd) [
    | none ↦ ok (false, m)
    | some c ↦
        let new_events = without c.cur_events event in
        let op = if is_none new_events then epoll_ctl_del else epoll_ctl_mod in
        let (done, m') = control m op fd new_events in
        if not (has c.cur_events event)
        then ok (false, m)
        else if not done
        then ok (false, m')
        else (fire_event m' fd c event >>= λ r. ok (true, r.1))
  ]

  unfoldable pub cancel_all : IoManager E.Kernel → ℕ → Result (Bool × IoManager E.Kernel)
  cancel_all m fd = elim (get_elem? m.fd_contexts fd) [
    | none ↦ ok (false, m)
    | some c ↦
        let (done, m') = control m epoll_ctl_del fd nothing in
        if is_none c.cur_events
        then ok (false, m)
        else if not done
        then ok (false, m')
        else (fire_if c.cur_events.reading m' fd c read_event >>= λ r.
            fire_if r.0.cur_events.writing r.1 fd r.0 write_event >>= λ q.
            guard (is_none q.0.cur_events) assert_failed >> ok (true, q.1))
  ]

  -- What `idle` does with one event of a context.
  unfoldable pub handle_event : IoManager E.Kernel → ℕ → EpollEvent → Result (IoManager E.Kernel)
  handle_event m fd e = elim (get_elem? m.fd_contexts fd) [
    | none ↦ err undefined_behaviour
    | some c ↦
        let real = real_events e c.cur_events in
        let left = minus c.cur_events real in
        let op = if is_none left then epoll_ctl_del else epoll_ctl_mod in
        let (done, m') = control m op fd left in
        if is_none (both c.cur_events real)
        then ok m
        else if not done
        then ok m'
        else (fire_if real.reading m' fd c read_event >>= λ r.
            fire_if real.writing r.1 fd r.0 write_event >>= λ q. ok q.1)
  ]

  -- The loop over what `epoll_wait` returned; `none` is the pipe of `tickle`.
  unfoldable pub handle_events :
      IoManager E.Kernel → List (Option ℕ × EpollEvent) → Result (IoManager E.Kernel)
  handle_events m [] = ok m
  handle_events m (e ∷ es) = elim e.0 [
    | none ↦ handle_events m es
    | some fd ↦ handle_event m fd e.1 >>= λ n. handle_events n es
  ]
