-- ===== src/IoManager/State.antt =====
-- inc/iomanager.h and src/iomanager.cpp: the contexts of the descriptors with their own methods, and
-- epoll as the manager sees it. A callback, a fiber and a scheduler are numbers.
use mnser.Common.{ℕ, ◌-◌, ◌*◌, ◌/◌, List, [], ◌∷◌, ◌++◌, Bool, true, false, not, ◌&&◌, ◌||◌, ◌≡◌}
use mnser.Common.{◌==◌, if◌then◌else◌, Option, none, some, length, set}
use mnser.Common.{
  take, replicate, Result, ok, err, assert_failed, undefined_behaviour, ◌>>=◌, ◌>>◌, guard,
}

pub data Event : Type 0 where
  no_event read_event write_event : Event

-- A set of events, `curEvents`: the bits of READ and of WRITE, which are EPOLLIN and EPOLLOUT.
pub record Events : Type 0 where
  pub reading : Bool
  pub writing : Bool

abbrev pub nothing : Events
nothing = record { reading = false; writing = false }

abbrev pub has : Events → Event → Bool
has s no_event = false
has s read_event = s.reading
has s write_event = s.writing

abbrev pub is_none : Events → Bool
is_none s = not (s.reading || s.writing)

abbrev pub with_event : Events → Event → Events
with_event s no_event = s
with_event s read_event = record s { reading = true }
with_event s write_event = record s { writing = true }

abbrev pub without : Events → Event → Events
without s no_event = s
without s read_event = record s { reading = false }
without s write_event = record s { writing = false }

pub record EventContext : Type 0 where
  pub scheduler : Option ℕ
  pub fiber : Option ℕ
  pub func : Option ℕ

abbrev pub blank : EventContext
blank = record { scheduler = none; fiber = none; func = none }

-- The descriptor `fd` is the context's index in the vector.
pub record FdContext : Type 0 where
  pub read : EventContext
  pub write : EventContext
  pub cur_events : Events

-- What a scheduler is given to run.
pub data Task : Type 0 where
  run_func : ℕ → Task
  run_fiber : ℕ → Task

pub data CtlOp : Type 0 where
  epoll_ctl_add epoll_ctl_mod epoll_ctl_del : CtlOp

abbrev pub changed : CtlOp → Events → Option Events
changed epoll_ctl_add s = some s
changed epoll_ctl_mod s = some s
changed epoll_ctl_del s = none

-- epoll as its manual page has it: `ctl` says whether it returned 0, `interest` which events a
-- descriptor is registered for; a call that succeeds changes that descriptor only, and one that
-- fails nothing.
pub record Epoll : Type 1 where
  pub Kernel : Type 0
  pub ctl : CtlOp → ℕ → Events → Kernel → Bool × Kernel
  pub interest : Kernel → ℕ → Option Events
  pub ctl_done :
      (op : CtlOp) (fd : ℕ) (s : Events) (k : Kernel) (g : ℕ)
      → (ctl op fd s k).0 ≡ true
      → interest (ctl op fd s k).1 g ≡ (if g == fd then changed op s else interest k g)
  pub ctl_refused :
      (op : CtlOp) (fd : ℕ) (s : Events) (k : Kernel) (g : ℕ)
      → (ctl op fd s k).0 ≡ false
      → interest (ctl op fd s k).1 g ≡ interest k g

-- `tickle_fd` is the end of the pipe that `idle` reads; `schedule` hands a task to a scheduler: the tasks handed over, oldest first.
pub record IoManager (Kernel : Type 0) : Type 0 where
  pub fd_contexts : List FdContext
  pub pending_event_count : ℕ
  pub kernel : Kernel
  pub tickle_fd : ℕ
  pub scheduled : List (ℕ × Task)

unfoldable pub get_context : FdContext → Event → Result EventContext
get_context c no_event = err assert_failed
get_context c read_event = ok c.read
get_context c write_event = ok c.write

abbrev pub set_context : FdContext → Event → EventContext → FdContext
set_context c no_event x = c
set_context c read_event x = record c { read = x }
set_context c write_event x = record c { write = x }

abbrev pub reset_context : EventContext → EventContext
reset_context x = record { scheduler = none; fiber = none; func = none }

-- `schedule(&ctx.func)` or `schedule(&ctx.fiber)`: the scheduler takes over what it is given,
-- and passes by an empty fiber.
unfoldable pub hand_over : EventContext → Result (EventContext × List (ℕ × Task))
hand_over x = elim x.scheduler [
  | none ↦ err undefined_behaviour
  | some s ↦ elim x.func [
    | some f ↦ ok (record x { func = none; scheduler = none }, (s, run_func f) ∷ [])
    | none ↦ elim x.fiber [
      | some f ↦ ok (record x { fiber = none; scheduler = none }, (s, run_fiber f) ∷ [])
      | none ↦ ok (record x { scheduler = none }, [])
    ]
  ]
]

unfoldable pub trigger_event : FdContext → Event → Result (FdContext × List (ℕ × Task))
trigger_event c event = guard (has c.cur_events event) assert_failed >> get_context c event >>= λ x.
    hand_over x >>= λ y.
    ok (set_context (record c { cur_events = without c.cur_events event }) event y.0, y.1)

-- `new FdContext` leaves `curEvents` with whatever the memory held: `junk`.
abbrev pub new_context : Events → FdContext
new_context junk = record { read = blank; write = blank; cur_events = junk }

-- `resize`, which also cuts a longer vector down.
unfoldable pub context_resize : Events → List FdContext → ℕ → List FdContext
context_resize junk cs size = take size cs ++ replicate (size - length cs) (new_context junk)

-- What `addEvent` does after its check under the read lock found the vector too short.
unfoldable pub grow : {Kernel : Type 0} → Events → IoManager Kernel → ℕ → IoManager Kernel
grow junk m fd = record m { fd_contexts = context_resize junk m.fd_contexts (fd * 3 / 2) }

abbrev pub put : {Kernel : Type 0} → IoManager Kernel → ℕ → FdContext → IoManager Kernel
put m fd c = record m { fd_contexts = set m.fd_contexts fd c }

-- The events that epoll reports for a descriptor; `broken` stands for EPOLLERR and EPOLLHUP.
pub record EpollEvent : Type 0 where
  pub readable : Bool
  pub writable : Bool
  pub broken : Bool

-- `real_events` of `idle`.
abbrev pub real_events : EpollEvent → Events → Events
real_events e cur = record {
  reading = e.readable || e.broken && cur.reading;
  writing = e.writable || e.broken && cur.writing;
}

abbrev pub both : Events → Events → Events
both s t = record { reading = s.reading && t.reading; writing = s.writing && t.writing }

abbrev pub minus : Events → Events → Events
minus s t = record { reading = s.reading && not t.reading; writing = s.writing && not t.writing }
