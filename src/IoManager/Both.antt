-- ===== src/IoManager/Both.antt =====
-- The steps that trigger READ, WRITE, or both of a context.
use mnser.Common.{ℕ, List, [], ◌++◌, Bool, true, false, ◌≡◌, refl}
use mnser.Common.{◌∙◌, arith, ◌==◌, if◌then◌else◌, some, get_elem?}
use mnser.Common.{ok, append_assoc}
use mnser.IoManager.{
  read_event, write_event, Events, without, minus, FdContext, Task, IoManager, fire_if,
}
use mnser.IoManager.Contexts.{ContextInv, tasks}
use mnser.IoManager.Invariant.{cur_at, Counted}
use mnser.IoManager.Steps.{after, Step, fire_if_lem, after-Step}

-- The tasks of the events that a call triggers, READ first.
abbrev pub tasks_of : FdContext → Events → List (ℕ × Task)
tasks_of c s = (if s.reading then tasks c.read else []) ++ (if s.writing then tasks c.write else [])

module _ {Kernel : Type 0} (m : IoManager Kernel) (fd : ℕ) (c : FdContext) (s : Events) where
  abbrev pub first : FdContext × IoManager Kernel
  first = after s.reading m fd c read_event

  abbrev pub second : FdContext × IoManager Kernel
  second = after s.writing first.1 fd first.0 write_event

  still_writing :
      (s.writing ≡ true → c.cur_events.writing ≡ true)
      → s.writing ≡ true
      → first.0.cur_events.writing ≡ true
  still_writing w h = go s.reading (w h)
    where
      go :
          (b : Bool)
          → c.cur_events.writing ≡ true
          → (after b m fd c read_event).0.cur_events.writing ≡ true
      go true k = k
      go false k = k

  pub writing-first : first.0.cur_events.writing ≡ c.cur_events.writing
  writing-first = go s.reading
    where
      go : (b : Bool) → (after b m fd c read_event).0.cur_events.writing ≡ c.cur_events.writing
      go true = refl
      go false = refl

  pub second-kernel : second.1.kernel ≡ m.kernel
  second-kernel = go s.reading s.writing
    where
      go :
          (b w : Bool)
          → (after w
              (after b m fd c read_event).1
              fd
              (after b m fd c read_event).0
              write_event).1.kernel
            ≡ m.kernel
      go true true = refl
      go true false = refl
      go false true = refl
      go false false = refl

  pub second-tickle_fd : second.1.tickle_fd ≡ m.tickle_fd
  second-tickle_fd = go s.reading s.writing
    where
      go :
          (b w : Bool)
          → (after w
              (after b m fd c read_event).1
              fd
              (after b m fd c read_event).0
              write_event).1.tickle_fd
            ≡ m.tickle_fd
      go true true = refl
      go true false = refl
      go false true = refl
      go false false = refl

  write_task : tasks first.0.write ≡ tasks c.write
  write_task = go s.reading
    where
      go : (b : Bool) → tasks (after b m fd c read_event).0.write ≡ tasks c.write
      go true = refl
      go false = refl

  left_over :
      (r w : Bool)
      → (if w
          then without (if r then without c.cur_events read_event else c.cur_events) write_event
          else (if r then without c.cur_events read_event else c.cur_events))
        ≡ minus c.cur_events (record { reading = r; writing = w })
  left_over r w = ground arith

  module _ (reads : s.reading ≡ true → c.cur_events.reading ≡ true)
      (writes : s.writing ≡ true → c.cur_events.writing ≡ true)
      (v : Counted m.fd_contexts m.pending_event_count) (inv : ContextInv c)
      (here : get_elem? m.fd_contexts fd ≡ some c) where
    one :
        Step m fd
          (if s.reading then without c.cur_events read_event else c.cur_events)
          (if s.reading then tasks c.read else [])
          first
    one = after-Step m fd c read_event s.reading reads v inv here

    pub first_lem : fire_if s.reading m fd c read_event ≡ ok first
    first_lem = fire_if_lem m fd c read_event s.reading reads inv

    pub second_lem : fire_if s.writing first.1 fd first.0 write_event ≡ ok second
    second_lem =
        fire_if_lem first.1 fd first.0 write_event s.writing (still_writing writes) one.context_inv

    pub both-Step : Step m fd (minus c.cur_events s) (tasks_of c s) second
    both-Step =
        let two =
          after-Step first.1 fd first.0 write_event s.writing (still_writing writes) one.counted
            one.context_inv one.here in
        let rest : (if s.writing
              then without first.0.cur_events write_event
              else first.0.cur_events)
            ≡ minus c.cur_events s =
          rw one.left_here (left_over s.reading s.writing) in
        record {
          here = two.here;
          context_inv = two.context_inv;
          counted = two.counted;
          left_here = two.left_here ∙ rest;
          events = λ g. two.events g ∙ merge g _ (one.events g) rest;
          scheduled = two.scheduled ∙ gather _ one.scheduled;
          size = two.size ∙ one.size;
          others = λ g h. two.others g h ∙ one.others g h;
        }
      where
        merge :
            (g : ℕ) (a : Events)
            → cur_at first.1.fd_contexts g ≡ (if g == fd then a else cur_at m.fd_contexts g)
            → (if s.writing then without first.0.cur_events write_event else first.0.cur_events)
              ≡ minus c.cur_events s
            → (if g == fd
                then (if s.writing
                    then without first.0.cur_events write_event
                    else first.0.cur_events)
                else cur_at first.1.fd_contexts g)
              ≡ (if g == fd then minus c.cur_events s else cur_at m.fd_contexts g)
        merge g a e k = ground (arith, e, k)

        gather :
            (ts : List (ℕ × Task))
            → first.1.scheduled ≡ m.scheduled ++ ts
            → first.1.scheduled ++ (if s.writing then tasks first.0.write else [])
              ≡ m.scheduled ++ (ts ++ (if s.writing then tasks c.write else []))
        gather ts e =
            rw (e, write_task)
              (append_assoc m.scheduled ts (if s.writing then tasks c.write else []))
