-- ===== src/IoManager/Steps.antt =====
-- The steps that the calls are made of: an event is triggered, or not, and counted down.
use mnser.Common.{ℕ, List, [], ◌++◌, Bool, true, false, ◌≡◌, refl}
use mnser.Common.{
  ap, sym, ◌∙◌, arith, ◌==◌, if◌then◌else◌, some, length, length-set, sub_size, get_elem?, set,
}
use mnser.Common.{ok, ==_iff, append-nil}
use mnser.IoManager.{
  Event, no_event, read_event, write_event, Events, has, is_none, without, FdContext, Task, CtlOp,
  epoll_ctl_mod, epoll_ctl_del, changed, Epoll, IoManager, get_context, fire_event, fire_if,
}
use mnser.IoManager.Contexts.{
  ContextInv, context, tasks, cleared, trigger_event_lem, cleared-ContextInv, get_elem?-set,
}
use mnser.IoManager.Invariant.{
  cur_of, cur_at, registered, cur_at-set, Counted, Counted-set, count_down,
}

-- What a change to fewer events tells epoll.
abbrev pub shrink_op : Events → CtlOp
shrink_op s = if is_none s then epoll_ctl_del else epoll_ctl_mod

pub changed-shrink_op : (s : Events) → changed (shrink_op s) s ≡ registered s
changed-shrink_op s = ground arith

abbrev pub accepted : (E : Epoll) → IoManager E.Kernel → ℕ → Events → Bool
accepted E m fd s = (E.ctl (shrink_op s) fd s m.kernel).0

pub get_context_lem :
    (c : FdContext) (event : Event)
    → has c.cur_events event ≡ true
    → get_context c event ≡ ok (context c event)
unfolding get_context
get_context_lem c no_event h = cc
get_context_lem c read_event h = refl
get_context_lem c write_event h = refl

pub cur-cleared :
    (c : FdContext) (event : Event) → (cleared c event).cur_events ≡ without c.cur_events event
cur-cleared c no_event = refl
cur-cleared c read_event = refl
cur-cleared c write_event = refl

-- The manager after an event was triggered, if it was.
abbrev pub after :
    {Kernel : Type 0}
    → Bool
    → IoManager Kernel
    → ℕ
    → FdContext
    → Event
    → FdContext × IoManager Kernel
after true m fd c event = (
  cleared c event,
  record m {
    fd_contexts = set m.fd_contexts fd (cleared c event);
    pending_event_count = sub_size m.pending_event_count 1;
    scheduled = m.scheduled ++ tasks (context c event);
  },
)
after false m fd c event = (c, m)

pub record Step {Kernel : Type 0} (m : IoManager Kernel) (fd : ℕ) (left : Events)
    (handed : List (ℕ × Task)) (r : FdContext × IoManager Kernel) : Type 0 where
  pub here : get_elem? r.1.fd_contexts fd ≡ some r.0
  pub context_inv : ContextInv r.0
  pub counted : Counted r.1.fd_contexts r.1.pending_event_count
  pub left_here : r.0.cur_events ≡ left
  pub events :
      (g : ℕ) → cur_at r.1.fd_contexts g ≡ (if g == fd then left else cur_at m.fd_contexts g)
  pub scheduled : r.1.scheduled ≡ m.scheduled ++ handed
  pub size : length r.1.fd_contexts ≡ length m.fd_contexts
  pub others : (g : ℕ) → (g == fd) ≡ false → get_elem? r.1.fd_contexts g ≡ get_elem? m.fd_contexts g

cur_at-same :
    (cs : List FdContext) (fd : ℕ) (c : FdContext) (g : ℕ)
    → get_elem? cs fd ≡ some c
    → cur_at cs g ≡ (if g == fd then c.cur_events else cur_at cs g)
cur_at-same cs fd c g e = ground (arith, ==_iff g fd, ap cur_of e)

module _ {Kernel : Type 0} (m : IoManager Kernel) (fd : ℕ) (c : FdContext) (event : Event) where
  pub fire_event_lem :
      has c.cur_events event ≡ true
      → ContextInv c
      → fire_event m fd c event ≡ ok (after true m fd c event)
  unfolding fire_event
  fire_event_lem h v = rw (trigger_event_lem c event h v) refl

  pub fire_if_lem :
      (b : Bool)
      → (b ≡ true → has c.cur_events event ≡ true)
      → ContextInv c
      → fire_if b m fd c event ≡ ok (after b m fd c event)
  unfolding fire_if
  fire_if_lem true h v = fire_event_lem (h refl) v
  fire_if_lem false h v = refl

  pub after-Step :
      (b : Bool)
      → (b ≡ true → has c.cur_events event ≡ true)
      → Counted m.fd_contexts m.pending_event_count
      → ContextInv c
      → get_elem? m.fd_contexts fd ≡ some c
      → Step m fd
          (if b then without c.cur_events event else c.cur_events)
          (if b then tasks (context c event) else [])
          (after b m fd c event)
  after-Step true h v k e = record {
    here = get_elem?-set m.fd_contexts fd c (cleared c event) fd e ∙ ground arith;
    context_inv = cleared-ContextInv c event k;
    counted =
        Counted-set m.fd_contexts m.pending_event_count fd c (cleared c event)
          (sub_size m.pending_event_count 1) v e (cleared-ContextInv c event k)
          (rw (cur-cleared c event)
            (count_down m.fd_contexts m.pending_event_count fd c event v e (h refl)));
    left_here = cur-cleared c event;
    events =
        λ g. cur_at-set m.fd_contexts fd c (cleared c event) g e ∙ rw (cur-cleared c event) refl;
    scheduled = refl;
    size = length-set m.fd_contexts fd (cleared c event);
    others = λ g h. get_elem?-set m.fd_contexts fd c (cleared c event) g e ∙ rw h refl;
  }
  after-Step false h v k e = record {
    here = e;
    context_inv = k;
    counted = v;
    left_here = refl;
    events = λ g. cur_at-same m.fd_contexts fd c g e;
    scheduled = sym (append-nil m.scheduled);
    size = refl;
    others = λ g h. refl;
  }
