-- ===== src/IoManager/Invariant.antt =====
-- What holds between two calls: the contexts fit the events they wait for, the count is theirs,
-- and epoll is registered for just these events.
use mnser.Common.{ℕ, ◌+◌, ◌*◌, ◌<◌, ◌^◌, List, Bool, true, false, ◌≡◌}
use mnser.Common.{
  subst, ap, sym, ◌∙◌, arith, ◌==◌, if◌then◌else◌, Option, none, some, sub_size, length, get_elem?,
  set, length-set,
}
use mnser.IoManager.{
  Event, Events, nothing, has, is_none, without, FdContext, CtlOp, changed, Epoll, IoManager,
}
use mnser.IoManager.Contexts.{
  ContextInv, waiting, waiting-without, total, total-set, total-get, total-le, get_elem?-set,
}

abbrev pub cur_of : Option FdContext → Events
cur_of none = nothing
cur_of (some c) = c.cur_events

abbrev pub cur_at : List FdContext → ℕ → Events
cur_at cs fd = cur_of (get_elem? cs fd)

abbrev pub Fine : Option FdContext → Type 0
Fine none = Unit {0}
Fine (some c) = ContextInv c

-- What epoll should know of a descriptor.
abbrev pub registered : Events → Option Events
registered s = if is_none s then none else some s

pub cur_at-set :
    (cs : List FdContext) (fd : ℕ) (c d : FdContext) (g : ℕ)
    → get_elem? cs fd ≡ some c
    → cur_at (set cs fd d) g ≡ (if g == fd then d.cur_events else cur_at cs g)
cur_at-set cs fd c d g h = ap cur_of (get_elem?-set cs fd c d g h) ∙ ground arith

-- The parts that do not speak of epoll.
pub record Counted (cs : List FdContext) (pending : ℕ) : Type 0 where
  pub contexts : (fd : ℕ) → Fine (get_elem? cs fd)
  pub count : pending ≡ total cs
  pub room : 2 * length cs < 2 ^ 64

pub Counted-set :
    (cs : List FdContext) (pending fd : ℕ) (c d : FdContext) (pending' : ℕ)
    → Counted cs pending
    → get_elem? cs fd ≡ some c
    → ContextInv d
    → pending' + waiting c.cur_events ≡ pending + waiting d.cur_events
    → Counted (set cs fd d) pending'
Counted-set cs pending fd c d pending' v h k e = record {
  contexts = λ g. subst Fine (sym (get_elem?-set cs fd c d g h)) (either g (g == fd));
  count = omega (arith, total-set cs fd c d h, v.count);
  room = omega (arith, length-set cs fd d, v.room);
}
  where
    either : (g : ℕ) (same : Bool) → Fine (if same then some d else get_elem? cs g)
    either g true = k
    either g false = v.contexts g

module _ (E : Epoll) where
  pub record Inv (m : IoManager E.Kernel) : Type 0 where
    pub counted : Counted m.fd_contexts m.pending_event_count
    pub known :
        (g : ℕ)
        → (g == m.tickle_fd) ≡ false
        → E.interest m.kernel g ≡ registered (cur_at m.fd_contexts g)

  -- epoll after a call that succeeded, if the operation fits the new events of the descriptor.
  pub known-done :
      (m : IoManager E.Kernel) (op : CtlOp) (fd : ℕ) (s t : Events) (cs : List FdContext)
      → Inv m
      → (E.ctl op fd s m.kernel).0 ≡ true
      → changed op s ≡ registered t
      → ((g : ℕ) → cur_at cs g ≡ (if g == fd then t else cur_at m.fd_contexts g))
      → (g : ℕ) → (g == m.tickle_fd) ≡ false
      → E.interest (E.ctl op fd s m.kernel).1 g ≡ registered (cur_at cs g)
  known-done m op fd s t cs v done e q g out =
      E.ctl_done op fd s m.kernel g done ∙ ground (arith, e, v.known g out, q g)

  -- A call that epoll refuses changes nothing.
  pub Inv-refused :
      (m : IoManager E.Kernel) (op : CtlOp) (fd : ℕ) (s : Events)
      → Inv m
      → (E.ctl op fd s m.kernel).0 ≡ false
      → Inv (record m { kernel = (E.ctl op fd s m.kernel).1 })
  Inv-refused m op fd s v refused = record {
    counted = v.counted;
    known = λ g t. E.ctl_refused op fd s m.kernel g refused ∙ v.known g t;
  }

pub count_down :
    (cs : List FdContext) (pending fd : ℕ) (c : FdContext) (event : Event)
    → Counted cs pending
    → get_elem? cs fd ≡ some c
    → has c.cur_events event ≡ true
    → sub_size pending 1 + waiting c.cur_events ≡ pending + waiting (without c.cur_events event)
count_down cs pending fd c event v h k =
    omega (
      arith,
      waiting-without c.cur_events event k,
      total-get cs fd c h,
      total-le cs,
      v.count,
      v.room,
    )
