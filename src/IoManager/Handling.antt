-- ===== src/IoManager/Handling.antt =====
-- What `idle` does with all that epoll reports at once.
use mnser.Common.{
  ℕ, List, [], ◌∷◌, ◌++◌, true, false, not, ◌&&◌, ◌≡◌, refl, sym, ap, subst, ◌∙◌, arith, ◌==◌,
  if◌then◌else◌, Option, none, some, length, get_elem?, ok, is_some, Bool-cases, Option-cases, inl,
  inr, append-nil, append_assoc, ==_iff,
}
use mnser.IoManager.{
  Events, is_none, both, minus, real_events, EpollEvent, FdContext, Task, Epoll, IoManager,
  handle_event, handle_events,
}
use mnser.IoManager.Invariant.{cur_of, cur_at, Inv}
use mnser.IoManager.Steps.{accepted}
use mnser.IoManager.Calls.{context_at, Removed}
use mnser.IoManager.Both.{tasks_of}
use mnser.IoManager.Idle.{handle_event_lem}
use mnser.IoManager.Willing.{Willing, Willing-accepted}

-- A report of a descriptor that has a context, without an event that does not wait.
pub record Reports (cs : List FdContext) (tickle_fd fd : ℕ) (e : EpollEvent) : Type 0 where
  pub out : (fd == tickle_fd) ≡ false
  pub known : is_some (get_elem? cs fd) ≡ true
  pub reads : e.readable ≡ true → (cur_at cs fd).reading ≡ true
  pub writes : e.writable ≡ true → (cur_at cs fd).writing ≡ true

abbrev pub Absent : ℕ → List (Option ℕ × EpollEvent) → Type 0
Absent fd [] = Unit {0}
Absent fd ((none, e) ∷ es) = Absent fd es
Absent fd ((some g, e) ∷ es) = ((g == fd) ≡ false) × Absent fd es

-- What `epoll_wait` returns, by its manual page, if the contexts stay as they are: each descriptor
-- once, with events that it is registered for.
abbrev pub Fresh : List FdContext → ℕ → List (Option ℕ × EpollEvent) → Type 0
Fresh cs tickle_fd [] = Unit {0}
Fresh cs tickle_fd ((none, e) ∷ es) = Fresh cs tickle_fd es
Fresh cs tickle_fd ((some fd, e) ∷ es) =
    Reports cs tickle_fd fd e × Absent fd es × Fresh cs tickle_fd es

-- The tasks of the events that are reported.
abbrev pub reported_tasks : List FdContext → List (Option ℕ × EpollEvent) → List (ℕ × Task)
reported_tasks cs [] = []
reported_tasks cs ((none, e) ∷ es) = reported_tasks cs es
reported_tasks cs ((some fd, e) ∷ es) =
    let c = context_at cs fd in tasks_of c (real_events e c.cur_events) ++ reported_tasks cs es

-- The events of a descriptor without those that are reported.
abbrev pub left_of : List (Option ℕ × EpollEvent) → ℕ → Events → Events
left_of [] g s = s
left_of ((none, e) ∷ es) g s = left_of es g s
left_of ((some fd, e) ∷ es) g s = left_of es g (if g == fd then minus s (real_events e s) else s)

Fresh-same :
    (cs ds : List FdContext) (tickle_fd fd : ℕ) (es : List (Option ℕ × EpollEvent))
    → ((g : ℕ) → (g == fd) ≡ false → get_elem? ds g ≡ get_elem? cs g)
    → Absent fd es
    → Fresh cs tickle_fd es
    → Fresh ds tickle_fd es × (reported_tasks ds es ≡ reported_tasks cs es)
Fresh-same cs ds tickle_fd fd [] h a f = (tt, refl)
Fresh-same cs ds tickle_fd fd ((none, e) ∷ es) h a f = Fresh-same cs ds tickle_fd fd es h a f
Fresh-same cs ds tickle_fd fd ((some g, e) ∷ es) h a f =
    let (ih, tasks) = Fresh-same cs ds tickle_fd fd es h a.1 f.2 in
    let same = h g a.0 in
    (
      (
        record {
          out = f.0.out;
          known = ap is_some same ∙ f.0.known;
          reads = λ k. ap (λ o. (cur_of o).reading) same ∙ f.0.reads k;
          writes = λ k. ap (λ o. (cur_of o).writing) same ∙ f.0.writes k;
        },
        f.1,
        ih,
      ),
      rw (same, tasks) refl,
    )

-- What all that is reported comes to.
pub record Handled (E : Epoll) (m : IoManager E.Kernel) (es : List (Option ℕ × EpollEvent))
    (n : IoManager E.Kernel) : Type 0 where
  pub inv : Inv E n
  pub scheduled : n.scheduled ≡ m.scheduled ++ reported_tasks m.fd_contexts es
  pub events : (g : ℕ) → cur_at n.fd_contexts g ≡ left_of es g (cur_at m.fd_contexts g)

-- A report of nothing that waits.
quiet :
    (c : FdContext) (e : EpollEvent)
    → (e.readable ≡ true → c.cur_events.reading ≡ true)
    → (e.writable ≡ true → c.cur_events.writing ≡ true)
    → is_none (both c.cur_events (real_events e c.cur_events)) ≡ true
    → (tasks_of c (real_events e c.cur_events) ≡ [])
      × (minus c.cur_events (real_events e c.cur_events) ≡ c.cur_events)
quiet c e reads writes h = (ground (arith, h, reads, writes), ground (arith, h, reads, writes))

module _ (E : Epoll) (willing : Willing E) where
  -- One report: nothing is left to chance where epoll takes the change.
  pub record HandledOne (m : IoManager E.Kernel) (fd : ℕ) (e : EpollEvent) (n : IoManager E.Kernel)
      : Type 0 where
    pub inv : Inv E n
    pub scheduled :
        let c = context_at m.fd_contexts fd in
        n.scheduled ≡ m.scheduled ++ tasks_of c (real_events e c.cur_events)
    pub events :
        (g : ℕ)
        → cur_at n.fd_contexts g
          ≡ (let s = cur_at m.fd_contexts g in if g == fd then minus s (real_events e s) else s)
    pub others : (g : ℕ) → (g == fd) ≡ false → get_elem? n.fd_contexts g ≡ get_elem? m.fd_contexts g
    pub pipe : n.tickle_fd ≡ m.tickle_fd
    pub size : length n.fd_contexts ≡ length m.fd_contexts

  -- The events of the one descriptor, among those of all.
  spread :
      (m : IoManager E.Kernel) (fd g : ℕ) (e : EpollEvent) (s t : Events)
      → cur_at m.fd_contexts fd ≡ s
      → minus s (real_events e s) ≡ t
      → (if g == fd then t else cur_at m.fd_contexts g) ≡ (
          if g == fd
          then minus (cur_at m.fd_contexts g) (real_events e (cur_at m.fd_contexts g))
          else cur_at m.fd_contexts g)
  spread m fd g e s t h k = elim (Bool-cases (g == fd)) [
    | inl same ↦
        let q = (==_iff g fd).0 same in
        let self : (fd == fd) ≡ true = (==_iff fd fd).1 refl in rw (q, self, h) (sym k)
    | inr other ↦ rw other refl
  ]

  kept :
      (m : IoManager E.Kernel) (fd g : ℕ) (s : Events)
      → cur_at m.fd_contexts fd ≡ s
      → cur_at m.fd_contexts g ≡ (if g == fd then s else cur_at m.fd_contexts g)
  kept m fd g s h = ground (arith, ==_iff g fd, h)

  changes :
      (m : IoManager E.Kernel) (fd : ℕ) (e : EpollEvent) (c : FdContext) (n : IoManager E.Kernel)
      → Inv E m
      → get_elem? m.fd_contexts fd ≡ some c
      → (fd == m.tickle_fd) ≡ false
      → (e.readable ≡ true → c.cur_events.reading ≡ true)
      → (e.writable ≡ true → c.cur_events.writing ≡ true)
      → let real = real_events e c.cur_events in
        Removed E m fd
          (minus c.cur_events real)
          (tasks_of c real)
          (not (is_none (both c.cur_events real)) && accepted E m fd (minus c.cur_events real))
          n
        → (let d = context_at m.fd_contexts fd in
            n.scheduled ≡ m.scheduled ++ tasks_of d (real_events e d.cur_events))
          × ((g : ℕ)
              → cur_at n.fd_contexts g ≡ (
                  let s = cur_at m.fd_contexts g in
                  if g == fd then minus s (real_events e s) else s))
  changes m fd e c n v here out reads writes x =
      let cur = ap cur_of here in
      let real = real_events e c.cur_events in
      elim (Bool-cases (is_none (both c.cur_events real))) [
        | inl idle ↦
            let (no_tasks, all_left) = quiet c e reads writes idle in
            (
              x.scheduled ∙ rw (idle, here, no_tasks) (sym (append-nil m.scheduled)),
              λ g.
                  x.events g
                  ∙ rw idle (kept m fd g c.cur_events cur ∙ spread m fd g e _ _ cur all_left),
            )
        | inr busy ↦
            let takes =
              Willing-accepted E m fd (minus c.cur_events real) willing v out
                (ap is_none cur ∙ ground (arith, busy)) in
            (
              x.scheduled ∙ rw (busy, takes, here) refl,
              λ g. x.events g ∙ rw (busy, takes) (spread m fd g e _ _ cur refl),
            )
      ]

  pub handle_one :
      (m : IoManager E.Kernel) (fd : ℕ) (e : EpollEvent) (c : FdContext)
      → Inv E m
      → get_elem? m.fd_contexts fd ≡ some c
      → Reports m.fd_contexts m.tickle_fd fd e
      → (n : IoManager E.Kernel) × (handle_event E m fd e ≡ ok n) × HandledOne m fd e n
  handle_one m fd e c v here r =
      let cur = ap cur_of here in
      let (n, eq, x) =
        handle_event_lem E m fd e v c here
          (λ h. ap (λ (s : Events). s.reading) (sym cur) ∙ r.reads h)
          (λ h. ap (λ (s : Events). s.writing) (sym cur) ∙ r.writes h) in
      let (tasks, events) =
        changes m fd e c n v here r.out (λ h. ap (λ (s : Events). s.reading) (sym cur) ∙ r.reads h)
          (λ h. ap (λ (s : Events). s.writing) (sym cur) ∙ r.writes h) x in
      (
        n,
        eq,
        record {
          inv = x.inv;
          scheduled = tasks;
          events = events;
          others = x.others;
          pipe = x.pipe;
          size = x.size;
        },
      )

  -- Reports of the contexts as they are, where epoll takes every change: no assertion fails, every
  -- event that is reported waits no more, and its task is handed over, those of all descriptors in
  -- the order of the reports; no other event changes, and the invariant holds on.
  pub handle_events_lem :
      (m : IoManager E.Kernel) (es : List (Option ℕ × EpollEvent))
      → Inv E m
      → Fresh m.fd_contexts m.tickle_fd es
      → (n : IoManager E.Kernel) × (handle_events E m es ≡ ok n) × Handled E m es n
  unfolding handle_events
  handle_events_lem m [] v f =
      (m, refl, record { inv = v; scheduled = sym (append-nil m.scheduled); events = λ g. refl })
  handle_events_lem m ((none, e) ∷ es) v f =
      let (n, eq, h) = handle_events_lem m es v f in
      (n, eq, record { inv = h.inv; scheduled = h.scheduled; events = h.events })
  handle_events_lem m ((some fd, e) ∷ es) v f = elim (Option-cases (get_elem? m.fd_contexts fd)) [
    | inl gone ↦ absurd (ground (arith, gone, f.0.known))
    | inr (c, here) ↦
        let (k, eq, one) = handle_one m fd e c v here f.0 in
        let (fresh, tasks) =
          Fresh-same m.fd_contexts k.fd_contexts m.tickle_fd fd es one.others f.1 f.2 in
        let fresh_k : Fresh k.fd_contexts k.tickle_fd es =
          subst (λ p. Fresh k.fd_contexts p es) (sym one.pipe) fresh in
        let (n, eq2, h) = handle_events_lem k es one.inv fresh_k in
        (
          n,
          rw eq eq2,
          record {
            inv = h.inv;
            scheduled =
                h.scheduled
                ∙ rw (one.scheduled, tasks)
                    (append_assoc m.scheduled
                      (tasks_of (context_at m.fd_contexts fd)
                        (real_events e (context_at m.fd_contexts fd).cur_events))
                      (reported_tasks m.fd_contexts es));
            events = λ g. h.events g ∙ ap (left_of es g) (one.events g);
          },
        )
  ]
