-- ===== src/Hook/Descriptors/Closing.antt =====
-- A descriptor from the call that opens it to the call that closes it.
use mnser.Common.{
  ℕ, [], ◌++◌, Bool, true, false, ◌≡◌, refl, sym, ap, ◌∙◌, arith, ◌==◌, ==_iff, if◌then◌else◌,
  Option, none, some, is_some, length, leb, get_elem?, ok, Bool-cases, Option-cases, inl, inr,
  append-nil,
}
use mnser.FdManager.{FdManager, at, get_ctx, del_fd}
use mnser.FdManager.Vector.{del_fd_lem, at-beyond}
use mnser.IoManager.{FdContext, nothing, is_none, Epoll, IoManager, cancel_all}
use mnser.IoManager.Invariant.{cur_of, cur_at, Inv}
use mnser.IoManager.Calls.{context_of, context_at}
use mnser.IoManager.Both.{tasks_of}
use mnser.IoManager.Idle.{cancel_all_lem}
use mnser.IoManager.Willing.{Willing, Willing-accepted}
use mnser.Hook.Descriptors.{close_fd}

-- Without `auto_create`, `get` is a lookup.
lookup : (m : FdManager) (fd : ℕ) → get_ctx m (some fd) false 0 none ≡ (at m.datas fd, m)
unfolding get_ctx
lookup m fd = elim (Bool-cases (leb (length m.datas) fd)) [
  | inl short ↦ rw (short, at-beyond m.datas fd (ground (arith, short))) refl
  | inr there ↦ ground (arith, there)
]

no_tasks : (c : FdContext) → is_none c.cur_events ≡ true → tasks_of c c.cur_events ≡ []
no_tasks c h = ground (arith, h)

context_events : (o : Option FdContext) → (context_of o).cur_events ≡ cur_of o
context_events none = refl
context_events (some c) = refl

module _ (E : Epoll) (willing : Willing E) where
  -- After `cancelAll` no event of the descriptor waits, and the tasks of those that did have been
  -- handed over.
  all_cancelled :
      (io : IoManager E.Kernel) (fd : ℕ)
      → Inv E io
      → (fd == io.tickle_fd) ≡ false
      → (b : Bool) × (n : IoManager E.Kernel) × (cancel_all E io fd ≡ ok (b, n))
        × Inv E n
        × (n.scheduled
            ≡ io.scheduled ++ (let c = context_at io.fd_contexts fd in tasks_of c c.cur_events))
        × ((g : ℕ)
            → cur_at n.fd_contexts g ≡ (if g == fd then nothing else cur_at io.fd_contexts g))
  all_cancelled io fd v out =
      let (n, eq, r) = cancel_all_lem E io fd v in
      elim (Bool-cases (is_none (cur_at io.fd_contexts fd))) [
        | inl idle ↦
            let none_in : is_none (context_at io.fd_contexts fd).cur_events ≡ true =
              ap is_none (context_events (get_elem? io.fd_contexts fd)) ∙ idle in
            (
              _,
              n,
              eq,
              r.inv,
              r.scheduled
                  ∙ rw none_in (
                      sym (
                        ap (λ ts. io.scheduled ++ ts)
                          (no_tasks (context_at io.fd_contexts fd) none_in)
                        ∙ append-nil io.scheduled)),
              λ g. r.events g ∙ rw none_in (ground (arith, ==_iff g fd, idle)),
            )
        | inr busy ↦
            let takes = Willing-accepted E io fd nothing willing v out busy in
            let some_in : is_none (context_at io.fd_contexts fd).cur_events ≡ false =
              ap is_none (context_events (get_elem? io.fd_contexts fd)) ∙ busy in
            (
              _,
              n,
              eq,
              r.inv,
              r.scheduled ∙ rw (some_in, takes) refl,
              λ g. r.events g ∙ rw (some_in, takes) refl,
            )
      ]

  -- Closing a descriptor that has a context, on a thread of an IoManager where epoll takes every
  -- change: no assertion fails; its context is gone and no other descriptor's; none of its events
  -- waits any more, while those of the others do as before; and the tasks of those that waited,
  -- and only these, are handed over, so that the fibers that wait for them go on.
  pub close_lem :
      (io : IoManager E.Kernel) (m : FdManager) (fd : ℕ)
      → Inv E io
      → (fd == io.tickle_fd) ≡ false
      → is_some (at m.datas fd) ≡ true
      → (n : IoManager E.Kernel) × (m' : FdManager) × (close_fd E true true io m fd ≡ ok (n, m'))
        × Inv E n
        × ((g : ℕ) → at m'.datas g ≡ (if g == fd then none else at m.datas g))
        × ((g : ℕ)
            → cur_at n.fd_contexts g ≡ (if g == fd then nothing else cur_at io.fd_contexts g))
        × (n.scheduled
            ≡ io.scheduled ++ (let c = context_at io.fd_contexts fd in tasks_of c c.cur_events))
  unfolding close_fd
  close_lem io m fd v out known = elim (Option-cases (at m.datas fd)) [
    | inl gone ↦ absurd (ground (arith, known, gone))
    | inr (a, here) ↦
        let (b, n, eq, inv, tasks, events) = all_cancelled io fd v out in
        (
          n,
          del_fd m fd,
          rw (lookup m fd, close_fd, here, eq) refl,
          inv,
          del_fd_lem m fd,
          events,
          tasks,
        )
  ]
