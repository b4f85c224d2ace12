-- ===== src/IoManager/Sample.antt =====
-- A small epoll, which takes every call that fits what a descriptor is registered for.
use mnser.Common.{ℕ, Bool, not, refl, ◌==◌, if◌then◌else◌, Option, is_some}
use mnser.IoManager.{Events, CtlOp, epoll_ctl_add, epoll_ctl_mod, epoll_ctl_del, changed, Epoll}

abbrev pub Interests : Type 0
Interests = ℕ → Option Events

abbrev pub allowed : CtlOp → Option Events → Bool
allowed epoll_ctl_add o = not (is_some o)
allowed epoll_ctl_mod o = is_some o
allowed epoll_ctl_del o = is_some o

abbrev pub ctl : CtlOp → ℕ → Events → Interests → Bool × Interests
ctl op fd s k = (
  allowed op (k fd),
  if allowed op (k fd) then (λ g. if g == fd then changed op s else k g) else k,
)

abbrev pub epoll : Epoll
epoll = record {
  Kernel = Interests;
  ctl = ctl;
  interest = λ k. k;
  ctl_done = λ op fd s k g h. rw h refl;
  ctl_refused = λ op fd s k g h. rw h refl;
}
