-- ===== src/IoManager/Willing.antt =====
-- Where epoll takes every change of what it is registered for.
use mnser.Common.{ℕ, true, false, ◌≡◌, ◌∙◌, ◌==◌, some, arith}
use mnser.IoManager.{Events, is_none, Epoll, IoManager}
use mnser.IoManager.Invariant.{cur_at, registered, Inv}
use mnser.IoManager.Steps.{shrink_op, accepted}

-- `epoll_ctl` changes or ends what a descriptor is registered for without fail.
abbrev pub Willing : Epoll → Type 0
Willing E =
    (fd : ℕ) (s t : Events) (k : E.Kernel)
    → E.interest k fd ≡ some t
    → (E.ctl (shrink_op s) fd s k).0 ≡ true

pub Willing-accepted :
    (E : Epoll) (m : IoManager E.Kernel) (fd : ℕ) (s : Events)
    → Willing E
    → Inv E m
    → (fd == m.tickle_fd) ≡ false
    → is_none (cur_at m.fd_contexts fd) ≡ false
    → accepted E m fd s ≡ true
Willing-accepted E m fd s w v out waits =
    let cur = cur_at m.fd_contexts fd in
    let known : registered cur ≡ some cur = ground (arith, waits) in
    w fd s cur m.kernel (v.known fd out ∙ known)
