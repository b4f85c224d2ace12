-- ===== src/Hook/Descriptors.antt =====
-- src/hook.cpp: the calls that open, close and set descriptors. The system's calls are the parameter `Descriptors`, as their manual pages have it.
use mnser.Common.{
  ℕ, ◌+◌, ◌*◌, ◌/◌, ◌%◌, ◌^◌, Bool, true, false, not, ◌&&◌, ◌||◌, ◌==◌, if◌then◌else◌, ◌≡◌,
}
use mnser.Common.{Option, none, some, Result, ok, ◌>>=◌}
use mnser.FdManager.{FdCtx, FdManager, get_ctx, del_fd, set_timeout}
use mnser.IoManager.{Epoll, IoManager, cancel_all}
pub mod Flags
pub mod Closing
mod Tests

-- The flags of F_GETFL: O_NONBLOCK, the others that F_SETFL sets, and the access mode with the flags
-- of creation, which F_SETFL passes by.
pub record FileFlags : Type 0 where
  pub nonblock : Bool
  pub settable : ℕ
  pub fixed : ℕ

-- F_SETFL, F_GETFL and FIONBIO of one open descriptor, which do not fail.
pub record Descriptors : Type 1 where
  pub Os : Type 0
  pub flags : Os → FileFlags
  pub set_flags : FileFlags → Os → Os
  pub set_nonblock : Bool → Os → Os
  pub flags-set_flags :
      (f : FileFlags) (o : Os) → flags (set_flags f o) ≡ record f { fixed = (flags o).fixed }
  pub flags-set_nonblock :
      (b : Bool) (o : Os) → flags (set_nonblock b o) ≡ record (flags o) { nonblock = b }

abbrev pub checked : (ℕ → FdCtx) → Option ℕ → Option ℕ
checked ctx none = none
checked ctx (some a) = if (ctx a).is_closed || not (ctx a).is_socket then none else some a

-- The context of a descriptor that the hooks treat: an open socket.
abbrev pub treated : FdManager → ℕ → Option ℕ
treated m fd = checked m.ctx (get_ctx m (some fd) false 0 none).0

abbrev pub set_user_nonblock : FdManager → ℕ → Bool → FdManager
set_user_nonblock m a b = record m {
  ctx = λ x. if x == a then record (m.ctx a) { user_nonblock = b } else m.ctx x;
}

module _ (D : Descriptors) where
  unfoldable pub fcntl_setfl : FdManager → ℕ → FileFlags → D.Os → FdManager × D.Os
  fcntl_setfl m fd arg o = elim (treated m fd) [
    | none ↦ (m, D.set_flags arg o)
    | some a ↦ (
      set_user_nonblock m a arg.nonblock,
      D.set_flags (record arg { nonblock = (m.ctx a).sys_nonblock }) o,
    )
  ]

  unfoldable pub fcntl_getfl : FdManager → ℕ → D.Os → FileFlags
  fcntl_getfl m fd o = elim (treated m fd) [
    | none ↦ D.flags o
    | some a ↦ record (D.flags o) { nonblock = (m.ctx a).user_nonblock }
  ]

  -- `ioctl` of FIONBIO.
  unfoldable pub ioctl_fionbio : FdManager → ℕ → Bool → D.Os → FdManager × D.Os
  ioctl_fionbio m fd b o = elim (treated m fd) [
    | none ↦ (m, D.set_nonblock b o)
    | some a ↦ (set_user_nonblock m a b, D.set_nonblock b o)
  ]

-- What `setsockopt` does to the context: `receives` is SO_RCVTIMEO, and otherwise SO_SNDTIMEO, for
-- a time that fits.
unfoldable pub setsockopt_timeout : Bool → FdManager → ℕ → Bool → ℕ → ℕ → FdManager
setsockopt_timeout hook_enabled m fd receives tv_sec tv_usec =
    if not hook_enabled then m else elim (get_ctx m (some fd) false 0 none).0 [
      | none ↦ m
      | some a ↦
          let c = set_timeout (m.ctx a) receives ((tv_sec * 1000 + tv_usec / 1000) % 2 ^ 64) in
          record m { ctx = λ x. if x == a then c else m.ctx x }
    ]

-- `socket`, on what the original function returns, where `none` is -1; `addr` and `stat` are those
-- of the new context.
unfoldable pub opened : Bool → FdManager → Option ℕ → ℕ → Option Bool → FdManager
opened hook_enabled m none addr stat = m
opened hook_enabled m (some fd) addr stat =
    if not hook_enabled then m else (get_ctx m (some fd) true addr stat).1

-- `close`, before `close_f`; `on_manager` says whether the thread runs an IoManager.
unfoldable pub close_fd :
    (E : Epoll)
    → Bool
    → Bool
    → IoManager E.Kernel
    → FdManager
    → ℕ
    → Result (IoManager E.Kernel × FdManager)
close_fd E hook_enabled on_manager io m fd =
    if not hook_enabled then ok (io, m) else elim (get_ctx m (some fd) false 0 none).0 [
      | none ↦ ok (io, m)
      | some a ↦
          if on_manager
          then (cancel_all E io fd >>= λ r. ok (r.1, del_fd m fd))
          else ok (io, del_fd m fd)
    ]
