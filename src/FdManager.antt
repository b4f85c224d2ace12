-- ===== src/FdManager.antt =====
-- inc/fd_manager.h and src/fd_manager.cpp: the contexts of file descriptors. A context is an
-- object of the store `ctx`, by address; a null pointer in the vector is `none`. What `fstat` says
-- of a descriptor and the address of a new context are arguments; `fcntl`, which sets the flag of
-- the descriptor itself, is not modelled. A descriptor of `none` is -1.
pub mod Vector
mod Tests
use mnser.Common.{
  ℕ, ◌-◌, ◌*◌, ◌/◌, ◌^◌, List, ◌++◌, Bool, true, false, not, ◌||◌, leb, ◌==◌, if◌then◌else◌,
}
use mnser.Common.{Option, none, some, is_some, length, get_elem?, set, take, replicate}

pub record FdCtx : Type 0 where
  pub is_init : Bool
  pub is_socket : Bool
  pub sys_nonblock : Bool
  pub user_nonblock : Bool
  pub is_closed : Bool
  pub recv_timeout : ℕ
  pub send_timeout : ℕ

pub record FdManager : Type 0 where
  pub ctx : ℕ → FdCtx
  pub datas : List (Option ℕ)

-- The constructor with `init`, on whether `fstat` succeeds and finds a socket.
abbrev pub new_fd_ctx : Option Bool → FdCtx
new_fd_ctx stat = record {
  is_init = is_some stat;
  is_socket = elim stat [ none ↦ false | some b ↦ b ];
  sys_nonblock = elim stat [ none ↦ false | some b ↦ b ];
  user_nonblock = false;
  is_closed = false;
  recv_timeout = 2 ^ 64 - 1;
  send_timeout = 2 ^ 64 - 1;
}

-- The type is SO_RCVTIMEO or another.
unfoldable pub set_timeout : FdCtx → Bool → ℕ → FdCtx
set_timeout c is_recv v =
    if is_recv then record c { recv_timeout = v } else record c { send_timeout = v }

unfoldable pub get_timeout : FdCtx → Bool → ℕ
get_timeout c is_recv = if is_recv then c.recv_timeout else c.send_timeout

abbrev pub pointed : Option (Option ℕ) → Option ℕ
pointed none = none
pointed (some p) = p

abbrev pub at : List (Option ℕ) → ℕ → Option ℕ
at datas fd = pointed (get_elem? datas fd)

unfoldable pub resize : List (Option ℕ) → ℕ → List (Option ℕ)
resize datas n = take n datas ++ replicate (n - length datas) none

-- The part of `get` under the write lock.
unfoldable pub create : FdManager → ℕ → ℕ → Option Bool → Option ℕ × FdManager
create m fd addr stat =
    let datas = if leb (length m.datas) fd then resize m.datas (fd * 3 / 2) else m.datas in
    (
      some addr,
      record {
        ctx = λ b. if b == addr then new_fd_ctx stat else m.ctx b;
        datas = set datas fd (some addr);
      },
    )

unfoldable pub get_ctx : FdManager → Option ℕ → Bool → ℕ → Option Bool → Option ℕ × FdManager
get_ctx m none auto_create addr stat = (none, m)
get_ctx m (some fd) auto_create addr stat =
    if leb (length m.datas) fd
    then (if not auto_create then (none, m) else create m fd addr stat)
    else if is_some (at m.datas fd) || not auto_create
    then (at m.datas fd, m)
    else create m fd addr stat

unfoldable pub del_fd : FdManager → ℕ → FdManager
del_fd m fd = if leb (length m.datas) fd then m else record m { datas = set m.datas fd none }
