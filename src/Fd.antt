-- ===== src/Fd.antt =====
-- lfdlib.c: calls on file descriptors that move bytes.
pub mod Sendfile
pub mod Select
pub mod Control
mod Tests
use mathlib.Core.Option.{get_or}
use lua_xlib.Base.Int.{ℤ, pos, negsuc, is_negative, pos_part}
use lua_xlib.Base.Words.{to_int, to_size, sub_size}
use lua_xlib.Lua.{
  Bytes, Reply, values, string, integer, boolean_status, report_error, lret_nil, lret_boolean,
  lret_negative, arg_error, text, SysRet, failed, done,
}
use lua_xlib.Base.{ℕ, Option, none, some, if◌then◌else◌, leb, ◌==◌, ◌∷◌, []}

-- The size of the buffer of `fd.read` and `fd.pread`.
abbrev pub buf_size : ℕ
buf_size = 8192

-- The system calls of these functions. `fstat_size` is `fstat` and its `st_size`; `sendfile` without an
-- offset goes on at the place where the descriptor stands.
pub record FdCalls (W : Type 0) : Type 0 where
  pub close : ℤ → W → SysRet (Unit {0}) × W
  pub lseek : ℤ → ℤ → ℤ → W → SysRet ℕ × W
  pub ftruncate : ℤ → ℤ → W → SysRet (Unit {0}) × W
  pub read : ℤ → ℕ → W → SysRet Bytes × W
  pub write : ℤ → Bytes → W → SysRet ℕ × W
  pub pread : ℤ → ℕ → ℤ → W → SysRet Bytes × W
  pub pwrite : ℤ → Bytes → ℤ → W → SysRet ℕ × W
  pub fstat_size : ℤ → W → SysRet ℕ × W
  pub sendfile : ℤ → ℤ → Option ℤ → ℕ → W → SysRet (Unit {0}) × W

-- `SEEK_SET` and `SEEK_CUR`
abbrev seek_set : ℤ
seek_set = pos 0

abbrev pub seek_cur : ℤ
seek_cur = pos 1

module _ {W : Type 0} (strerror : ℕ → Bytes) (calls : FdCalls W) where
  abbrev pub status : SysRet (Unit {0}) × W → Reply × W
  status (ret, w) = (boolean_status strerror ret, w)

  abbrev count : SysRet ℕ × W → Reply × W
  count (failed e, w) = (report_error strerror lret_negative e, w)
  count (done n, w) = (values (integer (pos n) ∷ []), w)

  abbrev bytes : SysRet Bytes × W → Reply × W
  bytes (failed e, w) = (report_error strerror lret_nil e, w)
  bytes (done bs, w) = (values (string bs ∷ []), w)

  -- `fd.close(fd)`
  unfoldable pub lfd_close : ℤ → W → Reply × W
  lfd_close fd w = status (calls.close (to_int fd) w)

  -- `fd.lseek(fd, offset[, whence])`
  unfoldable pub lfd_lseek : ℤ → ℤ → Option ℤ → W → Reply × W
  lfd_lseek fd offset whence w =
      count (calls.lseek (to_int fd) (to_int offset) (to_int (get_or whence seek_set)) w)

  -- `fd.truncate(fd, length)`
  unfoldable pub lfd_truncate : ℤ → ℤ → W → Reply × W
  lfd_truncate fd length w = status (calls.ftruncate (to_int fd) length w)

  -- `fd.read(fd, size)`
  unfoldable pub lfd_read : ℤ → ℤ → W → Reply × W
  lfd_read fd size w =
      if leb (to_size size) buf_size
      then bytes (calls.read (to_int fd) (to_size size) w)
      else (arg_error 2 (text "size could not large than 8192"), w)

  -- `fd.write(fd, buf)`
  unfoldable pub lfd_write : ℤ → Bytes → W → Reply × W
  lfd_write fd buf w = count (calls.write (to_int fd) buf w)

  -- `fd.pread(fd, size, offset)`
  unfoldable pub lfd_pread : ℤ → ℤ → ℤ → W → Reply × W
  lfd_pread fd size offset w =
      if leb (to_size size) buf_size
      then bytes (calls.pread (to_int fd) (to_size size) offset w)
      else (arg_error 2 (text "size could not large than 8192"), w)

  -- `fd.pwrite(fd, buf, offset)`
  unfoldable pub lfd_pwrite : ℤ → Bytes → ℤ → W → Reply × W
  lfd_pwrite fd buf offset w = count (calls.pwrite (to_int fd) buf offset w)

  -- The call of `sendfile`, with the size that has been settled.
  abbrev pub send : ℤ → ℤ → ℤ → ℕ → W → Reply × W
  send out_fd in_fd offset size w =
      status (calls.sendfile out_fd in_fd (if is_negative offset then none else some offset) size w)

  -- A size of 0 stands for what is left of the file.
  abbrev pub send_rest : ℤ → ℤ → ℤ → SysRet ℕ × W → Reply × W
  send_rest out_fd in_fd offset (failed e, w) = (report_error strerror lret_boolean e, w)
  send_rest out_fd in_fd offset (done st_size, w) =
      if is_negative offset
      then (let (at, w1) = calls.lseek in_fd (pos 0) seek_cur w in
          elim at [
            | failed e ↦ (report_error strerror lret_boolean e, w1)
            | done off ↦ send out_fd in_fd offset (sub_size st_size off) w1
          ])
      else send out_fd in_fd offset (sub_size st_size (pos_part offset)) w

  -- `fd.sendfile(out_fd, in_fd, size, offset=-1)`
  unfoldable pub lfd_sendfile : ℤ → ℤ → Option ℤ → Option ℤ → W → Reply × W
  lfd_sendfile out_fd in_fd size offset w =
      let out_fd = to_int out_fd in
      let in_fd = to_int in_fd in
      let size = to_size (get_or size (pos 0)) in
      let offset = get_or offset (negsuc 0) in
      if size == 0
      then send_rest out_fd in_fd offset (calls.fstat_size in_fd w)
      else send out_fd in_fd offset size w
