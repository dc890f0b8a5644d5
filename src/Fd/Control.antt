-- ===== src/Fd/Control.antt =====
-- lfdlib.c: calls that make, copy, describe and lock file descriptors.
use lua_xlib.Base.Words.{to_short, to_int, to_uint32}
use lua_xlib.Base.Int.{ℤ, eq_ℤ, pos, negsuc}
use lua_xlib.Lua.{
  Bytes, Fields, Reply, SysRet, field, boolean_status, failed, string, arg_error, report_error,
  text, integer, lret_negative, lret_nil, done, end, values, table,
}
use mathlib.Core.Option.{get_or}
use lua_xlib.Base.{ℕ, Bool, Option, if◌then◌else◌, some, ◌||◌, none, ◌∷◌, []}

-- `struct flock`
pub record Flock : Type 0 where
  pub l_type : ℤ
  pub l_whence : ℤ
  pub l_start : ℤ
  pub l_len : ℤ
  pub l_pid : ℤ

-- The system calls of these functions. A mode, a user and a group are 32 bits wide; `fpathconf` answers
-- `none` where it returns -1 and leaves errno alone.
pub record ControlCalls (W : Type 0) : Type 0 where
  pub open_file : Bytes → ℤ → ℕ → W → SysRet ℕ × W
  pub creat : Bytes → ℕ → W → SysRet ℕ × W
  pub pipe : W → SysRet (ℕ × ℕ) × W
  pub fpathconf : ℤ → ℤ → W → SysRet (Option ℕ) × W
  pub fsync : ℤ → W → SysRet (Unit {0}) × W
  pub fchmod : ℤ → ℕ → W → SysRet (Unit {0}) × W
  pub fchown : ℤ → ℕ → ℕ → W → SysRet (Unit {0}) × W
  pub dup : ℤ → W → SysRet ℕ × W
  pub dup2 : ℤ → ℤ → W → SysRet ℕ × W
  pub fcntl : ℤ → ℤ → ℤ → W → SysRet ℕ × W
  pub fcntl_lock : ℤ → ℤ → Flock → W → SysRet (ℕ × Flock) × W
  pub lockf : ℤ → ℤ → ℤ → W → SysRet (Unit {0}) × W

-- `cmd==F_GETLK || cmd==F_SETLK || cmd==F_SETLKW`, as Linux numbers them
abbrev pub f_getlk : ℤ
f_getlk = pos 5

abbrev pub is_lock_command : ℤ → Bool
is_lock_command cmd = eq_ℤ cmd f_getlk || eq_ℤ cmd (pos 6) || eq_ℤ cmd (pos 7)

-- The fields of the table that `fd.flock` takes.
pub record LockRange : Type 0 where
  pub start : Option ℤ
  pub len : Option ℤ
  pub whence : Option ℤ

-- The lock that `fd.flock` asks about or sets; its type and whence are C's `short`. `SEEK_SET` is 0.
abbrev pub lock_of : ℤ → Option LockRange → Flock
lock_of lock_type none = record {
  l_type = to_short lock_type;
  l_whence = pos 0;
  l_start = pos 0;
  l_len = pos 0;
  l_pid = pos 0;
}
lock_of lock_type (some r) = record {
  l_type = to_short lock_type;
  l_whence = to_short (get_or r.whence (pos 0));
  l_start = get_or r.start (pos 0);
  l_len = get_or r.len (pos 0);
  l_pid = pos 0;
}

-- The table of a lock, as `fd.flock` returns it.
abbrev pub lock_fields : Flock → Fields
lock_fields k = field (string (text "l_type")) (integer k.l_type) (
    field (string (text "l_whence")) (integer k.l_whence) (
      field (string (text "l_start")) (integer k.l_start) (
        field (string (text "l_len")) (integer k.l_len)
          (field (string (text "l_pid")) (integer k.l_pid) end))))

module _ {W : Type 0} (strerror : ℕ → Bytes) (calls : ControlCalls W) where
  abbrev number : SysRet ℕ × W → Reply × W
  number (failed e, w) = (report_error strerror lret_negative e, w)
  number (done n, w) = (values (integer (pos n) ∷ []), w)

  abbrev status : SysRet (Unit {0}) × W → Reply × W
  status (ret, w) = (boolean_status strerror ret, w)

  -- `fd.open(path, flags[, mode=0644])`
  unfoldable pub lfd_open : Bytes → ℤ → Option ℤ → W → Reply × W
  lfd_open path flags mode w =
      number (calls.open_file path (to_int flags) (to_uint32 (get_or mode (pos 0o644))) w)

  -- `fd.creat(path[, mode=0644])`
  unfoldable pub lfd_creat : Bytes → Option ℤ → W → Reply × W
  lfd_creat path mode w = number (calls.creat path (to_uint32 (get_or mode (pos 0o644))) w)

  abbrev pipe_reply : SysRet (ℕ × ℕ) × W → Reply × W
  pipe_reply (failed e, w) = (report_error strerror lret_nil e, w)
  pipe_reply (done (a, b), w) = (
    values (
        table (
          field (integer (pos 1)) (integer (pos a)) (field (integer (pos 2)) (integer (pos b)) end))
        ∷ []),
    w,
  )

  -- `fd.pipe()`
  unfoldable pub lfd_pipe : W → Reply × W
  lfd_pipe w = pipe_reply (calls.pipe w)

  abbrev pathconf_reply : SysRet (Option ℕ) × W → Reply × W
  pathconf_reply (failed e, w) = (report_error strerror lret_negative e, w)
  pathconf_reply (done none, w) = (values (integer (negsuc 0) ∷ []), w)
  pathconf_reply (done (some n), w) = (values (integer (pos n) ∷ []), w)

  -- `fd.pathconf(fd, name)`
  unfoldable pub lfd_pathconf : ℤ → ℤ → W → Reply × W
  lfd_pathconf fd name w = pathconf_reply (calls.fpathconf (to_int fd) (to_int name) w)

  -- `fd.sync(fd)`
  unfoldable pub lfd_sync : ℤ → W → Reply × W
  lfd_sync fd w = status (calls.fsync (to_int fd) w)

  -- `fd.chmod(fd, mode)`
  unfoldable pub lfd_chmod : ℤ → ℤ → W → Reply × W
  lfd_chmod fd mode w = status (calls.fchmod (to_int fd) (to_uint32 (to_int mode)) w)

  -- `fd.chown(fd[, uid, gid])`
  unfoldable pub lfd_chown : ℤ → Option ℤ → Option ℤ → W → Reply × W
  lfd_chown fd uid gid w = status (
      calls.fchown (to_int fd) (to_uint32 (get_or uid (negsuc 0)))
        (to_uint32 (get_or gid (negsuc 0))) w)

  -- `fd.dup(oldfd)`
  unfoldable pub lfd_dup : ℤ → W → Reply × W
  lfd_dup oldfd w = number (calls.dup (to_int oldfd) w)

  -- `fd.dup2(oldfd, newfd)`
  unfoldable pub lfd_dup2 : ℤ → ℤ → W → Reply × W
  lfd_dup2 oldfd newfd w = number (calls.dup2 (to_int oldfd) (to_int newfd) w)

  -- `fd.fcntl(fd, cmd[, arg=0])`
  unfoldable pub lfd_fcntl : ℤ → ℤ → Option ℤ → W → Reply × W
  lfd_fcntl fd cmd arg w =
      if is_lock_command (to_int cmd)
      then (arg_error 2 (text "please use fcntl(...)"), w)
      else number (calls.fcntl (to_int fd) (to_int cmd) (get_or arg (pos 0)) w)

  abbrev flock_reply : ℤ → SysRet (ℕ × Flock) × W → Reply × W
  flock_reply cmd (failed e, w) = (report_error strerror lret_negative e, w)
  flock_reply cmd (done (retval, k), w) =
      if eq_ℤ cmd f_getlk
      then (values (integer (pos retval) ∷ table (lock_fields k) ∷ []), w)
      else (values (integer (pos retval) ∷ []), w)

  -- `fd.flock(fd, cmd, lock_type[, {start=0, len=0, whence=SEEK_SET}])`
  unfoldable pub lfd_flock : ℤ → ℤ → ℤ → Option LockRange → W → Reply × W
  lfd_flock fd cmd lock_type range w =
      if is_lock_command (to_int cmd)
      then flock_reply (to_int cmd)
          (calls.fcntl_lock (to_int fd) (to_int cmd) (lock_of lock_type range) w)
      else (arg_error 2 (text "value in F_GETLK/F_SETLK/F_SETLKW"), w)

  -- `fd.lockf(fd, cmd[, len=0])`
  unfoldable pub lfd_lockf : ℤ → ℤ → Option ℤ → W → Reply × W
  lfd_lockf fd cmd len w = status (calls.lockf (to_int fd) (to_int cmd) (get_or len (pos 0)) w)
