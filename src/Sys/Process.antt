-- ===== src/Sys/Process.antt =====
-- lsyslib.c: processes, their groups, their limits and their environment.
pub mod Arguments
mod Tests
use lua_xlib.Base.Words.{to_int, signed64}
use lua_xlib.Lua.{
  Bytes, Reply, SysRet, boolean_status, failed, report_error, lret_boolean, lret_negative, lret_nil,
  arg_error, done, text, values, boolean, integer, nil, string,
}
use lua_xlib.Base.Int.{ℤ, pos, is_negative, negsuc, pos_part}
use mathlib.Core.Option.{get_or}
use lua_xlib.Base.{
  ℕ, Bool, Option, List, if◌then◌else◌, ◌∷◌, length, ◌+◌, ltb, set, [], replicate, some, true, none,
}

-- `struct rlimit`
pub record RLimit : Type 0 where
  pub rlim_cur : ℕ
  pub rlim_max : ℕ

-- An entry of an array of C strings.
pub data Slot : Type 0 where
  unset null : Slot
  pointer : Bytes → Slot

-- The calls of the C library. `basename` gives the name, and what it makes of its argument, which POSIX
-- lets it change. A status of `wait` is an int.
pub record ProcessCalls (W : Type 0) : Type 0 where
  pub getsid : ℤ → W → SysRet ℕ × W
  pub getpgid : ℤ → W → SysRet ℕ × W
  pub setsid : W → SysRet (Unit {0}) × W
  pub setpgid : ℤ → ℤ → W → SysRet (Unit {0}) × W
  pub setpgrp : W → SysRet (Unit {0}) × W
  pub getenv : Bytes → W → Option Bytes
  pub setenv : Bytes → Bytes → ℤ → W → SysRet (Unit {0}) × W
  pub unsetenv : Bytes → W → SysRet (Unit {0}) × W
  pub sysconf : ℤ → W → SysRet (Option ℕ) × W
  pub getrlimit : ℤ → W → SysRet RLimit × W
  pub setrlimit : ℤ → RLimit → W → SysRet (Unit {0}) × W
  pub basename : Bytes → Bytes × Bytes
  pub execvp : Bytes → List Slot → W → SysRet (Unit {0}) × W
  pub daemon : ℤ → ℤ → W → SysRet (Unit {0}) × W
  pub kill : ℤ → ℤ → W → SysRet (Unit {0}) × W
  pub fork : W → SysRet ℕ × W
  pub wait : W → SysRet (ℕ × ℤ) × W
  pub waitpid : ℤ → ℤ → W → SysRet (ℕ × ℤ) × W

-- `char *arg[256];`
abbrev pub max_args : ℕ
max_args = 256

-- `for(index=1; index<narg; index++)`, from an index on.
unfoldable pub fill_args : ℕ → List Bytes → List Slot → List Slot
fill_args index [] arg = arg
fill_args index (s ∷ rest) arg = fill_args (index + 1) rest (set arg index (pointer s))

-- `SIGTERM` and `WNOHANG`
abbrev sigterm : ℤ
sigterm = pos 15

abbrev wnohang : ℤ
wnohang = pos 1

-- A limit is an int, and one below 0 stands for the limit as it is.
abbrev pub new_limit : ℤ → ℕ → ℕ
new_limit z old = if is_negative z then old else pos_part z

-- The array of `sys.execlp`.
abbrev pub arg_array : Bytes → List Bytes → List Slot
arg_array name args =
    set (fill_args 1 args (set (replicate max_args unset) 0 (pointer name))) (length args + 1) null

module _ {W : Type 0} (strerror : ℕ → Bytes) (calls : ProcessCalls W) where
  abbrev pub status : SysRet (Unit {0}) × W → Reply × W
  status (ret, w) = (boolean_status strerror ret, w)

  abbrev number : SysRet ℕ × W → Reply × W
  number (failed e, w) = (report_error strerror lret_negative e, w)
  number (done n, w) = (values (integer (pos n) ∷ []), w)

  -- `sys.getsid([pid])`
  unfoldable pub lsys_getsid : Option ℤ → W → Reply × W
  lsys_getsid pid w = number (calls.getsid (to_int (get_or pid (pos 0))) w)

  -- `sys.getpgid([pid])`
  unfoldable pub lsys_getpgid : Option ℤ → W → Reply × W
  lsys_getpgid pid w = number (calls.getpgid (to_int (get_or pid (pos 0))) w)

  -- `sys.setsid()`
  unfoldable pub lsys_setsid : W → Reply × W
  lsys_setsid w = status (calls.setsid w)

  abbrev group_set : SysRet (Unit {0}) × W → Reply × W
  group_set (failed e, w) = (report_error strerror lret_negative e, w)
  group_set (done u, w) = (values (boolean true ∷ []), w)

  -- `sys.setpgid([pid,] pgid)`
  unfoldable pub lsys_setpgid : Option ℤ → ℤ → W → Reply × W
  lsys_setpgid pid pgid w = group_set (calls.setpgid (to_int (get_or pid (pos 0))) (to_int pgid) w)

  -- `sys.setpgrp()`
  unfoldable pub lsys_setpgrp : W → Reply × W
  lsys_setpgrp w = status (calls.setpgrp w)

  -- `sys.getenv(name)`
  unfoldable pub lsys_getenv : Bytes → W → Reply
  lsys_getenv name w = elim (calls.getenv name w) [
    | none ↦ values (nil ∷ [])
    | some value ↦ values (string value ∷ [])
  ]

  -- `sys.setenv(name, value[, overwrite=1])`
  unfoldable pub lsys_setenv : Bytes → Bytes → Option ℤ → W → Reply × W
  lsys_setenv name value overwrite w =
      status (calls.setenv name value (to_int (get_or overwrite (pos 1))) w)

  -- `sys.unsetenv(name)`
  unfoldable pub lsys_unsetenv : Bytes → W → Reply × W
  lsys_unsetenv name w = status (calls.unsetenv name w)

  abbrev sysconf_reply : SysRet (Option ℕ) × W → Reply × W
  sysconf_reply (failed e, w) = (report_error strerror lret_negative e, w)
  sysconf_reply (done none, w) = (values (integer (negsuc 0) ∷ []), w)
  sysconf_reply (done (some n), w) = (values (integer (pos n) ∷ []), w)

  -- `sys.sysconf(optname)`
  unfoldable pub lsys_sysconf : ℤ → W → Reply × W
  lsys_sysconf name w = sysconf_reply (calls.sysconf (to_int name) w)

  abbrev limits : SysRet RLimit × W → Reply × W
  limits (failed e, w) = (report_error strerror lret_nil e, w)
  limits (done r, w) =
      (values (integer (signed64 r.rlim_cur) ∷ integer (signed64 r.rlim_max) ∷ []), w)

  -- `sys.getrlimit(resource)`
  unfoldable pub lsys_getrlimit : ℤ → W → Reply × W
  lsys_getrlimit resource w = limits (calls.getrlimit (to_int resource) w)

  -- The rest of `sys.setrlimit`, with the limits as they are.
  abbrev pub change_limits : ℤ → ℤ → ℤ → SysRet RLimit × W → Reply × W
  change_limits resource soft hard (failed e, w) = (report_error strerror lret_boolean e, w)
  change_limits resource soft hard (done r, w) = status (
      calls.setrlimit resource
        (record { rlim_cur = new_limit soft r.rlim_cur; rlim_max = new_limit hard r.rlim_max }) w)

  -- `sys.setrlimit(resource, softlimit[, hardlimit=-1])`
  unfoldable pub lsys_setrlimit : ℤ → Option ℤ → Option ℤ → W → Reply × W
  lsys_setrlimit resource softlimit hardlimit w =
      change_limits (to_int resource) (to_int (get_or softlimit (negsuc 0)))
        (to_int (get_or hardlimit (negsuc 0))) (calls.getrlimit (to_int resource) w)

  -- `sys.execlp(file, arg, ...)`
  unfoldable pub lsys_execlp : Bytes → List Bytes → W → Reply × W
  lsys_execlp file args w =
      if ltb (length args + 1) max_args
      then status (calls.execvp (calls.basename file).1 (arg_array (calls.basename file).0 args) w)
      else (arg_error (length args + 1) (text "too many args"), w)

  -- `sys.daemon([nochdir=1[, noclose=0]])`
  unfoldable pub lsys_daemon : Option ℤ → Option ℤ → W → Reply × W
  lsys_daemon nochdir noclose w =
      status (calls.daemon (to_int (get_or nochdir (pos 1))) (to_int (get_or noclose (pos 0))) w)

  -- `sys.kill(pid[, signo])`
  unfoldable pub lsys_kill : ℤ → Option ℤ → W → Reply × W
  lsys_kill pid signo w = status (calls.kill (to_int pid) (to_int (get_or signo sigterm)) w)

  -- `sys.fork()`
  unfoldable pub lsys_fork : W → Reply × W
  lsys_fork w = number (calls.fork w)

  abbrev waited : SysRet (ℕ × ℤ) × W → Reply × W
  waited (failed e, w) = (report_error strerror lret_negative e, w)
  waited (done (pid, st), w) = (values (integer (pos pid) ∷ integer st ∷ []), w)

  -- `sys.wait()`
  unfoldable pub lsys_wait : W → Reply × W
  lsys_wait w = waited (calls.wait w)

  -- `sys.waitpid(pid[, options])`
  unfoldable pub lsys_waitpid : ℤ → Option ℤ → W → Reply × W
  lsys_waitpid pid options w =
      waited (calls.waitpid (to_int pid) (to_int (get_or options wnohang)) w)
