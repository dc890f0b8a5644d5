-- ===== src/Sys/Calls.antt =====
-- lsyslib.c: the functions that hand one call of the system to Lua: identities, sleeping, times and names. A double that
-- is an argument is given by what the code makes of it, and `number` makes the double that is pushed of whole
-- seconds and of parts of one, of which there are so many to the second.
use lua_xlib.Base.Words.{to_int, to_uint32}
use lua_xlib.Lua.{
  Bytes, LuaValue, Fields, Flag, Reply, SysRet, table, c_string, end, failed, field, integer,
  lret_negative, lret_nil, string, values, boolean_status, report_error, text, done, arg_error, nil,
}
use lua_xlib.Base.Int.{ℤ, pos}
use lua_xlib.Base.{
  none, some, List, ℕ, Option, ◌⊎◌, inl, ◌∷◌, [], if◌then◌else◌, ◌^◌, ltb, ◌==◌, inr, length,
}
use lua_xlib.Constants.{eintr}
use mathlib.Core.Option.{get_or}
use Prim.Native.String.{String, []}

-- `struct utsname`, without the `domainname` that only a build with _GNU_SOURCE reads
pub record UtsName : Type 0 where
  pub sysname : Bytes
  pub nodename : Bytes
  pub release : Bytes
  pub version : Bytes
  pub machine : Bytes

-- `struct rusage`, the times as seconds and microseconds
pub record RUsage : Type 0 where
  pub utime : ℤ × ℤ
  pub stime : ℤ × ℤ
  pub ru_maxrss : ℤ
  pub ru_ixrss : ℤ
  pub ru_idrss : ℤ
  pub ru_isrss : ℤ
  pub ru_minflt : ℤ
  pub ru_majflt : ℤ
  pub ru_nswap : ℤ
  pub ru_inblock : ℤ
  pub ru_oublock : ℤ
  pub ru_msgsnd : ℤ
  pub ru_msgrcv : ℤ
  pub ru_nsignals : ℤ
  pub ru_nvcsw : ℤ
  pub ru_nivcsw : ℤ

-- The system calls. `nanosleep` fails with what is left of its time. `pathconf` gives no value without `errno` as
-- -1. `_exit` gives the state in which the process is gone.
pub record PlainCalls (W : Type 0) : Type 0 where
  pub getpid : W → ℤ
  pub getppid : W → ℤ
  pub getpgrp : W → SysRet ℤ
  pub alarm : ℕ → W → ℕ × W
  pub pause : W → W
  pub sleep : ℕ → W → ℕ × W
  pub usleep : ℕ → W → SysRet (Unit {0}) × W
  pub nanosleep : ℤ → ℤ → W → (ℕ × ℤ × ℤ ⊎ Unit {0}) × W
  pub gettimeofday : W → SysRet (ℤ × ℤ)
  pub uname : W → SysRet UtsName
  pub getlogin : W → Option Bytes
  pub gethostid : W → ℤ
  pub ctermid : W → Bytes
  pub crypt : Bytes → Bytes → W → SysRet Bytes × W
  pub pathconf : Bytes → ℤ → W → SysRet ℤ
  pub getpagesize : W → ℤ
  pub getrusage : ℤ → W → SysRet RUsage
  pub exit : ℤ → W → W

abbrev numbers : List (String × ℤ) → Fields
numbers [] = end
numbers ((name, value) ∷ more) = field (string (text name)) (integer value) (numbers more)

abbrev texts : List (String × Bytes) → Fields
texts [] = end
texts ((name, value) ∷ more) = field (string (text name)) (string value) (texts more)

abbrev pub uname_table : UtsName → LuaValue
uname_table n = table (
    texts (
      ("sysname", n.sysname)
      ∷ ("nodename", n.nodename)
      ∷ ("release", n.release)
      ∷ ("version", n.version)
      ∷ ("machine", n.machine)
      ∷ []))

module _ {W : Type 0} (strerror : ℕ → Bytes) (number : ℤ → ℤ → ℕ → LuaValue)
    (calls : PlainCalls W) where
  abbrev pub one : LuaValue → Reply
  one v = values (v ∷ [])

  abbrev pub answered : {A : Type 0} → Flag → (A → LuaValue) → SysRet A → Reply
  answered r push (failed e) = report_error strerror r e
  answered r push (done a) = one (push a)

  unfoldable pub lsys_getpid : W → Reply
  lsys_getpid w = one (integer (calls.getpid w))

  unfoldable pub lsys_getppid : W → Reply
  lsys_getppid w = one (integer (calls.getppid w))

  unfoldable pub lsys_getpgrp : W → Reply
  lsys_getpgrp w = answered lret_negative (λ (p : ℤ). integer p) (calls.getpgrp w)

  -- `sys.alarm(seconds)`, `sys.pause()`, `sys.sleep(seconds)` and `sys.usleep(usec)`
  unfoldable pub lsys_alarm : ℤ → W → Reply × W
  lsys_alarm seconds w =
      let (left, w1) = calls.alarm (to_uint32 seconds) w in (one (integer (pos left)), w1)

  unfoldable pub lsys_pause : W → Reply × W
  lsys_pause w = (values [], calls.pause w)

  unfoldable pub lsys_sleep : ℤ → W → Reply × W
  lsys_sleep seconds w =
      let (left, w1) = calls.sleep (to_uint32 seconds) w in (one (integer (pos left)), w1)

  -- `useconds_t` is an unsigned int.
  unfoldable pub lsys_usleep : ℤ → W → Reply × W
  lsys_usleep usec w =
      let (ret, w1) = calls.usleep (to_uint32 usec) w in (boolean_status strerror ret, w1)

  abbrev slept : (ℕ × ℤ × ℤ ⊎ Unit {0}) × W → Reply × W
  slept (inl (e, sec, nsec), w) =
      (if e == eintr then one (number sec nsec (10 ^ 9)) else report_error strerror lret_nil e, w)
  slept (inr u, w) = (one (number (pos 0) (pos 0) (10 ^ 9)), w)

  -- `sys.nanosleep(seconds)`, of whole seconds and nanoseconds
  unfoldable pub lsys_nanosleep : (sec nsec : ℤ) → W → Reply × W
  lsys_nanosleep sec nsec w = slept (calls.nanosleep sec nsec w)

  unfoldable pub lsys_gettimeofday : W → Reply
  lsys_gettimeofday w =
      answered lret_nil (λ (t : ℤ × ℤ). number t.0 t.1 (10 ^ 6)) (calls.gettimeofday w)

  unfoldable pub lsys_uname : W → Reply
  lsys_uname w = answered lret_nil uname_table (calls.uname w)

  -- A null pointer is pushed as nil.
  unfoldable pub lsys_getlogin : W → Reply
  lsys_getlogin w = elim (calls.getlogin w) [ none ↦ one nil | some name ↦ one (string name) ]

  unfoldable pub lsys_gethostid : W → Reply
  lsys_gethostid w = one (integer (calls.gethostid w))

  unfoldable pub lsys_ctermid : W → Reply
  lsys_ctermid w = one (string (calls.ctermid w))

  -- `sys.crypt(key[, salt])`, in a build with HAVE_CRYPT
  unfoldable pub lsys_crypt : Bytes → Option Bytes → W → Reply × W
  lsys_crypt key salt w =
      let salt = c_string (get_or salt key) in
      if ltb 1 (length salt)
      then (let (ret, w1) = calls.crypt (c_string key) salt w in
          (answered lret_nil (λ (r : Bytes). string r) ret, w1))
      else (arg_error 2 (text "salt length must be >1"), w)

  -- `sys.pathconf(path, optname)`
  unfoldable pub lsys_pathconf : Bytes → ℤ → W → Reply
  lsys_pathconf path name w =
      answered lret_negative (λ (v : ℤ). integer v) (calls.pathconf (c_string path) (to_int name) w)

  unfoldable pub lsys_getpagesize : W → Reply
  lsys_getpagesize w = one (integer (calls.getpagesize w))

  -- The table of `sys.getrusage`.
  abbrev pub rusage_table : RUsage → LuaValue
  rusage_table u = table (
      field (string (text "ru_utime")) (number u.utime.0 u.utime.1 (10 ^ 6)) (
        field (string (text "ru_stime")) (number u.stime.0 u.stime.1 (10 ^ 6)) (
          numbers (
            ("ru_maxrss", u.ru_maxrss)
            ∷ ("ru_ixrss", u.ru_ixrss)
            ∷ ("ru_idrss", u.ru_idrss)
            ∷ ("ru_isrss", u.ru_isrss)
            ∷ ("ru_minflt", u.ru_minflt)
            ∷ ("ru_majflt", u.ru_majflt)
            ∷ ("ru_nswap", u.ru_nswap)
            ∷ ("ru_inblock", u.ru_inblock)
            ∷ ("ru_oublock", u.ru_oublock)
            ∷ ("ru_msgsnd", u.ru_msgsnd)
            ∷ ("ru_msgrcv", u.ru_msgrcv)
            ∷ ("ru_nsignals", u.ru_nsignals)
            ∷ ("ru_nvcsw", u.ru_nvcsw)
            ∷ ("ru_nivcsw", u.ru_nivcsw)
            ∷ []))))

  -- `sys.getrusage([who=RUSAGE_SELF])`
  unfoldable pub lsys_getrusage : Option ℤ → W → Reply
  lsys_getrusage who w =
      answered lret_nil rusage_table (calls.getrusage (to_int (get_or who (pos 0))) w)

  -- `sys._exit([status=0])`
  unfoldable pub lsys__exit : Option ℤ → W → W
  lsys__exit status w = calls.exit (to_int (get_or status (pos 0))) w
