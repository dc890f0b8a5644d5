-- ===== src/Ipc/Sem.antt =====
-- lipclib.c, `sem_obj` and its methods: a named POSIX semaphore.
use lua_xlib.Constants.{o_rdwr, o_creat}
use lua_xlib.Socket.Deadline.{TimeVal}
use lua_xlib.Ipc.Deadline.{TimeSpec, Timeout, expire_time}
use Prim.Native.Nat.{bit_or}
use mathlib.Core.Option.{get_or}
use lua_xlib.Base.Int.{ℤ, pos}
use lua_xlib.Base.Words.{to_uint32}
use lua_xlib.Lua.{
  Bytes, Reply, values, boolean, integer, boolean_status, report_error, lret_nil, lret_boolean,
  SysRet, failed, done,
}
use lua_xlib.Base.{ℕ, Option, none, some, ◌∷◌, [], true}

-- `sem` is NULL once it has been closed.
pub record SemObj : Type 0 where
  pub sem : Option ℕ

pub record SemCalls (W : Type 0) : Type 0 where
  pub sem_open : Bytes → ℕ → ℕ → ℕ → W → SysRet ℕ × W
  pub sem_unlink : Bytes → W → SysRet (Unit {0}) × W
  pub sem_close : Option ℕ → W → SysRet (Unit {0}) × W
  pub sem_getvalue : Option ℕ → W → SysRet ℤ × W
  pub sem_post : Option ℕ → W → SysRet (Unit {0}) × W
  pub sem_wait : Option ℕ → W → SysRet (Unit {0}) × W
  pub sem_timedwait : Option ℕ → TimeSpec → W → SysRet (Unit {0}) × W
  pub sem_trywait : Option ℕ → W → SysRet (Unit {0}) × W
  pub gettimeofday : W → TimeVal × W

module _ {W : Type 0} (strerror : ℕ → Bytes) (calls : SemCalls W) where
  -- `ipc.sem_open(name[, oflags=O_RDWR|O_CREAT, mode=0660, initval=1])`
  unfoldable pub lsem_open : Bytes → Option ℕ → Option ℕ → Option ℤ → W → Reply × Option SemObj × W
  lsem_open name oflags mode initval w =
      let (ret, w1) =
        calls.sem_open name (get_or oflags (bit_or o_rdwr o_creat)) (get_or mode 0o660)
          (to_uint32 (get_or initval (pos 1))) w in
      elim ret [
        | failed e ↦ (report_error strerror lret_nil e, none, w1)
        | done sem ↦ (values [], some (record { sem = some sem }), w1)
      ]

  abbrev status : SysRet (Unit {0}) × W → Reply × W
  status (ret, w) = (boolean_status strerror ret, w)

  unfoldable pub lsem_unlink : Bytes → W → Reply × W
  lsem_unlink name w = status (calls.sem_unlink name w)

  unfoldable pub lsem_close : SemObj → W → Reply × SemObj × W
  lsem_close o w =
      let (ret, w1) = calls.sem_close o.sem w in
      elim ret [
        | failed e ↦ (report_error strerror lret_boolean e, o, w1)
        | done u ↦ (values (boolean true ∷ []), record { sem = none }, w1)
      ]

  unfoldable pub lsem_getvalue : SemObj → W → Reply × W
  lsem_getvalue o w =
      let (ret, w1) = calls.sem_getvalue o.sem w in
      elim ret [
        | failed e ↦ (report_error strerror lret_nil e, w1)
        | done value ↦ (values (integer value ∷ []), w1)
      ]

  unfoldable pub lsem_post : SemObj → W → Reply × W
  lsem_post o w = status (calls.sem_post o.sem w)

  -- `sem:wait([timeout=-1])`, with `none` for a timeout below 0.
  unfoldable pub lsem_wait : Option Timeout → SemObj → W → Reply × W
  lsem_wait none o w = status (calls.sem_wait o.sem w)
  lsem_wait (some timeout) o w =
      let (now, w1) = calls.gettimeofday w in
      status (calls.sem_timedwait o.sem (expire_time now timeout) w1)

  unfoldable pub lsem_trywait : SemObj → W → Reply × W
  lsem_trywait o w = status (calls.sem_trywait o.sem w)
