-- ===== src/Svipc/Stat.antt =====
-- lsvipc.c: svipc.ftok, and the methods that copy what the kernel knows of an object into a table.
use lua_xlib.Svipc.Shm.{ShmObj}
use lua_xlib.Svipc.Msg.{MsgObj}
use lua_xlib.Svipc.Sem.{SemObj}
use lua_xlib.Base.Int.{ℤ, pos}
use lua_xlib.Lua.{
  Bytes, LuaValue, Fields, SysRet, table, Reply, c_string, end, failed, field, report_error, string,
  lret_nil, text, done, integer, values,
}
use lua_xlib.Base.{List, ℕ, Option, [], ◌∷◌, get_elem?}
use Prim.Native.String.{String}
use mathlib.Core.Option.{get_or}

-- `struct ipc_perm`, as Linux has it
pub record IpcPerm : Type 0 where
  pub key : ℤ
  pub seq : ℤ
  pub uid : ℤ
  pub gid : ℤ
  pub cuid : ℤ
  pub cgid : ℤ
  pub mode : ℤ

-- `struct shmid_ds`
pub record ShmStat : Type 0 where
  pub shm_segsz : ℤ
  pub shm_atime : ℤ
  pub shm_dtime : ℤ
  pub shm_ctime : ℤ
  pub shm_cpid : ℤ
  pub shm_lpid : ℤ
  pub shm_nattch : ℤ
  pub perm : IpcPerm

-- `struct msqid_ds`
pub record MsgStat : Type 0 where
  pub msg_stime : ℤ
  pub msg_rtime : ℤ
  pub msg_ctime : ℤ
  pub msg_cbytes : ℤ
  pub msg_qnum : ℤ
  pub msg_qbytes : ℤ
  pub msg_lspid : ℤ
  pub msg_lrpid : ℤ
  pub perm : IpcPerm

-- `struct semid_ds`
pub record SemStat : Type 0 where
  pub sem_otime : ℤ
  pub sem_ctime : ℤ
  pub sem_nsems : ℤ
  pub perm : IpcPerm

-- `struct shminfo`
pub record ShmInfo : Type 0 where
  pub shmmax : ℤ
  pub shmmin : ℤ
  pub shmmni : ℤ
  pub shmseg : ℤ
  pub shmall : ℤ

-- `struct msginfo`
pub record MsgInfo : Type 0 where
  pub msgpool : ℤ
  pub msgmap : ℤ
  pub msgmax : ℤ
  pub msgmnb : ℤ
  pub msgmni : ℤ
  pub msgssz : ℤ
  pub msgtql : ℤ
  pub msgseg : ℤ

-- `struct seminfo`
pub record SemInfo : Type 0 where
  pub semmap : ℤ
  pub semmni : ℤ
  pub semmns : ℤ
  pub semmnu : ℤ
  pub semmsl : ℤ
  pub semopm : ℤ
  pub semume : ℤ
  pub semusz : ℤ
  pub semvmx : ℤ
  pub semaem : ℤ

-- IPC_STAT and IPC_INFO of the three kinds of objects, and `ftok`.
pub record StatCalls (W : Type 0) : Type 0 where
  pub ftok : Bytes → ℕ → W → ℤ × W
  pub shm_stat : ℤ → W → SysRet ShmStat × W
  pub shm_info : ℤ → W → SysRet ShmInfo × W
  pub msg_stat : ℤ → W → SysRet MsgStat × W
  pub msg_info : ℤ → W → SysRet MsgInfo × W
  pub sem_stat : ℤ → W → SysRet SemStat × W
  pub sem_info : ℤ → W → SysRet SemInfo × W

-- Numbers under their names, and what stands behind them.
abbrev pub numbers : List (String × ℤ) → Fields → Fields
numbers [] rest = rest
numbers ((name, value) ∷ more) rest = field (string (text name)) (integer value) (numbers more rest)

abbrev pub push_ipc_perm : IpcPerm → LuaValue
push_ipc_perm p = table (
    numbers
      (("key", p.key)
        ∷ ("seq", p.seq)
        ∷ ("uid", p.uid)
        ∷ ("gid", p.gid)
        ∷ ("cuid", p.cuid)
        ∷ ("cgid", p.cgid)
        ∷ ("mode", p.mode)
        ∷ [])
      end)

abbrev pub shm_stat_table : ShmStat → LuaValue
shm_stat_table b = table (
    numbers
      (("shm_segsz", b.shm_segsz)
        ∷ ("shm_atime", b.shm_atime)
        ∷ ("shm_dtime", b.shm_dtime)
        ∷ ("shm_ctime", b.shm_ctime)
        ∷ ("shm_cpid", b.shm_cpid)
        ∷ ("shm_lpid", b.shm_lpid)
        ∷ ("shm_nattch", b.shm_nattch)
        ∷ [])
      (field (string (text "shm_perm")) (push_ipc_perm b.perm) end))

abbrev pub msg_stat_table : MsgStat → LuaValue
msg_stat_table b = table (
    numbers
      (("msg_stime", b.msg_stime)
        ∷ ("msg_rtime", b.msg_rtime)
        ∷ ("msg_ctime", b.msg_ctime)
        ∷ ("msg_cbytes", b.msg_cbytes)
        ∷ ("msg_qnum", b.msg_qnum)
        ∷ ("msg_qbytes", b.msg_qbytes)
        ∷ ("msg_lspid", b.msg_lspid)
        ∷ ("msg_lrpid", b.msg_lrpid)
        ∷ [])
      (field (string (text "msg_perm")) (push_ipc_perm b.perm) end))

abbrev pub sem_stat_table : SemStat → LuaValue
sem_stat_table b = table (
    numbers
      (("sem_otime", b.sem_otime) ∷ ("sem_ctime", b.sem_ctime) ∷ ("sem_nsems", b.sem_nsems) ∷ [])
      (field (string (text "sem_perm")) (push_ipc_perm b.perm) end))

abbrev pub shm_info_table : ShmInfo → LuaValue
shm_info_table b = table (
    numbers
      (("shmmax", b.shmmax)
        ∷ ("shmmin", b.shmmin)
        ∷ ("shmmni", b.shmmni)
        ∷ ("shmseg", b.shmseg)
        ∷ ("shmall", b.shmall)
        ∷ [])
      end)

abbrev pub msg_info_table : MsgInfo → LuaValue
msg_info_table b = table (
    numbers
      (("msgpool", b.msgpool)
        ∷ ("msgmap", b.msgmap)
        ∷ ("msgmax", b.msgmax)
        ∷ ("msgmnb", b.msgmnb)
        ∷ ("msgmni", b.msgmni)
        ∷ ("msgssz", b.msgssz)
        ∷ ("msgtql", b.msgtql)
        ∷ ("msgseg", b.msgseg)
        ∷ [])
      end)

abbrev pub sem_info_table : SemInfo → LuaValue
sem_info_table b = table (
    numbers
      (("semmap", b.semmap)
        ∷ ("semmni", b.semmni)
        ∷ ("semmns", b.semmns)
        ∷ ("semmnu", b.semmnu)
        ∷ ("semmsl", b.semmsl)
        ∷ ("semopm", b.semopm)
        ∷ ("semume", b.semume)
        ∷ ("semusz", b.semusz)
        ∷ ("semvmx", b.semvmx)
        ∷ ("semaem", b.semaem)
        ∷ [])
      end)

module _ {W : Type 0} (strerror : ℕ → Bytes) (calls : StatCalls W) where
  abbrev pub copied : {A : Type 0} → (A → LuaValue) → SysRet A × W → Reply × W
  copied push (failed e, w) = (report_error strerror lret_nil e, w)
  copied push (done b, w) = (values (push b ∷ []), w)

  -- `svipc.ftok(path[, proj_id='/'])`: the first byte of a C string, which is 0 for an empty one
  unfoldable pub lipc_ftok : Bytes → Option Bytes → W → Reply × W
  lipc_ftok path proj_id w =
      let (key, w1) =
        calls.ftok (c_string path) (get_or (get_elem? (c_string (get_or proj_id (text "/"))) 0) 0)
          w in
      (values (integer key ∷ []), w1)

  -- `shm:stat()`
  unfoldable pub lshm_stat : ShmObj → W → Reply × W
  lshm_stat o w = copied shm_stat_table (calls.shm_stat (pos o.shmid) w)

  -- `shm:info()`
  unfoldable pub lshm_info : ShmObj → W → Reply × W
  lshm_info o w = copied shm_info_table (calls.shm_info (pos o.shmid) w)

  -- `msg:stat()`
  unfoldable pub lmsg_stat : MsgObj → W → Reply × W
  lmsg_stat o w = copied msg_stat_table (calls.msg_stat (o.msqid) w)

  -- `msg:info()`
  unfoldable pub lmsg_info : MsgObj → W → Reply × W
  lmsg_info o w = copied msg_info_table (calls.msg_info (o.msqid) w)

  -- `sem:stat()`
  unfoldable pub lsem_stat : SemObj → W → Reply × W
  lsem_stat o w = copied sem_stat_table (calls.sem_stat (pos o.semid) w)

  -- `sem:info()`
  unfoldable pub lsem_info : SemObj → W → Reply × W
  lsem_info o w = copied sem_info_table (calls.sem_info (pos o.semid) w)
