-- ===== src/Svipc/Sem.antt =====
-- lsvipc.c, `sem_obj` and its methods: a set of System V semaphores, and the operations that
-- `sem:add_op` collects until `sem:done` hands them to `semop` at once.
-- `sops` is the array that `semget` allocates; the operations that wait are its first `nops` entries.
pub mod Pending
pub mod Transaction
mod Tests
use lua_xlib.Constants.{einval, erange, ipc_creat, ipc_nowait, sem_undo}
use lua_xlib.Base.Words.{to_int, to_short}
use lua_xlib.Base.Int.{ℤ, pos_part, pos, negsuc}
use lua_xlib.Lua.{
  Bytes, Fields, Reply, SysRet, end, failed, field, report_error, integer, lret_boolean,
  lret_negative, lret_nil, done, values, boolean, table, boolean_status,
}
use Prim.Native.Nat.{bit_or, suc}
use mathlib.Core.Option.{get_or}
use lua_xlib.Base.{
  ℕ, List, Bool, Option, if◌then◌else◌, ◌-◌, ◌∷◌, leb, not, take, ◌*◌, ◌==◌, none, ◌%◌, ◌&&◌, ◌+◌,
  [], false, ◌^◌, some, true, replicate, set, suc, zero,
}

pub record SemBuf : Type 0 where
  pub sem_num : ℕ
  pub sem_op : ℤ
  pub sem_flg : ℕ

pub record SemObj : Type 0 where
  pub semid : ℕ
  pub nsems : ℕ
  pub nops : ℕ
  pub vals : List ℕ
  pub sops : List SemBuf

-- The commands of `semctl` that read one number of one semaphore.
pub data GetCmd : Type 0 where
  getpid getncnt getzcnt getval : GetCmd

-- The system calls of the module. GETALL fills an array.
pub record SemCalls (W : Type 0) : Type 0 where
  pub semget : ℤ → ℤ → ℕ → W → SysRet ℕ × W
  pub sem_nsems : ℕ → W → SysRet ℕ × W
  pub sem_remove : ℕ → W → SysRet (Unit {0}) × W
  pub semop : ℕ → List SemBuf → W → SysRet (Unit {0}) × W
  pub semctl_get : GetCmd → ℕ → ℕ → W → SysRet ℕ × W
  pub semctl_getall : ℕ → W → SysRet (List ℕ) × W
  pub semctl_setall : ℕ → List ℕ → W → SysRet (Unit {0}) × W
  pub semctl_setval : ℕ → ℕ → ℤ → W → SysRet (Unit {0}) × W

pub record Sem (W : Type 0) : Type 0 where
  pub obj : SemObj
  pub open obj use *
  pub system : W

-- `sem_num<=0 || sem_num>sem->nsems` does not hold.
abbrev pub in_set : ℤ → ℕ → Bool
in_set (pos zero) nsems = false
in_set (pos (suc n)) nsems = leb (suc n) nsems
in_set (negsuc n) nsems = false

-- The entry that `sem:add_op` writes.
abbrev pub sembuf : ℤ → ℤ → SemBuf
sembuf op num = record {
  sem_num = pos_part num - 1;
  sem_op = to_short op;
  sem_flg = elim (to_short op) [ pos zero ↦ 0 | _ ↦ sem_undo ];
}

abbrev pub nowait_flag : SemBuf → SemBuf
nowait_flag b = record b { sem_flg = bit_or b.sem_flg ipc_nowait }

-- `for(i=0; i<nops; i++) sops[i].sem_flg |= IPC_NOWAIT;`
abbrev pub mark_nowait : ℕ → List SemBuf → List SemBuf
mark_nowait zero sops = sops
mark_nowait (suc n) [] = []
mark_nowait (suc n) (b ∷ sops) = nowait_flag b ∷ mark_nowait n sops

-- `for (i=0; i<nsems; i++) vals[i] = val;`
abbrev pub fill : ℕ → ℕ → List ℕ → List ℕ
fill zero v vals = vals
fill (suc n) v [] = []
fill (suc n) v (x ∷ vals) = v ∷ fill n v vals

-- The table that `sem:getall` builds: `vals[i]` at the key `i + 1`.
abbrev pub vals_table : ℕ → ℕ → List ℕ → Fields
vals_table zero i vals = end
vals_table (suc n) i [] = end
vals_table (suc n) i (v ∷ vals) =
    field (integer (pos (i + 1))) (integer (pos v)) (vals_table n (i + 1) vals)

module _ {W : Type 0} (strerror : ℕ → Bytes) where
  addop_at : ℤ → ℤ → Sem W → Reply × Sem W
  addop_at op num s =
      if in_set num s.nsems
      then if leb (s.nsems * 3) s.nops then (report_error strerror lret_negative erange, s) else (
        values (boolean true ∷ []),
        record s {
          obj = record s.obj { sops = set s.sops s.nops (sembuf op num); nops = s.nops + 1 };
        },
      )
      else (report_error strerror lret_negative einval, s)

  -- `sem:add_op(sem_op[, sem_num=1])`
  unfoldable pub lsem_addop : ℤ → Option ℤ → Sem W → Reply × Sem W
  unfolding addop_at
  lsem_addop op sem_num s = addop_at op (to_int (get_or sem_num (pos 1))) s

  module _ (calls : SemCalls W) where
    abbrev status : SysRet (Unit {0}) × W → SemObj → Reply × Sem W
    status (ret, w) o = (boolean_status strerror ret, record { obj = o; system = w })

    -- `sem:done([nowait=false])`
    unfoldable pub lsem_done : Bool → Sem W → Reply × Sem W
    lsem_done nowait s =
        let sops : List SemBuf = if nowait then mark_nowait s.nops s.sops else s.sops in
        status (calls.semop s.semid (take s.nops sops) s.system)
          (record s.obj { sops = sops; nops = 0 })

    abbrev number : SysRet ℕ × W → Sem W → Reply × Sem W
    number (failed e, w) s = (report_error strerror lret_negative e, record s { system = w })
    number (done n, w) s = (values (integer (pos n) ∷ []), record s { system = w })

    -- `sem:getpid`, `sem:getncnt`, `sem:getzcnt` and `sem:getval`
    unfoldable pub lsem_ctlget : GetCmd → Option ℤ → Sem W → Reply × Sem W
    lsem_ctlget cmd sem_num s =
        let num = to_int (get_or sem_num (pos 1)) in
        if in_set num s.nsems
        then number (calls.semctl_get cmd s.semid (pos_part num - 1) s.system) s
        else (report_error strerror lret_negative einval, s)

    -- `sem:getall()`
    unfoldable pub lsem_getall : Sem W → Reply × Sem W
    lsem_getall s =
        let (r, w) = calls.semctl_getall s.semid s.system in
        elim r [
          | failed e ↦ (report_error strerror lret_boolean e, record s { system = w })
          | done vals ↦ (
            values (table (vals_table s.nsems 0 vals) ∷ []),
            record s { obj = record s.obj { vals = vals }; system = w },
          )
        ]

    -- `sem:setall(val)`
    unfoldable pub lsem_setall : ℤ → Sem W → Reply × Sem W
    lsem_setall z s = elim (to_int z) [
      | negsuc n ↦ (report_error strerror lret_negative einval, s)
      | pos n ↦
          let vals = fill s.nsems (n % 2 ^ 16) s.vals in
          status (calls.semctl_setall s.semid vals s.system) (record s.obj { vals = vals })
    ]

    -- `sem:setval(val[, sem_num=1])`
    unfoldable pub lsem_setval : ℤ → Option ℤ → Sem W → Reply × Sem W
    lsem_setval z sem_num s =
        let num = to_int (get_or sem_num (pos 1)) in
        if in_set num s.nsems
        then status (calls.semctl_setval s.semid (pos_part num - 1) (to_int z) s.system) s.obj
        else (report_error strerror lret_negative einval, s)

    -- `sem:remove()`
    unfoldable pub lsem_remove : Sem W → Reply × Sem W
    lsem_remove s = status (calls.sem_remove s.semid s.system) s.obj

    -- `svipc.semget(key[, nsems=1, ipcflg=IPC_CREAT, mode=0660])`. The result of IPC_STAT is not looked
    -- at: if it fails, the number of semaphores is what stood in the uninitialised buffer.
    unfoldable pub lipc_semget :
        (uninitialised : ℕ) → ℤ → Option ℤ → Option ℕ → Option ℕ → W → Reply × Option SemObj × W
    lipc_semget uninitialised key nsems ipcflg mode w =
        let flags = bit_or (get_or ipcflg ipc_creat) (get_or mode 0o660) in
        let (r, w1) = calls.semget (to_int key) (to_int (get_or nsems (pos 1))) flags w in
        elim r [
          | failed e ↦ (report_error strerror lret_nil e, none, w1)
          | done id ↦
              let (st, w2) = calls.sem_nsems id w1 in
              let n : ℕ = elim st [ failed e ↦ uninitialised | done n ↦ n ] in
              (
                values (integer (pos id) ∷ []),
                some (record {
                  semid = id;
                  nsems = n;
                  nops = 0;
                  vals = replicate n 0;
                  sops = replicate (n * 3) (record { sem_num = 0; sem_op = pos 0; sem_flg = 0 });
                }),
                w2,
              )
        ]
