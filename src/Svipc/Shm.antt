-- ===== src/Svipc/Shm.antt =====
-- lsvipc.c, `shm_obj` and its methods: a cursor in a System V shared memory segment.
-- The state is the userdata, the bytes of the segment that `shmid` names (other processes may change
-- them between two calls), and the rest of the system, which the system calls act on.
pub mod Cursor
pub mod RoundTrip
pub mod Safety
mod Tests
use lua_xlib.Constants.{ebadf, eexist, efault, ipc_creat, eacces}
use Prim.Native.Nat.{bit_or}
use mathlib.Core.Option.{get_or}
use lua_xlib.Base.{
  ℕ, ◌+◌, Bool, Option, none, some, if◌then◌else◌, ltb, leb, length, true, ◌∷◌, [], false,
}
use lua_xlib.Base.Int.{ℤ, pos, is_negative, pos_part, neg_part}
use lua_xlib.Base.Words.{to_size, add_size, sub_size, signed64, to_int}
use lua_xlib.Lua.{
  Bytes, boolean, integer, string, Reply, values, overrun, SysRet, failed, done, lret_nil,
  lret_boolean, lret_negative, report_error,
}
use lua_xlib.Memory.{read_at, write_at}

pub record ShmObj : Type 0 where
  pub shmid : ℕ
  pub readonly : Bool
  pub size : ℕ
  pub offset : ℕ  -- the field `pos`
  pub addr : Option ℕ

-- The system calls of the module.
pub record ShmCalls (W : Type 0) : Type 0 where
  pub shmget : ℤ → ℕ → ℕ → W → SysRet ℕ × W
  pub shm_segsz : ℕ → W → SysRet ℕ × W
  pub shmat : ℕ → Bool → W → SysRet ℕ × W
  pub shmdt : ℕ → W → SysRet (Unit {0}) × W
  pub shm_remove : ℕ → W → SysRet (Unit {0}) × W

pub record Shm (W : Type 0) : Type 0 where
  pub obj : ShmObj
  pub open obj use *
  pub segment : Bytes
  pub system : W

-- The length that `shm:read` asks for, after its clamp.
unfoldable pub read_length : ShmObj → ℤ → ℕ
read_length o z =
    let len = to_size z in
    if ltb o.size (add_size len o.offset) then sub_size o.size o.offset else len

module _ {W : Type 0} (strerror : ℕ → Bytes) where
  abbrev with_offset : Shm W → ℕ → Shm W
  with_offset s n = record s { obj = record s.obj { offset = n } }

  -- `shm:size()` and `shm:tell()`
  unfoldable pub lshm_size : Shm W → Reply × Shm W
  lshm_size s = (values (integer (signed64 s.size) ∷ []), s)

  unfoldable pub lshm_tell : Shm W → Reply × Shm W
  lshm_tell s = (values (integer (signed64 s.offset) ∷ []), s)

  -- `shm:read(length)`
  unfoldable pub lshm_read : ℤ → Shm W → Reply × Shm W
  unfolding read_length
  lshm_read z s = elim s.addr [
    | none ↦ (report_error strerror lret_nil ebadf, s)
    | some a ↦
        let len = read_length s.obj z in
        elim (read_at s.segment s.offset len) [
          | none ↦ (overrun, s)
          | some bytes ↦ (values (string bytes ∷ []), with_offset s (add_size s.offset len))
        ]
  ]

  -- `shm:write(buffer)`
  unfoldable pub lshm_write : Bytes → Shm W → Reply × Shm W
  lshm_write buffer s = elim s.addr [
    | none ↦ (report_error strerror lret_nil ebadf, s)
    | some a ↦
        if s.readonly
        then (report_error strerror lret_negative eacces, s)
        else if ltb s.size (add_size (length buffer) s.offset)
        then (report_error strerror lret_negative efault, s)
        else elim (write_at s.segment s.offset buffer) [
          | none ↦ (overrun, s)
          | some seg ↦
              let offset = add_size s.offset (length buffer) in
              (
                values (integer (signed64 offset) ∷ []),
                record s { obj = record s.obj { offset = offset }; segment = seg },
              )
        ]
  ]

  -- `shm:seek(offset)`. `labs` of the least `long` is undefined in C; the size of its result, read as
  -- a `size_t`, is that of the argument in any case.
  unfoldable pub lshm_seek : ℤ → Shm W → Reply × Shm W
  lshm_seek z s =
      if leb s.size (pos_part z + neg_part z)
      then (report_error strerror lret_negative efault, s)
      else let offset = if is_negative z then add_size s.size (to_size z) else pos_part z in
        (values (integer (signed64 offset) ∷ []), with_offset s offset)

  module _ (calls : ShmCalls W) where
    -- `shm:attach([readonly=false])`
    unfoldable pub lshm_attach : Bool → Shm W → Reply × Shm W
    lshm_attach readonly s = elim s.addr [
      | some a ↦ (report_error strerror lret_boolean eexist, s)
      | none ↦
          let (r, w) = calls.shmat s.shmid readonly s.system in
          elim r [
            | failed e ↦ (report_error strerror lret_boolean e, record s { system = w })
            | done a ↦ (
              values (boolean true ∷ []),
              record s { obj = record s.obj { addr = some a; readonly = readonly }; system = w },
            )
          ]
    ]

    abbrev detached : Shm W → Reply × Shm W
    detached s = (values (boolean true ∷ []), record s { obj = record s.obj { addr = none } })

    -- `shm:detach()`, also the finalizer
    unfoldable pub lshm_detach : Shm W → Reply × Shm W
    lshm_detach s = elim s.addr [
      | none ↦ detached s
      | some a ↦
          let (r, w) = calls.shmdt a s.system in
          elim r [
            | failed e ↦ (report_error strerror lret_boolean e, record s { system = w })
            | done u ↦ detached (record s { system = w })
          ]
    ]

    -- `shm:remove()`
    unfoldable pub lshm_remove : Shm W → Reply × Shm W
    lshm_remove s =
        let (r, w) = calls.shm_remove s.shmid s.system in
        elim r [
          | failed e ↦ (report_error strerror lret_boolean e, record s { system = w })
          | done u ↦ (values (boolean true ∷ []), record s { system = w })
        ]

    -- `svipc.shmget(key, size[, ipcflg=IPC_CREAT, mode=0660])`. The result of IPC_STAT is not looked
    -- at: if it fails, the size is what stood in the uninitialised buffer.
    unfoldable pub lipc_shmget :
        (uninitialised : ℕ) → ℤ → ℤ → Option ℕ → Option ℕ → W → Reply × Option ShmObj × W
    lipc_shmget uninitialised key size ipcflg mode w =
        let flags = bit_or (get_or ipcflg ipc_creat) (get_or mode 0o660) in
        let (r, w1) = calls.shmget (to_int key) (to_size size) flags w in
        elim r [
          | failed e ↦ (report_error strerror lret_nil e, none, w1)
          | done id ↦
              let (st, w2) = calls.shm_segsz id w1 in
              let segsz : ℕ = elim st [ failed e ↦ uninitialised | done n ↦ n ] in
              (
                values (integer (pos id) ∷ []),
                some (record {
                  shmid = id;
                  readonly = false;
                  size = segsz;
                  offset = 0;
                  addr = none;
                }),
                w2,
              )
        ]
