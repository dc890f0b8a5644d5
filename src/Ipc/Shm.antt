-- ===== src/Ipc/Shm.antt =====
-- lipclib.c, `shm_obj` and its methods: a cursor in a file or a shared memory object that is mapped
-- into memory. The state is the userdata, the bytes of the mapping, and the rest of the system.
pub mod Equivalence
mod Tests
use lua_xlib.Constants.{ebadf, efault, o_rdwr, o_creat, prot_read, prot_write, map_shared}
use Prim.Native.Nat.{bit_or}
use mathlib.Core.Option.{get_or}
use lua_xlib.Base.Int.{ℤ, pos, negsuc, is_negative, pos_part, neg_part}
use lua_xlib.Base.Words.{to_size, add_size, sub_size, signed64, to_int}
use lua_xlib.Memory.{read_at, write_at}
use lua_xlib.Lua.{
  Bytes, Reply, values, overrun, boolean, string, integer, boolean_status, report_error, lret_nil,
  lret_boolean, lret_negative, SysRet, failed, done,
}
use lua_xlib.Base.{ℕ, Option, none, some, ◌∷◌, [], ltb, leb, if◌then◌else◌, ◌+◌, ◌==◌, length, true}

pub record ShmObj : Type 0 where
  pub fd : ℤ
  pub addr : Option ℕ
  pub size : ℕ
  pub offset : ℕ  -- the field `pos`

pub record Shm (W : Type 0) : Type 0 where
  pub obj : ShmObj
  pub open obj use *
  pub segment : Bytes
  pub system : W

-- The system calls of the module; `fstat_size` is `fstat` and its `st_size`.
pub record MapCalls (W : Type 0) : Type 0 where
  pub shm_open : Bytes → ℕ → ℕ → W → SysRet ℤ × W
  pub shm_unlink : Bytes → W → SysRet (Unit {0}) × W
  pub fstat_size : ℤ → W → SysRet ℕ × W
  pub mmap : ℕ → ℕ → ℕ → ℤ → ℤ → W → SysRet ℕ × W
  pub munmap : Option ℕ → ℕ → W → SysRet (Unit {0}) × W

-- The length that `shm:read` asks for, after its clamp.
unfoldable pub read_length : ShmObj → ℤ → ℕ
read_length o z =
    let len = to_size z in
    if ltb o.size (add_size len o.offset) then sub_size o.size o.offset else len

module _ {W : Type 0} (strerror : ℕ → Bytes) where
  unfoldable pub lshm_size : Shm W → Reply × Shm W
  lshm_size s = (values (integer (signed64 s.size) ∷ []), s)

  unfoldable pub lshm_tell : Shm W → Reply × Shm W
  lshm_tell s = (values (integer (signed64 s.offset) ∷ []), s)

  -- `shm:read(length)`
  unfoldable pub lshm_read : ℤ → Shm W → Reply × Shm W
  lshm_read z s = elim s.addr [
    | none ↦ (report_error strerror lret_nil ebadf, s)
    | some a ↦
        let len = read_length s.obj z in
        elim (read_at s.segment s.offset len) [
          | none ↦ (overrun, s)
          | some bytes ↦ (
            values (string bytes ∷ []),
            record s { obj = record s.obj { offset = add_size s.offset len } },
          )
        ]
  ]

  -- `shm:write(buffer)`
  unfoldable pub lshm_write : Bytes → Shm W → Reply × Shm W
  lshm_write buffer s = elim s.addr [
    | none ↦ (report_error strerror lret_nil ebadf, s)
    | some a ↦
        if ltb s.size (add_size (length buffer) s.offset)
        then (report_error strerror lret_negative efault, s)
        else elim (write_at s.segment s.offset buffer) [
          | none ↦ (overrun, s)
          | some seg ↦
              let offset = add_size s.offset (length buffer) in
              (
                values (integer (signed64 offset) ∷ []),
                record s { obj = record s.obj { offset = offset }; segment = seg },
              )
        ]
  ]

  -- `shm:seek(position)`
  unfoldable pub lshm_seek : ℤ → Shm W → Reply × Shm W
  lshm_seek z s =
      if leb s.size (pos_part z + neg_part z)
      then (report_error strerror lret_negative efault, s)
      else let offset = if is_negative z then add_size s.size (to_size z) else pos_part z in
        (
          values (integer (signed64 offset) ∷ []),
          record s { obj = record s.obj { offset = offset } },
        )

  module _ (calls : MapCalls W) where
    -- `shm:close()`
    unfoldable pub lshm_close : Shm W → Reply × Shm W
    lshm_close s =
        let (ret, w) = calls.munmap s.addr s.size s.system in
        elim ret [
          | failed e ↦ (report_error strerror lret_boolean e, record s { system = w })
          | done u ↦ (
            values (boolean true ∷ []),
            record {
              obj = record { fd = negsuc 0; addr = none; size = 0; offset = 0 };
              segment = [];
              system = w;
            },
          )
        ]

    -- `ipc.shm_open(name[, oflags=O_RDWR|O_CREAT, mode=0660])`
    unfoldable pub lshm_open : Bytes → Option ℕ → Option ℕ → W → Reply × W
    lshm_open name oflags mode w =
        let (ret, w1) =
          calls.shm_open name (get_or oflags (bit_or o_rdwr o_creat)) (get_or mode 0o660) w in
        elim ret [
          | failed e ↦ (report_error strerror lret_negative e, w1)
          | done fd ↦ (values (integer fd ∷ []), w1)
        ]

    unfoldable pub lshm_unlink : Bytes → W → Reply × W
    lshm_unlink name w =
        let (ret, w1) = calls.shm_unlink name w in (boolean_status strerror ret, w1)

    -- `mmap` and what follows it, once the length is known.
    abbrev map_length : ℕ → ℕ → ℕ → ℤ → ℤ → W → Reply × Option ShmObj × W
    map_length length prot flags fd offset w =
        let (ret, w1) = calls.mmap length prot flags fd offset w in
        elim ret [
          | failed e ↦ (report_error strerror lret_nil e, none, w1)
          | done addr ↦ (
            values [],
            some (record { fd = fd; addr = some addr; size = length; offset = 0 }),
            w1,
          )
        ]

    -- `ipc.mmap(fd[, prot=PROT_READ|PROT_WRITE, flags=MAP_SHARED, offset=0, length=0])`: a length of 0
    -- stands for the size of the file.
    unfoldable pub lshm_mmap :
        ℤ → Option ℕ → Option ℕ → Option ℤ → Option ℤ → W → Reply × Option ShmObj × W
    lshm_mmap fd prot flags offset length w =
        let fd = to_int fd in
        let prot = get_or prot (bit_or prot_read prot_write) in
        let flags = get_or flags map_shared in
        let offset = get_or offset (pos 0) in
        let length = to_size (get_or length (pos 0)) in
        if length == 0
        then (let (st, w1) = calls.fstat_size fd w in
            elim st [
              | failed e ↦ (report_error strerror lret_nil e, none, w1)
              | done n ↦ map_length n prot flags fd offset w1
            ])
        else map_length length prot flags fd offset w
