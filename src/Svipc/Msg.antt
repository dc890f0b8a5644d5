-- ===== src/Svipc/Msg.antt =====
-- lsvipc.c, `msg_obj` and its methods: a System V message queue, and the buffer through which each
-- message goes.
pub mod Buffer
pub mod Fifo
mod Tests
use lua_xlib.Constants.{eagain, enomsg, eintr, e2big, ipc_creat}
use Prim.Native.Nat.{bit_or}
use mathlib.Core.Option.{get_or}
use lua_xlib.Base.Int.{ℤ, pos, negsuc, is_negative, pos_part}
use lua_xlib.Base.Words.{to_int}
use lua_xlib.Lua.{
  Bytes, Reply, values, overrun, arg_error, text, string, integer, boolean_status, report_error,
  lret_nil, lret_emptystr, lret_boolean, SysRet, failed, done,
}
use lua_xlib.Memory.{read_at, write_at}
use lua_xlib.Base.{
  ℕ, Bool, Option, none, some, if◌then◌else◌, ltb, length, ◌∷◌, [], ◌==◌, ◌||◌, replicate,
}

-- `MSGMAX`
abbrev pub msgmax : ℕ
msgmax = 65536

-- `struct msgbuf`: the type of a message, and the bytes behind it that were allocated for its text.
pub record MsgBuf : Type 0 where
  pub mtype : ℤ
  pub mtext : Bytes

-- `msgbuf` is `none` once the finalizer has freed it.
pub record MsgObj : Type 0 where
  pub msqid : ℤ
  pub msgbuf : Option MsgBuf

-- The system calls of the module. `msgsnd` is given what it reads from the buffer, and `msgrcv`
-- answers what it writes there: a type and a text.
pub record MsgCalls (W : Type 0) : Type 0 where
  pub msgget : ℤ → ℕ → W → SysRet ℕ × W
  pub msgsnd : ℤ → ℤ → Bytes → (nowait : Bool) → W → SysRet (Unit {0}) × W
  pub msgrcv : ℤ → ℕ → ℤ → (nowait : Bool) → W → SysRet (ℤ × Bytes) × W
  pub msg_remove : ℤ → W → SysRet (Unit {0}) × W

pub record Queue (W : Type 0) : Type 0 where
  pub obj : MsgObj
  pub open obj use *
  pub system : W

-- `errno==EAGAIN || errno==ENOMSG || errno==EINTR`
abbrev pub is_empty : ℕ → Bool
is_empty e = e == eagain || e == enomsg || e == eintr

module _ {W : Type 0} (strerror : ℕ → Bytes) (calls : MsgCalls W) where
  abbrev pub with_buffer : Queue W → MsgBuf → Queue W
  with_buffer q b = record q { obj = record q.obj { msgbuf = some b } }

  -- The end of `msg:send`, from `msgp->mtype = msgtype;` on.
  abbrev pub submit : Bytes → ℤ → Bool → Queue W → Reply × Queue W
  submit message msgtype nowait q = elim q.msgbuf [
    | none ↦ (overrun, q)
    | some b ↦ elim (write_at b.mtext 0 message) [
      | none ↦ (overrun, q)
      | some mtext ↦ elim (read_at mtext 0 (length message)) [
        | none ↦ (overrun, q)
        | some body ↦
            let (ret, w) = calls.msgsnd q.msqid msgtype body nowait q.system in
            (
              boolean_status strerror ret,
              record (with_buffer q (record { mtype = msgtype; mtext = mtext })) { system = w },
            )
      ]
    ]
  ]

  -- `msg:send(message[, msgtype=1, nowait=false])`
  unfoldable pub lmsg_send : Bytes → Option ℤ → Bool → Queue W → Reply × Queue W
  lmsg_send message msgtype nowait q =
      if ltb 0 (pos_part (get_or msgtype (pos 1)))
      then if ltb msgmax (length message)
        then (report_error strerror lret_boolean e2big, q)
        else submit message (get_or msgtype (pos 1)) nowait q
      else (arg_error 2 (text "message type must be > 0"), q)

  -- What `msg:receive` makes of the answer of `msgrcv`.
  abbrev pub deliver : SysRet (ℤ × Bytes) → Queue W → Reply × Queue W
  deliver (failed e) q =
      (report_error strerror (if is_empty e then lret_emptystr else lret_nil) e, q)
  deliver (done (mtype, body)) q = elim q.msgbuf [
    | none ↦ (overrun, q)
    | some b ↦ elim (write_at b.mtext 0 body) [
      | none ↦ (overrun, q)
      | some mtext ↦ elim (read_at mtext 0 (length body)) [
        | none ↦ (overrun, q)
        | some result ↦ (
          values (string result ∷ integer mtype ∷ []),
          with_buffer q (record { mtype = mtype; mtext = mtext }),
        )
      ]
    ]
  ]

  -- `msg:receive([msgtype=0, nowait=false])`
  unfoldable pub lmsg_receive : Option ℤ → Bool → Queue W → Reply × Queue W
  lmsg_receive msgtype nowait q =
      let (ret, w) = calls.msgrcv q.msqid msgmax (get_or msgtype (pos 0)) nowait q.system in
      deliver ret (record q { system = w })

  -- `msg:remove()`
  unfoldable pub lmsg_remove : Queue W → Reply × Queue W
  lmsg_remove q =
      let (ret, w) = calls.msg_remove q.msqid q.system in
      (boolean_status strerror ret, record q { system = w })

  -- The finalizer.
  unfoldable pub lmsg_gc : Queue W → Queue W
  lmsg_gc q = record q { obj = record { msqid = negsuc 0; msgbuf = none } }

  -- `svipc.msgget(key[, ipcflg=IPC_CREAT, mode=0660])`; `garbage` is what `malloc` gives.
  unfoldable pub lipc_msgget :
      (garbage : MsgBuf) → ℤ → Option ℕ → Option ℕ → W → Reply × Option MsgObj × W
  lipc_msgget garbage key ipcflg mode w =
      let (ret, w1) =
        calls.msgget (to_int key) (bit_or (get_or ipcflg ipc_creat) (get_or mode 0o660)) w in
      elim ret [
        | failed e ↦ (report_error strerror lret_nil e, none, w1)
        | done id ↦ (
          values (integer (pos id) ∷ []),
          some (record { msqid = pos id; msgbuf = some garbage }),
          w1,
        )
      ]
