-- ===== src/Ipc/Mq.antt =====
-- lipclib.c, `mq_obj` and its methods: a POSIX message queue, with the buffer that it receives into.
pub mod Safety
pub mod Blocking
mod Tests
use lua_xlib.Constants.{o_rdwr, o_creat, o_nonblock, eagain, eintr, etimedout}
use lua_xlib.Socket.Deadline.{TimeVal}
use lua_xlib.Ipc.Deadline.{TimeSpec, Timeout, expire_time}
use Prim.Native.Nat.{bit_or, bit_and}
use mathlib.Core.Option.{get_or}
use lua_xlib.Base.Int.{ℤ, pos, negsuc, eq_ℤ}
use lua_xlib.Base.Words.{to_uint32, to_size}
use lua_xlib.Memory.{read_at, write_at}
use lua_xlib.Lua.{
  Bytes, Reply, values, overrun, boolean, string, integer, boolean_status, report_error, lret_nil,
  lret_boolean, lret_emptystr, SysRet, failed, done,
}
use lua_xlib.Base.{
  ℕ, Bool, Option, none, some, ◌∷◌, [], ◌==◌, ◌||◌, true, false, not, if◌then◌else◌, length, ◌+◌,
}

-- `struct mq_attr`
pub record MqAttr : Type 0 where
  pub flags : ℕ
  pub maxmsg : ℤ
  pub msgsize : ℤ
  pub curmsgs : ℤ

-- `mqdes` is -1 once the queue has been closed, and `msgbuf` is NULL then.
pub record MqObj : Type 0 where
  pub mqdes : ℤ
  pub nonblock : Bool
  pub msgsize : ℕ
  pub msgbuf : Option Bytes

-- The system calls of the module. A call with a deadline is the one whose name has `timed` in it.
pub record MqCalls (W : Type 0) : Type 0 where
  pub mq_open : Bytes → ℕ → ℕ → Option MqAttr → W → SysRet ℕ × W
  pub mq_unlink : Bytes → W → SysRet (Unit {0}) × W
  pub mq_close : ℤ → W → SysRet (Unit {0}) × W
  pub mq_getattr : ℤ → W → SysRet MqAttr × W
  pub mq_setattr : ℤ → MqAttr → W → SysRet (Unit {0}) × W
  pub mq_receive : ℤ → ℕ → Option TimeSpec → W → SysRet (Bytes × ℕ) × W
  pub mq_send : ℤ → Bytes → ℕ → Option TimeSpec → W → SysRet (Unit {0}) × W
  pub gettimeofday : W → TimeVal × W
  pub malloc : ℕ → W → Bytes × W

pub record Mq (W : Type 0) : Type 0 where
  pub obj : MqObj
  pub open obj use *
  pub system : W

abbrev pub is_zero : ℤ → Bool
is_zero (pos n) = n == 0
is_zero (negsuc n) = false

-- `mq->mqdes != (mqd_t)-1`
abbrev pub is_open : ℤ → Bool
is_open (pos n) = true
is_open (negsuc n) = not (n == 0)

-- `errno==EAGAIN || errno==EINTR || errno==ETIMEDOUT`
abbrev pub is_empty : ℕ → Bool
is_empty e = e == eagain || e == eintr || e == etimedout

abbrev differs : Bool → Bool → Bool
differs a b = if a then not b else b

-- What `mq_open` is asked for: nothing, where both sizes are 0.
abbrev requested : ℕ → ℤ → ℤ → Option MqAttr
requested oflags maxmsg msgsize =
    if not (is_zero msgsize) || not (is_zero maxmsg)
    then some (record {
      flags = bit_and oflags o_nonblock;
      maxmsg = if is_zero maxmsg then pos 10 else maxmsg;
      msgsize = if is_zero msgsize then pos 8192 else msgsize;
      curmsgs = pos 0;
    })
    else none

module _ {W : Type 0} (strerror : ℕ → Bytes) (calls : MqCalls W) where
  -- What `attr` holds after `mq_getattr(mqdes, &attr)`, whose result is not looked at.
  abbrev pub attributes : MqAttr → SysRet MqAttr → MqAttr
  attributes before (failed e) = before
  attributes before (done a) = a

  -- `ipc.mq_open(name[, oflags=O_RDWR|O_CREAT, mode=0660, maxmsg=0, msgsize=0])`. `garbage` is what
  -- stands in `attr` at first.
  unfoldable pub lmq_open :
      (garbage : MqAttr)
      → Bytes
      → Option ℕ
      → Option ℕ
      → Option ℤ
      → Option ℤ
      → W
      → Reply × Option MqObj × W
  lmq_open garbage name oflags mode maxmsg msgsize w =
      let flags = get_or oflags (bit_or o_rdwr o_creat) in
      let request = requested flags (get_or maxmsg (pos 0)) (get_or msgsize (pos 0)) in
      let (ret, w1) = calls.mq_open name flags (get_or mode 0o660) request w in
      elim ret [
        | failed e ↦ (report_error strerror lret_nil e, none, w1)
        | done mqdes ↦
            let (st, w2) = calls.mq_getattr (pos mqdes) w1 in
            let attr = attributes (get_or request garbage) st in
            let (block, w3) = calls.malloc (to_size attr.msgsize + 1) w2 in
            (
              values [],
              some (record {
                mqdes = pos mqdes;
                nonblock = not (attr.flags == 0);
                msgsize = to_size attr.msgsize;
                msgbuf = some block;
              }),
              w3,
            )
      ]

  unfoldable pub lmq_unlink : Bytes → W → Reply × W
  lmq_unlink name w = let (ret, w1) = calls.mq_unlink name w in (boolean_status strerror ret, w1)

  abbrev pub succeed : Mq W → Reply × Mq W
  succeed q = (values (boolean true ∷ []), q)

  -- `mq:close()`
  unfoldable pub lmq_close : Mq W → Reply × Mq W
  lmq_close q =
      if is_open q.mqdes
      then (let (ret, w) = calls.mq_close q.mqdes q.system in
          elim ret [
            | failed e ↦ (report_error strerror lret_boolean e, record q { system = w })
            | done u ↦
                succeed
                  (record { obj = record q.obj { mqdes = negsuc 0; msgbuf = none }; system = w })
          ])
      else succeed q

  -- `mq:setblocking(bool)`
  unfoldable pub lmq_setblocking : (garbage : MqAttr) → Bool → Mq W → Reply × Mq W
  lmq_setblocking garbage blocking q =
      if differs (not blocking) q.nonblock
      then (let (st, w1) = calls.mq_getattr q.mqdes q.system in
          let attr : MqAttr = record (attributes garbage st) {
            flags = if not blocking then o_nonblock else 0;
          } in
          let (ret, w2) = calls.mq_setattr q.mqdes attr w1 in
          elim ret [
            | failed e ↦ (report_error strerror lret_boolean e, record q { system = w2 })
            | done u ↦
                succeed (record { obj = record q.obj { nonblock = not blocking }; system = w2 })
          ])
      else succeed q

  -- The deadline of a call, if it has a timeout that is not below 0.
  abbrev pub deadline : Option Timeout → W → Option TimeSpec × W
  deadline none w = (none, w)
  deadline (some timeout) w =
      let (now, w1) = calls.gettimeofday w in (some (expire_time now timeout), w1)

  -- What `mq:receive` makes of the answer: the message was written to the buffer.
  abbrev pub deliver : SysRet (Bytes × ℕ) → Mq W → Reply × Mq W
  deliver (failed e) q =
      (report_error strerror (if is_empty e then lret_emptystr else lret_nil) e, q)
  deliver (done (body, prio)) q = elim q.msgbuf [
    | none ↦ (overrun, q)
    | some b ↦ elim (write_at b 0 body) [
      | none ↦ (overrun, q)
      | some filled ↦ elim (read_at filled 0 (length body)) [
        | none ↦ (overrun, q)
        | some result ↦ (
          values (string result ∷ integer (pos prio) ∷ []),
          record q { obj = record q.obj { msgbuf = some filled } },
        )
      ]
    ]
  ]

  -- `mq:receive([timeout=-1])`
  unfoldable pub lmq_receive : Option Timeout → Mq W → Reply × Mq W
  lmq_receive timeout q =
      let (until, w1) = deadline timeout q.system in
      let (ret, w2) = calls.mq_receive q.mqdes q.msgsize until w1 in
      deliver ret (record q { system = w2 })

  -- `mq:send(message[, priority=0, timeout=-1])`
  unfoldable pub lmq_send : Bytes → Option ℤ → Option Timeout → Mq W → Reply × Mq W
  lmq_send message priority timeout q =
      let (until, w1) = deadline timeout q.system in
      let (ret, w2) =
        calls.mq_send q.mqdes message (to_uint32 (get_or priority (pos 0))) until w1 in
      (boolean_status strerror ret, record q { system = w2 })
