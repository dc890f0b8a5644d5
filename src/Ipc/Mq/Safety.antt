-- ===== src/Ipc/Mq/Safety.antt =====
-- lipclib.c, `mq_obj`: its buffer is neither overrun nor used after it has been freed.
use lua_xlib.Ipc.Mq.{
  MqCalls, Mq, MqAttr, MqObj, lmq_setblocking, lmq_close, lmq_receive, lmq_send, is_open, deliver,
  deadline, string, integer,
}
use lua_xlib.Ipc.Deadline.{Timeout, TimeSpec}
use lua_xlib.Svipc.Shm.Safety.{NoOverrun}
use lua_xlib.Memory.{length-overwrite, overwrite, through_buffer}
use lua_xlib.Lua.{done≢failed, Bytes, SysRet, failed, done, values, Reply, overrun, string, integer}
use lua_xlib.Base.Int.{ℤ, pos}
use lua_xlib.Base.{
  ℕ, Bool, List, Option, ◌≡◌, ◌≢◌, ◌≤◌, some, refl, ◌∷◌, [], true, false, arith, length, Bool-cases,
  inl, inr, subst, sym,
}

-- A call of a method, with its arguments.
pub data Call : Type 0 where
  closes : Call
  blocks : Bool → Call
  receives : Option Timeout → Call
  sends : Bytes → Option ℤ → Option Timeout → Call

module _ {W : Type 0} (calls : MqCalls W) where
  -- `mq_receive` fails on a descriptor that is -1, and writes no more bytes than it is given room for.
  pub record ReceiveLaws : Type 0 where
    pub refuses :
        (d : ℤ) (size : ℕ) (until : Option TimeSpec) (w : W)
        → is_open d ≡ false
        → (e : ℕ) × ((calls.mq_receive d size until w).0 ≡ failed e)
    pub bounded :
        (d : ℤ) (size : ℕ) (until : Option TimeSpec) (w : W) (a : Bytes × ℕ)
        → (calls.mq_receive d size until w).0 ≡ done a
        → length a.0 ≤ size

  -- An open object has a buffer, of the size that it gives to `mq_receive` at least.
  abbrev pub IsValid : MqObj → Type 0
  IsValid o = is_open o.mqdes ≡ true → (b : Bytes) × (o.msgbuf ≡ some b) × (o.msgsize ≤ length b)

  module _ (strerror : ℕ → Bytes) (garbage : MqAttr) where
    pub step : Call → Mq W → Reply × Mq W
    step closes = lmq_close strerror calls
    step (blocks b) = lmq_setblocking strerror calls garbage b
    step (receives timeout) = lmq_receive strerror calls timeout
    step (sends message priority timeout) = lmq_send strerror calls message priority timeout

    -- The replies of a program's calls, in order.
    pub run : List Call → Mq W → List Reply
    run [] q = []
    run (c ∷ cs) q = (step c q).0 ∷ run cs (step c q).1

    abbrev IsSafe : Reply × Mq W → Type 0
    IsSafe (r, q) = (r ≢ overrun) × IsValid q.obj

    deliver_lem :
        (body : Bytes) (prio : ℕ) (q : Mq W) (b : Bytes)
        → q.msgbuf ≡ some b
        → length body ≤ length b
        → deliver strerror calls (done (body, prio)) q ≡ (
          values (string body ∷ integer (pos prio) ∷ []),
          record q { obj = record q.obj { msgbuf = some (overwrite b 0 body) } },
        )
    deliver_lem body prio q b i fit =
        let e = through_buffer b body fit in ground (arith, i, e.0, e.1)

    deliver-IsSafe :
        (ret : SysRet (Bytes × ℕ)) (q : Mq W)
        → IsValid q.obj
        → (is_open q.mqdes ≡ false → (e : ℕ) × (ret ≡ failed e))
        → ((a : Bytes × ℕ) → ret ≡ done a → length a.0 ≤ q.msgsize)
        → IsSafe (deliver strerror calls ret q)
    deliver-IsSafe (failed e) q v closed fits = (λ z. cc, v)
    deliver-IsSafe (done (body, prio)) q v closed fits = elim (Bool-cases (is_open q.mqdes)) [
      | inr e ↦ (let (x, i) = closed e in elim (done≢failed i) [ ])
      | inl e ↦
          let (b, i, room) = v e in
          let fit : length body ≤ length b = omega (arith, fits (body, prio) refl, room) in
          subst IsSafe (sym (deliver_lem body prio q b i fit)) (
            λ z. cc,
            λ o. (
              overwrite b 0 body,
              refl,
              omega (arith, length-overwrite b body 0 (omega (arith, fit)), room),
            ),
          )
    ]

    step-IsSafe : ReceiveLaws → (c : Call) (q : Mq W) → IsValid q.obj → IsSafe (step c q)
    unfolding step lmq_close lmq_setblocking lmq_send lmq_receive
    step-IsSafe laws closes q v = ground arith
    step-IsSafe laws (blocks b) q v = ground arith
    step-IsSafe laws (receives timeout) q v =
        let (until, w1) = deadline strerror calls timeout q.system in
        let (ret, w2) = calls.mq_receive q.mqdes q.msgsize until w1 in
        deliver-IsSafe ret (record q { system = w2 }) v (laws.refuses q.mqdes q.msgsize until w1)
          (laws.bounded q.mqdes q.msgsize until w1)
    step-IsSafe laws (sends message priority timeout) q v = ground arith

    -- Whatever the system answers, so long as `mq_receive` keeps to its size and fails on a closed
    -- queue: a sequence of calls of the methods on a valid object, closing it any number of times among
    -- them, never reads or writes outside the buffer, nor after it has been freed.
    pub run-in_buffer :
        ReceiveLaws → (cs : List Call) (q : Mq W) → IsValid q.obj → NoOverrun (run cs q)
    unfolding run
    run-in_buffer laws [] q v = tt
    run-in_buffer laws (c ∷ cs) q v =
        let safe : IsSafe (step c q) = step-IsSafe laws c q v in
        (safe.0, run-in_buffer laws cs (step c q).1 safe.1)
