-- ===== src/Ipc/Mq/Tests.antt =====
-- Runs of the message queue model of lipclib.c: a system that is one empty queue with its flag.
use lua_xlib.Ipc.Mq.{MqCalls, Mq, MqAttr, is_open}
use lua_xlib.Ipc.Mq.Blocking.{FlagLaws}
use lua_xlib.Ipc.Mq.Safety.{ReceiveLaws, Call, run, run-in_buffer, closes, receives, sends, blocks}
use lua_xlib.Svipc.Shm.Safety.{NoOverrun}
use lua_xlib.Lua.{Bytes, done, failed, SysRet}
use lua_xlib.Constants.{ebadf}
use lua_xlib.Base.Int.{pos}
use lua_xlib.Base.{
  ℕ, Bool, List, ◌∷◌, [], ◌≡◌, refl, some, none, true, false, not, ◌==◌, if◌then◌else◌, replicate,
  take, inl, arith, length, ◌≤◌, length-take, ap,
}

abbrev strerror : ℕ → Bytes
strerror e = e ∷ []

abbrev attr : MqAttr
attr = record { flags = 0; maxmsg = pos 10; msgsize = pos 3; curmsgs = pos 0 }

-- The state is the flag; each receive gets the same message, cut to the room that there is.
abbrev receive : Bool → ℕ → SysRet (Bytes × ℕ)
receive b size = if b then done (take size (7 ∷ 8 ∷ []), 0) else failed ebadf

abbrev calls : MqCalls Bool
calls = record {
  mq_open = λ name flags mode request w. (done 5, w);
  mq_unlink = λ name w. (done tt, w);
  mq_close = λ d w. (done tt, w);
  mq_getattr = λ d w. (done attr, w);
  mq_setattr = λ d a w. (done tt, not (a.flags == 0));
  mq_receive = λ d size until w. (receive (is_open d) size, w);
  mq_send = λ d body prio until w. (done tt, w);
  gettimeofday = λ w. (record { sec = 0; usec = 0 }, w);
  malloc = λ n w. (replicate n 0, w);
}

calls-FlagLaws : FlagLaws calls (λ w d. w)
calls-FlagLaws = record {
  getattr_keeps = λ d w. refl;
  setattr_sets = λ d a w. inl (tt, refl, refl);
}

receive-bounded :
    (b : Bool) (size : ℕ) (a : Bytes × ℕ) → receive b size ≡ done a → length a.0 ≤ size
receive-bounded b size a h = ground (arith, length-take {A = ℕ} size (7 ∷ 8 ∷ []))

calls-ReceiveLaws : ReceiveLaws calls
calls-ReceiveLaws = record {
  refuses = λ d size until w h. (ebadf, ap (λ b. receive b size) h);
  bounded = λ d size until w a h. receive-bounded (is_open d) size a h;
}

abbrev queue : Mq Bool
queue = record {
  obj = record { mqdes = pos 5; nonblock = false; msgsize = 3; msgbuf = some (replicate 4 0) };
  system = false;
}

-- The queue is used again after it has been closed, and closed again.
abbrev program : List Call
program =
    receives none ∷ closes ∷ receives none ∷ sends (1 ∷ []) none none ∷ closes ∷ blocks true ∷ []

run-in_buffer_example : NoOverrun (run calls strerror attr program queue)
run-in_buffer_example =
    run-in_buffer calls strerror attr calls-ReceiveLaws program queue
      (λ h. (replicate 4 0, refl, omega arith))
