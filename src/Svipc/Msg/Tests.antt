-- ===== src/Svipc/Msg/Tests.antt =====
-- Runs of the message queue model of lsvipc.c: a system that is one queue of at most two messages.
use lua_xlib.Svipc.Msg.{MsgCalls, Queue, msgmax}
use lua_xlib.Svipc.Msg.Fifo.{FifoLaws, Holds, send_all, receive_all, send_all-receive_all}
use lua_xlib.Svipc.Msg.Buffer.{Message, delivered}
use lua_xlib.Lua.{Bytes, done, failed, SysRet}
use lua_xlib.Constants.{eagain, enomsg, e2big}
use lua_xlib.Base.Int.{pos}
use lua_xlib.Base.{
  ℕ, List, ◌∷◌, [], ◌≡◌, refl, ltb, length, if◌then◌else◌, replicate, length-replicate, some, ◌++◌,
  map, true, Bool-cases, inl, inr, arith,
}

abbrev strerror : ℕ → Bytes
strerror e = e ∷ []

abbrev answer : ℕ → List Message → SysRet Message × List Message
answer size [] = (failed enomsg, [])
answer size (m ∷ ms) = if ltb size (length m.1) then (failed e2big, m ∷ ms) else (done m, ms)

abbrev calls : MsgCalls (List Message)
calls = record {
  msgget = λ key flags w. (done 3, w);
  msgsnd = λ id t body nowait w.
      if ltb (length w) 2 then (done tt, w ++ (t, body) ∷ []) else (failed eagain, w);
  msgrcv = λ id size t nowait w. answer size w;
  msg_remove = λ id w. (done tt, w);
}

calls-FifoLaws : FifoLaws calls (pos 3) (λ w. w)
calls-FifoLaws = record {
  sent = λ t body nowait w. elim (Bool-cases (ltb (length w) 2)) [
    | inl e ↦ inl (tt, rw e refl, rw e refl)
    | inr e ↦ inr (eagain, rw e refl, rw e refl)
  ];
  received = λ size nowait w m ms h fits. ground (arith, h);
}

abbrev start : Queue (List Message)
start = record {
  obj = record {
    msqid = pos 3;
    msgbuf = some (record { mtype = pos 0; mtext = replicate msgmax 0 });
  };
  system = [];
}

start-Holds : Holds calls (pos 3) (λ w. w) start []
start-Holds = record {
  valid = record {
    buffer = record { mtype = pos 0; mtext = replicate msgmax 0 };
    allocated = refl;
    sized = length-replicate {A = ℕ} msgmax 0;
  };
  named = refl;
  waiting = refl;
  fit = tt;
}

-- Three messages, of which the queue takes two.
abbrev three : List Message
three = (pos 1, 104 ∷ 105 ∷ []) ∷ (pos 7, []) ∷ (pos 2, 33 ∷ []) ∷ []

send_all-receive_all_example :
    let (sent, q1) = send_all strerror calls true three start in
    receive_all strerror calls true (length sent) q1 ≡ map delivered sent
send_all-receive_all_example =
    send_all-receive_all strerror calls (pos 3) (λ w. w) calls-FifoLaws true three start start-Holds
