-- ===== src/Svipc/Msg/Fifo.antt =====
-- `msg:send` and `msg:receive` of lsvipc.c over a queue of the system that is first in, first out.
use lua_xlib.Svipc.Msg.Buffer.{
  Message, AllFit, AllFit-append, delivered, is_true, append_if, IsValid, with_buffer-IsValid,
  submit_lem, deliver_lem,
}
use lua_xlib.Svipc.Msg.{Queue, MsgCalls, msgmax, submit, deliver, lmsg_receive, lmsg_send}
use lua_xlib.Lua.{Bytes, Reply, done, boolean_status, failed, report_errmsg, SysRet}
use lua_xlib.Base.Int.{ℤ, pos, pos_part}
use lua_xlib.Memory.{overwrite}
use lua_xlib.Base.{
  ℕ, List, [], ◌∷◌, ◌++◌, Bool, some, ◌≡◌, length, ◌≤◌, refl, ap, ◌∙◌, arith, if◌then◌else◌, suc,
  ◌⊎◌, none, zero, append-nil, map, subst, Bool-cases, sym, inl, ltb, inr,
}

module _ {W : Type 0} where
  -- The queue that `id` names, as a list: `msgsnd` puts a message at its end or fails and leaves it,
  -- and `msgrcv` for any type takes the first one, if there is one and it is not longer than allowed.
  module _ (calls : MsgCalls W) (id : ℤ) (queue : W → List Message) where
    pub record FifoLaws : Type 0 where
      pub sent :
          (t : ℤ) (body : Bytes) (nowait : Bool) (w : W)
          → let (ret, w') = calls.msgsnd id t body nowait w in
            ((u : Unit {0}) × (ret ≡ done u) × (queue w' ≡ queue w ++ (t, body) ∷ []))
            ⊎ ((e : ℕ) × (ret ≡ failed e) × (queue w' ≡ queue w))
      pub received :
          (size : ℕ) (nowait : Bool) (w : W) (m : Message) (ms : List Message)
          → queue w ≡ m ∷ ms
          → length m.1 ≤ size
          → let (ret, w') = calls.msgrcv id size (pos 0) nowait w in
            (ret ≡ done m) × (queue w' ≡ ms)

    -- The object is valid, and the messages `ms` wait in its queue.
    pub record Holds (q : Queue W) (ms : List Message) : Type 0 where
      pub valid : IsValid q
      pub named : q.msqid ≡ id
      pub waiting : queue q.system ≡ ms
      pub fit : AllFit ms

  module _ (strerror : ℕ → Bytes) (calls : MsgCalls W) (nowait : Bool) where
    abbrev send_one : Message → Queue W → Reply × Queue W
    send_one (t, body) q = lmsg_send strerror calls body (some t) nowait q

    -- A program that sends messages: those for which `msg:send` returned true, and the state it leaves.
    pub send_all : List Message → Queue W → List Message × Queue W
    send_all [] q = ([], q)
    send_all (m ∷ ms) q =
        let (r, q1) = send_one m q in
        let (sent, q2) = send_all ms q1 in (if is_true r then m ∷ sent else sent, q2)

    -- A program that receives `n` messages of any type.
    pub receive_all : ℕ → Queue W → List Reply
    receive_all zero q = []
    receive_all (suc n) q =
        let (r, q1) = lmsg_receive strerror calls none nowait q in r ∷ receive_all n q1

  module _ (strerror : ℕ → Bytes) (calls : MsgCalls W) (id : ℤ) (queue : W → List Message)
      (laws : FifoLaws calls id queue) (nowait : Bool) where
    answered-Holds :
        (m : Message) (q : Queue W) (ms : List Message) (h : Holds calls id queue q ms)
        → length m.1 ≤ msgmax
        → (ret : SysRet (Unit {0})) (w : W)
        → ((u : Unit {0}) × (ret ≡ done u) × (queue w ≡ queue q.system ++ m ∷ []))
          ⊎ ((e : ℕ) × (ret ≡ failed e) × (queue w ≡ queue q.system))
        → Holds calls id queue
            (record q {
              obj = record q.obj {
                msgbuf =
                    some (record { mtype = m.0; mtext = overwrite h.valid.buffer.mtext 0 m.1 });
              };
              system = w;
            })
            (if is_true (boolean_status strerror ret) then ms ++ m ∷ [] else ms)
    unfolding report_errmsg
    answered-Holds m q ms h fits ret w (inl (u, e, waits)) = rw e (record {
      valid = with_buffer-IsValid q h.valid m.0 m.1 w fits;
      named = h.named;
      waiting = waits ∙ ap (λ l. l ++ m ∷ []) h.waiting;
      fit = AllFit-append ms m h.fit fits;
    })
    answered-Holds m q ms h fits ret w (inr (e, f, waits)) = rw f (record {
      valid = with_buffer-IsValid q h.valid m.0 m.1 w fits;
      named = h.named;
      waiting = waits ∙ h.waiting;
      fit = h.fit;
    })

    submit-Holds :
        (m : Message) (q : Queue W) (ms : List Message)
        → Holds calls id queue q ms
        → length m.1 ≤ msgmax
        → let (r, q1) = submit strerror calls m.1 m.0 nowait q in
          Holds calls id queue q1 (if is_true r then ms ++ m ∷ [] else ms)
    submit-Holds m q ms h fits =
        let (ret, w) = calls.msgsnd q.msqid m.0 m.1 nowait q.system in
        subst (λ x. Holds calls id queue x.1 (if is_true x.0 then ms ++ m ∷ [] else ms))
          (sym (submit_lem strerror calls m.1 m.0 nowait q h.valid fits))
          (answered-Holds m q ms h fits ret w (rw h.named (laws.sent m.0 m.1 nowait q.system)))

    receive-Holds :
        (q : Queue W) (m : Message) (ms : List Message)
        → Holds calls id queue q (m ∷ ms)
        → let (r, q1) = lmsg_receive strerror calls none nowait q in
          (r ≡ delivered m) × Holds calls id queue q1 ms
    unfolding lmsg_receive
    receive-Holds q m ms h =
        let (ret, w) = calls.msgrcv q.msqid msgmax (pos 0) nowait q.system in
        let got = laws.received msgmax nowait q.system m ms h.waiting h.fit.0 in
        let q1 : Queue W = record q { system = w } in
        let v1 : IsValid q1 = record {
          buffer = h.valid.buffer;
          allocated = h.valid.allocated;
          sized = h.valid.sized;
        } in
        subst (λ x. (x.0 ≡ delivered m) × Holds calls id queue x.1 ms)
          (sym (
            ap (λ r. deliver strerror calls r q1) {y = done m} (rw h.named got.0)
            ∙ deliver_lem strerror calls m q1 v1 h.fit.0))
          (
            refl,
            record {
              valid = with_buffer-IsValid q1 v1 m.0 m.1 w h.fit.0;
              named = h.named;
              waiting = rw h.named got.1;
              fit = h.fit.1;
            },
          )

    send-Holds :
        (m : Message) (q : Queue W) (ms : List Message)
        → Holds calls id queue q ms
        → let (r, q1) = send_one strerror calls nowait m q in
          Holds calls id queue q1 (if is_true r then ms ++ m ∷ [] else ms)
    unfolding lmsg_send report_errmsg
    send-Holds m q ms h = elim (Bool-cases (ltb 0 (pos_part m.0))) [
      | inr e ↦ rw e h
      | inl e ↦ elim (Bool-cases (ltb msgmax (length m.1))) [
        | inl f ↦ rw (e, f) h
        | inr f ↦ rw (e, f) (submit-Holds m q ms h (ground arith))
      ]
    ]

    receive_all-map :
        (ms : List Message) (q : Queue W)
        → Holds calls id queue q ms
        → receive_all strerror calls nowait (length ms) q ≡ map delivered ms
    unfolding receive_all
    receive_all-map [] q h = refl
    receive_all-map (m ∷ ms) q h =
        let (r, next) = receive-Holds q m ms h in
        rw (r, receive_all-map ms (lmsg_receive strerror calls none nowait q).1 next) refl

    send_all-Holds :
        (ms : List Message) (q : Queue W) (before : List Message)
        → Holds calls id queue q before
        → Holds calls id queue
            (send_all strerror calls nowait ms q).1
            (before ++ (send_all strerror calls nowait ms q).0)
    unfolding send_all
    send_all-Holds [] q before h = rw (append-nil before) h
    send_all-Holds (m ∷ ms) q before h =
        let (r, q1) = send_one strerror calls nowait m q in
        let grown : List Message = if is_true r then before ++ m ∷ [] else before in
        subst (Holds calls id queue (send_all strerror calls nowait ms q1).1)
          (append_if (is_true r) before m (send_all strerror calls nowait ms q1).0)
          (send_all-Holds ms q1 grown (send-Holds m q before h))

    -- On a valid object whose queue is empty, for a queue that is first in, first out, and refuses what
    -- it will: a program that calls `msg:send` for messages of any types and lengths, and then
    -- `msg:receive` once for each call that returned true, receives exactly the messages of these
    -- calls, their types and all their bytes, in the order in which they were sent.
    pub send_all-receive_all :
        (ms : List Message) (q : Queue W)
        → Holds calls id queue q []
        → let (sent, q1) = send_all strerror calls nowait ms q in
          receive_all strerror calls nowait (length sent) q1 ≡ map delivered sent
    send_all-receive_all ms q h =
        let (sent, q1) = send_all strerror calls nowait ms q in
        receive_all-map sent q1 (send_all-Holds ms q [] h)
