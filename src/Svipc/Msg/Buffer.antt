-- ===== src/Svipc/Msg/Buffer.antt =====
-- `msg:send` and `msg:receive` of lsvipc.c: how a message goes through the buffer.
use lua_xlib.Svipc.Msg.{Queue, MsgCalls, msgmax, submit, deliver, MsgBuf}
use lua_xlib.Lua.{Bytes, Reply, values, boolean, string, integer, done, boolean_status}
use lua_xlib.Base.Int.{ℤ}
use lua_xlib.Memory.{overwrite, length-overwrite, through_buffer}
use lua_xlib.Base.{
  ℕ, List, [], ◌∷◌, ◌++◌, Bool, true, false, some, ◌≡◌, length, ◌≤◌, refl, ◌∙◌, arith,
  if◌then◌else◌, append_assoc,
}

-- A message: its type and its text.
abbrev pub Message : Type 0
Message = ℤ × Bytes

abbrev pub AllFit : List Message → Type 0
AllFit [] = Unit {0}
AllFit (m ∷ ms) = (length m.1 ≤ msgmax) × AllFit ms

pub AllFit-append :
    (ms : List Message) (m : Message) → AllFit ms → length m.1 ≤ msgmax → AllFit (ms ++ m ∷ [])
AllFit-append [] m f h = (h, tt)
AllFit-append (x ∷ ms) m f h = (f.0, AllFit-append ms m f.1 h)

-- What `msg:receive` returns for a message.
abbrev pub delivered : Message → Reply
delivered (mtype, body) = values (string body ∷ integer mtype ∷ [])

abbrev pub is_true : Reply → Bool
is_true (values (boolean true ∷ [])) = true
is_true _ = false

pub append_if :
    (b : Bool) (before : List Message) (m : Message) (sent : List Message)
    → (if b then before ++ m ∷ [] else before) ++ sent ≡ before ++ (if b then m ∷ sent else sent)
append_if true before m sent = append_assoc before (m ∷ []) sent
append_if false before m sent = refl

module _ {W : Type 0} where
  -- The buffer has the size that `msgget` allocates.
  pub record IsValid (q : Queue W) : Type 0 where
    pub buffer : MsgBuf
    pub allocated : q.msgbuf ≡ some buffer
    pub sized : length buffer.mtext ≡ msgmax

  pub with_buffer-IsValid :
      (q : Queue W) (v : IsValid q) (t : ℤ) (body : Bytes) (w : W)
      → length body ≤ msgmax
      → IsValid (record q {
        obj = record q.obj {
          msgbuf = some (record { mtype = t; mtext = overwrite v.buffer.mtext 0 body });
        };
        system = w;
      })
  with_buffer-IsValid q v t body w h = record {
    buffer = record { mtype = t; mtext = overwrite v.buffer.mtext 0 body };
    allocated = refl;
    sized = length-overwrite v.buffer.mtext body 0 (omega (arith, v.sized)) ∙ v.sized;
  }

  module _ (strerror : ℕ → Bytes) (calls : MsgCalls W) where
    pub submit_lem :
        (message : Bytes) (t : ℤ) (nowait : Bool) (q : Queue W) (v : IsValid q)
        → length message ≤ msgmax
        → submit strerror calls message t nowait q ≡ (
            let (ret, w) = calls.msgsnd q.msqid t message nowait q.system in
            (
              boolean_status strerror ret,
              record q {
                obj = record q.obj {
                  msgbuf = some (record { mtype = t; mtext = overwrite v.buffer.mtext 0 message });
                };
                system = w;
              },
            ))
    submit_lem message t nowait q v h =
        let b = through_buffer v.buffer.mtext message (rw v.sized h) in
        ground (arith, v.allocated, b.0, b.1)

    pub deliver_lem :
        (m : Message) (q : Queue W) (v : IsValid q)
        → length m.1 ≤ msgmax
        → deliver strerror calls (done m) q ≡ (
          delivered m,
          record q {
            obj = record q.obj {
              msgbuf = some (record { mtype = m.0; mtext = overwrite v.buffer.mtext 0 m.1 });
            };
          },
        )
    deliver_lem m q v h =
        let b = through_buffer v.buffer.mtext m.1 (rw v.sized h) in
        ground (arith, v.allocated, b.0, b.1)
