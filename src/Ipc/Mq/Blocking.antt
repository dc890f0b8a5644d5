-- ===== src/Ipc/Mq/Blocking.antt =====
-- lipclib.c, `mq:setblocking`: the flag that the object keeps, and the one of the system's queue.
use lua_xlib.Constants.{o_nonblock}
use lua_xlib.Ipc.Mq.{MqCalls, Mq, MqAttr, lmq_setblocking, differs, attributes, o_nonblock}
use lua_xlib.Lua.{Bytes, failed, done, values, boolean, report_error, lret_boolean}
use lua_xlib.Base.Int.{ℤ}
use lua_xlib.Base.{
  ℕ, Bool, ◌≡◌, ◌==◌, not, ◌⊎◌, inl, inr, refl, ◌∷◌, [], true, false, arith, Bool-cases,
  if◌then◌else◌, ◌∙◌,
}

same_flag : (a b : Bool) → differs a b ≡ false → b ≡ a
same_flag a b h = ground arith

flag_of : (b : Bool) → not ((if b then o_nonblock else 0) == 0) ≡ b
flag_of b = ground arith

module _ {W : Type 0} (calls : MqCalls W) (nonblocking : W → ℤ → Bool) where
  -- `mq_getattr` changes no flag; `mq_setattr` makes the flag what it is told, or fails and leaves it.
  pub record FlagLaws : Type 0 where
    pub getattr_keeps : (d : ℤ) (w : W) → nonblocking (calls.mq_getattr d w).1 d ≡ nonblocking w d
    pub setattr_sets :
        (d : ℤ) (a : MqAttr) (w : W)
        → let (ret, w') = calls.mq_setattr d a w in
          ((u : Unit {0}) × (ret ≡ done u) × (nonblocking w' d ≡ not (a.flags == 0)))
          ⊎ ((e : ℕ) × (ret ≡ failed e) × (nonblocking w' d ≡ nonblocking w d))

  -- What the object believes of its queue is so.
  abbrev pub Agrees : Mq W → Type 0
  Agrees q = nonblocking q.system q.mqdes ≡ q.nonblock

  module _ (strerror : ℕ → Bytes) (laws : FlagLaws) where
    -- On an object whose flag agrees with the system's queue, `mq:setblocking` leaves them in
    -- agreement, whatever `mq_getattr` and `mq_setattr` answer. It either returns true, and the queue
    -- blocks or not as was asked; or it returns an error, and the queue is as it was.
    pub lmq_setblocking_lem :
        (garbage : MqAttr) (blocking : Bool) (q : Mq W)
        → Agrees q
        → let (r, q') = lmq_setblocking strerror calls garbage blocking q in
          Agrees q'
          × (((r ≡ values (boolean true ∷ [])) × (nonblocking q'.system q'.mqdes ≡ not blocking))
              ⊎ ((e : ℕ) × (r ≡ report_error strerror lret_boolean e)
                  × (nonblocking q'.system q'.mqdes ≡ nonblocking q.system q.mqdes)))
    unfolding lmq_setblocking
    lmq_setblocking_lem garbage blocking q a =
        elim (Bool-cases (differs (not blocking) q.nonblock)) [
          | inr e ↦ rw e (a, inl (refl, a ∙ same_flag (not blocking) q.nonblock e))
          | inl e ↦
              let (st, w1) = calls.mq_getattr q.mqdes q.system in
              let attr : MqAttr = record (attributes strerror calls garbage st) {
                flags = if not blocking then o_nonblock else 0;
              } in
              elim (laws.setattr_sets q.mqdes attr w1) [
                | inl (u, d, f) ↦
                    rw (e, d) (f ∙ flag_of (not blocking), inl (refl, f ∙ flag_of (not blocking)))
                | inr (x, d, f) ↦
                    rw (e, d)
                      (
                        f ∙ laws.getattr_keeps q.mqdes q.system ∙ a,
                        inr (x, refl, f ∙ laws.getattr_keeps q.mqdes q.system),
                      )
              ]
        ]
