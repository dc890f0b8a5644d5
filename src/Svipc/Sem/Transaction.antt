-- ===== src/Svipc/Sem/Transaction.antt =====
-- Whole uses of a semaphore set of lsvipc.c: operations collected and then done at once, and `setall`.
use lua_xlib.Base.Words.{to_int, to_short}
use lua_xlib.Svipc.Sem.Pending.{
  add, IsValid, pending, submitted, lsem_done_refines, lsem_addop_refines,
}
use lua_xlib.Base.Int.{ℤ, pos}
use lua_xlib.Lua.{Bytes, boolean_status}
use lua_xlib.Svipc.Sem.{
  Sem, SemBuf, SemCalls, lsem_addop, lsem_setall, ℤ, lsem_done, in_set, sembuf, to_int, nowait_flag,
}
use lua_xlib.Base.{
  ℕ, List, Bool, Option, ◌+◌, length, ◌^◌, ◌≡◌, [], ◌++◌, ◌<◌, ◌≤◌, ◌*◌, arith, ◌∷◌, append-nil,
  some, length-append, true, append_assoc, false, suc, if◌then◌else◌, zero, ap, sym, refl,
}

module _ {W : Type 0} (strerror : ℕ → Bytes) where
  -- `sem:add_op(op, num)` for each pair, in order.
  unfoldable pub add_all : List (ℤ × ℤ) → Sem W → Sem W
  add_all [] s = s
  add_all ((op, num) ∷ ops) s = add_all ops (lsem_addop strerror op (some num) s).1

abbrev pub AllInSetArgs : ℕ → List (ℤ × ℤ) → Type 0
AllInSetArgs n [] = Unit {0}
AllInSetArgs n ((op, num) ∷ ops) = (in_set (to_int num) n ≡ true) × AllInSetArgs n ops

abbrev pub entries : List (ℤ × ℤ) → List SemBuf
entries [] = []
entries ((op, num) ∷ ops) = sembuf op (to_int num) ∷ entries ops

-- The operation that `semop` reads for `sem:add_op(op, num)`: semaphores count from 0 for it, the number
-- is the `short` that `op` leaves, an operation other than 0 is undone at exit (SEM_UNDO, 0x1000), and
-- IPC_NOWAIT (0x800) is set on demand.
abbrev pub requested : Bool → ℤ × ℤ → SemBuf
requested nowait (op, num) =
    let n : ℕ = elim (to_int num) [ pos (suc n) ↦ n | _ ↦ 0 ] in
    elim (to_short op) [
      | pos zero ↦ record { sem_num = n; sem_op = pos 0; sem_flg = if nowait then 0x800 else 0 }
      | z ↦ record { sem_num = n; sem_op = z; sem_flg = if nowait then 0x1800 else 0x1000 }
    ]

abbrev pub all_requested : Bool → List (ℤ × ℤ) → List SemBuf
all_requested nowait [] = []
all_requested nowait (o ∷ ops) = requested nowait o ∷ all_requested nowait ops

sembuf-requested : (op num : ℤ) → sembuf op (to_int num) ≡ requested false (op, num)
sembuf-requested op num = ground arith

nowait_flag-requested :
    (op num : ℤ) → nowait_flag (sembuf op (to_int num)) ≡ requested true (op, num)
nowait_flag-requested op num = ground arith

submitted-requested :
    (nowait : Bool) (ops : List (ℤ × ℤ)) → submitted nowait (entries ops) ≡ all_requested nowait ops
submitted-requested true [] = refl
submitted-requested false [] = refl
submitted-requested true ((op, num) ∷ ops) =
    rw (nowait_flag-requested op num)
      (ap (◌∷◌ (requested true (op, num))) (submitted-requested true ops))
submitted-requested false ((op, num) ∷ ops) =
    rw (sembuf-requested op num)
      (ap (◌∷◌ (requested false (op, num))) (submitted-requested false ops))

-- The object after some operations have been added to it.
record Added {W : Type 0} (s : Sem W) (more : List SemBuf) (s' : Sem W) : Type 0 where
  valid : IsValid s'
  queue : pending s' ≡ pending s ++ more
  same_set : s'.nsems ≡ s.nsems
  same_id : s'.semid ≡ s.semid
  same_system : s'.system ≡ s.system

module _ {W : Type 0} (strerror : ℕ → Bytes) where
  lsem_addop_keeps :
      (op : ℤ) (sem_num : Option ℤ) (s : Sem W)
      → let s' = (lsem_addop strerror op sem_num s).1 in
        (s'.nsems ≡ s.nsems) × (s'.semid ≡ s.semid) × (s'.system ≡ s.system)
  unfolding lsem_addop
  lsem_addop_keeps op sem_num s = ground arith

  lsem_addop-Added :
      (op num : ℤ) (s : Sem W)
      → IsValid s
      → in_set (to_int num) s.nsems ≡ true
      → length (pending s) < s.nsems * 3
      → Added s (sembuf op (to_int num) ∷ []) (lsem_addop strerror op (some num) s).1
  unfolding add
  lsem_addop-Added op num s v h room =
      ground
        (arith, lsem_addop_refines strerror s v op (some num), lsem_addop_keeps op (some num) s)

  add_all-Added :
      (ops : List (ℤ × ℤ)) (s : Sem W)
      → IsValid s
      → AllInSetArgs s.nsems ops
      → length (pending s) + length ops ≤ s.nsems * 3
      → Added s (entries ops) (add_all strerror ops s)
  unfolding add_all
  add_all-Added [] s v h room = ground (arith, append-nil (pending s))
  add_all-Added ((op, num) ∷ ops) s v h room =
      let one : Added s (sembuf op (to_int num) ∷ []) (lsem_addop strerror op (some num) s).1 =
        lsem_addop-Added op num s v h.0 (omega arith) in
      ground (
        arith,
        add_all-Added ops (lsem_addop strerror op (some num) s).1 one.valid,
        length-append (pending s) (sembuf op (to_int num) ∷ []),
        append_assoc (pending s) (sembuf op (to_int num) ∷ []) (entries ops),
        one.queue,
        one.same_set,
        one.same_id,
        one.same_system,
      )

  -- Operations on semaphores of the set, no more than there is room for, added to a valid object with
  -- none waiting, and then done: `semop` is called once, on all of them in order, and its answer is the
  -- reply. It is given each with the number of its semaphore counted from 0, its operation as a `short`,
  -- SEM_UNDO unless that is 0, and IPC_NOWAIT if that is asked for. None waits afterwards.
  pub add_all-done :
      (calls : SemCalls W) (nowait : Bool) (ops : List (ℤ × ℤ)) (s : Sem W)
      → IsValid s
      → pending s ≡ []
      → AllInSetArgs s.nsems ops
      → length ops ≤ s.nsems * 3
      → let (ret, w) = calls.semop s.semid (all_requested nowait ops) s.system in
        let (r, s') = lsem_done strerror calls nowait (add_all strerror ops s) in
        (r ≡ boolean_status strerror ret) × (s'.system ≡ w) × (pending s' ≡ [])
  add_all-done calls nowait ops s v e h room =
      let added : Added s (entries ops) (add_all strerror ops s) =
        add_all-Added ops s v h (rw e (omega arith)) in
      ground (
        arith,
        e,
        sym (submitted-requested nowait ops),
        added.queue,
        added.same_id,
        added.same_system,
        lsem_done_refines strerror (add_all strerror ops s) added.valid calls nowait,
      )

  -- `sem:setall` keeps the low 16 bits of its argument only: a value of 2 ^ 16 or more, within `int`,
  -- sets the semaphores as the value less 2 ^ 16 does.
  pub lsem_setall-wraps :
      (calls : SemCalls W) (n : ℕ) (s : Sem W)
      → n + 2 ^ 16 < 2 ^ 31
      → lsem_setall strerror calls (pos (n + 2 ^ 16)) s ≡ lsem_setall strerror calls (pos n) s
  unfolding lsem_setall
  lsem_setall-wraps calls n s h = ground arith
