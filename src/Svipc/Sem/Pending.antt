-- ===== src/Svipc/Sem/Pending.antt =====
-- The operations that wait in a `sem_obj` of lsvipc.c, as the list that `sem:done` submits.
use lua_xlib.Constants.{erange, einval}
use lua_xlib.Base.Words.{to_int}
use lua_xlib.Base.Int.{ℤ, pos, negsuc}
use lua_xlib.Svipc.Sem.{
  Sem, SemBuf, lsem_addop, mark_nowait, ℤ, nowait_flag, to_int, get_or, in_set, sembuf, erange,
  SemCalls, lsem_done, addop_at,
}
use lua_xlib.Lua.{Bytes, values, boolean, report_error, lret_negative, Reply, boolean_status}
use lua_xlib.Base.{
  ℕ, List, length, ◌<◌, take, ◌++◌, ◌∷◌, ◌≡◌, Option, map, suc, ◌*◌, ◌+◌, ap, set, ◌≤◌, [], zero,
  arith, refl, if◌then◌else◌, ltb, true, Bool, length-take, false, length-set,
}

-- The array has room for three operations on each semaphore, and every waiting one names a semaphore
-- of the set.
abbrev pub AllInSet : ℕ → List SemBuf → Type 0
AllInSet n [] = Unit {0}
AllInSet n (b ∷ bs) = (b.sem_num < n) × AllInSet n bs

module _ {W : Type 0} where
  abbrev pub pending : Sem W → List SemBuf
  pending s = take s.nops s.sops

  pub record IsValid (s : Sem W) : Type 0 where
    pub room : length s.sops ≡ s.nsems * 3
    pub fits : s.nops ≤ s.nsems * 3
    pub named : AllInSet s.nsems (take s.nops s.sops)

take-set {ℓ} :
    {A : Type ℓ} (n : ℕ) (xs : List A) (x : A)
    → n < length xs
    → take (n + 1) (set xs n x) ≡ take n xs ++ x ∷ []
take-set n [] x h = elim h [ ]
take-set zero (y ∷ xs) x h = refl
take-set (suc n) (y ∷ xs) x h =
    let e : suc n + 1 ≡ suc (n + 1) = omega arith in
    rw e (ap (◌∷◌ y) (take-set n xs x (omega arith)))

AllInSet-append :
    (n : ℕ) (xs ys : List SemBuf) → AllInSet n xs → AllInSet n ys → AllInSet n (xs ++ ys)
AllInSet-append n [] ys hx hy = hy
AllInSet-append n (x ∷ xs) ys hx hy = (hx.0, AllInSet-append n xs ys hx.1 hy)

take-mark_nowait :
    (n : ℕ) (xs : List SemBuf) → take n (mark_nowait n xs) ≡ map nowait_flag (take n xs)
take-mark_nowait zero xs = refl
take-mark_nowait (suc n) [] = refl
take-mark_nowait (suc n) (x ∷ xs) = ap (◌∷◌ (nowait_flag x)) (take-mark_nowait n xs)

length-mark_nowait : (n : ℕ) (xs : List SemBuf) → length (mark_nowait n xs) ≡ length xs
length-mark_nowait zero xs = refl
length-mark_nowait (suc n) [] = refl
length-mark_nowait (suc n) (x ∷ xs) = ap suc (length-mark_nowait n xs)

-- The abstract component: a list of operations, at most three for each semaphore of the set. `done`
-- says what goes to `semop`, and leaves nothing.
unfoldable pub add : (strerror : ℕ → Bytes) (nsems : ℕ) → ℤ → ℤ → List SemBuf → Reply × List SemBuf
add strerror nsems op num queue =
    if in_set num nsems
    then if ltb (length queue) (nsems * 3)
      then (values (boolean true ∷ []), queue ++ sembuf op num ∷ [])
      else (report_error strerror lret_negative erange, queue)
    else (report_error strerror lret_negative einval, queue)

abbrev pub submitted : Bool → List SemBuf → List SemBuf
submitted nowait queue = if nowait then map nowait_flag queue else queue

module _ {W : Type 0} (strerror : ℕ → Bytes) (s : Sem W) (v : IsValid s) where
  length-pending : length (pending s) ≡ s.nops
  length-pending = omega (arith, v.room, v.fits, length-take s.nops s.sops)

  addop_at_refines :
      (op num : ℤ)
      → IsValid (addop_at strerror op num s).1
        × (((addop_at strerror op num s).0, pending (addop_at strerror op num s).1)
            ≡ add strerror s.nsems op num (pending s))
  unfolding addop_at add
  addop_at_refines op (pos zero) = (v, refl)
  addop_at_refines op (pos (suc n)) = ground (
    arith,
    length-pending,
    length-set s.sops s.nops (sembuf op (pos (suc n))),
    take-set s.nops s.sops (sembuf op (pos (suc n))),
    v.room,
    AllInSet-append s.nsems (pending s) (sembuf op (pos (suc n)) ∷ []) v.named,
  )
  addop_at_refines op (negsuc n) = (v, refl)

  -- `sem:add_op` on a valid object does what the bounded list does, and keeps the object valid.
  pub lsem_addop_refines :
      (op : ℤ) (sem_num : Option ℤ)
      → let (r, s') = lsem_addop strerror op sem_num s in
        IsValid s'
        × ((r, pending s') ≡ add strerror s.nsems op (to_int (get_or sem_num (pos 1))) (pending s))
  unfolding lsem_addop
  lsem_addop_refines op sem_num = addop_at_refines op (to_int (get_or sem_num (pos 1)))

  module _ (calls : SemCalls W) where
    -- `sem:done` on a valid object hands the waiting operations to `semop`, in the order in which they
    -- were added, each with IPC_NOWAIT set if that is asked for. Whatever `semop` answers, no
    -- operation waits afterwards.
    pub lsem_done_refines :
        (nowait : Bool)
        → let (ret, w) = calls.semop s.semid (submitted nowait (pending s)) s.system in
          let (r, s') = lsem_done strerror calls nowait s in
          IsValid s' × (pending s' ≡ []) × (s'.system ≡ w) × (r ≡ boolean_status strerror ret)
    unfolding lsem_done
    lsem_done_refines true =
        ground (arith, take-mark_nowait s.nops s.sops, length-mark_nowait s.nops s.sops, v.room)
    lsem_done_refines false = ground (arith, v.room)
