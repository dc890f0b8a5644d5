-- ===== src/Sys/Process/Arguments.antt =====
-- lsyslib.c, `sys.execlp`: the array of arguments that it fills.
use lua_xlib.Sys.Process.{
  Slot, fill_args, pointer, null, unset, ProcessCalls, lsys_execlp, max_args, arg_array, status,
}
use lua_xlib.Lua.{Bytes}
use mathlib.Core.Option
use lua_xlib.Base.{
  ℕ, Option, List, length, map, none, set, ◌++◌, ◌<◌, ◌∷◌, replicate, some, ◌≡◌, [], ap, refl,
  arith, drop, ◌+◌, append-nil, length-append, sym, append_assoc, ◌∙◌, length-replicate, ltb,
  length-drop, true, length-map, lt→ltb,
}

-- The arguments that a program is given by an array: those up to the first NULL. An array without one,
-- or with an entry before it that was not set, gives none.
pub argv : List Slot → Option (List Bytes)
argv [] = none
argv (unset ∷ rest) = none
argv (null ∷ rest) = some []
argv (pointer s ∷ rest) = Option.map (λ (ss : List Bytes). s ∷ ss) (argv rest)

set-append : (xs ys : List Slot) (v y : Slot) → set (xs ++ y ∷ ys) (length xs) v ≡ xs ++ v ∷ ys
set-append [] ys v y = refl
set-append (x ∷ xs) ys v y = ap (◌∷◌ x) (set-append xs ys v y)

argv-append :
    (ss : List Bytes) (rest : List Slot) → argv (map (λ s. pointer s) ss ++ null ∷ rest) ≡ some ss
unfolding argv
argv-append [] rest = refl
argv-append (s ∷ ss) rest = rw (argv-append ss rest) refl

-- What is behind the arguments that are set so far is filled one after the other.
fill_args-append :
    (args : List Bytes) (before rest : List Slot)
    → length args < length rest
    → fill_args (length before) args (before ++ rest)
      ≡ (before ++ map (λ s. pointer s) args) ++ drop (length args) rest
unfolding fill_args
fill_args-append [] before rest h = rw (append-nil before) refl
fill_args-append (s ∷ ss) before [] h = absurd (omega (arith, h))
fill_args-append (s ∷ ss) before (y ∷ ys) h =
    let longer : length (before ++ pointer s ∷ []) ≡ length before + 1 =
      length-append before (pointer s ∷ []) in
    let joined : before ++ pointer s ∷ ys ≡ (before ++ pointer s ∷ []) ++ ys =
      sym (append_assoc before (pointer s ∷ []) ys) in
    let ends : (before ++ pointer s ∷ []) ++ map (λ t. pointer t) ss
        ≡ before ++ pointer s ∷ map (λ t. pointer t) ss =
      append_assoc before (pointer s ∷ []) (map (λ t. pointer t) ss) in
    ap (fill_args (length before + 1) ss) (set-append before ys (pointer s) y ∙ joined)
    ∙ ap (λ i. fill_args i ss ((before ++ pointer s ∷ []) ++ ys)) (sym longer)
    ∙ fill_args-append ss (before ++ pointer s ∷ []) ys (omega (arith, h))
    ∙ ap (λ l. l ++ drop (length ss) ys) ends

nonempty : (ys : List Slot) → 0 < length ys → (y : Slot) × (zs : List Slot) × (ys ≡ y ∷ zs)
nonempty [] h = absurd (omega (arith, h))
nonempty (y ∷ zs) h = (y, zs, refl)

-- The array of `sys.execlp`, where its arguments fit in.
argv-arg_array :
    (name : Bytes) (args : List Bytes)
    → length args + 1 < max_args
    → argv (arg_array name args) ≡ some (name ∷ args)
argv-arg_array name args h =
    let size : length (replicate 255 unset) ≡ 255 = length-replicate 255 unset in
    let filled =
      fill_args-append args (pointer name ∷ []) (replicate 255 unset) (omega (arith, h, size)) in
    let (y, zs, left) =
      nonempty (drop (length args) (replicate 255 unset))
        (omega (arith, h, size, length-drop (length args) (replicate 255 unset))) in
    let place : length args + 1 ≡ length (map (λ s. pointer s) (name ∷ args)) =
      omega (arith, length-map (λ (s : Bytes). pointer s) args) in
    ap (λ l. argv (set l (length args + 1) null))
      (filled ∙ ap (λ l. map (λ s. pointer s) (name ∷ args) ++ l) left)
    ∙ ap (λ i. argv (set (map (λ s. pointer s) (name ∷ args) ++ y ∷ zs) i null)) place
    ∙ ap argv (set-append (map (λ s. pointer s) (name ∷ args)) zs null y)
    ∙ argv-append (name ∷ args) zs

module _ {W : Type 0} (strerror : ℕ → Bytes) (calls : ProcessCalls W) where
  -- With fewer than 256 arguments, the file among them, `sys.execlp` fills its array in bounds: what it
  -- gives `execvp` is the base name of the file and then the arguments, each of them set, ended by a
  -- NULL.
  pub lsys_execlp_lem :
      (file : Bytes) (args : List Bytes) (w : W)
      → length args + 1 < max_args
      → (arg : List Slot) × (lsys_execlp strerror calls file args w
          ≡ status strerror calls (calls.execvp (calls.basename file).1 arg w))
        × (argv arg ≡ some ((calls.basename file).0 ∷ args))
  unfolding lsys_execlp
  lsys_execlp_lem file args w h =
      let few : ltb (length args + 1) max_args ≡ true = lt→ltb (length args + 1) max_args h in
      (
        arg_array (calls.basename file).0 args,
        rw few refl,
        argv-arg_array (calls.basename file).0 args h,
      )
