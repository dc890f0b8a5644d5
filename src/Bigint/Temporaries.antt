-- ===== src/Bigint/Temporaries.antt =====
-- lbnlib.c: the numbers that the calls make for themselves, over the calls of a program.
use lua_xlib.Lua.{LuaValue, boolean, c_string}
use lua_xlib.Base.{
  List, Option, ℕ, Bool, if◌then◌else◌, ◌∷◌, [], ◌+◌, ◌==◌, ◌≡◌, arith, some, none, refl, true,
}
use lua_xlib.Base.Int.{ℤ}
use lua_xlib.Bigint.Methods.{
  Source, from_number, from_string, bn_new, bn_free, bn_cmp, bn_setbit, look, unary, bind, cleared,
  compare_with, made, bit_set,
}
use lua_xlib.Bigint.{
  number, object, other, plain, error_at, Answer, Arg, Gmp, List, LuaValue, Option, State, bn_op, ℕ,
  ℤ, bn_op_assign, nb_check_arg, push_new, store, bn_op_cmp, compared, apply, value_at, boolean,
}

-- A call of the program: `looks` and `makes` are the methods that look at a number and that make a userdata of one.
pub data Call (Z : Type 0) : Type 0 where
  news : Source → Call Z
  frees : Arg → Call Z
  looks : (Z → LuaValue) → Arg → Call Z
  makes : (Z → Option Z) → Arg → Call Z
  binary : (Z → Z → Option Z) → Arg → Arg → Call Z
  in_place : (Z → Z → Option Z) → Arg → Arg → Call Z
  compares : (ℤ → Bool) → Arg → Arg → Call Z
  orders : Arg → Arg → Call Z
  sets_bit : Arg → ℤ → Option ℤ → Call Z

-- 1 for an error that names argument 2.
abbrev pub second_refused : Answer → ℕ
second_refused (error_at k) = if k == 2 then 1 else 0
second_refused _ = 0

-- A number as the first argument of an operation or a comparison whose second argument is refused.
abbrev pub leak : {Z : Type 0} → Call Z → Answer → ℕ
leak (binary op (number m) b) answer = second_refused answer
leak (compares test (number m) b) answer = second_refused answer
leak _ answer = 0

module _ {Z : Type 0} (gmp : Gmp Z) where
  abbrev pub exec : Call Z → State Z → Answer × State Z
  exec (news x) s = bn_new gmp x s
  exec (frees a) s = bn_free gmp a s
  exec (looks f a) s = look gmp f a s
  exec (makes f a) s = unary gmp f a s
  exec (binary op a b) s = bn_op gmp op a b s
  exec (in_place op a b) s = bn_op_assign gmp op a b s
  exec (compares test a b) s = bn_op_cmp gmp test a b s
  exec (orders a b) s = bn_cmp gmp a b s
  exec (sets_bit a n bit) s = bn_setbit gmp a n bit s

  -- How often a call of a program leaks, and the state that the program ends in.
  abbrev pub leaks : List (Call Z) → State Z → ℕ
  leaks [] s = 0
  leaks (c ∷ cs) s = leak c (exec c s).0 + leaks cs (exec c s).1

  abbrev pub run : List (Call Z) → State Z → State Z
  run [] s = s
  run (c ∷ cs) s = run cs (exec c s).1

  push_new_lem :
      (v : Option Z) (s : State Z)
      → ((push_new v s).1.temporaries ≡ s.temporaries) × (second_refused (push_new v s).0 ≡ 0)
  push_new_lem none s = (refl, refl)
  push_new_lem (some z) s = (refl, refl)

  store_lem :
      (i : ℕ) (v : Option Z) (xs : List LuaValue) (s : State Z)
      → (store i v (plain xs) s).1.temporaries ≡ s.temporaries
  store_lem i none xs s = refl
  store_lem i (some z) xs s = refl

  compared_lem : (test : ℤ → Bool) (x y : Option Z) → second_refused (compared gmp test x y) ≡ 0
  compared_lem test none y = refl
  compared_lem test (some x) none = refl
  compared_lem test (some x) (some y) = refl

  made_lem : (v : Option Z) (s : State Z) → (made gmp v s).1.temporaries ≡ s.temporaries
  made_lem none s = refl
  made_lem (some z) s = refl

  cleared_lem :
      (i : ℕ) (v : Option Z) (s : State Z) → (cleared gmp i v s).1.temporaries ≡ s.temporaries
  cleared_lem i none s = refl
  cleared_lem i (some z) s = refl

  compare_with_lem :
      (v : Option Z) (b : Arg) (s : State Z)
      → (compare_with gmp v b s).1.temporaries ≡ s.temporaries
  compare_with_lem v (number n) s = refl
  compare_with_lem v (object j) s = refl
  compare_with_lem v other s = refl

  bn_op-temporaries :
      (op : Z → Z → Option Z) (a b : Arg) (s : State Z)
      → (bn_op gmp op a b s).1.temporaries
        ≡ s.temporaries + leak (binary op a b) (bn_op gmp op a b s).0
  unfolding bn_op nb_check_arg
  bn_op-temporaries op (number m) (number n) s =
      let (t, e) =
        push_new_lem (op (gmp.of_long m) (gmp.of_long n))
          (record s { temporaries = s.temporaries + 1 + 1 }) in
      omega (arith, t, e)
  bn_op-temporaries op (number m) (object j) s =
      let (t, e) =
        push_new_lem (apply op (some (gmp.of_long m)) (value_at s.objects j))
          (record s { temporaries = s.temporaries + 1 }) in
      omega (arith, t, e)
  bn_op-temporaries op (number m) other s = omega arith
  bn_op-temporaries op (object i) (number n) s =
      let (t, e) =
        push_new_lem (apply op (value_at s.objects i) (some (gmp.of_long n)))
          (record s { temporaries = s.temporaries + 1 }) in
      omega (arith, t, e)
  bn_op-temporaries op (object i) (object j) s =
      omega (arith, (push_new_lem (apply op (value_at s.objects i) (value_at s.objects j)) s).0)
  bn_op-temporaries op (object i) other s = omega arith
  bn_op-temporaries op other b s = omega arith

  bn_op_assign-temporaries :
      (op : Z → Z → Option Z) (a b : Arg) (s : State Z)
      → (bn_op_assign gmp op a b s).1.temporaries ≡ s.temporaries
  unfolding bn_op_assign nb_check_arg
  bn_op_assign-temporaries op (number m) b s = refl
  bn_op_assign-temporaries op other b s = refl
  bn_op_assign-temporaries op (object i) (number n) s =
      let t =
        store_lem i (apply op (value_at s.objects i) (some (gmp.of_long n))) (boolean true ∷ [])
          (record s { temporaries = s.temporaries + 1 }) in
      omega (arith, t)
  bn_op_assign-temporaries op (object i) (object j) s =
      store_lem i (apply op (value_at s.objects i) (value_at s.objects j)) (boolean true ∷ []) s
  bn_op_assign-temporaries op (object i) other s = refl

  bn_op_cmp-temporaries :
      (test : ℤ → Bool) (a b : Arg) (s : State Z)
      → (bn_op_cmp gmp test a b s).1.temporaries
        ≡ s.temporaries + leak {Z = Z} (compares test a b) (bn_op_cmp gmp test a b s).0
  unfolding bn_op_cmp nb_check_arg
  bn_op_cmp-temporaries test (number m) (number n) s = omega arith
  bn_op_cmp-temporaries test (number m) (object j) s =
      omega (arith, compared_lem test (some (gmp.of_long m)) (value_at s.objects j))
  bn_op_cmp-temporaries test (number m) other s = omega arith
  bn_op_cmp-temporaries test (object i) (number n) s = omega arith
  bn_op_cmp-temporaries test (object i) (object j) s = omega arith
  bn_op_cmp-temporaries test (object i) other s = omega arith
  bn_op_cmp-temporaries test other b s = omega arith

  exec-temporaries :
      (c : Call Z) (s : State Z) → (exec c s).1.temporaries ≡ s.temporaries + leak c (exec c s).0
  unfolding bn_new bn_free bn_cmp bn_setbit
  exec-temporaries (binary op a b) s = bn_op-temporaries op a b s
  exec-temporaries (compares test a b) s = bn_op_cmp-temporaries test a b s
  exec-temporaries (in_place op a b) s = omega (arith, bn_op_assign-temporaries op a b s)
  exec-temporaries (news (from_number n)) s = omega arith
  exec-temporaries (news (from_string t)) s = omega (arith, made_lem (gmp.from_text (c_string t)) s)
  exec-temporaries (frees (object i)) s = omega (arith, cleared_lem i (value_at s.objects i) s)
  exec-temporaries (frees (number n)) s = omega arith
  exec-temporaries (frees other) s = omega arith
  exec-temporaries (looks f (object i)) s = omega arith
  exec-temporaries (looks f (number n)) s = omega arith
  exec-temporaries (looks f other) s = omega arith
  exec-temporaries (makes f (object i)) s =
      omega (arith, (push_new_lem (bind gmp (value_at s.objects i) f) s).0)
  exec-temporaries (makes f (number n)) s = omega arith
  exec-temporaries (makes f other) s = omega arith
  exec-temporaries (orders (object i) b) s =
      omega (arith, compare_with_lem (value_at s.objects i) b s)
  exec-temporaries (orders (number n) b) s = omega arith
  exec-temporaries (orders other b) s = omega arith
  exec-temporaries (sets_bit (number m) n bit) s = omega arith
  exec-temporaries (sets_bit other n bit) s = omega arith
  exec-temporaries (sets_bit (object i) n bit) s =
      let t = store_lem i (bind gmp (value_at s.objects i) (bit_set gmp n bit)) [] s in
      omega (arith, t)

  -- Over any calls of a program, whatever their arguments are and however they end, the numbers that the calls made for
  -- themselves and did not clear are as many as the calls that had a number as their first argument and then refused
  -- the second one; a program without such a call leaves none.
  pub run-temporaries :
      (cs : List (Call Z)) (s : State Z) → (run cs s).temporaries ≡ s.temporaries + leaks cs s
  run-temporaries [] s = omega arith
  run-temporaries (c ∷ cs) s = omega (arith, exec-temporaries c s, run-temporaries cs (exec c s).1)
