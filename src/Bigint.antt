-- ===== src/Bigint.antt =====
-- lbnlib.c: the big integers of Lua, over the arithmetic of GMP, which is a parameter. A userdata is its
-- place in the list of objects, `none` once its number is cleared. The numbers that a call makes for
-- itself are counted, so that it shows where one is not cleared.
use lua_xlib.Lua.{Bytes, LuaValue, boolean}
use lua_xlib.Base.Int.{ℤ}
use lua_xlib.Base.{
  List, Option, ℕ, ◌-◌, Bool, get_elem?, some, length, none, set, true, ◌+◌, ◌∷◌, [], ◌++◌,
}
use mathlib.Core.Option.{get_or, Option}
pub mod Methods
pub mod Arithmetic
pub mod Order
pub mod Temporaries
mod Tests

-- The calls of GMP. What ends the program, a division by zero, is `none`. `from_text` is mpz_init_set_str with the
-- base 0, `text_of` mpz_get_str, `size` counts limbs.
pub record Gmp (Z : Type 0) : Type 0 where
  pub of_long : ℤ → Z
  pub from_text : Bytes → Option Z
  pub text_of : ℕ → Z → Bytes
  pub size : Z → ℕ
  pub sizeinbase : Z → ℕ → ℕ
  pub add : Z → Z → Option Z
  pub sub : Z → Z → Option Z
  pub mul : Z → Z → Option Z
  pub fdiv_q : Z → Z → Option Z
  pub fdiv_r : Z → Z → Option Z
  pub and_z : Z → Z → Option Z
  pub ior : Z → Z → Option Z
  pub xor : Z → Z → Option Z
  pub pow_ui : Z → ℕ → Option Z
  pub mul_2exp : Z → ℕ → Option Z
  pub fdiv_q_2exp : Z → ℕ → Option Z
  pub neg : Z → Z
  pub abs : Z → Z
  pub tstbit : Z → ℕ → ℕ
  pub setbit : Z → ℕ → Option Z
  pub clrbit : Z → ℕ → Option Z
  pub cmp : Z → Z → ℤ

-- An argument: a number, by its `lua_tointeger`, a userdata of the library, or anything else.
pub data Arg : Type 0 where
  number : ℤ → Arg
  object : ℕ → Arg
  other : Arg

-- What a call returns: a userdata, plain values, an error that names an argument, or no return at all, as GMP ends
-- the program or a cleared number is used.
pub data Answer : Type 0 where
  handle : ℕ → Answer
  plain : List LuaValue → Answer
  error_at : ℕ → Answer
  fatal : Answer

pub record State (Z : Type 0) : Type 0 where
  pub objects : List (Option Z)
  pub temporaries : ℕ

-- An `mpz_t *`: to a number of the call itself, or to that of a userdata.
pub data Pointer (Z : Type 0) : Type 0 where
  own : Z → Pointer Z
  shared : ℕ → Pointer Z

module _ {Z : Type 0} where
  -- The number of a userdata, where it is not cleared.
  abbrev pub value_at : List (Option Z) → ℕ → Option Z
  value_at objects i = get_or (get_elem? objects i) none

  abbrev pub deref : Pointer Z → State Z → Option Z
  deref (own z) s = some z
  deref (shared i) s = value_at s.objects i

  -- `if (af) mpz_clear(an);`
  abbrev pub release : Pointer Z → State Z → State Z
  release (own z) s = record s { temporaries = s.temporaries - 1 }
  release (shared i) s = s

  -- The results of the calls: a new userdata, or another number in one that is there.
  abbrev pub push_new : Option Z → State Z → Answer × State Z
  push_new none s = (fatal, s)
  push_new (some z) s =
      (handle (length s.objects), record s { objects = s.objects ++ (some z ∷ []) })

  abbrev pub store : ℕ → Option Z → Answer → State Z → Answer × State Z
  store i none answer s = (fatal, s)
  store i (some z) answer s = (answer, record s { objects = set s.objects i (some z) })

  abbrev pub apply : (Z → Z → Option Z) → Option Z → Option Z → Option Z
  apply op (some a) (some b) = op a b
  apply op _ _ = none

  -- `luaL_checkudata(L, index, LUA_BIGINT)`
  abbrev pub checkudata : ℕ → Arg → State Z → (ℕ → Answer × State Z) → Answer × State Z
  checkudata index (object i) s go = go i
  checkudata index _ s go = (error_at index, s)

module _ {Z : Type 0} (gmp : Gmp Z) where
  -- `nb_check_arg`: a number becomes an `mpz_t` of the call.
  unfoldable pub nb_check_arg : Arg → State Z → Option (Pointer Z) × State Z
  nb_check_arg (number n) s =
      (some (own (gmp.of_long n)), record s { temporaries = s.temporaries + 1 })
  nb_check_arg (object i) s = (some (shared i), s)
  nb_check_arg other s = (none, s)

  abbrev pub with_arg :
      ℕ → Option (Pointer Z) × State Z → (Pointer Z → State Z → Answer × State Z) → Answer × State Z
  with_arg index (none, s) go = (error_at index, s)
  with_arg index (some x, s) go = go x s

  -- Both arguments, the first of them first.
  abbrev pub with_args :
      Arg → Arg → State Z → (Pointer Z → Pointer Z → State Z → Answer × State Z) → Answer × State Z
  with_args a b s go =
      with_arg 1 (nb_check_arg a s) (λ x s1. with_arg 2 (nb_check_arg b s1) (λ y s2. go x y s2))

  abbrev pub result_of : (Z → Z → Option Z) → Pointer Z → Pointer Z → State Z → Answer × State Z
  result_of op x y s =
      let (answer, s1) = push_new (apply op (deref x s) (deref y s)) s in
      (answer, release y (release x s1))

  -- `bn_op`
  unfoldable pub bn_op : (Z → Z → Option Z) → Arg → Arg → State Z → Answer × State Z
  bn_op op a b s = with_args a b s (result_of op)

  abbrev pub assigned : (Z → Z → Option Z) → ℕ → Pointer Z → State Z → Answer × State Z
  assigned op i y s =
      let (answer, s1) =
        store i (apply op (value_at s.objects i) (deref y s)) (plain (boolean true ∷ [])) s in
      (answer, release y s1)

  -- `bn_op_assign`
  unfoldable pub bn_op_assign : (Z → Z → Option Z) → Arg → Arg → State Z → Answer × State Z
  bn_op_assign op a b s = checkudata 1 a s (λ i. with_arg 2 (nb_check_arg b s) (assigned op i))

  abbrev pub compared : (ℤ → Bool) → Option Z → Option Z → Answer
  compared test (some a) (some b) = plain (boolean (test (gmp.cmp a b)) ∷ [])
  compared test _ _ = fatal

  abbrev pub comparison : (ℤ → Bool) → Pointer Z → Pointer Z → State Z → Answer × State Z
  comparison test x y s = (compared test (deref x s) (deref y s), release y (release x s))

  -- `bn_op_cmp`
  unfoldable pub bn_op_cmp : (ℤ → Bool) → Arg → Arg → State Z → Answer × State Z
  bn_op_cmp test a b s = with_args a b s (comparison test)
