-- ===== src/Bigint/Methods.antt =====
-- lbnlib.c: the functions that Lua calls.
use lua_xlib.Base.Words.{to_size, to_uint32, to_int}
use lua_xlib.Lua.{LuaValue, integer, string, Bytes, c_string, nil, text}
use lua_xlib.Base.Int.{eq_ℤ, is_negative, ℤ, pos}
use lua_xlib.Base.{Option, some, ℕ, [], none, ◌||◌, ◌∷◌, set, ◌*◌, if◌then◌else◌}
use mathlib.Core.Option.{get_or}
use lua_xlib.Bigint.{
  Gmp, Arg, number, Answer, State, plain, fatal, value_at, push_new, store, checkudata, bn_op,
  bn_op_assign, bn_op_cmp, LuaValue, Option, some, ℕ, ℤ, Bytes,
}

-- The argument of `bigint(x)`: a number or a string.
pub data Source : Type 0 where
  from_number : ℤ → Source
  from_string : Bytes → Source

module _ {Z : Type 0} (gmp : Gmp Z) where
  abbrev pub made : Option Z → State Z → Answer × State Z
  made none s = (plain (nil ∷ string (text "invalid character in string") ∷ []), s)
  made (some z) s = push_new (some z) s

  -- `bn_new`
  unfoldable pub bn_new : Source → State Z → Answer × State Z
  bn_new (from_number n) s = push_new (some (gmp.of_long n)) s
  bn_new (from_string t) s = made (gmp.from_text (c_string t)) s

  abbrev pub cleared : ℕ → Option Z → State Z → Answer × State Z
  cleared i none s = (fatal, s)
  cleared i (some z) s = (plain [], record s { objects = set s.objects i none })

  -- `bn_free`, the finalizer
  unfoldable pub bn_free : Arg → State Z → Answer × State Z
  bn_free a s = checkudata 1 a s (λ i. cleared i (value_at s.objects i) s)

  -- The methods that only look at a number.
  abbrev pub shown : (Z → LuaValue) → Option Z → Answer
  shown f none = fatal
  shown f (some z) = plain (f z ∷ [])

  abbrev pub look : (Z → LuaValue) → Arg → State Z → Answer × State Z
  look f a s = checkudata 1 a s (λ i. (shown f (value_at s.objects i), s))

  unfoldable pub bn_tostring : Arg → State Z → Answer × State Z
  bn_tostring = look (λ z. string (gmp.text_of 10 z))

  unfoldable pub bn_hex : Arg → State Z → Answer × State Z
  bn_hex = look (λ z. string (gmp.text_of 16 z))

  -- A limb has eight bytes.
  unfoldable pub bn_len : Arg → State Z → Answer × State Z
  bn_len = look (λ z. integer (pos (gmp.size z * 8)))

  unfoldable pub bn_numbits : Arg → State Z → Answer × State Z
  bn_numbits = look (λ z. integer (pos (gmp.sizeinbase z 2)))

  -- The number of a bit is an `int` that becomes an `unsigned long`.
  unfoldable pub bn_getbit : Arg → ℤ → State Z → Answer × State Z
  bn_getbit a n = look (λ z. integer (pos (gmp.tstbit z (to_size (to_int n))))) a

  unfoldable pub bn_add : Arg → Arg → State Z → Answer × State Z
  bn_add = bn_op gmp gmp.add

  unfoldable pub bn_sub : Arg → Arg → State Z → Answer × State Z
  bn_sub = bn_op gmp gmp.sub

  unfoldable pub bn_mul : Arg → Arg → State Z → Answer × State Z
  bn_mul = bn_op gmp gmp.mul

  unfoldable pub bn_div : Arg → Arg → State Z → Answer × State Z
  bn_div = bn_op gmp gmp.fdiv_q

  unfoldable pub bn_mod : Arg → Arg → State Z → Answer × State Z
  bn_mod = bn_op gmp gmp.fdiv_r

  unfoldable pub bn_and : Arg → Arg → State Z → Answer × State Z
  bn_and = bn_op gmp gmp.and_z

  unfoldable pub bn_or : Arg → Arg → State Z → Answer × State Z
  bn_or = bn_op gmp gmp.ior

  unfoldable pub bn_xor : Arg → Arg → State Z → Answer × State Z
  bn_xor = bn_op gmp gmp.xor

  unfoldable pub bn_addx : Arg → Arg → State Z → Answer × State Z
  bn_addx = bn_op_assign gmp gmp.add

  unfoldable pub bn_subx : Arg → Arg → State Z → Answer × State Z
  bn_subx = bn_op_assign gmp gmp.sub

  unfoldable pub bn_mulx : Arg → Arg → State Z → Answer × State Z
  bn_mulx = bn_op_assign gmp gmp.mul

  unfoldable pub bn_divx : Arg → Arg → State Z → Answer × State Z
  bn_divx = bn_op_assign gmp gmp.fdiv_q

  -- `==`, `<` and `<=` against 0
  unfoldable pub bn_eq : Arg → Arg → State Z → Answer × State Z
  bn_eq = bn_op_cmp gmp (λ c. eq_ℤ c (pos 0))

  unfoldable pub bn_lt : Arg → Arg → State Z → Answer × State Z
  bn_lt = bn_op_cmp gmp is_negative

  unfoldable pub bn_le : Arg → Arg → State Z → Answer × State Z
  bn_le = bn_op_cmp gmp (λ c. is_negative c || eq_ℤ c (pos 0))

  abbrev pub compare : Option Z → Option Z → Answer
  compare (some a) (some b) = plain (integer (gmp.cmp a b) ∷ [])
  compare _ _ = fatal

  abbrev pub compare_with : Option Z → Arg → State Z → Answer × State Z
  compare_with a (number n) s = (compare a (some (gmp.of_long n)), s)
  compare_with a b s = checkudata 2 b s (λ j. (compare a (value_at s.objects j), s))

  -- `bn_cmp`. `mpz_cmp_si` compares with the number as `mpz_cmp` does.
  unfoldable pub bn_cmp : Arg → Arg → State Z → Answer × State Z
  bn_cmp a b s = checkudata 1 a s (λ i. compare_with (value_at s.objects i) b s)

  -- The methods that make a userdata of one number.
  abbrev pub bind : Option Z → (Z → Option Z) → Option Z
  bind none f = none
  bind (some z) f = f z

  abbrev pub unary : (Z → Option Z) → Arg → State Z → Answer × State Z
  unary f a s = checkudata 1 a s (λ i. push_new (bind (value_at s.objects i) f) s)

  -- `bn_op_shift`; the count is an `unsigned`.
  unfoldable pub bn_op_shift : (Z → ℕ → Option Z) → Arg → ℤ → State Z → Answer × State Z
  bn_op_shift op a n = unary (λ z. op z (to_uint32 n)) a

  unfoldable pub bn_lshift : Arg → ℤ → State Z → Answer × State Z
  bn_lshift = bn_op_shift gmp.mul_2exp

  unfoldable pub bn_rshift : Arg → ℤ → State Z → Answer × State Z
  bn_rshift = bn_op_shift gmp.fdiv_q_2exp

  unfoldable pub bn_pow : Arg → ℤ → State Z → Answer × State Z
  bn_pow a n = unary (λ z. gmp.pow_ui z (to_uint32 n)) a

  unfoldable pub bn_unm : Arg → State Z → Answer × State Z
  bn_unm = unary (λ z. some (gmp.neg z))

  unfoldable pub bn_abs : Arg → State Z → Answer × State Z
  bn_abs = unary (λ z. some (gmp.abs z))

  unfoldable pub bn_copy : Arg → State Z → Answer × State Z
  bn_copy = unary (λ z. some z)

  -- `mpz_setbit` or `mpz_clrbit`, by the argument `bit`, which is 1 where it is left out
  abbrev pub bit_set : ℤ → Option ℤ → Z → Option Z
  bit_set n bit z =
      if eq_ℤ (to_int (get_or bit (pos 1))) (pos 0)
      then gmp.clrbit z (to_size (to_int n))
      else gmp.setbit z (to_size (to_int n))

  -- `bn_setbit`
  unfoldable pub bn_setbit : Arg → ℤ → Option ℤ → State Z → Answer × State Z
  bn_setbit a n bit s =
      checkudata 1 a s (λ i. store i (bind (value_at s.objects i) (bit_set n bit)) (plain []) s)
