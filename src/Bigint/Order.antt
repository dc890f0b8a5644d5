-- ===== src/Bigint/Order.antt =====
-- lbnlib.c: the comparisons of big integers.
use lua_xlib.Bigint.Methods.{bn_lt, bn_eq, bn_le}
use lua_xlib.Lua.{boolean}
use lua_xlib.Base.Int.{ℤ, eq_ℤ, negsuc, pos, is_negative}
use lua_xlib.Base.{
  Bool, ◌≡◌, true, false, some, ◌∷◌, [], some-injective, arith, none≢some, refl, ◌||◌, not, ◌∙◌, ap,
  ltb,
}
use lua_xlib.Bigint.{Gmp, bn_op_cmp, nb_check_arg, Arg, State, plain, boolean, Answer}
use lua_xlib.Bigint.Arithmetic.{denotes, counted}
use lua_xlib.Bigint.{number, object, other}

-- The order of the integers.
abbrev pub less : ℤ → ℤ → Bool
less (pos m) (pos n) = ltb m n
less (pos m) (negsuc n) = false
less (negsuc m) (pos n) = true
less (negsuc m) (negsuc n) = ltb n m

less_or_equal : (u v : ℤ) → (less u v || eq_ℤ u v) ≡ not (less v u)
unfolding eq_ℤ
less_or_equal (pos m) (pos n) = ground arith
less_or_equal (pos m) (negsuc n) = refl
less_or_equal (negsuc m) (pos n) = refl
less_or_equal (negsuc m) (negsuc n) = ground arith

module _ {Z : Type 0} (gmp : Gmp Z) where
  pub bn_op_cmp_lem :
      (test : ℤ → Bool) (a b : Arg) (s : State Z) (x y : Z)
      → denotes gmp a s ≡ some x
      → denotes gmp b s ≡ some y
      → bn_op_cmp gmp test a b s ≡ (plain (boolean (test (gmp.cmp x y)) ∷ []), s)
  unfolding bn_op_cmp nb_check_arg
  bn_op_cmp_lem test (number m) (number n) s x y h k =
      simp (some-injective h, some-injective k)
        (counted (plain (boolean (test (gmp.cmp x y)) ∷ [])) s.objects _ _ (omega arith))
  bn_op_cmp_lem test (number m) (object j) s x y h k =
      simp (some-injective h, k)
        (counted (plain (boolean (test (gmp.cmp x y)) ∷ [])) s.objects _ _ (omega arith))
  bn_op_cmp_lem test (object i) (number n) s x y h k =
      simp (h, some-injective k)
        (counted (plain (boolean (test (gmp.cmp x y)) ∷ [])) s.objects _ _ (omega arith))
  bn_op_cmp_lem test (object i) (object j) s x y h k = simp (h, k)
  bn_op_cmp_lem test other b s x y h k = absurd (none≢some refl h)
  bn_op_cmp_lem test (number m) other s x y h k = absurd (none≢some refl k)
  bn_op_cmp_lem test (object i) other s x y h k = absurd (none≢some refl k)

module _ {Z : Type 0} (gmp : Gmp Z) (value : Z → ℤ) where
  -- `mpz_cmp` is negative, zero or positive as its first number is less than, equal to or greater than the
  -- second.
  pub record CmpLaws : Type 0 where
    pub negative : (x y : Z) → is_negative (gmp.cmp x y) ≡ less (value x) (value y)
    pub zero_if_equal : (x y : Z) → eq_ℤ (gmp.cmp x y) (pos 0) ≡ eq_ℤ (value x) (value y)

  -- Where both arguments stand for numbers and GMP compares numbers by their values, `__lt` is true exactly where the first is less than the second,
  -- `__le` exactly where the second is not less than the first, and `__eq`, which Lua itself calls for two
  -- userdata only, exactly where they are equal. They leave the objects as they are and clear the numbers
  -- that they make.
  pub comparisons :
      (a b : Arg) (s : State Z) (x y : Z)
      → CmpLaws
      → denotes gmp a s ≡ some x
      → denotes gmp b s ≡ some y
      → (bn_lt gmp a b s ≡ (plain (boolean (less (value x) (value y)) ∷ []), s))
        × (bn_le gmp a b s ≡ (plain (boolean (not (less (value y) (value x))) ∷ []), s))
        × (bn_eq gmp a b s ≡ (plain (boolean (eq_ℤ (value x) (value y)) ∷ []), s))
  unfolding bn_lt bn_eq bn_le
  comparisons a b s x y laws h k =
      let answer : Bool → Answer × State Z = λ t. (plain (boolean t ∷ []), s) in
      (
        bn_op_cmp_lem gmp is_negative a b s x y h k ∙ ap answer (laws.negative x y),
        bn_op_cmp_lem gmp (λ c. is_negative c || eq_ℤ c (pos 0)) a b s x y h k
            ∙ ap (λ p. answer (p || eq_ℤ (gmp.cmp x y) (pos 0))) (laws.negative x y)
            ∙ ap (λ q. answer (less (value x) (value y) || q)) (laws.zero_if_equal x y)
            ∙ ap answer (less_or_equal (value x) (value y)),
        bn_op_cmp_lem gmp (λ c. eq_ℤ c (pos 0)) a b s x y h k ∙ ap answer (laws.zero_if_equal x y),
      )
