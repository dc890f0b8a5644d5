-- ===== src/Bigint/Tests.antt =====
-- Runs of the big integers of lbnlib.c, with natural numbers that do not go below 0 in the place of GMP's.
use lua_xlib.Base.Int.{pos, pos_part, ℤ, is_negative, negsuc, eq_ℤ}
use lua_xlib.Lua.{boolean, nil, string, text}
use lua_xlib.Base.{
  zero, suc, List, ℕ, ◌∷◌, ◌≡◌, [], some, if◌then◌else◌, refl, true, ◌<◌, length, ◌≢◌, ◌==◌, none,
  replicate, ◌+◌, ◌-◌, ◌*◌, ◌/◌, ◌%◌, min, ◌^◌, arith, ◌∙◌, false,
}
use lua_xlib.Bigint.{
  Gmp, State, number, object, other, handle, plain, fatal, bn_op, bn_op_assign, bn_op_cmp, List,
  nb_check_arg, ℕ, ◌∷◌, boolean, value_at, ℤ,
}
use lua_xlib.Bigint.Methods.{bn_lt, bn_le, bn_eq, bn_addx, bn_div, bn_new, from_string}
use lua_xlib.Bigint.Arithmetic.{in_place_agrees}
use lua_xlib.Bigint.Order.{comparisons, less, CmpLaws}
use lua_xlib.Bigint.Temporaries.{Call, binary, in_place, compares, run, run-temporaries}

abbrev order : ℕ → ℕ → ℤ
order zero zero = pos 0
order zero (suc b) = negsuc 0
order (suc a) zero = pos 1
order (suc a) (suc b) = order a b

abbrev gmp : Gmp ℕ
gmp = record {
  of_long = λ z. pos_part z;
  from_text = λ t. if length t == 1 then some 1 else none;
  text_of = λ b z. replicate z 49;
  size = λ z. if z == 0 then 0 else 1;
  sizeinbase = λ z b. z + 1;
  add = λ a b. some (a + b);
  sub = λ a b. some (a - b);
  mul = λ a b. some (a * b);
  fdiv_q = λ a b. if b == 0 then none else some (a / b);
  fdiv_r = λ a b. if b == 0 then none else some (a % b);
  and_z = λ a b. some (min a b);
  ior = λ a b. some (a + b - min a b);
  xor = λ a b. some (a + b);
  pow_ui = λ a k. some (a ^ k);
  mul_2exp = λ a k. some (a * 2 ^ k);
  fdiv_q_2exp = λ a k. some (a / 2 ^ k);
  neg = λ a. 0;
  abs = λ a. a;
  tstbit = λ a k. a / 2 ^ k % 2;
  setbit = λ a k. some a;
  clrbit = λ a k. some a;
  cmp = λ a b. order a b;
}

order-less : (a b : ℕ) → is_negative (order a b) ≡ less (pos a) (pos b)
order-less zero zero = refl
order-less zero (suc b) = ground arith
order-less (suc a) zero = ground arith
order-less (suc a) (suc b) = order-less a b ∙ ground arith

order-equal : (a b : ℕ) → eq_ℤ (order a b) (pos 0) ≡ eq_ℤ (pos a) (pos b)
unfolding eq_ℤ
order-equal zero zero = refl
order-equal zero (suc b) = ground arith
order-equal (suc a) zero = ground arith
order-equal (suc a) (suc b) = order-equal a b ∙ ground arith

order-CmpLaws : CmpLaws gmp (λ z. pos z)
order-CmpLaws = record { negative = order-less; zero_if_equal = order-equal }

-- Two userdata, of 20 and of 6.
abbrev two : State ℕ
two = record { objects = some 20 ∷ some 6 ∷ []; temporaries = 0 }

in_place_agrees_example :
    let (answer, s1) = bn_op gmp gmp.sub (object 0) (object 1) two in
    let (answer', s2) = bn_op_assign gmp gmp.sub (object 0) (object 1) two in
    (answer ≡ handle 2)
    × (value_at s1.objects 2 ≡ some 14)
    × ((j : ℕ) → j < 2 → value_at s1.objects j ≡ value_at two.objects j)
    × (s1.temporaries ≡ 0)
    × (answer' ≡ plain (boolean true ∷ []))
    × (value_at s2.objects 0 ≡ some 14)
    × ((j : ℕ) → j ≢ 0 → value_at s2.objects j ≡ value_at two.objects j)
    × (s2.temporaries ≡ 0)
in_place_agrees_example = in_place_agrees gmp gmp.sub 0 (object 1) two 14 refl

comparisons_example :
    (bn_lt gmp (object 1) (number (pos 9)) two ≡ (plain (boolean true ∷ []), two))
    × (bn_le gmp (object 1) (number (pos 9)) two ≡ (plain (boolean true ∷ []), two))
    × (bn_eq gmp (object 1) (number (pos 9)) two ≡ (plain (boolean false ∷ []), two))
unfolding eq_ℤ
comparisons_example =
    comparisons gmp (λ z. pos z) (object 1) (number (pos 9)) two 6 9 order-CmpLaws refl refl

abbrev program : List (Call ℕ)
program =
    binary gmp.add (number (pos 5)) (object 0)
    ∷ binary gmp.add (number (pos 5)) other
    ∷ in_place gmp.mul (object 1) (object 1)
    ∷ compares is_negative (number (pos 1)) other
    ∷ []

run-temporaries_example : (run gmp program two).temporaries ≡ 2
unfolding bn_op bn_op_cmp nb_check_arg bn_op_assign
run-temporaries_example = run-temporaries gmp program two

-- A number is added to itself in place; a division by zero ends the program; a string is no number.
doubled :
    bn_addx gmp (object 0) (object 0) two
    ≡ (plain (boolean true ∷ []), record two { objects = some 40 ∷ some 6 ∷ [] })
unfolding bn_addx bn_op_assign nb_check_arg
doubled = refl

by_zero : (bn_div gmp (object 0) (number (pos 0)) two).0 ≡ fatal
unfolding bn_div bn_op nb_check_arg
by_zero = refl

no_number :
    bn_new gmp (from_string (50 ∷ 120 ∷ [])) two
    ≡ (plain (nil ∷ string (text "invalid character in string") ∷ []), two)
unfolding bn_new
no_number = refl
