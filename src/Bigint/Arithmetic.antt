-- ===== src/Bigint/Arithmetic.antt =====
-- lbnlib.c: what an operation does to the objects, also where an argument stands twice.
use lua_xlib.Lua.{boolean}
use lua_xlib.Base.{
  List, Option, ℕ, none, ◌++◌, ◌<◌, ◌≡◌, length, refl, some, ◌∷◌, [], none≢some, set, arith, suc,
  true, zero, ◌≢◌, ap,
}
use lua_xlib.Bigint.{
  Answer, Gmp, Arg, apply, bn_op, bn_op_assign, value_at, State, nb_check_arg, number, handle,
  object, other, plain, boolean,
}

module _ {Z : Type 0} where
  apply-none : (op : Z → Z → Option Z) (x : Option Z) → apply op x none ≡ none
  apply-none op none = refl
  apply-none op (some x) = refl

  -- A count that came back.
  pub counted :
      (answer : Answer) (objects : List (Option Z)) (u t : ℕ)
      → u ≡ t
      → ◌≡◌ {A = Answer × State Z}
          (answer, record { objects = objects; temporaries = u })
          (answer, record { objects = objects; temporaries = t })
  counted answer objects u t h = rw h refl

  value_at-live :
      (objects : List (Option Z)) (i : ℕ) (z : Z) → value_at objects i ≡ some z → i < length objects
  value_at-live [] i z h = absurd (none≢some refl h)
  value_at-live (x ∷ xs) zero z h = omega arith
  value_at-live (x ∷ xs) (suc i) z h = omega (arith, value_at-live xs i z h)

  value_at-set :
      (objects : List (Option Z)) (i : ℕ) (v : Option Z)
      → i < length objects
      → value_at (set objects i v) i ≡ v
  value_at-set [] i v h = absurd (omega (arith, h))
  value_at-set (x ∷ xs) zero v h = refl
  value_at-set (x ∷ xs) (suc i) v h = value_at-set xs i v (omega (arith, h))

  value_at-set_other :
      (objects : List (Option Z)) (i j : ℕ) (v : Option Z)
      → j ≢ i
      → value_at (set objects i v) j ≡ value_at objects j
  value_at-set_other [] i j v n = refl
  value_at-set_other (x ∷ xs) zero zero v n = absurd (n refl)
  value_at-set_other (x ∷ xs) zero (suc j) v n = refl
  value_at-set_other (x ∷ xs) (suc i) zero v n = refl
  value_at-set_other (x ∷ xs) (suc i) (suc j) v n =
      value_at-set_other xs i j v (λ (e : j ≡ i). n (ap suc e))

  has_value :
      (op : Z → Z → Option Z) (x y : Option Z) (r : Z)
      → apply op x y ≡ some r
      → (a : Z) × (x ≡ some a)
  has_value op none y r h = absurd (none≢some refl h)
  has_value op (some a) y r h = (a, refl)

  value_at-append :
      (objects : List (Option Z)) (j : ℕ) (v : Option Z)
      → j < length objects
      → value_at (objects ++ (v ∷ [])) j ≡ value_at objects j
  value_at-append [] j v h = absurd (omega (arith, h))
  value_at-append (x ∷ xs) zero v h = refl
  value_at-append (x ∷ xs) (suc j) v h = value_at-append xs j v (omega (arith, h))

  value_at-last :
      (objects : List (Option Z)) (v : Option Z)
      → value_at (objects ++ (v ∷ [])) (length objects) ≡ v
  value_at-last [] v = refl
  value_at-last (x ∷ xs) v = value_at-last xs v

module _ {Z : Type 0} (gmp : Gmp Z) where
  -- The number that an argument stands for.
  abbrev pub denotes : Arg → State Z → Option Z
  denotes (number n) s = some (gmp.of_long n)
  denotes (object i) s = value_at s.objects i
  denotes other s = none

  pub bn_op_lem :
      (op : Z → Z → Option Z) (a b : Arg) (s : State Z) (r : Z)
      → apply op (denotes a s) (denotes b s) ≡ some r
      → bn_op gmp op a b s
        ≡ (handle (length s.objects), record s { objects = s.objects ++ (some r ∷ []) })
  unfolding bn_op nb_check_arg
  bn_op_lem op (number m) (number n) s r h =
      simp h (counted (handle (length s.objects)) (s.objects ++ (some r ∷ [])) _ _ (omega arith))
  bn_op_lem op (number m) (object j) s r h =
      simp h (counted (handle (length s.objects)) (s.objects ++ (some r ∷ [])) _ _ (omega arith))
  bn_op_lem op (object i) (number n) s r h =
      simp h (counted (handle (length s.objects)) (s.objects ++ (some r ∷ [])) _ _ (omega arith))
  bn_op_lem op (object i) (object j) s r h = simp h
  bn_op_lem op other b s r h = absurd (none≢some refl h)
  bn_op_lem op (number m) other s r h = absurd (none≢some refl h)
  bn_op_lem op (object i) other s r h = absurd (none≢some (apply-none op (value_at s.objects i)) h)

  pub bn_op_assign_lem :
      (op : Z → Z → Option Z) (i : ℕ) (b : Arg) (s : State Z) (r : Z)
      → apply op (value_at s.objects i) (denotes b s) ≡ some r
      → bn_op_assign gmp op (object i) b s
        ≡ (plain (boolean true ∷ []), record s { objects = set s.objects i (some r) })
  unfolding bn_op_assign nb_check_arg
  bn_op_assign_lem op i (number n) s r h =
      simp h (counted (plain (boolean true ∷ [])) (set s.objects i (some r)) _ _ (omega arith))
  bn_op_assign_lem op i (object j) s r h = simp h
  bn_op_assign_lem op i other s r h = absurd (none≢some (apply-none op (value_at s.objects i)) h)

  -- Where the two arguments stand for numbers and GMP has a result for them, `a op b` returns a new userdata
  -- that holds the result, while all others keep their numbers; the operation in place, as in `a:add(b)`,
  -- replies true and stores the same result in `a`, while all others keep theirs, and also where `b` is
  -- `a` itself. No number that the calls make for themselves is left.
  pub in_place_agrees :
      (op : Z → Z → Option Z) (i : ℕ) (b : Arg) (s : State Z) (r : Z)
      → apply op (value_at s.objects i) (denotes b s) ≡ some r
      → let (answer, s1) = bn_op gmp op (object i) b s in
        let (answer', s2) = bn_op_assign gmp op (object i) b s in
        (answer ≡ handle (length s.objects))
        × (value_at s1.objects (length s.objects) ≡ some r)
        × ((j : ℕ) → j < length s.objects → value_at s1.objects j ≡ value_at s.objects j)
        × (s1.temporaries ≡ s.temporaries)
        × (answer' ≡ plain (boolean true ∷ []))
        × (value_at s2.objects i ≡ some r)
        × ((j : ℕ) → j ≢ i → value_at s2.objects j ≡ value_at s.objects j)
        × (s2.temporaries ≡ s.temporaries)
  in_place_agrees op i b s r h =
      let (x, e) = has_value op (value_at s.objects i) (denotes b s) r h in
      let bound = value_at-live s.objects i x e in
      simp (bn_op_lem op (object i) b s r h, bn_op_assign_lem op i b s r h)
        (
          refl,
          value_at-last s.objects (some r),
          λ j k. value_at-append s.objects j (some r) k,
          refl,
          refl,
          value_at-set s.objects i (some r) bound,
          λ j n. value_at-set_other s.objects i j (some r) n,
          refl,
        )
