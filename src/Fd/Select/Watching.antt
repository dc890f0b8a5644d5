-- ===== src/Fd/Select/Watching.antt =====
-- lfdlib.c, `lfd_select`: the set that it passes on, and the descriptors that it gives back.
use lua_xlib.Lua.{Bytes, SysRet, done, values, table}
use lua_xlib.Base.Int.{pos}
use lua_xlib.Base.Words.{to_int}
use lua_xlib.Fd.Select.{
  empty_set, fill, pick, set_size, to_int, pos, Bytes, lfd_select, SysRet, done, values, table,
  items, widest,
}
use lua_xlib.Base.{
  ℕ, Bool, List, [], false, length, ◌<◌, ◌∷◌, get_elem?, if◌then◌else◌, set, suc, ◌==◌, ◌≡◌, ltb,
  map, replicate, some, true, ◌+◌, ◌||◌, ◌∙◌, arith, length-replicate, length-set, some-injective,
  zero, ap, get_elem?-set, get_elem?-some, lt→ltb, refl, ◌%◌, ◌^◌,
}

-- Whether a number is one of a list.
abbrev pub among : ℕ → List ℕ → Bool
among n [] = false
among n (x ∷ xs) = x == n || among n xs

-- The bits from `first` on of a set with given members.
abbrev pub bits_from : ℕ → ℕ → (ℕ → Bool) → List Bool
bits_from first zero member = []
bits_from first (suc k) member = member first ∷ bits_from (first + 1) k member

-- The descriptors whose bits are set.
abbrev pub ready : List ℕ → List Bool → List ℕ
ready [] fds = []
ready (x ∷ xs) fds = elim (get_elem? fds x) [ some true ↦ x ∷ ready xs fds | _ ↦ ready xs fds ]

-- All are smaller than the bound.
abbrev pub Below : ℕ → List ℕ → Type 0
Below bound [] = Unit
Below bound (x ∷ xs) = (x < bound) × Below bound xs

-- The greatest, and 1.
abbrev pub one_above : ℕ → List ℕ → ℕ
one_above count [] = count
one_above count (x ∷ xs) = one_above (if ltb x count then count else x + 1) xs

to_int-pos : (x : ℕ) → x < set_size → to_int (pos x) ≡ pos x
to_int-pos x h =
    let e : x % 2 ^ 32 ≡ x = omega (arith, h) in
    let l : ltb x (2 ^ 31) ≡ true = lt→ltb x (2 ^ 31) (omega (arith, h)) in rw (e, l) refl

-- The bits of the descriptors, set one after the other.
mark : List ℕ → List Bool → List Bool
mark [] fds = fds
mark (x ∷ xs) fds = mark xs (set fds x true)

fill-mark :
    (xs : List ℕ) (count : ℕ) (fds : List Bool)
    → Below set_size xs
    → length fds ≡ set_size
    → fill (map (λ x. pos x) xs) count fds ≡ some (one_above count xs, mark xs fds)
unfolding fill mark
fill-mark [] count fds b h = refl
fill-mark (x ∷ xs) count fds (l, b) h =
    let inside : ltb x (length fds) ≡ true = lt→ltb x (length fds) (omega (arith, l, h)) in
    rw (fill, to_int-pos x l, inside)
      (ap (λ z. fill (map (λ y. pos y) xs) (widest z count) (set fds x true)) (to_int-pos x l)
        ∙ fill-mark xs (if ltb x count then count else x + 1) (set fds x true) b
            (length-set fds x true ∙ h))

get_elem?-mark :
    (xs : List ℕ) (fds : List Bool) (n : ℕ) (v : Bool)
    → n < length fds
    → get_elem? fds n ≡ some v
    → get_elem? (mark xs fds) n ≡ some (among n xs || v)
unfolding mark
get_elem?-mark [] fds n v h e = e
get_elem?-mark (x ∷ xs) fds n v h e =
    get_elem?-mark xs (set fds x true) n (x == n || v) (omega (arith, h, length-set fds x true))
      (get_elem?-set fds x n true h ∙ marked (x == n))
    ∙ ap some (swap (among n xs) (x == n))
  where
    marked : (b : Bool) → (if b then some true else get_elem? fds n) ≡ some (b || v)
    marked true = refl
    marked false = e

    swap : (a b : Bool) → (a || (b || v)) ≡ ((b || a) || v)
    swap a b = ground arith

length-mark : (xs : List ℕ) (fds : List Bool) → length (mark xs fds) ≡ length fds
unfolding mark
length-mark [] fds = refl
length-mark (x ∷ xs) fds = length-mark xs (set fds x true) ∙ length-set fds x true

get_elem?-replicate : (k n : ℕ) → n < k → get_elem? (replicate k false) n ≡ some false
get_elem?-replicate zero n h = absurd (omega (arith, h))
get_elem?-replicate (suc k) zero h = refl
get_elem?-replicate (suc k) (suc n) h = get_elem?-replicate k n (omega (arith, h))

-- A list is known by its bits.
bits_from_unique :
    (first : ℕ) (member : ℕ → Bool) (fds : List Bool)
    → ((n : ℕ) → n < length fds → get_elem? fds n ≡ some (member (first + n)))
    → fds ≡ bits_from first (length fds) member
bits_from_unique first member [] same = refl
bits_from_unique first member (b ∷ fds) same = ap2 (first_bit (same 0 (omega arith))) (
    bits_from_unique (first + 1) member fds
      (λ n h. same (suc n) (omega (arith, h)) ∙ ap (λ k. some (member k)) (omega arith)))
  where
    first_bit : some b ≡ some (member (first + 0)) → b ≡ member first
    first_bit e = some-injective e ∙ ap member (omega arith)

    ap2 : {x y : Bool} {xs ys : List Bool} → x ≡ y → xs ≡ ys → x ∷ xs ≡ y ∷ ys
    ap2 e e' = cc

mark-empty : (xs : List ℕ) → mark xs empty_set ≡ bits_from 0 set_size (λ n. among n xs)
mark-empty xs =
    let size : length (mark xs empty_set) ≡ set_size =
      length-mark xs empty_set ∙ length-replicate set_size false in
    bits_from_unique 0 (λ n. among n xs) (mark xs empty_set)
      (λ n h.
        get_elem?-mark xs empty_set n false
          (omega (arith, h, size, length-replicate set_size false))
          (get_elem?-replicate set_size n (omega (arith, h, size)))
        ∙ ap some (ground arith))
    ∙ ap (λ k. bits_from 0 k (λ n. among n xs)) size

pick-ready :
    (xs : List ℕ) (fds : List Bool)
    → Below set_size xs
    → length fds ≡ set_size
    → pick (map (λ x. pos x) xs) fds ≡ some (map (λ x. pos x) (ready xs fds))
unfolding pick
pick-ready [] fds b h = refl
pick-ready (x ∷ xs) fds (l, b) h =
    let (v, e) = get_elem?-some fds x (omega (arith, l, h)) in picked v e (pick-ready xs fds b h)
  where
    picked :
        (v : Bool)
        → get_elem? fds x ≡ some v
        → pick (map (λ x. pos x) xs) fds ≡ some (map (λ x. pos x) (ready xs fds))
        → pick (map (λ x. pos x) (x ∷ xs)) fds ≡ some (map (λ x. pos x) (ready (x ∷ xs) fds))
    picked true e rest = rw (pick, ready, e, rest) refl
    picked false e rest = rw (pick, ready, e, rest) refl

module _ {W : Type 0} (strerror : ℕ → Bytes) where
  -- Take descriptors below FD_SETSIZE. `select` is called with the set of exactly these and with one more
  -- than the greatest of them. Where it answers that some are ready, the table that is returned
  -- has those whose bits are set in its answer, in the order of the table that was given.
  pub lfd_select_lem :
      (select : ℕ → List Bool → W → SysRet (ℕ × List Bool) × W) (xs : List ℕ) (w w' : W) (k : ℕ)
      (fds : List Bool)
      → Below set_size xs
      → select (one_above 0 xs) (bits_from 0 set_size (λ n. among n xs)) w ≡ (done (k, fds), w')
      → 0 < k
      → length fds ≡ set_size
      → lfd_select strerror select (map (λ x. pos x) xs) w
        ≡ (values (table (items 1 (map (λ x. pos x) (ready xs fds))) ∷ []), w')
  unfolding lfd_select
  lfd_select_lem select xs w w' k fds b answer some_ready h =
      let filled = fill-mark xs 0 empty_set b (length-replicate set_size false) in
      let positive : ltb 0 k ≡ true = lt→ltb 0 k some_ready in
      rw (lfd_select, filled, mark-empty xs, answer, positive, pick-ready xs fds b h) refl
