-- ===== src/Fs/Directory/Listing.antt =====
-- lfslib.c, `fs.listdir`: what a loop over its iterator sees.
use lua_xlib.Amqp.Lua.{eq_bytes}
use lua_xlib.Base.Int.{ℤ, eq_ℤ, pos}
use lua_xlib.Base.{
  Option, ℕ, List, none, some, ◌∷◌, ◌≡◌, [], if◌then◌else◌, suc, zero, length, ◌<◌, ◌≤◌, arith,
  Bool-cases, inl, ap, inr, refl, false, true, ◌∙◌, sym,
}
use lua_xlib.Lua.{Bytes}
use lua_xlib.Fs.Directory.{
  DirCalls, Iterator, lua_lsnext, matches, Bytes, Option, ℕ, ℤ, round, is_star, fnm_flags,
}

-- From a state on the directory gives these entries, and then none, in another state.
pub data Stream {W : Type 0} (calls : DirCalls W) (dir : ℕ)
    : W → List (Bytes × ℤ) → W → Type 0 where
  ended : (w w' : W) → calls.readdir dir w ≡ (none, w') → Stream calls dir w [] w'
  entry :
      (w w1 w' : W) (e : Bytes × ℤ) (es : List (Bytes × ℤ))
      → calls.readdir dir w ≡ (some e, w1)
      → Stream calls dir w1 es w'
      → Stream calls dir w (e ∷ es) w'

module _ {W : Type 0} (calls : DirCalls W) where
  abbrev pub before : Bytes × ℤ → Option (List (Bytes × ℤ)) → Option (List (Bytes × ℤ))
  before e none = none
  before e (some es) = some (e ∷ es)

  -- One round of `for name, inode in iterator do`: the loop ends with the first call that gives nothing.
  abbrev pub loop_round :
      (W → Option (List (Bytes × ℤ)) × W)
      → Option (Option (Bytes × ℤ)) × W
      → Option (List (Bytes × ℤ)) × W
  loop_round again (none, w) = (none, w)
  loop_round again (some none, w) = (some [], w)
  loop_round again (some (some e), w) = let (rest, w1) = again w in (before e rest, w1)

  -- The entries that the loop sees, in at most so many rounds.
  abbrev pub listing : (rounds fuel : ℕ) → Iterator → W → Option (List (Bytes × ℤ)) × W
  listing zero fuel it w = (none, w)
  listing (suc rounds) fuel it w = loop_round (listing rounds fuel it) (lua_lsnext calls fuel it w)

  -- The entries that the pattern asks for: all of them for `*`, and otherwise those whose names `fnmatch`
  -- finds to match.
  abbrev pub fitting : Bytes → List (Bytes × ℤ) → List (Bytes × ℤ)
  fitting pattern [] = []
  fitting pattern ((name, ino) ∷ es) =
      if eq_ℤ (calls.fnmatch pattern name fnm_flags) (pos 0)
      then (name, ino) ∷ fitting pattern es
      else fitting pattern es

  abbrev pub asked_for : Bytes → List (Bytes × ℤ) → List (Bytes × ℤ)
  asked_for pattern es = if eq_bytes pattern (42 ∷ []) then es else fitting pattern es

  -- The entries that the code lets through.
  abbrev pub matching : Bytes → List (Bytes × ℤ) → List (Bytes × ℤ)
  matching pattern [] = []
  matching pattern (e ∷ es) =
      if matches calls pattern e then e ∷ matching pattern es else matching pattern es

  round-true :
      (again : W → Option (Option (Bytes × ℤ)) × W) (it : Iterator) (e : Bytes × ℤ) (w : W)
      → matches calls it.pattern e ≡ true
      → round calls again it (some e, w) ≡ (some (some e), w)
  round-true again it e w m = rw (round, m) refl

  round-false :
      (again : W → Option (Option (Bytes × ℤ)) × W) (it : Iterator) (e : Bytes × ℤ) (w : W)
      → matches calls it.pattern e ≡ false
      → round calls again it (some e, w) ≡ again w
  round-false again it e w m = rw (round, m) refl

  loop_entries :
      (it : Iterator) (w w' : W) (es : List (Bytes × ℤ)) (rounds fuel k : ℕ)
      → Stream calls it.dir w es w'
      → length es < k
      → length es ≤ rounds
      → length es < fuel
      → loop_round (listing rounds fuel it) (lua_lsnext calls k it w)
        ≡ (some (matching it.pattern es), calls.closedir it.dir w')
  unfolding lua_lsnext
  loop_entries it w w' es rounds fuel zero st h r f = absurd (omega (arith, h))
  loop_entries it w w' [] rounds fuel (suc k) (Stream.ended _ _ e) h r f = rw e refl
  loop_entries it w w' (e ∷ es) zero fuel (suc k) st h r f = absurd (omega (arith, r))
  loop_entries it w w' (e ∷ es) (suc rounds) fuel (suc k) (Stream.entry _ w1 _ _ _ got rest) h r f =
      elim (Bool-cases (matches calls it.pattern e)) [
        | inl m ↦
            rw (got, m)
              (ap (loop_round (listing (suc rounds) fuel it))
                  (round-true (lua_lsnext calls k it) it e w1 m)
                ∙ ap (λ (x : Option (List (Bytes × ℤ)) × W). (before e x.0, x.1))
                    (loop_entries it w1 w' es rounds fuel fuel rest (omega (arith, f))
                      (omega (arith, r)) (omega (arith, f))))
        | inr m ↦
            rw (got, m)
              (ap (loop_round (listing (suc rounds) fuel it))
                  (round-false (lua_lsnext calls k it) it e w1 m)
                ∙ loop_entries it w1 w' es (suc rounds) fuel k rest (omega (arith, h))
                    (omega (arith, r)) (omega (arith, f)))
      ]

  matching-star :
      (pattern : Bytes) (es : List (Bytes × ℤ)) → is_star pattern ≡ true → matching pattern es ≡ es
  matching-star pattern [] h = refl
  matching-star pattern ((name, ino) ∷ es) h =
      rw h (ap (◌∷◌ (name, ino)) (matching-star pattern es h))

  matching-fitting :
      (pattern : Bytes) (es : List (Bytes × ℤ))
      → is_star pattern ≡ false
      → matching pattern es ≡ fitting pattern es
  matching-fitting pattern [] h = refl
  matching-fitting pattern ((name, ino) ∷ es) h =
      let rest = matching-fitting pattern es h in
      elim (Bool-cases (eq_ℤ (calls.fnmatch pattern name fnm_flags) (pos 0))) [
        | inl m ↦ rw (h, m) (ap (◌∷◌ (name, ino)) rest)
        | inr m ↦ rw (h, m) rest
      ]

  is_star-eq_bytes : (pattern : Bytes) → is_star pattern ≡ eq_bytes pattern (42 ∷ [])
  is_star-eq_bytes [] = refl
  is_star-eq_bytes (c ∷ []) = ground arith
  is_star-eq_bytes (c ∷ d ∷ ds) = ground arith

  matching-asked_for :
      (pattern : Bytes) (es : List (Bytes × ℤ)) → matching pattern es ≡ asked_for pattern es
  matching-asked_for pattern es = elim (Bool-cases (is_star pattern)) [
    | inl h ↦ rw (sym (is_star-eq_bytes pattern), h) (matching-star pattern es h)
    | inr h ↦ rw (sym (is_star-eq_bytes pattern), h) (matching-fitting pattern es h)
  ]

  -- A loop over the iterator of `fs.listdir`, on a directory that gives these entries and then none, sees
  -- all of them for the pattern `*`, and for any other those whose names `fnmatch` finds to match, each
  -- once and in their order, and then ends, and the directory is closed, once, in the state that it ends in. It needs fuel and rounds for one
  -- more than there are entries.
  pub listing-Stream :
      (it : Iterator) (w w' : W) (es : List (Bytes × ℤ)) (rounds fuel : ℕ)
      → Stream calls it.dir w es w'
      → length es < rounds
      → length es < fuel
      → listing rounds fuel it w ≡ (some (asked_for it.pattern es), calls.closedir it.dir w')
  listing-Stream it w w' es zero fuel st r f = absurd (omega (arith, r))
  listing-Stream it w w' es (suc rounds) fuel st r f =
      loop_entries it w w' es rounds fuel fuel st f (omega (arith, r)) f
      ∙ ap (λ (x : List (Bytes × ℤ)). (some x, calls.closedir it.dir w'))
          (matching-asked_for it.pattern es)
