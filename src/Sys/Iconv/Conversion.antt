-- ===== src/Sys/Iconv/Conversion.antt =====
-- lsyslib.c, `sys.iconv`: its pieces put together are the conversion of the whole string.
use lua_xlib.Lua.{
  Bytes, SysRet, Reply, failed, done, report_error, lret_nil, values, string, overrun,
}
use lua_xlib.Sys.Iconv.{
  IconvCalls, convert, failure_of, Ending, outbuf_size, no_room, iconv_reply, concat, Converted,
  finished, lsys_iconv, end_round, fails, answered, closed, min_stack,
}
use lua_xlib.Base.{
  ℕ, Option, List, [], length, ◌≡◌, ◌++◌, ◌≤◌, none, some, ◌<◌, ◌∷◌, drop, ◌⊎◌, ap, refl, ◌≢◌, inr,
  sym, append-nil, append_assoc, Bool-cases, inl, suc, arith, ltb, ◌∙◌, length-drop, zero, ◌+◌,
}

-- What is put before a conversion that succeeds.
abbrev pub prepend : Bytes → SysRet Bytes → SysRet Bytes
prepend s (failed e) = failed e
prepend s (done t) = done (s ++ t)

no_room≢finished : {stack : List Bytes} → no_room ≢ finished stack
no_room≢finished h = cc

no_room≢fails : {e : ℕ} → no_room ≢ fails e
no_room≢fails h = cc

prepend_assoc : (s t : Bytes) (m : SysRet Bytes) → prepend s (prepend t m) ≡ prepend (s ++ t) m
prepend_assoc s t (failed e) = refl
prepend_assoc s t (done u) = ap done (sym (append_assoc s t u))

prepend-nil : (m : SysRet Bytes) → prepend [] m ≡ m
prepend-nil (failed e) = refl
prepend-nil (done u) = refl

module _ {W : Type 0} (calls : IconvCalls W) (meaning : W → Bytes → SysRet Bytes) where
  -- `meaning` says what a string is converted to, from the state in which the converter is. A call
  -- that does not fail takes at least a byte and leaves the meaning of the rest; one that fails
  -- for another reason than a full buffer has come upon bytes that have no meaning.
  pub record IconvLaws : Type 0 where
    pub empty : (w : W) → meaning w [] ≡ done []
    pub takes :
        (h : ℕ) (s : Bytes) (w : W)
        → failure_of (calls.iconv h s outbuf_size w).0 ≡ none
        → 0 < length s
        → 0 < (calls.iconv h s outbuf_size w).0.taken
    pub converts :
        (h : ℕ) (s : Bytes) (w : W)
        → failure_of (calls.iconv h s outbuf_size w).0 ≡ none
        → let (r, w1) = calls.iconv h s outbuf_size w in
          meaning w s ≡ prepend r.output (meaning w1 (drop r.taken s))
    pub refuses :
        (h e : ℕ) (s : Bytes) (w : W)
        → failure_of (calls.iconv h s outbuf_size w).0 ≡ some e
        → meaning w s ≡ failed e

-- How many calls of `iconv`, one for each piece, convert the string, up to the first that fails; with fuel
-- for so many calls.
unfoldable pub pieces : {W : Type 0} → IconvCalls W → ℕ → ℕ → Bytes → W → ℕ
pieces calls zero h s w = 0
pieces calls (suc fuel) h [] w = 0
pieces calls (suc fuel) h (b ∷ bs) w =
    let (r, w1) = calls.iconv h (b ∷ bs) outbuf_size w in
    elim (failure_of r) [ some e ↦ 0 | none ↦ suc (pieces calls fuel h (drop r.taken (b ∷ bs)) w1) ]

module _ {W : Type 0} (strerror : ℕ → Bytes) (calls : IconvCalls W)
    (meaning : W → Bytes → SysRet Bytes) (laws : IconvLaws calls meaning) where
  -- The reply that a conversion stands for.
  abbrev pub meant : SysRet Bytes → Reply
  meant (failed e) = report_error strerror lret_nil e
  meant (done s) = values (string s ∷ [])

  -- What the rest of the loop is to come to, where it has so many strings in all to push.
  abbrev Converts : Option (Ending × W) → SysRet Bytes → ℕ → Type 0
  Converts o m n =
      (e : Ending) × (w : W) × (o ≡ some (e, w))
      × (((20 < n) × (e ≡ no_room)) ⊎ ((n ≤ 20) × (iconv_reply strerror calls e ≡ meant m)))

  round-Converts :
      (r : Converted) (w w1 : W) (s : Bytes) (stack : List Bytes) (o : Option ℕ)
      (go : List Bytes → Option (Ending × W)) (left k : ℕ)
      → failure_of r ≡ o
      → length stack ≤ 20
      → ((e : ℕ) → failure_of r ≡ some e → meaning w s ≡ failed e)
      → (failure_of r ≡ none → meaning w s ≡ prepend r.output (meaning w1 (drop r.taken s)))
      → (k ≡ elim o [ some e ↦ 0 | none ↦ suc left ])
      → (failure_of r ≡ none
          → suc (length stack) ≤ 20
          → Converts
              (go (r.output ∷ stack))
              (prepend (concat (r.output ∷ stack)) (meaning w1 (drop r.taken s)))
              (suc (length stack) + left))
      → Converts
          (end_round strerror calls (answered strerror calls o r.output stack) w1 go)
          (prepend (concat stack) (meaning w s))
          (length stack + k)
  round-Converts r w w1 s stack (some e) go left k is held refuses converts count next =
      (fails e, w1, refl, inr (omega (arith, held, count), rw (refuses e is) refl))
  round-Converts r w w1 s stack none go left k is held refuses converts count next =
      let total : suc (length stack) + left ≡ length stack + k = omega (arith, count) in
      elim (Bool-cases (ltb (length stack) min_stack)) [
        | inl room ↦
            let joined =
              ap (prepend (concat stack)) (converts is)
              ∙ prepend_assoc (concat stack) r.output (meaning w1 (drop r.taken s)) in
            rw (room, joined, sym total) (next is (ground (arith, room)))
        | inr full ↦ rw full (no_room, w1, refl, inl (ground (arith, full, count), refl))
      ]

  -- With the fuel of the input's length the loop ends. If the strings to push are too many, it ends
  -- with a push that has no room, and else with what was converted before and the meaning of the rest.
  convert-Converts :
      (fuel h : ℕ) (s : Bytes) (stack : List Bytes) (w : W)
      → length s ≤ fuel
      → length stack ≤ 20
      → Converts
          (convert strerror calls fuel h s stack w)
          (prepend (concat stack) (meaning w s))
          (length stack + pieces calls fuel h s w)
  unfolding convert pieces
  convert-Converts zero h [] stack w q held = (
    finished stack,
    w,
    refl,
    inr (omega (arith, held), rw (laws.empty w, append-nil (concat stack)) refl),
  )
  convert-Converts (suc fuel) h [] stack w q held = (
    finished stack,
    w,
    refl,
    inr (omega (arith, held), rw (laws.empty w, append-nil (concat stack)) refl),
  )
  convert-Converts zero h (b ∷ bs) stack w q held = absurd (omega (arith, q))
  convert-Converts (suc fuel) h (b ∷ bs) stack w q held =
      round-Converts (calls.iconv h (b ∷ bs) outbuf_size w).0 w _ (b ∷ bs) stack _ _ _ _ refl held
        (λ e is. laws.refuses h e (b ∷ bs) w is) (laws.converts h (b ∷ bs) w) refl
        (λ is more.
          convert-Converts fuel h _ _ _
            (shorter (calls.iconv h (b ∷ bs) outbuf_size w).0.taken
              (laws.takes h (b ∷ bs) w is (omega arith)))
            more)
    where
      shorter : (n : ℕ) → 0 < n → length (drop n (b ∷ bs)) ≤ fuel
      shorter n p = omega (arith, q, p, length-drop n (b ∷ bs))

  -- With as much fuel as the string has bytes, `sys.iconv` on a converter that keeps its laws returns.
  -- If the conversion takes more than 20 pieces (LUA_MINSTACK), each a string that is pushed, it pushes
  -- more strings than Lua promises room for. Otherwise it returns what the string as a whole is
  -- converted to, or the error for a string that cannot be converted.
  pub lsys_iconv_lem :
      (fuel h : ℕ) (inbuf fromcode tocode : Bytes) (w w1 : W)
      → calls.iconv_open tocode fromcode w ≡ (done h, w1)
      → length inbuf ≤ fuel
      → let n = pieces calls fuel h inbuf w1 in
        (reply : Reply) × (w2 : W) × (lsys_iconv strerror calls fuel inbuf fromcode (some tocode) w
          ≡ some (reply, w2))
        × (((20 < n) × (reply ≡ overrun)) ⊎ ((n ≤ 20) × (reply ≡ meant (meaning w1 inbuf))))
  unfolding lsys_iconv
  lsys_iconv_lem fuel h inbuf fromcode tocode w w1 is q =
      let (e, w2, ends, means) = convert-Converts fuel h inbuf [] w1 q (omega arith) in
      rw (is, ends) (finish e w2 means)
    where
      finish :
          (e : Ending) (w2 : W)
          → (((20 < 0 + pieces calls fuel h inbuf w1) × (e ≡ no_room))
              ⊎ ((0 + pieces calls fuel h inbuf w1 ≤ 20)
                  × (iconv_reply strerror calls e ≡ meant (prepend [] (meaning w1 inbuf)))))
          → (reply : Reply) × (w3 : W) × (closed strerror calls h (some (e, w2)) ≡ some (reply, w3))
            × (((20 < pieces calls fuel h inbuf w1) × (reply ≡ overrun))
                ⊎ ((pieces calls fuel h inbuf w1 ≤ 20) × (reply ≡ meant (meaning w1 inbuf))))
      finish no_room w2 (inl (more, u)) = (overrun, w2, refl, inl (omega (arith, more), refl))
      finish no_room w2 (inr (few, means)) = (
        overrun,
        w2,
        refl,
        inr (omega (arith, few), means ∙ ap meant (prepend-nil (meaning w1 inbuf))),
      )
      finish (finished stack) w2 (inl wrong) = absurd (no_room≢finished (sym wrong.1))
      finish (finished stack) w2 (inr (few, means)) =
          (_, _, refl, inr (omega (arith, few), means ∙ ap meant (prepend-nil (meaning w1 inbuf))))
      finish (fails e) w2 (inl wrong) = absurd (no_room≢fails (sym wrong.1))
      finish (fails e) w2 (inr (few, means)) =
          (_, _, refl, inr (omega (arith, few), means ∙ ap meant (prepend-nil (meaning w1 inbuf))))
