-- ===== src/Socket/Readline/Rounds.antt =====
-- The rounds of `sockobj:readline` of lsocklib.c: each ends the loop with a beginning of the stream that
-- is one line at most, or goes on with less of the stream, or of the system's patience, ahead of it.
use lua_xlib.Socket.Readline.Laws.{
  StreamLaws, LeftOver, LeftOver-within, WithinSize, LeftOver-reduce,
}
use lua_xlib.Socket.Readline.{
  Loop, Next, accept, retry, again, stop, renew_timeout, request, reduce, line_length, ends_line,
  taken, is_zero, loop, peeked, round, wait, waited,
}
use lua_xlib.Socket.Readline.Lines.{
  NoNewline, OneLine, OneLine-append, NoNewline-append, NoNewline-of_OneLine, take_common,
  line_length-le, OneLine-take,
}
use lua_xlib.Socket.Deadline.{TimeVal}
use lua_xlib.Lua.{Bytes}
use lua_xlib.Socket.Object.{SockCalls, got, is_retryable, closed, Received}
use lua_xlib.Base.Int.{ℤ, pos, pos_part, negsuc}
use lua_xlib.Base.{
  ℕ, true, length, ◌<◌, ◌≡◌, ◌^◌, ◌≤◌, ◌++◌, ◌+◌, [], false, Bool-cases, append-nil, ◌⊎◌, arith,
  inl, inr, suc, zero, append_assoc, length-append, refl, ap, ◌||◌, take, some, ◌∙◌, Option, sym,
  subst,
}

module _ {W : Type 0} (calls : SockCalls W) (stream : W → Bytes) (patience : W → ℕ)
    (laws : StreamLaws calls stream patience) (size0 : ℤ) (small : pos_part size0 < 2 ^ 31)
    (all : Bytes) where
  -- Between two rounds.
  pub record Good (s : Loop) (w : W) : Type 0 where
    pub split : all ≡ s.line ++ stream w
    pub open_line : NoNewline s.line
    pub left : LeftOver size0 s.line s.size
    pub counted : (s.line ≡ []) ⊎ (0 < s.nresult)
    pub pushed : s.nresult ≤ length s.line

  -- After the last.
  pub record Done (s : Loop) (w : W) : Type 0 where
    pub split : all ≡ s.line ++ stream w
    pub one_line : OneLine s.line
    pub within : WithinSize size0 s.line
    pub counted : (s.line ≡ []) ⊎ (0 < s.nresult)
    pub pushed : s.nresult ≤ length s.line

  abbrev pub measure : W → ℕ
  measure w = length (stream w) + patience w

  abbrev After : ℕ → Next × Loop × W → Type 0
  After m (stop ret, s, w) = Done s w
  After m (again, s, w) = Good s w × (measure w < m)

  OneLine-of_NoNewline : (xs : Bytes) → NoNewline xs → OneLine xs
  OneLine-of_NoNewline xs h =
      let e : xs ++ [] ≡ xs = append-nil xs in rw e at (OneLine-append xs [] h tt)

  Good-Done : (s : Loop) (w : W) → Good s w → Done s w
  Good-Done s w g = record {
    split = g.split;
    one_line = OneLine-of_NoNewline s.line g.open_line;
    within = LeftOver-within size0 s.line s.size g.left;
    counted = g.counted;
    pushed = g.pushed;
  }

  moved : (s : Loop) (w w' : W) → Good s w → stream w' ≡ stream w → Good s w'
  moved s w w' g e = record {
    split = rw e g.split;
    open_line = g.open_line;
    left = g.left;
    counted = g.counted;
    pushed = g.pushed;
  }

  -- Reading the clock changes neither the stream nor what the loop has.
  renew-After :
      (endtime : TimeVal) (t : ℤ) (s : Loop) (w : W) (m : ℕ)
      → Good s w
      → measure w < m
      → After m (
        again,
        record s { timeout = (renew_timeout calls endtime t w).0 },
        (renew_timeout calls endtime t w).1,
      )
  renew-After endtime (pos zero) s w m g h = ground arith
  renew-After endtime (pos (suc n)) s w m g h = ground (arith, laws.times w)
  renew-After endtime (negsuc n) s w m g h = ground arith

  retry-After :
      (endtime : TimeVal) (ret : ℤ) (s : Loop) (w : W) (m : ℕ)
      → Good s w
      → (is_retryable (calls.errno w) ≡ true → measure w < m)
      → After m (retry calls endtime ret s w)
  unfolding retry
  retry-After endtime ret s w m g h = elim (Bool-cases (is_retryable (calls.errno w))) [
    | inl yes_again ↦ rw yes_again (renew-After endtime s.timeout s w m g (h yes_again))
    | inr stops ↦ rw stops (Good-Done s w g)
  ]

  accept-After :
      (endtime : TimeVal) (s : Loop) (cs : Bytes) (w w' : W) (m : ℕ)
      → Good s w
      → stream w ≡ cs ++ stream w'
      → OneLine cs
      → 0 < length cs
      → length cs ≤ request s.size
      → measure w' < m
      → After m (accept calls endtime s cs w')
  unfolding accept
  accept-After endtime s cs w w' m g e one some_byte fits h =
      let left : ℤ = reduce s.size (length cs) in
      let s1 : Loop = record s { size = left; line = s.line ++ cs; nresult = s.nresult + 1 } in
      let split : all ≡ (s.line ++ cs) ++ stream w' =
        rw (append_assoc s.line cs (stream w'), ← e) g.split in
      let over : LeftOver size0 (s.line ++ cs) left =
        LeftOver-reduce size0 s.line cs s.size small g.left fits in
      let pushed : s.nresult + 1 ≤ length (s.line ++ cs) =
        omega (arith, g.pushed, length-append s.line cs, some_byte) in
      elim (Bool-cases (ends_line cs || is_zero left)) [
        | inl ends ↦ rw ends (record {
          split = split;
          one_line = OneLine-append s.line cs g.open_line one;
          within = LeftOver-within size0 (s.line ++ cs) left over;
          counted = inr (omega arith);
          pushed = pushed;
        })
        | inr more ↦
            let open_line : NoNewline (s.line ++ cs) =
              NoNewline-append s.line cs g.open_line
                (NoNewline-of_OneLine cs one (ground (arith, more))) in
            rw more (
              renew-After endtime s.timeout s1 w' m
                (record {
                  split = split;
                  open_line = open_line;
                  left = over;
                  counted = inr (omega arith);
                  pushed = pushed;
                })
                h)
      ]

  idle-After :
      (endtime : TimeVal) (ret : ℤ) (s : Loop) (w w' : W) (m : ℕ)
      → Good s w
      → measure w ≤ m
      → (stream w' ≡ stream w) × (is_retryable (calls.errno w') ≡ true → patience w' < patience w)
      → After m (retry calls endtime ret s w')
  idle-After endtime ret s w w' m g h l =
      retry-After endtime ret s w' m (moved s w w' g l.0)
        (λ more. omega (arith, l.1 more, ap length l.0))

  -- The bytes that are taken are those that were seen, up to the first newline at most.
  taken-After :
      (endtime : TimeVal) (s : Loop) (bs rest : Bytes) (w : W) (m : ℕ) (a : Received × W)
      → Good s w
      → stream w ≡ bs ++ rest
      → length bs ≤ request s.size
      → measure w ≤ m
      → calls.recv (line_length bs) false w ≡ a
      → After m (taken calls endtime s a)
  taken-After endtime s bs rest w m (got cs, w') g e fits h c =
      let l : (stream w ≡ cs ++ stream w')
          × (length cs ≤ line_length bs)
          × (0 < length cs)
          × (patience w' ≤ patience w) =
        laws.takes (line_length bs) w w' cs c in
      let seen : cs ≡ take (length cs) bs =
        take_common cs bs (stream w') rest (sym l.0 ∙ e) (omega (arith, l.1, line_length-le bs)) in
      let one : OneLine cs = subst OneLine (sym seen) (OneLine-take (length cs) bs l.1) in
      accept-After endtime s cs w w' m g l.0 one l.2 (omega (arith, l.1, line_length-le bs))
        (omega (arith, ap length l.0, length-append cs (stream w'), l.2, l.3))
  taken-After endtime s bs rest w m (closed, w') g e fits h c =
      idle-After endtime (negsuc 1) s w w' m g h (laws.ends (line_length bs) false w w' c)
  taken-After endtime s bs rest w m (Received.failed, w') g e fits h c =
      idle-After endtime (negsuc 0) s w w' m g h (laws.fails (line_length bs) false w w' c)

  peeked-After :
      (endtime : TimeVal) (s : Loop) (w : W) (m : ℕ) (a : Received × W)
      → Good s w
      → measure w ≤ m
      → calls.recv (request s.size) true w ≡ a
      → After m (peeked calls endtime s a)
  peeked-After endtime s w m (got bs, w') g h c =
      let (rest, e, same, fits, _, calm) = laws.peeks (request s.size) w w' bs c in
      taken-After endtime s bs rest w' m (calls.recv (line_length bs) false w')
        (moved s w w' g same) (same ∙ e) fits (omega (arith, ap length same, calm)) refl
  peeked-After endtime s w m (closed, w') g h c =
      idle-After endtime (negsuc 1) s w w' m g h (laws.ends (request s.size) true w w' c)
  peeked-After endtime s w m (Received.failed, w') g h c =
      idle-After endtime (negsuc 0) s w w' m g h (laws.fails (request s.size) true w w' c)

  wait_lem :
      (t : ℤ) (w : W)
      → (stream (wait calls t w).1 ≡ stream w) × (patience (wait calls t w).1 ≤ patience w)
  wait_lem (pos n) w = ground (arith, laws.polls (pos n) w)
  wait_lem (negsuc n) w = (refl, omega arith)

  waited-After :
      (endtime : TimeVal) (s : Loop) (w : W) (m : ℕ) (a : Next × W)
      → Good s a.1
      → measure a.1 ≤ m
      → After m (waited calls endtime s a)
  waited-After endtime s w m (stop ret, w') g h = Good-Done s w' g
  waited-After endtime s w m (again, w') g h =
      peeked-After endtime s w' m (calls.recv (request s.size) true w') g h refl

  -- A round stops with the promised result, or leaves the loop less to do.
  round-After :
      (endtime : TimeVal) (s : Loop) (w : W)
      → Good s w
      → After (measure w) (round calls endtime s w)
  unfolding round
  round-After endtime s w g =
      let l : (stream (wait calls s.timeout w).1 ≡ stream w)
          × (patience (wait calls s.timeout w).1 ≤ patience w) =
        wait_lem s.timeout w in
      waited-After endtime s w (measure w) (wait calls s.timeout w)
        (moved s w (wait calls s.timeout w).1 g l.0) (omega (arith, ap length l.0, l.1))

  -- One round, and the rest of the loop by what is known of it.
  loop_step :
      (fuel : ℕ) (endtime : TimeVal) (w : W) (a : Next × Loop × W)
      → ((s1 : Loop) (w1 : W)
          → Good s1 w1
          → measure w1 < fuel
          → (ret : ℤ) × (s' : Loop) × (w' : W) × (loop calls fuel endtime s1 w1
              ≡ some (ret, s', w'))
            × Done s' w')
      → After (measure w) a
      → measure w < suc fuel
      → (ret : ℤ) × (s' : Loop) × (w' : W) × (elim a.0 as (λ _. Option (ℤ × Loop × W)) [
        | stop ret ↦ some (ret, a.1, a.2)
        | again ↦ loop calls fuel endtime a.1 a.2
      ]
          ≡ some (ret, s', w'))
        × Done s' w'
  loop_step fuel endtime w (stop ret, s1, w1) rest after h = (ret, s1, w1, refl, after)
  loop_step fuel endtime w (again, s1, w1) rest after h =
      rest s1 w1 after.0 (omega (arith, after.1))

  pub loop-Done :
      (fuel : ℕ) (endtime : TimeVal) (s : Loop) (w : W)
      → Good s w
      → measure w < fuel
      → (ret : ℤ) × (s' : Loop) × (w' : W) × (loop calls fuel endtime s w ≡ some (ret, s', w'))
        × Done s' w'
  unfolding loop
  loop-Done zero endtime s w g h = elim h [ ]
  loop-Done (suc fuel) endtime s w g h =
      loop_step fuel endtime w (round calls endtime s w) (λ s1 w1. loop-Done fuel endtime s1 w1)
        (round-After endtime s w g) h
