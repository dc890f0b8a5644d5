-- ===== src/Sys/Signal/Dispatch.antt =====
-- lsyslib.c, `sys.signal`: the table of functions as a map from signals to reactions.
use lua_xlib.Sys.Signal.Replace.{
  rawgeti-unwrapped, rawgeti-wrapped, disposition-release, replaced-IsValid, reaction-replaced,
}
use lua_xlib.Base.Words.{to_int}
use lua_xlib.Base.Int.{pos, ℤ, pos_part, negsuc}
use lua_xlib.Lua.{Bytes, values, boolean, SysRet, done, arg_error, text, aborted}
use lua_xlib.Sys.Signal.{
  SignalCalls, Disposition, Signals, release, unwrapped, caught, sig_handler, update, Bytes,
  is_signo, pos, wrapped, signal_at, function, is_new, catch, Handler, lsys_signal, to_int, number,
  default, ignore,
}
use lua_xlib.Sys.Signal.Laws.{SignalLaws, IsValid, Serves, react, run, Reaction, asked}
use lua_xlib.Base.{
  ℕ, ◌≡◌, ◌≢◌, none, some, refl, ap, sym, ◌∙◌, Option-cases, inl, ◌⊎◌, arith, inr, subst, true,
  if◌then◌else◌, ◌==◌, ◌∷◌, [], false, suc, zero, none≢some, some-injective, Bool,
}

is_signo-pos : (z : ℤ) → is_signo z ≡ true → is_signo (pos (pos_part z)) ≡ true
is_signo-pos (pos n) h = h
is_signo-pos (negsuc n) h = cc

module _ {F W : Type 0} (calls : SignalCalls F W) (disposition : W → ℕ → Disposition)
    (laws : SignalLaws calls disposition) where
  -- The state once a function is in the table and `sig_handler` is installed.
  function-Serves :
      (signo : ℕ) (f : F) (s : Signals W) (w : W)
      → IsValid calls disposition s
      → ((r : ℕ)
          → calls.rawgeti r w ≡ calls.rawgeti r (calls.ref f (unwrapped calls signo s).system).1)
      → disposition w signo ≡ caught
      → ((n : ℕ) → n ≢ signo → disposition w n ≡ disposition s.system n)
      → Serves calls disposition signo (run (some f)) s (record {
        handlers = update s.handlers signo (some (calls.ref f (unwrapped calls signo s).system).0);
        system = w;
      })
  unfolding sig_handler
  function-Serves signo f s w v regs on others =
      let w1 : W = (unwrapped calls signo s).system in
      let r0 : ℕ = (calls.ref f w1).0 in
      let found : calls.rawgeti r0 w ≡ some f = regs r0 ∙ laws.ref_held f w1 in
      let same : (n r : ℕ)
          → n ≢ signo
          → s.handlers n ≡ some r
          → calls.rawgeti r w ≡ calls.rawgeti r s.system =
        λ n r ne h. regs r ∙ (rawgeti-wrapped calls disposition laws signo n r f s v ne h).1 in
      let apart : (n r : ℕ) → n ≢ signo → s.handlers n ≡ some r → some r0 ≢ some r = λ n r ne h e.
        (rawgeti-wrapped calls disposition laws signo n r f s v ne h).0 (sym (some-injective e)) in
      let own : (r : ℕ)
          → some r0 ≡ some r
          → (calls.rawgeti r w ≢ none) × (disposition w signo ≡ caught) =
        λ r e.
          (λ z. none≢some z (sym (ap (λ x. calls.rawgeti x w) (some-injective e)) ∙ found), on) in
      record {
        valid = replaced-IsValid calls disposition laws signo (some r0) s w v same apart own others;
        served = ground (arith, on, found);
        kept = reaction-replaced calls disposition laws signo (some r0) s w v same apart own others;
      }

  -- The state once no function is in the table and `signal` has been called with `d`.
  number-Serves :
      (signo : ℕ) (d : Disposition) (s : Signals W)
      → is_signo (pos signo) ≡ true
      → d ≢ caught
      → IsValid calls disposition s
      → Serves calls disposition signo (react d none) s (record {
        handlers = update s.handlers signo none;
        system = (calls.signal signo d (release calls (s.handlers signo) s.system)).1;
      })
  unfolding unwrapped sig_handler
  number-Serves signo d s ok plain v =
      let w1 : W = release calls (s.handlers signo) s.system in
      let w : W = (calls.signal signo d w1).1 in
      let disp : (n : ℕ) → disposition w n ≡ (if signo == n then d else disposition w1 n) =
        laws.signal_disposition signo d w1 ok in
      let same : (n r : ℕ)
          → n ≢ signo
          → s.handlers n ≡ some r
          → calls.rawgeti r w ≡ calls.rawgeti r s.system =
        λ n r ne h.
          laws.signal_registry signo d w1 r
          ∙ rawgeti-unwrapped calls disposition laws signo n r s v ne h in
      let apart : (n r : ℕ) → n ≢ signo → s.handlers n ≡ some r → none ≢ some r =
        λ n r ne h. none≢some refl in
      let own : (r : ℕ)
          → none ≡ some r
          → (calls.rawgeti r w ≢ none) × (disposition w signo ≡ caught) =
        λ r e. elim (none≢some refl e) [ ] in
      let others : (n : ℕ) → n ≢ signo → disposition w n ≡ disposition s.system n = λ n ne.
        ground (
          arith,
          disp n,
          disposition-release calls disposition laws (s.handlers signo) s.system n,
        ) in
      record {
        valid = replaced-IsValid calls disposition laws signo none s w v same apart own others;
        served = ground (arith, disp signo);
        kept = reaction-replaced calls disposition laws signo none s w v same apart own others;
      }

  fresh-Serves :
      (signo : ℕ) (f : F) (s : Signals W)
      → is_signo (pos signo) ≡ true
      → IsValid calls disposition s
      → let (r0, w2) = calls.ref f (unwrapped calls signo s).system in
        Serves calls disposition signo (run (some f)) s (record {
          handlers = update s.handlers signo (some r0);
          system = (calls.signal signo caught w2).1;
        })
  unfolding unwrapped
  fresh-Serves signo f s ok v =
      let w1 : W = release calls (s.handlers signo) s.system in
      let w2 : W = (calls.ref f w1).1 in
      let disp : (n : ℕ)
          → disposition (calls.signal signo caught w2).1 n
            ≡ (if signo == n then caught else disposition w2 n) =
        laws.signal_disposition signo caught w2 ok in
      function-Serves signo f s (calls.signal signo caught w2).1 v
        (laws.signal_registry signo caught w2) (ground (arith, disp signo))
        (λ n ne. ground (
          arith,
          disp n,
          laws.ref_disposition f w1 n,
          disposition-release calls disposition laws (s.handlers signo) s.system n,
        ))

  held-Serves :
      (signo : ℕ) (f : F) (s : Signals W) (q : ℕ)
      → s.handlers signo ≡ some q
      → IsValid calls disposition s
      → let (r0, w2) = calls.ref f (unwrapped calls signo s).system in
        Serves calls disposition signo
          (run (some f))
          s
          (record { handlers = update s.handlers signo (some r0); system = w2 })
  unfolding unwrapped
  held-Serves signo f s q h v =
      let w1 : W = release calls (s.handlers signo) s.system in
      let disp : (n : ℕ) → disposition (calls.ref f w1).1 n ≡ disposition s.system n = λ n.
        laws.ref_disposition f w1 n
        ∙ disposition-release calls disposition laws (s.handlers signo) s.system n in
      function-Serves signo f s (calls.ref f w1).1 v (λ r. refl)
        (disp signo ∙ v.installed signo q h) (λ n ne. disp n)

  module _ (strerror : ℕ → Bytes) where
    catch-done :
        (a : SysRet (Unit {0}) × W) (s : Signals W)
        → (u : Unit {0}) × (a.0 ≡ done u)
        → catch calls strerror a s ≡ (values (boolean true ∷ []), record s { system = a.1 })
    catch-done (ret, w) s (u, e) = rw e refl

    function_at :
        (signo : ℕ) (f : F) (s : Signals W)
        → is_signo (pos signo) ≡ true
        → IsValid calls disposition s
        → let (r, s') = signal_at calls strerror true signo (function f) s in
          (r ≡ values (boolean true ∷ [])) × Serves calls disposition signo (run (some f)) s s'
    unfolding wrapped unwrapped
    function_at signo f s ok v = elim (Option-cases (s.handlers signo)) [
      | inl e ↦ rw (ap is_new e) (
          subst
            (λ x.
              (x.0 ≡ values (boolean true ∷ []))
              × Serves calls disposition signo (run (some f)) s x.1)
            (sym (
              catch-done (calls.signal signo caught (wrapped calls signo f s).1.system)
                (wrapped calls signo f s).1
                (laws.signal_done signo caught (wrapped calls signo f s).1.system ok)))
            (refl, fresh-Serves signo f s ok v))
      | inr (q, e) ↦ rw (ap is_new e) (refl, held-Serves signo f s q e v)
    ]

    signal_at-Serves :
        (signo : ℕ) (h : Handler F) (a : Reaction F) (s : Signals W)
        → is_signo (pos signo) ≡ true
        → asked h ≡ some a
        → IsValid calls disposition s
        → let (r, s') = signal_at calls strerror true signo h s in
          (r ≡ values (boolean true ∷ [])) × Serves calls disposition signo a s s'
    unfolding unwrapped
    signal_at-Serves signo (number (pos zero)) a s ok e v =
        subst
          (λ x.
            (values (boolean true ∷ []) ≡ values (boolean true ∷ []))
            × Serves calls disposition signo x s
                (signal_at calls strerror true signo (number (pos zero)) s).1)
          (some-injective e) (refl, number-Serves signo default s ok (λ z. cc) v)
    signal_at-Serves signo (number (pos (suc zero))) a s ok e v =
        subst
          (λ x.
            (values (boolean true ∷ []) ≡ values (boolean true ∷ []))
            × Serves calls disposition signo x s
                (signal_at calls strerror true signo (number (pos (suc zero))) s).1)
          (some-injective e) (refl, number-Serves signo ignore s ok (λ z. cc) v)
    signal_at-Serves signo (number (pos (suc (suc n)))) a s ok e v = elim (none≢some refl e) [ ]
    signal_at-Serves signo (number (negsuc n)) a s ok e v = elim (none≢some refl e) [ ]
    signal_at-Serves signo (function f) a s ok e v =
        subst
          (λ x.
            ((signal_at calls strerror true signo (function f) s).0 ≡ values (boolean true ∷ []))
            × Serves calls disposition signo x s
                (signal_at calls strerror true signo (function f) s).1)
          (some-injective e) (function_at signo f s ok v)

    signal_at-aborted :
        (signo : ℕ) (h : Handler F) (a : Reaction F) (s : Signals W)
        → asked h ≡ some a
        → signal_at calls strerror false signo h s ≡ (aborted, s)
    signal_at-aborted signo (number (pos zero)) a s e = refl
    signal_at-aborted signo (number (pos (suc zero))) a s e = refl
    signal_at-aborted signo (number (pos (suc (suc n)))) a s e = elim (none≢some refl e) [ ]
    signal_at-aborted signo (number (negsuc n)) a s e = elim (none≢some refl e) [ ]
    signal_at-aborted signo (function f) a s e = refl

    -- From a valid state, for a number that is a signal other than SIGKILL and SIGSTOP and a handler that
    -- is SIG_DFL, SIG_IGN or a function, `sys.signal`, called in the Lua thread that loaded the module,
    -- returns true, and the state stays valid. Called in another thread it aborts the process. After the
    -- call that returns, the process reacts to that signal as the handler asks: it takes the default action, ignores the
    -- signal, or calls that very function. Its reaction to every other signal is what it was.
    pub lsys_signal-Serves :
        (signo : ℤ) (h : Handler F) (a : Reaction F) (s : Signals W)
        → is_signo (to_int signo) ≡ true
        → asked h ≡ some a
        → IsValid calls disposition s
        → let (r, s') = lsys_signal calls strerror true signo h s in
          (r ≡ values (boolean true ∷ []))
          × Serves calls disposition (pos_part (to_int signo)) a s s'
          × (lsys_signal calls strerror false signo h s ≡ (aborted, s))
    unfolding lsys_signal
    lsys_signal-Serves signo h a s ok e v =
        let (r, serves) =
          signal_at-Serves (pos_part (to_int signo)) h a s (is_signo-pos (to_int signo) ok) e v in
        rw ok (r, serves, signal_at-aborted (pos_part (to_int signo)) h a s e)

module _ {F W : Type 0} (calls : SignalCalls F W) (strerror : ℕ → Bytes) where
  signal_at-refused :
      (own : Bool) (signo : ℕ) (h : Handler F) (s : Signals W)
      → asked h ≡ none
      → signal_at calls strerror own signo h s ≡ (arg_error 2 (text "invalid signal handler"), s)
  signal_at-refused own signo (number (pos zero)) s e = elim (none≢some e refl) [ ]
  signal_at-refused own signo (number (pos (suc zero))) s e = elim (none≢some e refl) [ ]
  signal_at-refused own signo (number (pos (suc (suc n)))) s e = refl
  signal_at-refused own signo (number (negsuc n)) s e = refl
  signal_at-refused own signo (function f) s e = elim (none≢some e refl) [ ]

  -- `sys.signal` with a number that is no signal, or SIGKILL or SIGSTOP, or with a number for a handler
  -- that is neither SIG_DFL nor SIG_IGN, raises an error for the argument at fault, the first one
  -- first, and changes nothing.
  pub lsys_signal-refused :
      (own : Bool) (signo : ℤ) (h : Handler F) (s : Signals W)
      → (is_signo (to_int signo) ≡ false) ⊎ (asked h ≡ none)
      → lsys_signal calls strerror own signo h s ≡ (
          if is_signo (to_int signo)
          then (arg_error 2 (text "invalid signal handler"), s)
          else (arg_error 1 (text "invalid signal number"), s))
  unfolding lsys_signal
  lsys_signal-refused own signo h s (inl e) = rw e refl
  lsys_signal-refused own signo h s (inr e) =
      ap
        (λ x.
          if is_signo (to_int signo) then x else (arg_error 1 (text "invalid signal number"), s))
        (signal_at-refused own (pos_part (to_int signo)) h s e)
