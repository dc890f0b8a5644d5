-- ===== src/Sys/Signal/Laws.antt =====
-- lsyslib.c, `sys.signal`: what it relies on of Lua's registry and of `signal`, and the valid states.
use lua_xlib.Sys.Signal.{
  SignalCalls, Disposition, Signals, is_signo, Handler, sig_handler, disposition_of, number,
  function, default, ignore, caught,
}
use lua_xlib.Lua.{done}
use lua_xlib.Base.Int.{pos}
use lua_xlib.Base.{ℕ, ◌≡◌, ◌≢◌, Option, none, some, true, ◌==◌, if◌then◌else◌}

-- What a process does on a signal, the Lua function that runs included.
pub data Reaction (F : Type 0) : Type 0 where
  die skip : Reaction F
  run : Option F → Reaction F

abbrev pub react : {F : Type 0} → Disposition → Option F → Reaction F
react default f = die
react ignore f = skip
react caught f = run f

module _ {F W : Type 0} (calls : SignalCalls F W) (disposition : W → ℕ → Disposition) where
  -- `luaL_ref` gives a reference that holds no function yet, and changes no other; `luaL_unref` frees
  -- the one that it is given; `signal` takes every number that passes the check, changes the
  -- disposition of that signal only, and leaves the registry alone.
  pub record SignalLaws : Type 0 where
    pub ref_fresh : (f : F) (w : W) → calls.rawgeti (calls.ref f w).0 w ≡ none
    pub ref_held : (f : F) (w : W) → calls.rawgeti (calls.ref f w).0 (calls.ref f w).1 ≡ some f
    pub ref_others :
        (f : F) (w : W) (n : ℕ)
        → n ≢ (calls.ref f w).0
        → calls.rawgeti n (calls.ref f w).1 ≡ calls.rawgeti n w
    pub ref_disposition :
        (f : F) (w : W) (n : ℕ) → disposition (calls.ref f w).1 n ≡ disposition w n
    pub unref_others :
        (r : ℕ) (w : W) (n : ℕ) → n ≢ r → calls.rawgeti n (calls.unref r w) ≡ calls.rawgeti n w
    pub unref_disposition :
        (r : ℕ) (w : W) (n : ℕ) → disposition (calls.unref r w) n ≡ disposition w n
    pub signal_done :
        (signo : ℕ) (d : Disposition) (w : W)
        → is_signo (pos signo) ≡ true
        → (u : Unit {0}) × ((calls.signal signo d w).0 ≡ done u)
    pub signal_registry :
        (signo : ℕ) (d : Disposition) (w : W) (n : ℕ)
        → calls.rawgeti n (calls.signal signo d w).1 ≡ calls.rawgeti n w
    pub signal_disposition :
        (signo : ℕ) (d : Disposition) (w : W)
        → is_signo (pos signo) ≡ true
        → (n : ℕ)
        → disposition (calls.signal signo d w).1 n ≡ (if signo == n then d else disposition w n)

  -- The reference of a signal holds a function, no two signals share a reference, and `sig_handler` is
  -- installed for every signal that has one.
  pub record IsValid (s : Signals W) : Type 0 where
    pub held : (n r : ℕ) → s.handlers n ≡ some r → calls.rawgeti r s.system ≢ none
    pub distinct : (n m r : ℕ) → s.handlers n ≡ some r → s.handlers m ≡ some r → n ≡ m
    pub installed : (n r : ℕ) → s.handlers n ≡ some r → disposition s.system n ≡ caught

  abbrev pub reaction : Signals W → ℕ → Reaction F
  reaction s n = react (disposition s.system n) (sig_handler calls n s)

  -- From `s` to `s'` the reaction to `signo` becomes `a`, and the other reactions stay.
  pub record Serves (signo : ℕ) (a : Reaction F) (s s' : Signals W) : Type 0 where
    pub valid : IsValid s'
    pub served : reaction s' signo ≡ a
    pub kept : (n : ℕ) → n ≢ signo → reaction s' n ≡ reaction s n

-- The reaction that a handler asks for, if it is one that `sys.signal` takes.
abbrev pub asked : {F : Type 0} → Handler F → Option (Reaction F)
asked (number z) = elim (disposition_of z) [
  | none ↦ none
  | some default ↦ some die
  | some ignore ↦ some skip
  | some caught ↦ none
]
asked (function f) = some (run (some f))
