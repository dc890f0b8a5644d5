-- ===== src/Sys/Signal/Tests.antt =====
-- Runs of the signal model of lsyslib.c: a registry that is a list of functions, here numbers, where
-- a reference that is freed is not given out again.
use lua_xlib.Sys.Signal.{
  SignalCalls, Disposition, Signals, default, wrapped, unwrapped, lsys_signal, function, number,
  update, sig_handler,
}
use lua_xlib.Sys.Signal.Laws.{SignalLaws, IsValid, reaction, Serves, run, skip}
use lua_xlib.Sys.Signal.Dispatch.{lsys_signal-Serves}
use lua_xlib.Lua.{Bytes, done, values, boolean, aborted}
use lua_xlib.Base.Int.{pos}
use lua_xlib.Base.{
  ℕ, Option, none, some, refl, ◌∷◌, [], ◌==◌, if◌then◌else◌, ◌≡◌, arith, ltb, ◌+◌, true, false,
}

abbrev strerror : ℕ → Bytes
strerror e = e ∷ []

-- The functions under each reference below `next`, and the dispositions.
record World : Type 0 where
  pub next : ℕ
  pub refs : ℕ → Option ℕ
  pub table : ℕ → Disposition

abbrev lookup : World → ℕ → Option ℕ
lookup w r = if ltb r w.next then w.refs r else none

abbrev calls : SignalCalls ℕ World
calls = record {
  ref = λ f w. (w.next, record w { next = w.next + 1; refs = update w.refs w.next (some f) });
  unref = λ r w. record w { refs = update w.refs r none };
  rawgeti = λ r w. lookup w r;
  signal = λ signo d w. (done tt, record w { table = λ n. if signo == n then d else w.table n });
}

calls-SignalLaws : SignalLaws calls (λ w. w.table)
calls-SignalLaws = record {
  ref_fresh = λ f w. ground arith;
  ref_held = λ f w. ground arith;
  ref_others = λ f w n h. ground arith;
  ref_disposition = λ f w n. refl;
  unref_others = λ r w n h. ground arith;
  unref_disposition = λ r w n. refl;
  signal_done = λ signo d w ok. (tt, refl);
  signal_registry = λ signo d w n. refl;
  signal_disposition = λ signo d w ok n. refl;
}

abbrev fresh_world : World
fresh_world = record { next = 0; refs = λ n. none; table = λ n. default }

abbrev start : Signals World
start = record { handlers = λ n. none; system = fresh_world }

start-IsValid : IsValid calls (λ w. w.table) start
start-IsValid = record { held = λ n r h. cc; distinct = λ n m r h. cc; installed = λ n r h. cc }

-- A function for SIGUSR1.
abbrev first : Signals World
first = (lsys_signal calls strerror true (pos 10) (function 77) start).1

first-IsValid : IsValid calls (λ w. w.table) first
first-IsValid =
    (lsys_signal-Serves calls (λ w. w.table) calls-SignalLaws strerror (pos 10) (function 77)
      (run (some 77)) start refl refl start-IsValid).1.valid

-- The function of a signal is replaced by another one.
lsys_signal-Serves_example :
    ((lsys_signal calls strerror true (pos 10) (function 88) first).0 ≡ values (boolean true ∷ []))
    × Serves calls
        (λ w. w.table)
        10
        (run (some 88))
        first
        (lsys_signal calls strerror true (pos 10) (function 88) first).1
    × (lsys_signal calls strerror false (pos 10) (function 88) first ≡ (aborted, first))
lsys_signal-Serves_example =
    lsys_signal-Serves calls (λ w. w.table) calls-SignalLaws strerror (pos 10) (function 88)
      (run (some 88)) first refl refl first-IsValid

-- The signal is caught, and then ignored.
caught_then_ignored :
    (sig_handler calls 10 first ≡ some 77)
    × (reaction calls
          (λ w. w.table)
          (lsys_signal calls strerror true (pos 10) (number (pos 1)) first).1
          10
        ≡ skip)
unfolding lsys_signal wrapped unwrapped sig_handler
caught_then_ignored = (refl, refl)
