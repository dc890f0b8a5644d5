-- ===== src/Sys/Signal.antt =====
-- lsyslib.c, `sys.signal`: the table of Lua functions that handle signals, the references under which
-- Lua's registry keeps them, and the C handler that looks them up.
-- The registry and the dispositions of the process belong to Lua and to the system: they are reached
-- through the calls of `SignalCalls`, over functions of a type `F`.
pub mod Laws
pub mod Replace
pub mod Dispatch
mod Tests
use lua_xlib.Constants.{sigkill, sigstop}
use lua_xlib.Base.Words.{to_int}
use lua_xlib.Base.Int.{ℤ, pos, pos_part, negsuc}
use lua_xlib.Lua.{Bytes, Reply, SysRet, arg_error, boolean_status, values, boolean, text, aborted}
use lua_xlib.Base.{
  ℕ, Bool, Option, none, if◌then◌else◌, some, true, false, ltb, suc, ◌==◌, zero, ◌&&◌, not, ◌∷◌, [],
}

-- What a process does on a signal: SIG_DFL, SIG_IGN, or run `sig_handler`.
pub data Disposition : Type 0 where
  default ignore caught : Disposition

-- `luaL_ref`, `luaL_unref` and `lua_rawgeti` on the registry, and `signal`.
pub record SignalCalls (F W : Type 0) : Type 0 where
  pub ref : F → W → ℕ × W
  pub unref : ℕ → W → W
  pub rawgeti : ℕ → W → Option F
  pub signal : ℕ → Disposition → W → SysRet (Unit {0}) × W

-- `_sig_handler`, with `none` for LUA_REFNIL, and the rest of the system.
pub record Signals (W : Type 0) : Type 0 where
  pub handlers : ℕ → Option ℕ
  pub system : W

-- The second argument of `sys.signal`: a number, or a function.
pub data Handler (F : Type 0) : Type 0 where
  number : ℤ → Handler F
  function : F → Handler F

abbrev pub update : (ℕ → Option ℕ) → ℕ → Option ℕ → ℕ → Option ℕ
update f n v m = if n == m then v else f m

-- `signo>0 && signo<SIGMAX && signo!=SIGKILL && signo!=SIGSTOP`
abbrev pub is_signo : ℤ → Bool
is_signo (pos n) = ltb 0 n && ltb n 32 && not (n == sigkill) && not (n == sigstop)
is_signo (negsuc n) = false

-- `handler==(long)SIG_IGN || handler==(long)SIG_DFL`
abbrev pub disposition_of : ℤ → Option Disposition
disposition_of (pos zero) = some default
disposition_of (pos (suc zero)) = some ignore
disposition_of _ = none

-- `sig_handler_init`
unfoldable pub sig_handler_init : {W : Type 0} → W → Signals W
sig_handler_init w = record { handlers = λ n. none; system = w }

-- `old_ref == LUA_REFNIL`
abbrev pub is_new : Option ℕ → Bool
is_new none = true
is_new (some old) = false

module _ {F W : Type 0} (calls : SignalCalls F W) where
  -- `if (old_ref != LUA_REFNIL) luaL_unref(L, LUA_REGISTRYINDEX, old_ref);`
  abbrev pub release : Option ℕ → W → W
  release none w = w
  release (some r) w = calls.unref r w

  -- `sig_handler_wrap(L, signo, 0)`, behind its assertion
  unfoldable pub unwrapped : ℕ → Signals W → Signals W
  unwrapped signo s = record {
    handlers = update s.handlers signo none;
    system = release (s.handlers signo) s.system;
  }

  -- `sig_handler_wrap(L, signo, 2)`, behind its assertion: whether no function was there before.
  unfoldable pub wrapped : ℕ → F → Signals W → Bool × Signals W
  wrapped signo f s =
      let (r, w) = calls.ref f (release (s.handlers signo) s.system) in
      (
        is_new (s.handlers signo),
        record { handlers = update s.handlers signo (some r); system = w },
      )

  -- `sig_handler_wrap`, with `own` for `_sigL == L`: whether the Lua thread that calls is the one that
  -- loaded the module. `none` stands for the failure of the assertion, which aborts the process.
  abbrev pub unwrap : (own : Bool) → ℕ → Signals W → Option (Signals W)
  unwrap own signo s = if own then some (unwrapped signo s) else none

  abbrev pub wrap : (own : Bool) → ℕ → F → Signals W → Option (Bool × Signals W)
  wrap own signo f s = if own then some (wrapped signo f s) else none

  -- `sig_handler`: the function that is called with the number of the signal.
  unfoldable pub sig_handler : ℕ → Signals W → Option F
  sig_handler signo s = elim (s.handlers signo) [ none ↦ none | some r ↦ calls.rawgeti r s.system ]

  module _ (strerror : ℕ → Bytes) where
    abbrev succeed : Signals W → Reply × Signals W
    succeed s = (values (boolean true ∷ []), s)

    -- `signal(signo, (sig_t)handler);`, whose result is not looked at.
    abbrev pub dispose : ℕ → Disposition → Signals W → Signals W
    dispose signo d s = record s { system = (calls.signal signo d s.system).1 }

    -- `if (signal(signo, sig_handler) == SIG_ERR) return report_errno(L, LRET_BOOLEAN);`
    abbrev pub catch : SysRet (Unit {0}) × W → Signals W → Reply × Signals W
    catch (ret, w) s = (boolean_status strerror ret, record s { system = w })

    -- What follows a call of `sig_handler_wrap`.
    abbrev disposed : ℕ → Disposition → Option (Signals W) → Signals W → Reply × Signals W
    disposed signo d none s = (aborted, s)
    disposed signo d (some s1) s = succeed (dispose signo d s1)

    abbrev pub caught_by : ℕ → Option (Bool × Signals W) → Signals W → Reply × Signals W
    caught_by signo none s = (aborted, s)
    caught_by signo (some (fresh, s1)) s =
        if fresh then catch (calls.signal signo caught s1.system) s1 else succeed s1

    abbrev pub signal_at : (own : Bool) → ℕ → Handler F → Signals W → Reply × Signals W
    signal_at own signo (number z) s = elim (disposition_of z) [
      | none ↦ (arg_error 2 (text "invalid signal handler"), s)
      | some d ↦ disposed signo d (unwrap own signo s) s
    ]
    signal_at own signo (function f) s = caught_by signo (wrap own signo f s) s

    -- `sys.signal(signo, handler)`
    unfoldable pub lsys_signal : (own : Bool) → ℤ → Handler F → Signals W → Reply × Signals W
    lsys_signal own signo h s =
        if is_signo (to_int signo)
        then signal_at own (pos_part (to_int signo)) h s
        else (arg_error 1 (text "invalid signal number"), s)
