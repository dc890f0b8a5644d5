-- ===== src/Sys/Iconv.antt =====
-- lsyslib.c, `sys.iconv`: a string is converted in pieces, each of which is pushed on the stack of Lua.
-- Lua promises a C function room for LUA_MINSTACK values; a push beyond it is the reply `overrun`. The
-- loop runs on fuel, a unit for each call of `iconv`.
pub mod Conversion
mod Tests
use lua_xlib.Constants.{e2big}
use lua_xlib.Lua.{
  Bytes, Reply, SysRet, failed, overrun, values, report_error, string, lret_nil, done,
}
use mathlib.Core.Option.{get_or}
use lua_xlib.Base.{
  ℕ, Bool, Option, List, some, ◌∷◌, ◌⊎◌, inl, none, ◌++◌, [], if◌then◌else◌, inr, suc, drop, ltb,
  ◌==◌, length, zero,
}

-- What a call of `iconv` did: how many bytes it took, what it wrote, and its errno if it failed.
pub record Converted : Type 0 where
  pub taken : ℕ
  pub output : Bytes
  pub error : Option ℕ

-- `iconv` is given the descriptor, what is left of the input and the room for its output.
pub record IconvCalls (W : Type 0) : Type 0 where
  pub iconv_open : Bytes → Bytes → W → SysRet ℕ × W
  pub iconv : ℕ → Bytes → ℕ → W → Converted × W
  pub iconv_close : ℕ → W → W

-- `LUA_MINSTACK`
abbrev pub min_stack : ℕ
min_stack = 20

-- `char outbuf[4096];`
abbrev pub outbuf_size : ℕ
outbuf_size = 4096

-- `lua_concat`, of the strings on the stack, the last one first.
abbrev pub concat : List Bytes → Bytes
concat [] = []
concat (s ∷ below) = concat below ++ s

-- The test of the loop for a failure: a full buffer is none.
abbrev pub failure_of : Converted → Option ℕ
failure_of r = elim r.error [ none ↦ none | some e ↦ if e == e2big then none else some e ]

-- How the loop ends: with the strings on the stack, with an errno, or with a push that has no room.
pub data Ending : Type 0 where
  finished : List Bytes → Ending
  fails : ℕ → Ending
  no_room : Ending

module _ {W : Type 0} (strerror : ℕ → Bytes) (calls : IconvCalls W) where
  -- What a round does with the answer of `iconv`: it ends the loop, or gives the stack to go on with.
  abbrev pub answered : Option ℕ → Bytes → List Bytes → Ending ⊎ List Bytes
  answered (some e) output stack = inl (fails e)
  answered none output stack =
      if ltb (length stack) min_stack then inr (output ∷ stack) else inl no_room

  abbrev pub end_round :
      Ending ⊎ List Bytes → W → (List Bytes → Option (Ending × W)) → Option (Ending × W)
  end_round (inl e) w go = some (e, w)
  end_round (inr stack) w go = go stack

  -- `while(ileft > 0)`, on what is left of the input; `none` means that the fuel ran out.
  unfoldable pub convert : ℕ → ℕ → Bytes → List Bytes → W → Option (Ending × W)
  convert fuel h [] stack w = some (finished stack, w)
  convert zero h (b ∷ bs) stack w = none
  convert (suc fuel) h (b ∷ bs) stack w =
      let (r, w1) = calls.iconv h (b ∷ bs) outbuf_size w in
      end_round (answered (failure_of r) r.output stack) w1
        (λ stack'. convert fuel h (drop r.taken (b ∷ bs)) stack' w1)

  abbrev pub iconv_reply : Ending → Reply
  iconv_reply (finished stack) = values (string (concat stack) ∷ [])
  iconv_reply (fails e) = report_error strerror lret_nil e
  iconv_reply no_room = overrun

  -- The descriptor is closed but where a push has gone wrong.
  abbrev pub closed : ℕ → Option (Ending × W) → Option (Reply × W)
  closed h none = none
  closed h (some (no_room, w)) = some (overrun, w)
  closed h (some (e, w)) = some (iconv_reply e, calls.iconv_close h w)

  abbrev pub opened : ℕ → Bytes → SysRet ℕ × W → Option (Reply × W)
  opened fuel inbuf (failed e, w) = some (report_error strerror lret_nil e, w)
  opened fuel inbuf (done h, w) = closed h (convert fuel h inbuf [] w)

  -- `sys.iconv(inbytes, fromcode[, tocode])`
  unfoldable pub lsys_iconv : ℕ → Bytes → Bytes → Option Bytes → W → Option (Reply × W)
  lsys_iconv fuel inbuf fromcode tocode w =
      opened fuel inbuf (calls.iconv_open (get_or tocode fromcode) fromcode w)
