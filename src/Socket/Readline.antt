-- ===== src/Socket/Readline.antt =====
-- lsocklib.c, `sockobj:readline`: a loop that waits for input, peeks at it, and takes the bytes up to
-- the first newline, until it has a newline, `size` bytes, or a reason to stop.
-- The loop runs on fuel: a round that finds nothing is made again for as long as the socket says that
-- nothing is there yet.
pub mod Lines
pub mod Laws
pub mod Rounds
pub mod Stream
pub mod Spin
mod Tests
use lua_xlib.Constants.{eagain}
use lua_xlib.Base.Words.{to_size, to_int}
use lua_xlib.Socket.Deadline.{TimeVal, time_left, time_add}
use lua_xlib.Base.Int.{ℤ, negsuc, pos}
use lua_xlib.Lua.{
  Bytes, LuaValue, Reply, report_errmsg, lret_emptystr, arg_error, text, lret_nil, string, values,
  overrun,
}
use lua_xlib.Socket.Object.{
  SockCalls, SockObj, Received, is_retryable, got, closed, open_or, failed,
}
use mathlib.Core.Option.{get_or}
use lua_xlib.Base.{
  ℕ, Bool, List, if◌then◌else◌, ◌∷◌, Option, false, length, ltb, suc, true, ◌==◌, [], leb, none,
  zero, ◌++◌, some, ◌+◌, ◌-◌, ◌||◌,
}

abbrev pub newline : ℕ
newline = 10

-- `sizeof(buffer)`
abbrev pub buffer_size : ℕ
buffer_size = 2048

-- `LUA_MINSTACK`
abbrev pub min_stack : ℕ
min_stack = 20

-- The variables of the loop; `line` is what the pushed strings make up, `nresult` their number.
pub record Loop : Type 0 where
  pub size : ℤ
  pub timeout : ℤ
  pub line : Bytes
  pub nresult : ℕ

-- The round ends the loop with a value of `ret`, or goes on.
pub data Next : Type 0 where
  stop : ℤ → Next
  again : Next

-- `size < sizeof(buffer) ? size : sizeof(buffer)`; a negative `size` is a large `size_t`.
abbrev pub request : ℤ → ℕ
request size = if ltb (to_size size) buffer_size then to_size size else buffer_size

-- How many bytes the `for` loop counts: up to the first newline, and with it.
unfoldable pub line_length : Bytes → ℕ
line_length [] = 0
line_length (c ∷ cs) = if c == newline then 1 else suc (line_length cs)

-- `buffer[len-1]=='\n'`
unfoldable pub ends_line : Bytes → Bool
ends_line [] = false
ends_line (c ∷ []) = c == newline
ends_line (c ∷ d ∷ cs) = ends_line (d ∷ cs)

-- `if (size > 0) size -= len;`
abbrev pub reduce : ℤ → ℕ → ℤ
reduce (pos zero) len = pos zero
reduce (pos (suc n)) len = if leb len (suc n) then pos (suc n - len) else negsuc (len - suc n - 1)
reduce (negsuc n) len = negsuc n

abbrev pub is_zero : ℤ → Bool
is_zero (pos zero) = true
is_zero _ = false

module _ {W : Type 0} (calls : SockCalls W) where
  -- `if (timeout > 0) timeout = time_left(&endtime);`
  abbrev pub renew_timeout : TimeVal → ℤ → W → ℤ × W
  renew_timeout endtime (pos (suc n)) w =
      let (now, w1) = calls.gettimeofday w in (pos (time_left endtime now), w1)
  renew_timeout endtime timeout w = (timeout, w)

  -- `if (timeout >= 0) { ret = poll(...); if (ret <= 0) break; }`
  abbrev pub wait : ℤ → W → Next × W
  wait (negsuc n) w = (again, w)
  wait (pos n) w =
      let (ret, w1) = calls.poll (pos n) w in
      elim ret [
        | pos zero ↦ (stop (pos 0), w1)
        | pos (suc k) ↦ (again, w1)
        | negsuc k ↦ (stop (negsuc k), w1)
      ]

  -- The code at the label `retry`, with the `ret` of an error that is not retried.
  unfoldable pub retry : TimeVal → ℤ → Loop → W → Next × Loop × W
  retry endtime ret s w =
      if is_retryable (calls.errno w)
      then (let (t, w1) = renew_timeout endtime s.timeout w in
          (again, record s { timeout = t }, w1))
      else (stop ret, s, w)

  -- The end of a round that took the bytes `cs`.
  unfoldable pub accept : TimeVal → Loop → Bytes → W → Next × Loop × W
  accept endtime s cs w =
      let s1 = record s {
        size = reduce s.size (length cs);
        line = s.line ++ cs;
        nresult = s.nresult + 1;
      } in
      if ends_line cs || is_zero s1.size
      then (stop (pos 1), s1, w)
      else let (t, w1) = renew_timeout endtime s.timeout w in (again, record s1 { timeout = t }, w1)

  abbrev pub taken : TimeVal → Loop → Received × W → Next × Loop × W
  taken endtime s (got cs, w) = accept endtime s cs w
  taken endtime s (closed, w) = retry endtime (negsuc 1) s w
  taken endtime s (failed, w) = retry endtime (negsuc 0) s w

  abbrev pub peeked : TimeVal → Loop → Received × W → Next × Loop × W
  peeked endtime s (got bs, w) = taken endtime s (calls.recv (line_length bs) false w)
  peeked endtime s (closed, w) = retry endtime (negsuc 1) s w
  peeked endtime s (failed, w) = retry endtime (negsuc 0) s w

  abbrev pub waited : TimeVal → Loop → Next × W → Next × Loop × W
  waited endtime s (stop ret, w) = (stop ret, s, w)
  waited endtime s (again, w) = peeked endtime s (calls.recv (request s.size) true w)

  -- The body of the `while` loop.
  unfoldable pub round : TimeVal → Loop → W → Next × Loop × W
  round endtime s w = waited endtime s (wait s.timeout w)

  -- `none` means that the fuel ran out.
  unfoldable pub loop : ℕ → TimeVal → Loop → W → Option (ℤ × Loop × W)
  loop zero endtime s w = none
  loop (suc fuel) endtime s w =
      let (next, s1, w1) = round endtime s w in
      elim next [ stop ret ↦ some (ret, s1, w1) | again ↦ loop fuel endtime s1 w1 ]

  module _ (strerror : ℕ → Bytes) where
    -- What is returned after the loop.
    unfoldable pub finish : ℤ → Loop → W → List LuaValue
    finish ret s w =
        if s.nresult == 0
        then elim ret [
          | pos zero ↦ report_errmsg strerror lret_emptystr eagain (some (text "poll()"))
          | negsuc zero ↦ report_errmsg strerror lret_nil (calls.errno w) (some (text "recv()"))
          | negsuc (suc zero) ↦
              report_errmsg strerror lret_nil 0 (some (text "recv() : connection closed by peer"))
          | _ ↦ string s.line ∷ []
        ]
        else string s.line ∷ []

    -- Lua promises room for LUA_MINSTACK values, and each round that takes bytes pushes a string.
    abbrev pub answered : ℤ → Loop → W → Reply
    answered ret s w = if ltb min_stack s.nresult then overrun else values (finish ret s w)

    -- `sockobj:readline([size=-1,] timeout)`, with the timeout in milliseconds, below 0 for none.
    unfoldable pub lsock_readline : ℕ → SockObj → Option ℤ → ℤ → W → Option (Reply × W)
    lsock_readline fuel o size timeout w =
        open_or o (some (arg_error 1 (text "socket closed"), w)) (
          let (now, w1) = calls.gettimeofday w in
          let start : Loop = record {
            size = to_int (get_or size (negsuc 0));
            timeout = timeout;
            line = [];
            nresult = 0;
          } in
          elim (loop fuel (time_add now timeout) start w1) [
            | none ↦ none
            | some (ret, s, w2) ↦ some (answered ret s w2, w2)
          ])
