-- ===== src/Socket/Readline/Stream.antt =====
-- `sockobj:readline` of lsocklib.c against a stream of bytes: what it returns, what it takes from the
-- socket, and that it comes to an end.
use lua_xlib.Socket.Readline.Rounds.{loop-Done}
use lua_xlib.Socket.Readline.Laws.{StreamLaws, WithinSize, LeftOver-nil}
use lua_xlib.Base.Words.{to_int}
use lua_xlib.Socket.Readline.{Loop, finish, to_int, lsock_readline, get_or, answered, min_stack}
use lua_xlib.Socket.Readline.Lines.{OneLine}
use lua_xlib.Socket.Deadline.{time_add}
use lua_xlib.Lua.{Bytes, string, LuaValue, values, Reply, overrun}
use lua_xlib.Socket.Object.{SockCalls, SockObj}
use lua_xlib.Base.Int.{ℤ, pos, pos_part, negsuc}
use lua_xlib.Base.{
  ℕ, length, ◌<◌, ◌≡◌, ◌^◌, ◌++◌, ◌+◌, [], ◌⊎◌, arith, inl, inr, refl, ap, some, Option, sym, ◌∷◌,
  List, lt→ltb, ◌≤◌, Bool-cases, ltb,
}

to_int_small : (z : ℤ) → pos_part (to_int z) < 2 ^ 31
to_int_small (pos n) = ground arith
to_int_small (negsuc n) = ground arith

-- What the reply is, by the bytes that were taken.
abbrev pub Replies : Reply → Bytes → Type 0
Replies r line =
    (r ≡ values (string line ∷ []))
    ⊎ ((line ≡ []) × (vs : List LuaValue) × (r ≡ values vs))
    ⊎ ((20 < length line) × (r ≡ overrun))

answered-Replies :
    {W : Type 0} (calls : SockCalls W) (strerror : ℕ → Bytes) (ret : ℤ) (s : Loop) (w : W)
    → (s.line ≡ []) ⊎ (0 < s.nresult)
    → s.nresult ≤ length s.line
    → Replies (answered calls strerror ret s w) s.line
unfolding finish
answered-Replies calls strerror ret s w counted pushed =
    elim (Bool-cases (ltb min_stack s.nresult)) [
      | inl full ↦ rw full (inr (inr (ground (arith, full), refl)))
      | inr room ↦ rw room (within counted)
    ]
  where
    within :
        (s.line ≡ []) ⊎ (0 < s.nresult) → Replies (values (finish calls strerror ret s w)) s.line
    within (inl e) = inr (inl (e, finish calls strerror ret s w, refl))
    within (inr h) = inl (ground arith)

module _ {W : Type 0} (calls : SockCalls W) (stream : W → Bytes) (patience : W → ℕ)
    (laws : StreamLaws calls stream patience) (strerror : ℕ → Bytes) where
  -- `sockobj:readline` on an open socket that obeys `StreamLaws`, which let the errors that are retried run
  -- out, comes to an end, given fuel for one round more than there are bytes in the stream and such errors
  -- ahead. What it has taken from the stream is one line at most: a newline can only be the last byte; and
  -- no more bytes than a size that is not negative. It returns exactly these bytes, unless it has taken
  -- none; or it ends in `overrun`, a push beyond the room that Lua promises, only where it has taken more
  -- than 20 bytes.
  pub lsock_readline_lem :
      (fuel : ℕ) (o : SockObj) (size : Option ℤ) (timeout : ℤ) (w : W)
      → 0 < pos_part o.sockfd
      → length (stream w) + patience w < fuel
      → (line : Bytes) × (r : Reply) × (w' : W) × (lsock_readline calls strerror fuel o size timeout
            w
          ≡ some (r, w'))
        × (stream w ≡ line ++ stream w')
        × OneLine line
        × WithinSize (to_int (get_or size (negsuc 0))) line
        × Replies r line
  unfolding lsock_readline
  lsock_readline_lem fuel o size timeout w fd enough =
      let (now, w1) = calls.gettimeofday w in
      let size0 : ℤ = to_int (get_or size (negsuc 0)) in
      let start : Loop = record { size = size0; timeout = timeout; line = []; nresult = 0 } in
      let (ret, s', w', runs, d) =
        loop-Done calls stream patience laws size0 (to_int_small (get_or size (negsuc 0)))
          (stream w) fuel (time_add now timeout) start w1
          (record {
            split = sym (laws.times w).0;
            open_line = tt;
            left = LeftOver-nil size0;
            counted = inl refl;
            pushed = omega arith;
          })
          (omega (arith, ap length (laws.times w).0, (laws.times w).1)) in
      (
        s'.line,
        answered calls strerror ret s' w',
        w',
        rw (lt→ltb 0 (pos_part o.sockfd) fd, runs),
        d.split,
        d.one_line,
        d.within,
        answered-Replies calls strerror ret s' w' d.counted d.pushed,
      )
