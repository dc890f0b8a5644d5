-- ===== src/Socket/Readline/Spin.antt =====
-- `sockobj:readline` of lsocklib.c at the end of a stream: `recv` returns 0 there and leaves `errno` as
-- it was, and the loop reads `errno` all the same.
use lua_xlib.Base.Words.{to_int}
use lua_xlib.Lua.{Bytes}
use lua_xlib.Socket.Readline.{
  loop, lsock_readline, retry, round, wait, Bytes, Loop, again, Next, peeked, waited, stop, request,
  to_int, get_or,
}
use lua_xlib.Socket.Deadline.{TimeVal, time_add}
use lua_xlib.Base.Int.{ℤ, pos, negsuc, pos_part}
use lua_xlib.Socket.Object.{SockCalls, closed, is_retryable, Received, SockObj, got}
use lua_xlib.Base.{ℕ, Bool, ◌≡◌, true, arith, none, Option, suc, refl, zero, ◌<◌, [], lt→ltb}

module _ {W : Type 0} (calls : SockCalls W)
    (ended : (n : ℕ) (peek : Bool) (w : W) → (calls.recv n peek w).0 ≡ closed)
    (stale : (w : W) → is_retryable (calls.errno w) ≡ true)
    (readable : (t : ℤ) (w : W) → (calls.poll t w).0 ≡ pos 1) where
  retry-again :
      (endtime : TimeVal) (ret : ℤ) (s : Loop) (w : W) → (retry calls endtime ret s w).0 ≡ again
  unfolding retry
  retry-again endtime ret s w = rw (stale w)

  peeked-again :
      (endtime : TimeVal) (s : Loop) (a : Received × W)
      → a.0 ≡ closed
      → (peeked calls endtime s a).0 ≡ again
  peeked-again endtime s (got bs, w) e = cc
  peeked-again endtime s (closed, w) e = retry-again endtime (negsuc 1) s w
  peeked-again endtime s (Received.failed, w) e = cc

  wait-again : (t : ℤ) (w : W) → (wait calls t w).0 ≡ again
  wait-again (pos n) w = ground (arith, readable (pos n) w)
  wait-again (negsuc n) w = refl

  waited-again :
      (endtime : TimeVal) (s : Loop) (a : Next × W)
      → a.0 ≡ again
      → (waited calls endtime s a).0 ≡ again
  waited-again endtime s (stop ret, w) e = cc
  waited-again endtime s (again, w) e =
      peeked-again endtime s (calls.recv (request s.size) true w) (ended (request s.size) true w)

  round-again : (endtime : TimeVal) (s : Loop) (w : W) → (round calls endtime s w).0 ≡ again
  unfolding round
  round-again endtime s w = waited-again endtime s (wait calls s.timeout w) (wait-again s.timeout w)

  loop-none : (fuel : ℕ) (endtime : TimeVal) (s : Loop) (w : W) → loop calls fuel endtime s w ≡ none
  unfolding loop
  loop-none zero endtime s w = refl
  loop-none (suc fuel) endtime s w =
      let r : Next × Loop × W = round calls endtime s w in
      rw (round-again endtime s w, loop) (loop-none fuel endtime r.1 r.2)

  -- On an open socket at the end of its stream, which `poll` reports as readable, while `errno` is left
  -- at EAGAIN or EINTR by an earlier call, `sockobj:readline` never returns, whatever its timeout: no
  -- number of rounds is enough.
  pub lsock_readline-none :
      (strerror : ℕ → Bytes) (fuel : ℕ) (o : SockObj) (size : Option ℤ) (timeout : ℤ) (w : W)
      → 0 < pos_part o.sockfd
      → lsock_readline calls strerror fuel o size timeout w ≡ none
  unfolding lsock_readline
  lsock_readline-none strerror fuel o size timeout w fd =
      let (now, w1) = calls.gettimeofday w in
      let start : Loop = record {
        size = to_int (get_or size (negsuc 0));
        timeout = timeout;
        line = [];
        nresult = 0;
      } in
      rw (lt→ltb 0 (pos_part o.sockfd) fd, loop-none fuel (time_add now timeout) start w1)
