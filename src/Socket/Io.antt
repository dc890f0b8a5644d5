-- ===== src/Socket/Io.antt =====
-- lsocklib.c: the methods of a socket that take no address, but for `readline` and `poll`.
pub mod Closing
pub mod Receiving
mod Tests
use lua_xlib.Constants.{o_nonblock}
use lua_xlib.Socket.Object.{SockObj, open_or, is_retryable}
use Prim.Native.Nat.{bit_or, bit_and}
use mathlib.Core.Option.{get_or}
use lua_xlib.Base.Int.{ℤ, pos, negsuc, pos_part, is_negative, eq_ℤ}
use lua_xlib.Base.Words.{to_int, to_size}
use lua_xlib.Lua.{
  Bytes, Reply, values, boolean, string, integer, report_errmsg, lret_nil, lret_boolean,
  lret_emptystr, lret_negative, arg_error, text, SysRet, failed, done,
}
use lua_xlib.Base.{
  ℕ, Bool, Option, none, some, if◌then◌else◌, ltb, leb, ◌==◌, not, ◌||◌, ◌&&◌, ◌∷◌, [], ◌^◌, ◌-◌,
  true, false,
}

-- `MAX_BUFSIZE`
abbrev pub max_bufsize : ℕ
max_bufsize = 65536

-- The system calls of these methods. `recv` answers the bytes that it wrote, none at the end of the
-- stream; `get_flags` and `set_flags` are `fcntl` with F_GETFL and F_SETFL.
pub record IoCalls (W : Type 0) : Type 0 where
  pub close : ℤ → W → W
  pub listen : ℤ → ℤ → W → SysRet (Unit {0}) × W
  pub shutdown : ℤ → ℤ → W → SysRet (Unit {0}) × W
  pub get_flags : ℤ → W → SysRet ℕ × W
  pub set_flags : ℤ → ℕ → W → W
  pub recv : ℤ → ℕ → ℤ → W → SysRet Bytes × W
  pub send : ℤ → Bytes → ℤ → W → SysRet ℕ × W

-- `sockobj:closed()`
unfoldable pub lsock_closed : SockObj → Reply
lsock_closed o = values (boolean (eq_ℤ o.sockfd (negsuc 0)) ∷ [])

-- `sockobj:fileno()`
unfoldable pub lsock_fileno : SockObj → Reply
lsock_fileno o = values (integer o.sockfd ∷ [])

module _ {W : Type 0} (strerror : ℕ → Bytes) (calls : IoCalls W) where
  -- `sockobj:close()`, also the finalizer
  unfoldable pub lsock_close : SockObj → W → SockObj × W
  lsock_close o w =
      if ltb 0 (pos_part o.sockfd)
      then (record o { sockfd = negsuc 0 }, calls.close o.sockfd w)
      else (o, w)

  abbrev pub raise_closed : W → Reply × W
  raise_closed w = (arg_error 1 (text "socket closed"), w)

  abbrev status : Bytes → SysRet (Unit {0}) × W → Reply × W
  status msg (failed e, w) = (values (report_errmsg strerror lret_boolean e (some msg)), w)
  status msg (done u, w) = (values (boolean true ∷ []), w)

  -- `sockobj:listen([backlog=50])`
  unfoldable pub lsock_listen : SockObj → Option ℤ → W → Reply × W
  lsock_listen o backlog w =
      open_or o (raise_closed w)
        (status (text "listen()") (calls.listen o.sockfd (to_int (get_or backlog (pos 50))) w))

  -- `sockobj:shutdown(how)`
  unfoldable pub lsock_shutdown : SockObj → ℤ → W → Reply × W
  lsock_shutdown o how w = open_or o (raise_closed w) (
      if not (is_negative (to_int how)) && leb (pos_part (to_int how)) 2
      then status (text "shutdown()") (calls.shutdown o.sockfd (to_int how) w)
      else (arg_error 2 (text "value in SHUT_RD/SHUT_WR/SHUT_RDWR"), w))

  -- The `int` that `fcntl(fd, F_GETFL)` returns, as its 32 bits; a failure is the -1 that it returns.
  abbrev pub flags_of : SysRet ℕ → ℕ
  flags_of (failed e) = 2 ^ 32 - 1
  flags_of (done flags) = flags

  abbrev pub nonblock_of : SysRet ℕ → Bool
  nonblock_of ret = not (bit_and (flags_of ret) o_nonblock == 0)

  -- `sockobj:isblocking()`
  unfoldable pub lsock_isblocking : SockObj → W → Reply × W
  lsock_isblocking o w = open_or o (raise_closed w) (
      let (ret, w1) = calls.get_flags o.sockfd w in
      (values (boolean (not (nonblock_of ret)) ∷ []), w1))

  -- `sockobj:setblocking(flag)`, with a flag that is a boolean
  unfoldable pub lsock_setblocking : SockObj → Bool → W → Reply × W
  lsock_setblocking o blocking w = open_or o (raise_closed w) (
      let (ret, w1) = calls.get_flags o.sockfd w in
      let nonblock = nonblock_of ret in
      if (nonblock && not blocking) || (not nonblock && blocking)
      then (values [], w1)
      else if not blocking
      then (values [], calls.set_flags o.sockfd (bit_or (flags_of ret) o_nonblock) w1)
      else (
        values [],
        calls.set_flags o.sockfd (bit_and (flags_of ret) (2 ^ 32 - 1 - o_nonblock)) w1,
      ))

  -- What `sockobj:recv` makes of the answer of `recv`.
  abbrev pub received : SysRet Bytes × W → Reply × W
  received (failed e, w) = (
    values (
        report_errmsg strerror (if is_retryable e then lret_emptystr else lret_nil) e
          (some (text "recv()"))),
    w,
  )
  received (done [], w) = (
    values (report_errmsg strerror lret_nil 0 (some (text "recv() : connection closed by peer"))),
    w,
  )
  received (done (c ∷ cs), w) = (values (string (c ∷ cs) ∷ []), w)

  -- `sockobj:recv(bufsize[, flags=0])`
  unfoldable pub lsock_recv : SockObj → ℤ → Option ℤ → W → Reply × W
  lsock_recv o bufsize flags w = open_or o (raise_closed w) (
      if leb (to_size bufsize) max_bufsize
      then received (calls.recv o.sockfd (to_size bufsize) (to_int (get_or flags (pos 0))) w)
      else (arg_error 2 (text "value has exceed limit 65536"), w))

  -- What `sockobj:send` makes of the answer of `send`.
  abbrev pub sent : SysRet ℕ × W → Reply × W
  sent (failed e, w) = (
    values (
        if is_retryable e
        then integer (pos 0) ∷ string (strerror e) ∷ integer (pos e) ∷ []
        else report_errmsg strerror lret_negative e (some (text "send()"))),
    w,
  )
  sent (done n, w) = (values (integer (pos n) ∷ []), w)

  -- `sockobj:send(bytes[, flags=0])`
  unfoldable pub lsock_send : SockObj → Bytes → Option ℤ → W → Reply × W
  lsock_send o bytes flags w =
      open_or o (raise_closed w)
        (sent (calls.send o.sockfd bytes (to_int (get_or flags (pos 0))) w))
