-- ===== src/Socket/Datagrams.antt =====
-- lsocklib.c: `sockobj:poll`, and the methods that send to an address and receive from one.
pub mod Answers
mod Tests
use lua_xlib.Base.Words.{to_int, to_short, to_size}
use lua_xlib.Socket.Io.{max_bufsize}
use lua_xlib.Socket.Address.{Generated, SockAddr, made, refused, unknown, too_long}
use lua_xlib.Socket.Object.{SockObj, open_or, is_retryable}
use lua_xlib.Socket.Names.{
  NameCalls, generated, failure, raise_closed, unknown_address, push_address,
}
use lua_xlib.Base.Int.{ℤ, pos}
use lua_xlib.Lua.{
  Bytes, SysRet, Reply, failed, lret_negative, lret_emptystr, text, values, arg_error, done,
  integer, lret_nil, overrun, string,
}
use mathlib.Core.Option.{get_or}
use lua_xlib.Base.{none, some, ℕ, Option, if◌then◌else◌, leb, ◌^◌, ◌-◌, ◌==◌, ◌∷◌, []}

-- `POLLIN`
abbrev pollin : ℤ
pollin = pos 1

-- The address of `sockobj:sendto`: a table with a string and an integer, or no table.
pub data Place : Type 0 where
  addr_port : Bytes → ℤ → Place
  no_table : Place

module _ {W : Type 0} (strerror : ℕ → Bytes) (calls : NameCalls W) where
  abbrev pub polled : SysRet (ℕ × ℤ) × W → Reply × W
  polled (failed e, w) = (failure strerror calls lret_negative e (text "poll()"), w)
  polled (done (count, revents), w) =
      (values (integer (if count == 0 then pos 0 else revents) ∷ []), w)

  -- `sockobj:poll([events=POLLIN,] timeout)`, with the timeout in milliseconds
  unfoldable pub lsock_poll : SockObj → Option ℤ → (timeout : ℤ) → W → Reply × W
  lsock_poll o events timeout w =
      open_or o (raise_closed strerror calls w)
        (polled (calls.poll o.sockfd (to_short (to_int (get_or events pollin))) timeout w))

  -- What `sockobj:recvfrom` makes of the answer of `recvfrom`.
  abbrev pub received_from : SysRet (Bytes × SockAddr) × W → Reply × W
  received_from (failed e, w) = (
    failure strerror calls (if is_retryable e then lret_emptystr else lret_nil) e
        (text "recvfrom()"),
    w,
  )
  received_from (done ([], x), w) =
      (failure strerror calls lret_nil 0 (text "recvfrom() : connection closed by peer"), w)
  received_from (done (c ∷ cs, x), w) = (push_address strerror calls (string (c ∷ cs) ∷ []) x, w)

  -- `sockobj:recvfrom(bufsize[, flags=0])`
  unfoldable pub lsock_recvfrom : SockObj → ℤ → Option ℤ → W → Reply × W
  lsock_recvfrom o bufsize flags w = open_or o (raise_closed strerror calls w) (
      if leb (to_size bufsize) max_bufsize
      then received_from
          (calls.recvfrom o.sockfd (to_size bufsize) (to_int (get_or flags (pos 0))) w)
      else (arg_error 2 (text "value has exceed limit 65536"), w))

  -- What `sockobj:sendto` makes of the answer of `sendto`.
  abbrev pub sent_to : SysRet ℕ × W → Reply × W
  sent_to (failed e, w) = (
    if is_retryable e
        then values (integer (pos 0) ∷ string (strerror e) ∷ integer (pos e) ∷ [])
        else failure strerror calls lret_negative e (text "sendto()"),
    w,
  )
  sent_to (done n, w) = (values (integer (pos n) ∷ []), w)

  abbrev send_to : SockObj → Bytes → ℤ → Generated × W → Reply × W
  send_to o bytes flags (made x n, w) = sent_to (calls.sendto o.sockfd bytes flags x n w)
  send_to o bytes flags (refused, w) =
      (failure strerror calls lret_negative 0 (unknown_address strerror calls), w)
  send_to o bytes flags (unknown, w) =
      sent_to (calls.sendto o.sockfd bytes flags (calls.unset w) (2 ^ 32 - 1) w)
  send_to o bytes flags (too_long, w) = (overrun, w)

  abbrev pub send_at : SockObj → Bytes → Option ℤ → Place → W → Reply × W
  send_at o bytes flags no_table w =
      (arg_error (elim flags [ none ↦ 3 | some z ↦ 4 ]) (text "table{addr,port} expected"), w)
  send_at o bytes flags (addr_port addr port) w =
      send_to o bytes (to_int (get_or flags (pos 0)))
        (generated strerror calls o.family addr port w)

  -- `sockobj:sendto(bytes, [flags=0,] address(ip_addr, port))`
  unfoldable pub lsock_sendto : SockObj → Bytes → Option ℤ → Place → W → Reply × W
  lsock_sendto o bytes flags place w =
      open_or o (raise_closed strerror calls w) (send_at o bytes flags place w)
