-- ===== src/Socket/Messages.antt =====
-- lsocklib.c: `sockobj:sendmsg` and `sockobj:recvmsg`. The arguments have the types that the methods ask for.
use lua_xlib.Base.Words.{to_size, add_size, to_int}
use lua_xlib.Socket.Address.{Generated, SockAddr, made, refused, unknown, too_long}
use lua_xlib.Socket.Object.{SockObj, open_or}
use lua_xlib.Socket.Names.{NameCalls, generated, failure, raise_closed, push_address}
use mathlib.Core.Option.{get_or}
use lua_xlib.Base.Int.{ℤ, pos_part, pos}
use lua_xlib.Lua.{
  Bytes, LuaValue, Reply, SysRet, failed, overrun, table, field, integer, lret_negative, lret_nil,
  text, done, string, end, values, nil,
}
use lua_xlib.Base.{
  ℕ, Bool, Option, ltb, take, if◌then◌else◌, ◌++◌, drop, some, length, none, ◌^◌, ◌-◌, ◌==◌, ◌∷◌,
  [],
}
pub mod Padding
mod Tests

-- Ancillary data: a level, a type and bytes.
pub record Control : Type 0 where
  pub cmsg_level : ℤ
  pub cmsg_type : ℤ
  pub cmsg_data : Bytes

-- What `recvmsg` gives: the bytes that it wrote, the first control header if there is one, the flags and
-- what stands in the address.
pub record Message : Type 0 where
  pub bytes : Bytes
  pub control : Option Control
  pub msg_flags : ℤ
  pub msg_name : SockAddr

-- The system calls. `malloc` gives what stands in a new block of the size.
pub record MessageCalls (W : Type 0) : Type 0 where
  pub sendmsg : ℤ → Bytes → Option Control → Option (SockAddr × ℕ) → ℤ → W → SysRet ℕ × W
  pub recvmsg : ℤ → (iov_len : ℕ) → (controllen : ℤ) → ℤ → W → SysRet Message × W
  pub malloc : ℕ → W → Bytes

-- `EPIPE`
abbrev epipe : ℕ
epipe = 32

-- `ancbufsize > 0`
abbrev is_positive : ℤ → Bool
is_positive z = ltb 0 (pos_part z)

module _ {W : Type 0} (strerror : ℕ → Bytes) (names : NameCalls W) (calls : MessageCalls W) where
  -- `msg_name` and `msg_namelen` for what `gen_sockaddr` made: a result of 0 or -1 is taken for the length.
  -- `none` is a path that was copied beyond its end.
  abbrev pub name_of : Generated × W → Option (SockAddr × ℕ) × W
  name_of (made x n, w) = (some (x, n), w)
  name_of (refused, w) = (some (names.unset w, 0), w)
  name_of (unknown, w) = (some (names.unset w, 2 ^ 32 - 1), w)
  name_of (too_long, w) = (none, w)

  abbrev pub message_sent : SysRet ℕ × W → Reply × W
  message_sent (failed e, w) = (failure strerror names lret_negative e (text "sendmsg()"), w)
  message_sent (done n, w) = (values (integer (pos n) ∷ []), w)

  abbrev pub send_named :
      SockObj → Bytes → Option Control → ℤ → Option (SockAddr × ℕ) × W → Reply × W
  send_named o bytes control flags (none, w) = (overrun, w)
  send_named o bytes control flags (some name, w) =
      message_sent (calls.sendmsg o.sockfd bytes control (some name) flags w)

  -- `sockobj:sendmsg(data[, ancdata[, flags=0[, address(ip_addr, port)]]])`
  unfoldable pub lsock_sendmsg :
      SockObj → Bytes → Option Control → Option ℤ → Option (Bytes × ℤ) → W → Reply × W
  lsock_sendmsg o bytes control flags addr w =
      open_or o (raise_closed strerror names w) (elim addr [
        | none ↦
            message_sent
              (calls.sendmsg o.sockfd bytes control none (to_int (get_or flags (pos 0))) w)
        | some (host, port) ↦
            send_named o bytes control (to_int (get_or flags (pos 0)))
              (name_of (generated strerror names o.family host port w))
      ])

  -- The string that is pushed: `iov_len` bytes of the block, whatever was received.
  abbrev pub block_of : ℕ → W → Bytes → Bytes
  block_of iov_len w bytes =
      take iov_len (bytes ++ drop (length bytes) (calls.malloc (add_size iov_len 1) w))

  -- The table for the control data: the level at 1 is overwritten by the bytes.
  abbrev pub control_table : Control → LuaValue
  control_table c = table (
      field (integer (pos 1)) (string c.cmsg_data)
        (field (integer (pos 2)) (integer c.cmsg_type) end))

  -- What is pushed for a message. With room for control data but none received, a null pointer is read.
  abbrev pub pushed : ℤ → Bytes → Message → Reply
  pushed ancbufsize block m =
      if is_positive ancbufsize
      then elim m.control [
        | none ↦ overrun
        | some c ↦
            push_address strerror names (string block ∷ control_table c ∷ integer m.msg_flags ∷ [])
              m.msg_name
      ]
      else push_address strerror names (string block ∷ nil ∷ integer m.msg_flags ∷ []) m.msg_name

  abbrev pub message_received : ℕ → ℤ → W → SysRet Message × W → Reply × W
  message_received iov_len ancbufsize w0 (failed e, w) =
      (failure strerror names lret_nil e (text "recvmsg()"), w)
  message_received iov_len ancbufsize w0 (done m, w) = (
    if length m.bytes == 0
        then failure strerror names lret_nil epipe (text "recvmsg()")
        else pushed ancbufsize (block_of iov_len w0 m.bytes) m,
    w,
  )

  -- `sockobj:recvmsg(bufsize[, ancbufsize=0[, flags=0]])`
  unfoldable pub lsock_recvmsg : SockObj → ℤ → Option ℤ → Option ℤ → W → Reply × W
  lsock_recvmsg o bufsize ancbufsize flags w = open_or o (raise_closed strerror names w) (
      let iov_len = to_size (to_int bufsize) in
      let anc = to_int (get_or ancbufsize (pos 0)) in
      message_received iov_len anc w (
        calls.recvmsg o.sockfd iov_len (if is_positive anc then anc else pos 0)
          (to_int (get_or flags (pos 0))) w))
