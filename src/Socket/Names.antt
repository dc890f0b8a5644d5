-- ===== src/Socket/Names.antt =====
-- lsocklib.c: the functions that make sockets and the methods that take or give addresses.
pub mod Pushed
use lua_xlib.Base.Words.{to_int}
use lua_xlib.Socket.Address.{
  Resolver, Generated, Leftover, SockAddr, gen_sockaddr, lsock_pushaddr, made, af_inet, af_unix,
  af_inet6, unknown, refused, too_long,
}
use lua_xlib.Base.Int.{ℤ, pos, is_negative, pos_part}
use lua_xlib.Lua.{
  Bytes, Flag, LuaValue, Reply, SysRet, text, arg_error, failed, values, c_string, lret_boolean,
  lret_nil, report_errmsg, table, done, field, raised, boolean, integer, string, end, overrun,
}
use lua_xlib.Socket.Object.{SockObj, open_or}
use mathlib.Core.Option.{get_or}
use lua_xlib.Base.{
  ℕ, Bool, Option, List, not, [], if◌then◌else◌, none, some, ◌&&◌, ◌==◌, ◌^◌, ◌++◌, ◌-◌, ◌||◌, true,
  ◌∷◌,
}

-- The system calls of these functions. `leftover` and `unset` are what stands on the stack where an
-- address is made. A call that fills an address gives what is then in the variable.
pub record NameCalls (W : Type 0) : Type 0 where
  pub net : Resolver W
  pub leftover : W → Leftover
  pub unset : W → SockAddr
  pub socket : ℤ → ℤ → ℤ → W → SysRet ℕ × W
  pub socketpair : ℤ → ℤ → ℤ → W → SysRet (ℕ × ℕ) × W
  pub bind : ℤ → SockAddr → ℕ → W → SysRet (Unit {0}) × W
  pub connect : ℤ → SockAddr → ℕ → W → SysRet (Unit {0}) × W
  pub accept : ℤ → W → SysRet (ℕ × SockAddr) × W
  pub getpeername : ℤ → W → SysRet SockAddr × W
  pub getsockname : ℤ → W → SysRet SockAddr × W
  pub recvfrom : ℤ → ℕ → ℤ → W → SysRet (Bytes × SockAddr) × W
  pub sendto : ℤ → Bytes → ℤ → SockAddr → ℕ → W → SysRet ℕ × W
  pub poll : ℤ → ℤ → ℤ → W → SysRet (ℕ × ℤ) × W

-- `SOCK_STREAM`
abbrev sock_stream : ℤ
sock_stream = pos 1

-- `family==AF_INET || family==AF_INET6 || family==AF_UNIX`
abbrev pub is_family : ℤ → Bool
is_family z =
    not (is_negative z)
    && (pos_part z == af_inet || pos_part z == af_inet6 || pos_part z == af_unix)

-- `lsock_newobj`
abbrev pub new_object : ℕ → ℕ → ℤ → ℤ → SockObj
new_object fd family type proto = record {
  sockfd = pos fd;
  family = family;
  type = type;
  proto = proto;
}

-- Argument 2 of `sockobj:bind` and of `sockobj:connect`: a table with a host and a port, or another
-- value, a port for the one and a host or a path for the other.
pub data BindFirst : Type 0 where
  bind_table : (addr : Option Bytes) (port : ℤ) → BindFirst
  bind_port : ℤ → BindFirst

pub data ConnectFirst : Type 0 where
  connect_table : (addr : Bytes) (port : ℤ) → ConnectFirst
  connect_host : Bytes → ConnectFirst

-- `sockobj:info()`
unfoldable pub lsock_info : SockObj → Reply
lsock_info o = values (
    table (
      field (string (text "fileno")) (integer o.sockfd) (
        field (string (text "family")) (integer (pos o.family)) (
          field (string (text "type")) (integer o.type)
            (field (string (text "proto")) (integer o.proto) end))))
    ∷ [])

module _ {W : Type 0} (strerror : ℕ → Bytes) (calls : NameCalls W) where
  abbrev pub failure : Flag → ℕ → Bytes → Reply
  failure flag e msg = values (report_errmsg strerror flag e (some msg))

  abbrev pub raise_closed : W → Reply × W
  raise_closed w = (arg_error 1 (text "socket closed"), w)

  -- `socket.socket(family=AF_INET, type=SOCK_STREAM, proto=0)`
  unfoldable pub lsock_socket : Option ℤ → Option ℤ → Option ℤ → W → Reply × Option SockObj × W
  lsock_socket family type proto w =
      let family = to_int (get_or family (pos af_inet)) in
      let type = to_int (get_or type sock_stream) in
      let proto = to_int (get_or proto (pos 0)) in
      if is_family family
      then (let (ret, w1) = calls.socket family type proto w in
          elim ret [
            | failed e ↦ (failure lret_nil e (text "socket()"), none, w1)
            | done fd ↦ (values [], some (new_object fd (pos_part family) type proto), w1)
          ])
      else (arg_error 1 (text "family in AF_INET/AF_INET6/AF_UNIX"), none, w)

  -- `socket.socketpair(family=AF_INET, type=SOCK_STREAM, proto=0)`: the two sockets of the table.
  unfoldable pub lsock_socketpair :
      Option ℤ → Option ℤ → Option ℤ → W → Reply × Option (SockObj × SockObj) × W
  lsock_socketpair family type proto w =
      let family = to_int (get_or family (pos af_inet)) in
      let type = to_int (get_or type sock_stream) in
      let proto = to_int (get_or proto (pos 0)) in
      if is_family family && not (pos_part family == af_inet6)
      then (let (ret, w1) = calls.socketpair family type proto w in
          elim ret [
            | failed e ↦ (failure lret_nil e (text "socketpair()"), none, w1)
            | done (a, b) ↦ (
              values [],
              some (
                new_object a (pos_part family) type proto,
                new_object b (pos_part family) type proto,
              ),
              w1,
            )
          ])
      else (arg_error 1 (text "family in AF_INET/AF_UNIX"), none, w)

  -- What `lsock_pushaddr` pushes behind other values, or the error that it raises.
  abbrev pub push_address : List LuaValue → SockAddr → Reply
  push_address before x = elim (lsock_pushaddr calls.net x) [
    | none ↦ raised (text "unsupport socket family")
    | some v ↦ values (before ++ v ∷ [])
  ]

  -- `sockobj:accept()`: the socket of the client stands before the address. It is made in any case.
  abbrev pub accepted : SockObj → SysRet (ℕ × SockAddr) × W → Reply × Option SockObj × W
  accepted o (failed e, w) = (failure lret_nil e (text "accept()"), none, w)
  accepted o (done (client, x), w) =
      (push_address [] x, some (new_object client o.family o.type o.proto), w)

  unfoldable pub lsock_accept : SockObj → W → Reply × Option SockObj × W
  lsock_accept o w =
      open_or o (arg_error 1 (text "socket closed"), none, w) (accepted o (calls.accept o.sockfd w))

  abbrev pub unknown_address : Bytes
  unknown_address = text "bind() : unknown address or unsupport socket family"

  abbrev pub status : Bytes → SysRet (Unit {0}) × W → Reply × W
  status msg (failed e, w) = (failure lret_boolean e msg, w)
  status msg (done u, w) = (values (boolean true ∷ []), w)

  -- What `bind` and `connect` do with what `gen_sockaddr` gives. The length is unsigned: -1 is not below 0.
  abbrev pub with_address :
      (SockAddr → ℕ → W → SysRet (Unit {0}) × W) → Bytes → Generated × W → Reply × W
  with_address call msg (made x n, w) = status msg (call x n w)
  with_address call msg (refused, w) = (failure lret_boolean 0 unknown_address, w)
  with_address call msg (unknown, w) = status msg (call (calls.unset w) (2 ^ 32 - 1) w)
  with_address call msg (too_long, w) = (overrun, w)

  -- An address made of a string of Lua.
  abbrev pub generated : ℕ → Bytes → ℤ → W → Generated × W
  generated family addr port w =
      gen_sockaddr calls.net (calls.leftover w) family (c_string addr) (to_int port) w

  abbrev bind_inet : SockObj → BindFirst → Option Bytes → W → Generated × W
  bind_inet o (bind_table addr port) third w = generated o.family (get_or addr []) port w
  bind_inet o (bind_port p) third w = generated o.family (get_or third []) p w

  -- `sockobj:bind(port[, ip_addr])` and `sockobj:bind(address)`; a path is argument 3.
  unfoldable pub lsock_bind : SockObj → BindFirst → Option Bytes → W → Reply × W
  lsock_bind o first third w = open_or o (raise_closed w) (
      if o.family == af_inet || o.family == af_inet6
      then with_address (calls.bind o.sockfd) (text "bind()") (bind_inet o first third w)
      else if o.family == af_unix
      then elim third [
        | none ↦ (arg_error 3 (text "string expected"), w)
        | some path ↦
            with_address (calls.bind o.sockfd) (text "bind()") (generated af_unix path (pos 0) w)
      ]
      else with_address (calls.bind o.sockfd) (text "bind()") (unknown, w))

  abbrev connect_inet : SockObj → ConnectFirst → Option ℤ → W → Reply × W
  connect_inet o (connect_table addr port) third w =
      with_address (calls.connect o.sockfd) (text "connect()") (generated o.family addr port w)
  connect_inet o (connect_host addr) none w = (arg_error 3 (text "number expected"), w)
  connect_inet o (connect_host addr) (some port) w =
      with_address (calls.connect o.sockfd) (text "connect()") (generated o.family addr port w)

  abbrev connect_unix : SockObj → ConnectFirst → W → Reply × W
  connect_unix o (connect_table addr port) w = (arg_error 2 (text "string expected"), w)
  connect_unix o (connect_host path) w =
      with_address (calls.connect o.sockfd) (text "connect()") (generated af_unix path (pos 0) w)

  -- `sockobj:connect(hostname, port)`, `sockobj:connect(address)` and `sockobj:connect(path)`
  unfoldable pub lsock_connect : SockObj → ConnectFirst → Option ℤ → W → Reply × W
  lsock_connect o first third w = open_or o (raise_closed w) (
      if o.family == af_inet || o.family == af_inet6
      then connect_inet o first third w
      else if o.family == af_unix
      then connect_unix o first w
      else (failure lret_boolean 0 unknown_address, w))

  abbrev pub named : Bytes → SysRet SockAddr × W → Reply × W
  named msg (failed e, w) = (failure lret_nil e msg, w)
  named msg (done x, w) = (push_address [] x, w)

  -- `sockobj:getpeername()`
  unfoldable pub lsock_getpeername : SockObj → W → Reply × W
  lsock_getpeername o w =
      open_or o (raise_closed w) (named (text "getpeername()") (calls.getpeername o.sockfd w))

  -- `sockobj:getsockname()`
  unfoldable pub lsock_getsockname : SockObj → W → Reply × W
  lsock_getsockname o w =
      open_or o (raise_closed w) (named (text "getsockname()") (calls.getsockname o.sockfd w))
