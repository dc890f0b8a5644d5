-- ===== src/Socket/Address.antt =====
-- lsocklib.c, `sock_addr_t`: addresses of sockets, as they are made from what Lua gives and pushed to
-- Lua. The resolver belongs to the C library. The byte order is that of x86-64.
pub mod Order
pub mod Texts
mod Tests
use lua_xlib.Base.Words.{to_uint16, to_uint32, to_int}
use lua_xlib.Base.Int.{ℤ, pos}
use lua_xlib.Lua.{Bytes, LuaValue, Reply, string, table, field, values, integer, c_string, end}
use mathlib.Core.Option.{get_or}
use lua_xlib.Base.{
  ℕ, Bool, Option, List, some, ◌%◌, ◌^◌, if◌then◌else◌, none, replicate, true, ◌*◌, ◌-◌, ◌∷◌, [],
  ◌+◌, ◌==◌, ◌/◌, ltb, length, false,
}

-- `AF_UNIX`, `AF_INET` and `AF_INET6`, as Linux numbers them
abbrev pub af_unix : ℕ
af_unix = 1

abbrev pub af_inet : ℕ
af_inet = 2

abbrev pub af_inet6 : ℕ
af_inet6 = 10

-- `INADDR_NONE`, and the size of `sun_path`
abbrev pub inaddr_none : ℕ
inaddr_none = 2 ^ 32 - 1

abbrev pub path_size : ℕ
path_size = 108

-- The bytes of a number of 16 and of 32 bits in the other order: `htons`, `ntohs`, `htonl` and `ntohl`.
unfoldable pub swap16 : ℕ → ℕ
swap16 x = x % 256 * 256 + x / 256 % 256

unfoldable pub swap32 : ℕ → ℕ
swap32 x = x % 256 * 2 ^ 24 + x / 2 ^ 8 % 256 * 2 ^ 16 + x / 2 ^ 16 % 256 * 2 ^ 8 + x / 2 ^ 24 % 256

-- `socket.ntohl(x)`, `socket.htonl(x)`, `socket.ntohs(x)` and `socket.htons(x)`
unfoldable pub lsock_ntohl : ℤ → Reply
lsock_ntohl x = values (integer (pos (swap32 (to_uint32 x))) ∷ [])

unfoldable pub lsock_htonl : ℤ → Reply
lsock_htonl x = values (integer (pos (swap32 (to_uint32 x))) ∷ [])

unfoldable pub lsock_ntohs : ℤ → Reply
lsock_ntohs x = values (integer (pos (swap16 (to_uint16 x))) ∷ [])

unfoldable pub lsock_htons : ℤ → Reply
lsock_htons x = values (integer (pos (swap16 (to_uint16 x))) ∷ [])

-- `sock_addr_t`, by its family. Ports and IPv4 addresses are in network order; `other` is what stands
-- in the variable before an address is made, or an address of another family.
pub data SockAddr : Type 0 where
  inet : (s_addr sin_port : ℕ) → SockAddr
  inet6 : (sin6_addr : Bytes) (sin6_port sin6_flowinfo sin6_scope_id : ℕ) → SockAddr
  unix : (sun_path : Bytes) → SockAddr
  other : (sa_family : ℕ) → SockAddr

-- The fields of an IPv6 address that `gen_sockaddr` leaves as they were on the stack.
pub record Leftover : Type 0 where
  pub flowinfo : ℕ
  pub scope_id : ℕ

-- How `gen_sockaddr` ends: with an address and its size, with 0 and EINVAL, with -1, or with a path
-- that was copied beyond `sun_path`.
pub data Generated : Type 0 where
  made : SockAddr → ℕ → Generated
  refused unknown too_long : Generated

-- The resolver. `inet_addr` answers INADDR_NONE for what is no address, `gethostbyname` and `getaddrinfo`
-- the first address of a host.
pub record Resolver (W : Type 0) : Type 0 where
  pub inet_addr : Bytes → ℕ
  pub inet_ntoa : ℕ → Bytes
  pub inet_pton6 : Bytes → Option Bytes
  pub inet_ntop6 : Bytes → Bytes
  pub gethostbyname : Bytes → W → Option ℕ × W
  pub getaddrinfo6 : Bytes → W → Option Bytes × W

-- `!*addr || (addr[0]=='*' && addr[1]=='\0')`
abbrev pub is_any : Bytes → Bool
is_any [] = true
is_any (c ∷ []) = c == 42
is_any (c ∷ d ∷ cs) = false

-- `in6addr_any`
abbrev pub in6addr_any : Bytes
in6addr_any = replicate 16 0

module _ {W : Type 0} (net : Resolver W) (left : Leftover) where
  abbrev pub made_inet : ℕ → Option ℕ × W → Generated × W
  made_inet port (none, w) = (refused, w)
  made_inet port (some a, w) = (made (inet a (swap16 port)) 16, w)

  abbrev pub made_inet6 : ℕ → Option Bytes × W → Generated × W
  made_inet6 port (none, w) = (refused, w)
  made_inet6 port (some a, w) = (made (inet6 a (swap16 port) left.flowinfo left.scope_id) 28, w)

  -- The IPv4 address of a host, given as one or by its name.
  abbrev pub host_inet : Bytes → W → Option ℕ × W
  host_inet addr w =
      if is_any addr
      then (some 0, w)
      else if net.inet_addr addr == inaddr_none
      then net.gethostbyname addr w
      else (some (net.inet_addr addr), w)

  abbrev pub host_inet6 : Bytes → W → Option Bytes × W
  host_inet6 [] w = (some in6addr_any, w)
  host_inet6 (c ∷ cs) w = elim (net.inet_pton6 (c ∷ cs)) [
    | some a ↦ (some a, w)
    | none ↦ net.getaddrinfo6 (c ∷ cs) w
  ]

  -- `gen_sockaddr`, on a C string
  unfoldable pub gen_sockaddr : (family : ℕ) → Bytes → (port : ℤ) → W → Generated × W
  gen_sockaddr family addr port w =
      if family == af_inet
      then made_inet (to_uint16 port) (host_inet addr w)
      else if family == af_inet6
      then made_inet6 (to_uint16 port) (host_inet6 addr w)
      else if family == af_unix
      then if ltb (length addr) path_size then (made (unix addr) 110, w) else (too_long, w)
      else (unknown, w)

module _ {W : Type 0} (net : Resolver W) where
  -- A table with a host and a port.
  abbrev pub address_table : Bytes → ℕ → LuaValue
  address_table host port =
      table
        (field (integer (pos 1)) (string host) (field (integer (pos 2)) (integer (pos port)) end))

  -- `lsock_pushaddr`: the value that it pushes, or `none` for the error that it raises.
  unfoldable pub lsock_pushaddr : SockAddr → Option LuaValue
  lsock_pushaddr (inet a port) = some (address_table (net.inet_ntoa a) (swap16 port))
  lsock_pushaddr (inet6 a port flowinfo scope_id) =
      some (address_table (net.inet_ntop6 a) (swap16 port))
  lsock_pushaddr (unix path) = some (string path)
  lsock_pushaddr (other family) = none

-- `socket.address(hostname, port)`
unfoldable pub lsock_address : Option Bytes → ℤ → Reply
lsock_address hostname port = values (
    table (
      field (integer (pos 1)) (string (c_string (get_or hostname [])))
        (field (integer (pos 2)) (integer (to_int port)) end))
    ∷ [])
