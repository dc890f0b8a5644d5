-- ===== src/Socket/Hosts.antt =====
-- lsocklib.c: the questions to the name services of the C library, which is a parameter.
use lua_xlib.Base.Words.{to_int}
use lua_xlib.Base.Int.{ℤ, pos, eq_ℤ, pos_part}
use lua_xlib.Socket.Address.{Resolver, inaddr_none, af_inet6, af_inet}
use lua_xlib.Lua.{
  Bytes, SysRet, Flag, Reply, failed, lret_negative, lret_nil, LuaValue, c_string, text, values,
  integer, report_errmsg, string, done, arg_error,
}
use lua_xlib.Base.{ℕ, ◌⊎◌, Option, List, if◌then◌else◌, inl, ◌==◌, some, ◌∷◌, [], inr, ◌||◌}
use mathlib.Core.Option.{get_or}

-- `struct servent`, as far as it is read. The port is in network order.
pub record Service : Type 0 where
  pub s_name : Bytes
  pub s_port : ℕ
  pub s_proto : Bytes

-- The calls. `getaddrinfo` and `gethostbyaddr` fail with a text, which `gai_strerror` and `hstrerror` make; the
-- others by a null pointer with `errno`. `inet_pton` fails with the `errno` that is then read.
pub record HostCalls (W : Type 0) : Type 0 where
  pub gethostname : W → SysRet Bytes × W
  pub getaddrinfo : Bytes → ℕ → W → (Bytes ⊎ Bytes) × W
  pub inet_ntop : ℕ → Bytes → Bytes
  pub inet_pton : ℕ → Bytes → W → SysRet Bytes × W
  pub gethostbyaddr : Bytes → ℕ → W → (Bytes ⊎ Bytes) × W
  pub getprotobyname : Bytes → W → SysRet ℕ × W
  pub getprotobynumber : ℤ → W → SysRet Bytes × W
  pub getservbyname : Bytes → W → SysRet Service × W
  pub getservbyport : ℤ → W → SysRet Service × W

-- `INET6_ADDRSTRLEN` and the other buffers are large enough for what is put in. The answers of
-- `inet_addr` are those of the resolver of `gen_sockaddr`.
module _ {W : Type 0} (strerror : ℕ → Bytes) (net : Resolver W) (calls : HostCalls W) where
  abbrev pub report : {A : Type 0} → Flag → Bytes → (A → List LuaValue) → SysRet A × W → Reply × W
  report r msg push (failed e, w) = (values (report_errmsg strerror r e (some msg)), w)
  report r msg push (done a, w) = (values (push a), w)

  -- An answer, or the text of a failure that has no `errno`.
  abbrev pub answer : (Bytes → Bytes) → (Bytes ⊎ Bytes) × W → Reply × W
  answer push (inl msg, w) = (values (report_errmsg strerror lret_nil 0 (some msg)), w)
  answer push (inr a, w) = (values (string (push a) ∷ []), w)

  -- `socket.gethostname()`
  unfoldable pub lsock_gethostname : W → Reply × W
  lsock_gethostname w =
      report lret_nil (text "gethostname()") (λ (name : Bytes). string (c_string name) ∷ [])
        (calls.gethostname w)

  -- `socket.gethostbyname(host_name[, family=AF_INET])`
  unfoldable pub lsock_gethostbyname : Bytes → Option ℤ → W → Reply × W
  lsock_gethostbyname hostname family w =
      let family = to_int (get_or family (pos af_inet)) in
      if eq_ℤ family (pos af_inet) || eq_ℤ family (pos af_inet6)
      then answer (calls.inet_ntop (pos_part family))
          (calls.getaddrinfo (c_string hostname) (pos_part family) w)
      else (arg_error 2 (text "family in AF_INET/AF_INET6"), w)

  abbrev pub found_address : ℕ → SysRet Bytes × W → Reply × W
  found_address af (failed e, w) = (
    values
        (report_errmsg strerror lret_nil e (some (text "inet_pton() : illegal IP address string"))),
    w,
  )
  found_address af (done addr, w) = answer (λ (name : Bytes). name) (calls.gethostbyaddr addr af w)

  -- `socket.gethostbyaddr(ip_addr)`
  unfoldable pub lsock_gethostbyaddr : Bytes → W → Reply × W
  lsock_gethostbyaddr ipaddr w =
      let af = if net.inet_addr (c_string ipaddr) == inaddr_none then af_inet6 else af_inet in
      found_address af (calls.inet_pton af (c_string ipaddr) w)

  -- `socket.getprotobyname(name)`
  unfoldable pub lsock_getprotobyname : Bytes → W → Reply × W
  lsock_getprotobyname name w =
      report lret_negative (text "getprotobyname()") (λ (p : ℕ). integer (pos p) ∷ [])
        (calls.getprotobyname (c_string name) w)

  -- `socket.getprotobynumber(proto)`
  unfoldable pub lsock_getprotobynumber : ℤ → W → Reply × W
  lsock_getprotobynumber proto w =
      report lret_negative (text "getprotobynumber()") (λ (name : Bytes). string name ∷ [])
        (calls.getprotobynumber (to_int proto) w)

  -- `socket.getservbyname(name)`, with the port as it stands
  unfoldable pub lsock_getservbyname : Bytes → W → Reply × W
  lsock_getservbyname name w =
      report lret_negative (text "getservbyname()")
        (λ (s : Service). integer (pos s.s_port) ∷ string s.s_proto ∷ [])
        (calls.getservbyname (c_string name) w)

  -- `socket.getservbyport(port)`, with the port as it stands
  unfoldable pub lsock_getservbyport : ℤ → W → Reply × W
  lsock_getservbyport port w =
      report lret_negative (text "getservbyport()")
        (λ (s : Service). string s.s_name ∷ string s.s_proto ∷ [])
        (calls.getservbyport (to_int port) w)
