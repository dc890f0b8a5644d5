-- ===== src/Socket/Address/Texts.antt =====
-- lsocklib.c, `gen_sockaddr` and `lsock_pushaddr`: an address that was pushed can be given back.
use lua_xlib.Socket.Address.Order.{swap16-lt, swap16-swap16}
use lua_xlib.Base.Words.{to_uint16}
use lua_xlib.Base.Int.{ℤ, pos}
use lua_xlib.Socket.Address.{
  Resolver, SockAddr, Leftover, inet, ℤ, af_inet, gen_sockaddr, inet6, af_inet6, inaddr_none,
  lsock_pushaddr, unix, af_unix, is_any, path_size, made, other, swap16, to_uint16, host_inet6,
}
use lua_xlib.Lua.{LuaValue, Bytes, table, field, integer, string}
use lua_xlib.Base.{
  ℕ, ◌<◌, ◌^◌, length, ◌≡◌, [], some, false, ◌≢◌, ◌==◌, arith, subst, ◌%◌, some-injective, ◌∷◌, ltb,
  true, lt→ltb, refl,
}

-- The family of an address, and what the methods read of the value that `lsock_pushaddr` pushes for it.
abbrev pub family_of : SockAddr → ℕ
family_of (inet a port) = af_inet
family_of (inet6 a port flowinfo scope_id) = af_inet6
family_of (unix path) = af_unix
family_of (other family) = family

abbrev pub size_of : SockAddr → ℕ
size_of (inet a port) = 16
size_of (inet6 a port flowinfo scope_id) = 28
size_of _ = 110

-- The host and the port, or the path, in a value.
abbrev pub host_in : LuaValue → Bytes
host_in (table (field k (string host) rest)) = host
host_in (string path) = path
host_in _ = []

abbrev pub port_in : LuaValue → ℤ
port_in (table (field k v (field k' (integer port) rest))) = port
port_in _ = pos 0

same_port : (port : ℕ) → port < 2 ^ 16 → swap16 (to_uint16 (pos (swap16 port))) ≡ port
same_port port p =
    let cut : swap16 port % 2 ^ 16 ≡ swap16 port = omega (arith, swap16-lt port) in
    rw cut (swap16-swap16 port p)

module _ {W : Type 0} (net : Resolver W) (left : Leftover) where
  -- What is taken of the C library: a text that it makes of an address is read as that address, and is
  -- neither empty nor `*`.
  pub record TextLaws : Type 0 where
    pub inet_read : (a : ℕ) → a < 2 ^ 32 → net.inet_addr (net.inet_ntoa a) ≡ a
    pub inet_text : (a : ℕ) → is_any (net.inet_ntoa a) ≡ false
    pub inet6_read : (a : Bytes) → length a ≡ 16 → net.inet_pton6 (net.inet_ntop6 a) ≡ some a
    pub inet6_text : (a : Bytes) → net.inet_ntop6 a ≢ []

  -- An address that a program can have: IPv4, but for 255.255.255.255, with a port; IPv6 with what was left
  -- on the stack; or a path that fits in.
  abbrev pub IsPlain : SockAddr → Type 0
  IsPlain (inet a port) = (a < inaddr_none) × (port < 2 ^ 16)
  IsPlain (inet6 a port flowinfo scope_id) =
      (length a ≡ 16) × (port < 2 ^ 16) × (flowinfo ≡ left.flowinfo) × (scope_id ≡ left.scope_id)
  IsPlain (unix path) = length path < path_size
  IsPlain (other family) = ⊥

  module _ (laws : TextLaws) where
    -- Take an IPv4 address other than 255.255.255.255, a path of fewer than 108 bytes, or an IPv6 address whose flow
    -- label and scope are what `gen_sockaddr` finds on its stack. The value that is pushed for it, given
    -- back with its family, makes this address again, with its size and without a question to a name
    -- server.
    pub gen_sockaddr-pushaddr :
        (x : SockAddr) (v : LuaValue) (w : W)
        → IsPlain x
        → lsock_pushaddr net x ≡ some v
        → gen_sockaddr net left (family_of x) (host_in v) (port_in v) w ≡ (made x (size_of x), w)
    unfolding gen_sockaddr lsock_pushaddr
    gen_sockaddr-pushaddr (inet a port) v w (h, p) e =
        subst
          (λ (v : LuaValue).
            gen_sockaddr net left af_inet (host_in v) (port_in v) w ≡ (made (inet a port) 16, w))
          (some-injective e)
          (rw (laws.inet_text a, laws.inet_read a (omega (arith, h)), not_none, same_port port p)
            refl)
      where
        not_none : (a == inaddr_none) ≡ false
        not_none = ground (arith, h)
    gen_sockaddr-pushaddr (inet6 a port flowinfo scope_id) v w (h, p, f, s) e =
        subst
          (λ (v : LuaValue).
            gen_sockaddr net left af_inet6 (host_in v) (port_in v) w
            ≡ (made (inet6 a port flowinfo scope_id) 28, w))
          (some-injective e)
          (rw
            (
              host_read (net.inet_ntop6 a) (laws.inet6_text a) (laws.inet6_read a h),
              same_port port p,
              f,
              s,
            )
            refl)
      where
        host_read :
            (t : Bytes) → t ≢ [] → net.inet_pton6 t ≡ some a → host_inet6 net left t w ≡ (some a, w)
        host_read [] n r = absurd (n refl)
        host_read (c ∷ cs) n r = rw (host_inet6, r) refl
    gen_sockaddr-pushaddr (unix path) v w h e =
        subst
          (λ (v : LuaValue).
            gen_sockaddr net left af_unix (host_in v) (port_in v) w ≡ (made (unix path) 110, w))
          (some-injective e) (rw short refl)
      where
        short : ltb (length path) path_size ≡ true
        short = lt→ltb (length path) path_size h
    gen_sockaddr-pushaddr (other family) v w h e = absurd h
