-- ===== src/Socket/Datagrams/Answers.antt =====
-- lsocklib.c: an answer that is sent to the address that `sockobj:recvfrom` returned.
use lua_xlib.Base.Int.{pos, ℤ, pos_part}
use lua_xlib.Base.Words.{to_int, to_size}
use lua_xlib.Socket.Object.{SockObj}
use lua_xlib.Socket.Names.{NameCalls, generated}
use lua_xlib.Lua.{LuaValue, Bytes, values, c_string, done, string, Reply, arg_error, table, text}
use lua_xlib.Base.{
  ℕ, ◌<◌, ◌≡◌, some, ◌^◌, subst, arith, some-injective, ◌∷◌, [], none≢some, ◌≤◌, refl, none, ltb,
  true, le→leb, ap,
}
use lua_xlib.Socket.Address.Texts.{
  family_of, size_of, host_in, port_in, TextLaws, IsPlain, gen_sockaddr-pushaddr,
}
use lua_xlib.Socket.Address.Order.{swap16-lt}
use lua_xlib.Socket.Address.{
  Resolver, SockAddr, inet, inet6, unix, lsock_pushaddr, swap16, other, made,
}
use lua_xlib.Socket.Datagrams.{
  lsock_recvfrom, lsock_sendto, sent_to, ℕ, NameCalls, SockObj, to_int, pos, ℤ, Place, generated,
  no_table, addr_port, send_at,
}
use lua_xlib.Socket.Io.{max_bufsize}
use lua_xlib.Socket.Names.Pushed.{push_address_lem}

to_int-small : (p : ℕ) → p < 2 ^ 16 → to_int (pos p) ≡ pos p
to_int-small p h = ground arith

-- A value that a program gives as an address.
abbrev pub given : LuaValue → Place
given (table fs) = addr_port (host_in (table fs)) (port_in (table fs))
given _ = no_table

module _ {W : Type 0} (net : Resolver W) where
  -- A port that was pushed is an `int`.
  port_in_lem :
      (x : SockAddr) (v : LuaValue) → lsock_pushaddr net x ≡ some v → to_int (port_in v) ≡ port_in v
  unfolding lsock_pushaddr
  port_in_lem (inet a port) v e =
      subst (λ (v : LuaValue). to_int (port_in v) ≡ port_in v) (some-injective e)
        (to_int-small (swap16 port) (swap16-lt port))
  port_in_lem (inet6 a port f s) v e =
      subst (λ (v : LuaValue). to_int (port_in v) ≡ port_in v) (some-injective e)
        (to_int-small (swap16 port) (swap16-lt port))
  port_in_lem (unix path) v e =
      subst (λ (v : LuaValue). to_int (port_in v) ≡ port_in v) (some-injective e)
        (to_int-small 0 (omega arith))
  port_in_lem (other family) v e = absurd (none≢some refl e)

module _ {W : Type 0} (strerror : ℕ → Bytes) (calls : NameCalls W) where
  given-pushaddr :
      (x : SockAddr) (v : LuaValue)
      → lsock_pushaddr calls.net x ≡ some v
      → given v ≡ elim x [ unix path ↦ no_table | _ ↦ addr_port (host_in v) (port_in v) ]
  unfolding lsock_pushaddr
  given-pushaddr (inet a port) v e =
      subst (λ v. given v ≡ addr_port (host_in v) (port_in v)) (some-injective e) refl
  given-pushaddr (inet6 a port f s) v e =
      subst (λ v. given v ≡ addr_port (host_in v) (port_in v)) (some-injective e) refl
  given-pushaddr (unix path) v e = subst (λ v. given v ≡ no_table) (some-injective e) refl
  given-pushaddr (other family) v e = absurd (none≢some refl e)

  -- What `sockobj:sendto` does with the address of a sender.
  abbrev answer_to : SockObj → Bytes → SockAddr → W → Reply × W
  answer_to o bytes (unix path) w = (arg_error 3 (text "table{addr,port} expected"), w)
  answer_to o bytes x w =
      sent_to strerror calls (calls.sendto o.sockfd bytes (pos 0) x (size_of x) w)

  answered :
      (o : SockObj) (x : SockAddr) (v : LuaValue) (bytes : Bytes) (w : W)
      → lsock_pushaddr calls.net x ≡ some v
      → generated strerror calls o.family (host_in v) (port_in v) w ≡ (made x (size_of x), w)
      → send_at strerror calls o bytes none
          (elim x [ unix path ↦ no_table | _ ↦ addr_port (host_in v) (port_in v) ])
          w
        ≡ answer_to o bytes x w
  unfolding lsock_pushaddr
  answered o (inet a port) v bytes w pushed address = rw address refl
  answered o (inet6 a port f s) v bytes w pushed address = rw address refl
  answered o (unix path) v bytes w pushed address = refl
  answered o (other family) v bytes w pushed address = absurd (none≢some refl pushed)

  -- On an open socket a datagram comes from an address of its family: an IPv4 address other than
  -- 255.255.255.255, a path of fewer than 108 bytes, or an IPv6 address whose flow label and scope are what
  -- `gen_sockaddr` finds on its stack. `sockobj:recvfrom` without flags, with a size within its limit,
  -- returns the bytes and a value for the address. Where the resolver reads back the texts that it makes
  -- and the text in the value holds no zero, the value given to `sockobj:sendto` without flags makes one
  -- system call, which sends to exactly the address that the datagram came from, if that is an IPv4 or IPv6
  -- address. The path of a Unix socket is no table, and `sockobj:sendto` refuses it with an argument error.
  pub lsock_sendto-recvfrom :
      (o : SockObj) (x : SockAddr) (v : LuaValue) (n : ℤ) (c : ℕ) (cs bytes : Bytes) (w w' : W)
      → 0 < pos_part o.sockfd
      → o.family ≡ family_of x
      → TextLaws calls.net (calls.leftover w')
      → IsPlain calls.net (calls.leftover w') x
      → lsock_pushaddr calls.net x ≡ some v
      → c_string (host_in v) ≡ host_in v
      → to_size n ≤ max_bufsize
      → calls.recvfrom o.sockfd (to_size n) (pos 0) w ≡ (done (c ∷ cs, x), w')
      → (lsock_recvfrom strerror calls o n none w ≡ (values (string (c ∷ cs) ∷ v ∷ []), w'))
        × (lsock_sendto strerror calls o bytes none (given v) w' ≡ answer_to o bytes x w')
  unfolding lsock_recvfrom lsock_sendto
  lsock_sendto-recvfrom o x v n c cs bytes w w' p family laws plain pushed clean small got =
      let alive : ltb 0 (pos_part o.sockfd) ≡ true = ground arith in
      let fits = le→leb (to_size n) max_bufsize small in
      let address = gen_sockaddr-pushaddr calls.net (calls.leftover w') laws x v w' plain pushed in
      let port = port_in_lem calls.net x v pushed in
      let generates : generated strerror calls o.family (host_in v) (port_in v) w'
          ≡ (made x (size_of x), w') =
        simp (clean, port, family, address) in
      (
        (simp (alive, fits, got)
            (ap (λ (r : Reply). (r, w'))
              (push_address_lem strerror calls (string (c ∷ cs) ∷ []) x v pushed))),
        rw (alive, given-pushaddr x v pushed) (answered o x v bytes w' pushed generates),
      )
