-- ===== src/Socket/Datagrams/Tests.antt =====
-- Runs of the datagram methods of lsocklib.c: a system that gives a datagram from 127.0.0.1 and keeps what is sent.
use lua_xlib.Base.{
  List, ℕ, Option, [], none, refl, ◌∷◌, if◌then◌else◌, some, ◌≡◌, ◌==◌, length, arith,
}
use lua_xlib.Lua.{Bytes, failed, done, values, string, integer}
use lua_xlib.Base.Int.{pos}
use lua_xlib.Socket.Datagrams.Answers.{lsock_sendto-recvfrom}
use lua_xlib.Socket.Datagrams.{lsock_recvfrom, lsock_sendto, Bytes, pos, ℕ, addr_port}
use lua_xlib.Socket.Names.{NameCalls}
use lua_xlib.Socket.Address.Texts.{TextLaws}
use lua_xlib.Socket.Address.{
  Resolver, SockAddr, inet, unix, inaddr_none, address_table, lsock_pushaddr, swap16,
}
use lua_xlib.Socket.Object.{SockObj, failed}

abbrev strerror : ℕ → Bytes
strerror e = e ∷ []

abbrev numeral : Bytes → ℕ
numeral (c ∷ a ∷ []) = if c == 49 then a else inaddr_none
numeral _ = inaddr_none

abbrev behind : Bytes → Option Bytes
behind [] = none
behind (c ∷ cs) = some cs

abbrev net : Resolver (List SockAddr)
net = record {
  inet_addr = λ t. numeral t;
  inet_ntoa = λ a. 49 ∷ a ∷ [];
  inet_pton6 = λ t. behind t;
  inet_ntop6 = λ a. 58 ∷ a;
  gethostbyname = λ t w. (none, w);
  getaddrinfo6 = λ t w. (none, w);
}

abbrev sender : SockAddr
sender = inet 16777343 36895

abbrev calls : NameCalls (List SockAddr)
calls = record {
  net = net;
  leftover = λ w. record { flowinfo = 0; scope_id = 0 };
  unset = λ w. unix [];
  socket = λ a b c w. (failed 1, w);
  socketpair = λ a b c w. (failed 1, w);
  bind = λ a b c w. (failed 1, w);
  connect = λ a b c w. (failed 1, w);
  accept = λ a w. (failed 1, w);
  getpeername = λ a w. (failed 1, w);
  getsockname = λ a w. (failed 1, w);
  recvfrom = λ fd n flags w. (done (104 ∷ [], sender), w);
  sendto = λ fd bytes flags x n w. (done (length bytes), x ∷ w);
  poll = λ a b c w. (failed 1, w);
}

laws : TextLaws net (record { flowinfo = 0; scope_id = 0 })
laws = record {
  inet_read = λ a h. refl;
  inet_text = λ a. refl;
  inet6_read = λ a h. refl;
  inet6_text = λ a h. cc;
}

abbrev sock : SockObj
sock = record { sockfd = pos 4; family = 2; type = pos 2; proto = pos 0 }

lsock_sendto-recvfrom_example :
    (lsock_recvfrom strerror calls sock (pos 512) none []
      ≡ (values (string (104 ∷ []) ∷ address_table net (49 ∷ 16777343 ∷ []) 8080 ∷ []), []))
    × (lsock_sendto strerror calls sock
          (104 ∷ 105 ∷ [])
          none
          (addr_port (49 ∷ 16777343 ∷ []) (pos 8080))
          []
        ≡ (values (integer (pos 2) ∷ []), sender ∷ []))
unfolding lsock_pushaddr swap16
lsock_sendto-recvfrom_example =
    lsock_sendto-recvfrom strerror calls sock sender (address_table net (49 ∷ 16777343 ∷ []) 8080)
      (pos 512) 104 [] (104 ∷ 105 ∷ []) [] [] (omega arith) refl laws (omega arith, omega arith)
      refl refl (omega arith) refl
