-- ===== src/Socket/Messages/Tests.antt =====
-- Runs of `sockobj:recvmsg` of lsocklib.c: a system that receives `hi`, in memory full of the number 9.
use lua_xlib.Base.{
  Option, ℕ, [], length, none, some, ◌∷◌, ◌+◌, ◌≡◌, refl, replicate, suc, take, ap, arith, zero,
}
use lua_xlib.Base.Int.{pos}
use lua_xlib.Socket.Messages.Padding.{lsock_recvmsg_lem}
use lua_xlib.Socket.Messages.{MessageCalls, Message, lsock_recvmsg, Control, Option, pos, ℕ}
use lua_xlib.Socket.Names.{NameCalls}
use lua_xlib.Socket.Address.{Resolver, unix, lsock_pushaddr}
use lua_xlib.Socket.Object.{SockObj}
use lua_xlib.Lua.{Bytes, done, failed, values, string, nil, integer, overrun}

abbrev strerror : ℕ → Bytes
strerror e = e ∷ []

abbrev net : Resolver ℕ
net = record {
  inet_addr = λ t. 7;
  inet_ntoa = λ a. a ∷ [];
  inet_pton6 = λ t. none;
  inet_ntop6 = λ a. a;
  gethostbyname = λ t w. (none, w);
  getaddrinfo6 = λ t w. (none, w);
}

abbrev names : NameCalls ℕ
names = record {
  net = net;
  leftover = λ w. record { flowinfo = 0; scope_id = 0 };
  unset = λ w. unix [];
  socket = λ a b c w. (failed 1, w);
  socketpair = λ a b c w. (failed 1, w);
  bind = λ a b c w. (failed 1, w);
  connect = λ a b c w. (failed 1, w);
  accept = λ a w. (failed 1, w);
  getpeername = λ a w. (failed 1, w);
  getsockname = λ a w. (failed 1, w);
  recvfrom = λ a b c w. (failed 1, w);
  sendto = λ a b c d e w. (failed 1, w);
  poll = λ a b c w. (failed 1, w);
}

abbrev message : Option Control → Message
message c = record {
  bytes = 104 ∷ 105 ∷ [];
  control = c;
  msg_flags = pos 0;
  msg_name = unix (47 ∷ []);
}

abbrev calls : MessageCalls ℕ
calls = record {
  sendmsg = λ a b c d e w. (failed 1, w);
  recvmsg = λ fd len room flags w. (done (message none), w + 1);
  malloc = λ k w. replicate k 9;
}

abbrev sock : SockObj
sock = record { sockfd = pos 4; family = 1; type = pos 2; proto = pos 0 }

abbrev padded : Bytes
padded = 104 ∷ 105 ∷ 9 ∷ 9 ∷ []

sized : (k w : ℕ) → length (calls.malloc k w) ≡ k
sized zero w = refl
sized (suc k) w = ap suc (sized k w)

lsock_recvmsg_lem_example :
    (lsock_recvmsg strerror names calls sock (pos 4) none none 0
      ≡ (values (string padded ∷ nil ∷ integer (pos 0) ∷ string (47 ∷ []) ∷ []), 1))
    × (length padded ≡ 4)
    × (take 2 padded ≡ 104 ∷ 105 ∷ [])
unfolding lsock_pushaddr
lsock_recvmsg_lem_example =
    lsock_recvmsg_lem strerror names calls sock 4 (message none) (string (47 ∷ [])) 0 1
      (omega arith) (omega arith) (omega arith) (omega arith) (λ (k : ℕ). sized k 0) refl refl

-- Room for control data, and none received.
no_control : lsock_recvmsg strerror names calls sock (pos 4) (some (pos 16)) none 0 ≡ (overrun, 1)
unfolding lsock_recvmsg
no_control = refl
