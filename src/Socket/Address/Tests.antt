-- ===== src/Socket/Address/Tests.antt =====
-- Runs of the addresses of lsocklib.c, with a resolver whose texts hold the address behind one character.
use lua_xlib.Base.Int.{pos}
use lua_xlib.Base.{Option, ℕ, ◌∷◌, [], if◌then◌else◌, none, refl, replicate, some, ◌==◌, ◌≡◌, arith}
use lua_xlib.Lua.{Bytes}
use lua_xlib.Socket.Address.{
  Leftover, Resolver, gen_sockaddr, Option, af_inet, af_unix, ℕ, ◌∷◌, pos, inaddr_none, made,
  refused, too_long, unknown, inet, address_table, lsock_pushaddr, swap16,
}
use lua_xlib.Socket.Address.Texts.{TextLaws, gen_sockaddr-pushaddr}

abbrev numeral : Bytes → ℕ
numeral (c ∷ a ∷ []) = if c == 49 then a else inaddr_none
numeral _ = inaddr_none

abbrev behind : Bytes → Option Bytes
behind [] = none
behind (c ∷ cs) = some cs

abbrev net : Resolver ℕ
net = record {
  inet_addr = λ t. numeral t;
  inet_ntoa = λ a. 49 ∷ a ∷ [];
  inet_pton6 = λ t. behind t;
  inet_ntop6 = λ a. 58 ∷ a;
  gethostbyname = λ t w. (none, w);
  getaddrinfo6 = λ t w. (none, w);
}

abbrev left : Leftover
left = record { flowinfo = 5; scope_id = 6 }

net-TextLaws : TextLaws net left
net-TextLaws = record {
  inet_read = λ a h. refl;
  inet_text = λ a. refl;
  inet6_read = λ a h. refl;
  inet6_text = λ a h. cc;
}

gen_sockaddr-pushaddr_example :
    gen_sockaddr net left af_inet (49 ∷ 16777343 ∷ []) (pos 8080) 3
    ≡ (made (inet 16777343 36895) 16, 3)
unfolding lsock_pushaddr swap16
gen_sockaddr-pushaddr_example =
    gen_sockaddr-pushaddr net left net-TextLaws (inet 16777343 36895)
      (address_table net (49 ∷ 16777343 ∷ []) 8080) 3 (omega arith, omega arith) refl

-- A name that the resolver does not know, a family that the code does not know, a path that is too long.
unknown_host : gen_sockaddr net left af_inet (104 ∷ []) (pos 80) 3 ≡ (refused, 3)
unfolding gen_sockaddr
unknown_host = refl

any_host : gen_sockaddr net left af_inet (42 ∷ []) (pos 80) 3 ≡ (made (inet 0 20480) 16, 3)
unfolding gen_sockaddr swap16
any_host = refl

unknown_family : gen_sockaddr net left 3 (104 ∷ []) (pos 80) 3 ≡ (unknown, 3)
unfolding gen_sockaddr
unknown_family = refl

long_path : gen_sockaddr net left af_unix (replicate 108 97) (pos 0) 3 ≡ (too_long, 3)
unfolding gen_sockaddr
long_path = refl
