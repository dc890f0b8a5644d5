-- ===== src/Socket/Options/Tests.antt =====
-- Runs of the options of lsocklib.c: a system that keeps the bytes it is given.
use lua_xlib.Socket.Options.Levels.{other_levels}
use lua_xlib.Base.Words.{to_int}
use lua_xlib.Lua.{
  Bytes, LuaValue, done, integer, values, boolean, report_errmsg, lret_boolean, text, lret_nil,
}
use lua_xlib.Base.Int.{pos, ℤ, eq_ℤ}
use lua_xlib.Socket.Options.{
  OptCalls, get_sockopt, lsock_setsockopt, Bytes, LuaValue, find_sockopt, number, sockopts, to_int,
  optval_int, lsock_getsockopt, Doubles,
}
use lua_xlib.Base.{ℕ, [], ◌∷◌, ◌++◌, ◌≡◌, some, true, refl, arith, ◌/◌, ◌%◌, ◌*◌}
use lua_xlib.Socket.Options.Stored.{lsock_getsockopt-setsockopt}
use lua_xlib.Socket.Object.{SockObj}

abbrev strerror : ℕ → Bytes
strerror e = e ∷ []

abbrev seconds : ℤ → ℤ → LuaValue
seconds sec usec = integer sec

-- Numbers of thousandths in place of doubles.
abbrev thousandths : Doubles ℕ
thousandths = record {
  int_of = λ x. pos (x / 1000);
  fmod_one = λ x. x % 1000;
  million = λ x. x * 1000000;
}

abbrev calls : OptCalls Bytes
calls = record {
  getsockopt = λ fd level optname w. (done w, w);
  setsockopt = λ fd level optname bs w. (done tt, bs ++ (7 ∷ 7 ∷ []));
}

abbrev sock : SockObj
sock = record { sockfd = pos 4; family = 2; type = pos 1; proto = pos 0 }

found : get_sockopt (to_int (pos 1)) (to_int (pos 8)) ≡ some optval_int
unfolding get_sockopt find_sockopt sockopts eq_ℤ
found = refl

-- `sock:setsockopt(SOL_SOCKET, SO_RCVBUF, 70000.5)`
lsock_getsockopt-setsockopt_example :
    (lsock_setsockopt strerror seconds calls thousandths sock (pos 1) (pos 8) (number 70000500) []
      ≡ (values (boolean true ∷ []), 112 ∷ 17 ∷ 1 ∷ 0 ∷ 7 ∷ 7 ∷ []))
    × (lsock_getsockopt strerror seconds calls sock (pos 1) (pos 8) (112 ∷ 17 ∷ 1 ∷ 0 ∷ 7 ∷ 7 ∷ [])
        ≡ (values (integer (pos 70000) ∷ []), 112 ∷ 17 ∷ 1 ∷ 0 ∷ 7 ∷ 7 ∷ []))
lsock_getsockopt-setsockopt_example =
    lsock_getsockopt-setsockopt strerror seconds calls thousandths sock (pos 1) (pos 8) optval_int
      (number 70000500) (pos 70000) (pos 500000) (7 ∷ 7 ∷ []) [] (112 ∷ 17 ∷ 1 ∷ 0 ∷ 7 ∷ 7 ∷ [])
      (112 ∷ 17 ∷ 1 ∷ 0 ∷ 7 ∷ 7 ∷ []) (omega arith) found refl (omega arith) refl refl

-- `sock:setsockopt(SOL_IP, IP_TTL, 64)`
ip_ttl :
    lsock_setsockopt strerror seconds calls thousandths sock (pos 0) (pos 2) (number 64000) [] ≡ (
      values (
          report_errmsg strerror lret_boolean 0
            (some (text "setsockopt() : unsupport level or optname"))),
      [],
    )
unfolding lsock_setsockopt get_sockopt find_sockopt sockopts eq_ℤ
ip_ttl = refl

other_levels_example :
    (lsock_getsockopt strerror seconds calls sock (pos 41) (pos 16) [] ≡ (
      values (
          report_errmsg strerror lret_nil 0
            (some (text "getsockopt() : unsupport level or optname"))),
      [],
    ))
    × (lsock_setsockopt strerror seconds calls thousandths sock (pos 41) (pos 16) (number 9000) []
        ≡ (
          values (
              report_errmsg strerror lret_boolean 0
                (some (text "setsockopt() : unsupport level or optname"))),
          [],
        ))
other_levels_example =
    other_levels strerror seconds calls thousandths sock (pos 41) (pos 16) (number 9000) []
      (omega arith) (λ h. cc)
