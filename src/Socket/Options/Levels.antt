-- ===== src/Socket/Options/Levels.antt =====
-- lsocklib.c, `get_sockopt`: the loop ends at the first entry of the level 0, which on Linux is SOL_IP.
use lua_xlib.Base.Words.{to_int}
use lua_xlib.Socket.Object.{SockObj}
use lua_xlib.Base.Int.{ℤ, pos, eq_ℤ, pos_part, negsuc}
use lua_xlib.Lua.{Bytes, LuaValue, values, report_errmsg, lret_nil, text, lret_boolean}
use lua_xlib.Socket.Options.{
  get_sockopt, Bytes, find_sockopt, sockopts, ℤ, OptCalls, lsock_getsockopt, sol_socket,
  lsock_setsockopt, SockObj, OptArg, to_int, Doubles,
}
use lua_xlib.Base.{ℕ, ◌≢◌, ◌≡◌, none, false, ◌<◌, some, ltb, true, arith, ap, refl}

not_socket : (level : ℤ) → level ≢ pos sol_socket → eq_ℤ level (pos sol_socket) ≡ false
unfolding eq_ℤ
not_socket (pos n) h = ground (arith, λ (e : n ≡ 1). h (ap pos e))
not_socket (negsuc n) h = refl

pub get_sockopt_level :
    (level optname : ℤ) → level ≢ pos sol_socket → get_sockopt level optname ≡ none
unfolding get_sockopt find_sockopt sockopts
get_sockopt_level level optname h = let other = not_socket level h in simp other

module _ {W : Type 0} (strerror : ℕ → Bytes) (seconds : ℤ → ℤ → LuaValue) (calls : OptCalls W) where
  -- For every level but SOL_SOCKET, those of IP and IPv6 among them, `sockobj:getsockopt` and
  -- `sockobj:setsockopt` of an open socket report an unsupported option, whatever its name is, and make
  -- no system call.
  pub other_levels :
      {D : Type 0} (conv : Doubles D) (o : SockObj) (level optname : ℤ) (arg : OptArg D) (w : W)
      → 0 < pos_part o.sockfd
      → to_int level ≢ pos sol_socket
      → (lsock_getsockopt strerror seconds calls o level optname w ≡ (
        values (
            report_errmsg strerror lret_nil 0
              (some (text "getsockopt() : unsupport level or optname"))),
        w,
      ))
        × (lsock_setsockopt strerror seconds calls conv o level optname arg w ≡ (
          values (
              report_errmsg strerror lret_boolean 0
                (some (text "setsockopt() : unsupport level or optname"))),
          w,
        ))
  unfolding lsock_getsockopt lsock_setsockopt
  other_levels conv o level optname arg w p h =
      let alive : ltb 0 (pos_part o.sockfd) ≡ true = ground arith in
      let unknown = get_sockopt_level (to_int level) (to_int optname) h in
      ((simp (alive, unknown)), (simp (alive, unknown)))
