-- ===== src/Socket/Address/Order.antt =====
-- lsocklib.c, `socket.htons` and the like: the two directions undo each other.
use lua_xlib.Socket.Address.{swap16}
use lua_xlib.Base.{ℕ, ◌<◌, ◌^◌, arith, ◌≡◌}

pub swap16-swap16 : (x : ℕ) → x < 2 ^ 16 → swap16 (swap16 x) ≡ x
unfolding swap16
swap16-swap16 x h = omega (arith, h)

pub swap16-lt : (x : ℕ) → swap16 x < 2 ^ 16
unfolding swap16
swap16-lt x = omega arith
