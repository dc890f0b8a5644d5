-- ===== src/Socket/Object.antt =====
-- lsocklib.c, `sockobj`: the object behind a Lua socket, and the check that every method begins with.
use lua_xlib.Constants.{eagain, eintr}
use lua_xlib.Socket.Deadline.{TimeVal}
use lua_xlib.Base.Int.{ℤ, pos_part}
use lua_xlib.Lua.{Bytes}
use lua_xlib.Base.{ℕ, Bool, if◌then◌else◌, ltb, ◌==◌, ◌||◌}

pub record SockObj : Type 0 where
  pub sockfd : ℤ
  pub family : ℕ
  pub type : ℤ
  pub proto : ℤ

-- What `recv` answers: some bytes, the end of the stream, or a failure that `errno` tells of.
pub data Received : Type 0 where
  got : Bytes → Received
  closed failed : Received

-- The calls of the system that the methods make. `errno` is a part of the system: a call that does not
-- fail leaves it as it was.
pub record SockCalls (W : Type 0) : Type 0 where
  pub recv : ℕ → (peek : Bool) → W → Received × W
  pub poll : ℤ → W → ℤ × W
  pub gettimeofday : W → TimeVal × W
  pub errno : W → ℕ

-- `lsock_checkobj(L, 1, 1)`: a method of a closed socket raises an error.
abbrev pub open_or {ℓ} : {A : Type ℓ} → SockObj → A → A → A
open_or o raise go = if ltb 0 (pos_part o.sockfd) then go else raise

-- `errno==EAGAIN || errno==EWOULDBLOCK || errno==EINTR`
abbrev pub is_retryable : ℕ → Bool
is_retryable e = e == eagain || e == eintr
