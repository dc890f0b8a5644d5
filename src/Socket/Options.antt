-- ===== src/Socket/Options.antt =====
-- lsocklib.c, `sockopts`: the options of a socket that can be asked for and set. The build is on Linux,
-- with no `netinet/tcp.h`, so that the options of TCP are not in the table. The doubles and C's operations
-- on them are parameters.
pub mod Words
pub mod Stored
pub mod Levels
mod Tests
use lua_xlib.Socket.Options.Words.{le_bytes, read_le}
use lua_xlib.Socket.Object.{SockObj, open_or}
use lua_xlib.Base.Words.{to_uint32, to_int, to_size, signed32, signed64}
use lua_xlib.Base.Int.{ℤ, pos, eq_ℤ}
use lua_xlib.Lua.{
  Bytes, LuaValue, SysRet, Flag, Reply, integer, arg_error, failed, values, boolean, lret_boolean,
  lret_nil, report_errmsg, text, done,
}
use lua_xlib.Base.{
  ℕ, Bool, Option, List, ◌∷◌, [], none, some, if◌then◌else◌, ◌%◌, ◌==◌, not, ◌&&◌, ◌++◌, true, drop,
}

-- `OPTVAL_BYTE` and so on
pub data ValType : Type 0 where
  optval_byte optval_bool optval_int optval_timeval optval_linger : ValType

-- `struct sockopt_t`
pub record SockOpt : Type 0 where
  pub level : ℕ
  pub optname : ℕ
  pub valtype : ValType

abbrev sockopt : ℕ → ℕ → ValType → SockOpt
sockopt level optname valtype = record { level = level; optname = optname; valtype = valtype }

-- `SOL_SOCKET`, `SOL_IP` and `SOL_IPV6`
abbrev pub sol_socket : ℕ
sol_socket = 1

abbrev pub sol_ip : ℕ
sol_ip = 0

abbrev pub sol_ipv6 : ℕ
sol_ipv6 = 41

-- `sockopts`, with the entry that is to end it
unfoldable pub sockopts : List SockOpt
sockopts =
    sockopt sol_socket 1 optval_bool
    ∷ sockopt sol_socket 30 optval_bool
    ∷ sockopt sol_socket 2 optval_bool
    ∷ sockopt sol_socket 9 optval_bool
    ∷ sockopt sol_socket 5 optval_bool
    ∷ sockopt sol_socket 6 optval_bool
    ∷ sockopt sol_socket 13 optval_linger
    ∷ sockopt sol_socket 10 optval_bool
    ∷ sockopt sol_socket 7 optval_int
    ∷ sockopt sol_socket 8 optval_int
    ∷ sockopt sol_socket 19 optval_int
    ∷ sockopt sol_socket 18 optval_int
    ∷ sockopt sol_socket 21 optval_timeval
    ∷ sockopt sol_socket 20 optval_timeval
    ∷ sockopt sol_socket 4 optval_int
    ∷ sockopt sol_socket 3 optval_int
    ∷ sockopt sol_ip 3 optval_bool
    ∷ sockopt sol_ip 1 optval_byte
    ∷ sockopt sol_ip 2 optval_int
    ∷ sockopt sol_ipv6 52 optval_int
    ∷ sockopt sol_ipv6 16 optval_int
    ∷ sockopt 0 0 optval_bool
    ∷ []

-- The loop of `get_sockopt`, which ends at an entry of the level 0.
unfoldable pub find_sockopt : ℤ → ℤ → List SockOpt → Option ValType
find_sockopt level optname [] = none
find_sockopt level optname (s ∷ rest) =
    if s.level == 0
    then none
    else if eq_ℤ level (pos s.level) && eq_ℤ optname (pos s.optname)
    then some s.valtype
    else find_sockopt level optname rest

unfoldable pub get_sockopt : ℤ → ℤ → Option ValType
get_sockopt level optname = find_sockopt level optname sockopts

-- Argument 4 of `sockobj:setsockopt`: a boolean, or a number.
pub data OptArg (D : Type 0) : Type 0 where
  flag : Bool → OptArg D
  number : D → OptArg D

-- C's operations on doubles: `(int)x`, `fmod(x, 1.0f)` and `x*1000000`.
pub record Doubles (D : Type 0) : Type 0 where
  pub int_of : D → ℤ
  pub fmod_one : D → D
  pub million : D → D

-- The first bytes of the union `optval_t`, as many as `optlen` says, by the type of the option. A linger
-- is stored, but its length is not set.
abbrev pub optval_of : ValType → (int_part usec : ℤ) → Bytes
optval_of optval_byte z usec = to_uint32 z % 256 ∷ []
optval_of optval_bool z usec = le_bytes 4 (to_uint32 z)
optval_of optval_int z usec = le_bytes 4 (to_uint32 z)
optval_of optval_timeval z usec = le_bytes 8 (to_size z) ++ le_bytes 8 (to_size usec)
optval_of optval_linger z usec = []

-- `(int)value` and `(int)(fmod(value, 1.0f)*1000000)`, where the argument has the type that the option
-- asks for.
abbrev pub value_of : {D : Type 0} → Doubles D → ValType → OptArg D → Option (ℤ × ℤ)
value_of conv optval_bool (flag b) = some (pos (if b then 1 else 0), pos 0)
value_of conv optval_bool (number x) = none
value_of conv t (flag b) = none
value_of conv t (number x) = some (conv.int_of x, conv.int_of (conv.million (conv.fmod_one x)))

-- The system calls. `getsockopt` gives what stands in the union afterwards.
pub record OptCalls (W : Type 0) : Type 0 where
  pub getsockopt : ℤ → ℤ → ℤ → W → SysRet Bytes × W
  pub setsockopt : ℤ → ℤ → ℤ → Bytes → W → SysRet (Unit {0}) × W

module _ {W : Type 0} (strerror : ℕ → Bytes) (seconds : ℤ → ℤ → LuaValue) (calls : OptCalls W) where
  abbrev failure : Flag → ℕ → Bytes → Reply
  failure r e msg = values (report_errmsg strerror r e (some msg))

  abbrev raise_closed : W → Reply × W
  raise_closed w = (arg_error 1 (text "socket closed"), w)

  -- What is pushed for an option. `seconds` makes a double of a `struct timeval`.
  abbrev pub shown : ValType → Bytes → List LuaValue
  shown optval_byte bs = integer (pos (read_le 1 bs)) ∷ []
  shown optval_bool bs = boolean (not (read_le 4 bs == 0)) ∷ []
  shown optval_int bs = integer (signed32 (read_le 4 bs)) ∷ []
  shown optval_timeval bs =
      seconds (signed64 (read_le 8 bs)) (signed64 (read_le 8 (drop 8 bs))) ∷ []
  shown optval_linger bs =
      integer (signed32 (read_le 4 (drop 4 bs))) ∷ integer (signed32 (read_le 4 bs)) ∷ []

  abbrev pub got_option : ValType → SysRet Bytes × W → Reply × W
  got_option t (failed e, w) = (failure lret_nil e (text "getsockopt()"), w)
  got_option t (done bs, w) = (values (shown t bs), w)

  -- `sockobj:getsockopt(level, optname)`
  unfoldable pub lsock_getsockopt : SockObj → ℤ → ℤ → W → Reply × W
  lsock_getsockopt o level optname w =
      open_or o (raise_closed w) (elim (get_sockopt (to_int level) (to_int optname)) [
        | none ↦ (failure lret_nil 0 (text "getsockopt() : unsupport level or optname"), w)
        | some t ↦ got_option t (calls.getsockopt o.sockfd (to_int level) (to_int optname) w)
      ])

  abbrev pub option_set : SysRet (Unit {0}) × W → Reply × W
  option_set (failed e, w) = (failure lret_boolean e (text "getsockopt()"), w)
  option_set (done u, w) = (values (boolean true ∷ []), w)

  abbrev wrong_type : ValType → Reply
  wrong_type optval_bool = arg_error 4 (text "boolean expected")
  wrong_type t = arg_error 4 (text "number expected")

  -- The rest of `lsock_setsockopt`, for an option of the table.
  abbrev pub set_option : SockObj → ℤ → ℤ → ValType → Option (ℤ × ℤ) → W → Reply × W
  set_option o level optname t none w = (wrong_type t, w)
  set_option o level optname t (some (z, usec)) w =
      option_set (calls.setsockopt o.sockfd level optname (optval_of t z usec) w)

  -- `sockobj:setsockopt(level, optname, value)`
  unfoldable pub lsock_setsockopt :
      {D : Type 0} → Doubles D → SockObj → ℤ → ℤ → OptArg D → W → Reply × W
  lsock_setsockopt conv o level optname arg w =
      open_or o (raise_closed w) (elim (get_sockopt (to_int level) (to_int optname)) [
        | none ↦ (failure lret_boolean 0 (text "setsockopt() : unsupport level or optname"), w)
        | some t ↦ set_option o (to_int level) (to_int optname) t (value_of conv t arg) w
      ])
