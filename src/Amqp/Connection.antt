-- ===== src/Amqp/Connection.antt =====
-- lamqplib.c, `connection_t`: connections to a broker, which channels of a connection are open, and
-- what a failure does to them. librabbitmq is reached through the calls of `AmqpCalls`; memory pools
-- are left out. The build is the one of the Makefile, with SSL.
pub mod Setup
use lua_xlib.Amqp.Lua.{
  LuaVal, Reply, Conversions, nil, boolean, integer, string, values, arg_error, raised, overrun,
}
use lua_xlib.Amqp.Field.{AmqpTable}
use lua_xlib.Amqp.Frame.{Frame, Message, Request, Post, Answer}
use lua_xlib.Socket.Deadline.{TimeVal}
use lua_xlib.Lua.{Bytes, text}
use lua_xlib.Base.Int.{ℤ, pos, negsuc, pos_part}
use lua_xlib.Base.{
  ℕ, Bool, Option, none, some, List, ◌∷◌, [], ◌++◌, map, set, if◌then◌else◌, ltb, true, false, not,
  ◌||◌, ◌&&◌, ◌⊎◌, suc, zero,
}

-- `AMQP_STATUS_...`: the codes that the file asks for by name, and the others.
pub data LibraryError : Type 0 where
  connection_closed socket_error ssl_error timed_out : LibraryError
  other_error : ℕ → LibraryError

-- A method of the server that ends a request with an exception.
pub data ServerMethod : Type 0 where
  connection_close channel_close : ℤ → Bytes → ServerMethod
  other_method : ℕ → ServerMethod

-- `amqp_rpc_reply_t`; a normal one has the answer to the request.
pub data RpcReply : Type 0 where
  normal : Answer → RpcReply
  response_none : RpcReply
  library_exception : LibraryError → RpcReply
  server_exception : ServerMethod → RpcReply

-- The methods that the file sends by `amqp_send_method`.
pub data CloseOk : Type 0 where
  connection_close_ok channel_close_ok : CloseOk

-- The struct `ssl` of the login, where it is in use; NULL is `none`.
pub record SslInfo : Type 0 where
  pub cacert : Option Bytes
  pub cert : Option Bytes
  pub key : Option Bytes
  pub verify_peer : ℤ
  pub verify_hostname : ℤ

pub record LoginInfo : Type 0 where
  pub host : Bytes
  pub user : Bytes
  pub password : Bytes
  pub vhost : Bytes
  pub port : ℤ
  pub sasl_method : ℤ
  pub channel_max : ℤ
  pub frame_max : ℤ
  pub heartbeat : ℤ
  pub timeout : Option TimeVal  -- `none` for a timeout below 0
  pub ssl : Option SslInfo
  pub client_properties : AmqpTable

-- `state` is NULL or what librabbitmq gave; bit 8 n + i of `channels` is bit i of byte n.
pub record Connection : Type 0 where
  pub status : ℤ
  pub timestamp : ℕ
  pub state : Option ℕ
  pub login_info : LoginInfo
  pub channels : List Bool

pub record Channel : Type 0 where
  pub channel_id : ℤ
  pub timestamp : ℕ

-- librabbitmq, and `time`. `request` is a call of a method with its `amqp_get_rpc_reply`, `post` one
-- that answers a status; `none` is the status 0.
pub record AmqpCalls (W : Type 0) : Type 0 where
  pub new_connection : W → ℕ × W
  pub tcp_socket_new : ℕ → W → W
  pub ssl_socket_new : ℕ → W → W
  pub ssl_set_cacert : ℕ → Bytes → W → W
  pub ssl_set_key : ℕ → Bytes → Option Bytes → W → W
  pub ssl_set_verify_peer : ℕ → ℤ → W → W
  pub ssl_set_verify_hostname : ℕ → ℤ → W → W
  pub socket_open : ℕ → Bytes → ℤ → Option TimeVal → W → Option LibraryError × W
  pub login : ℕ → LoginInfo → W → RpcReply × W
  pub end_connection : ℕ → W → W
  pub release_buffers : ℕ → W → W
  pub destroy : ℕ → W → W
  pub get_channel_max : ℕ → W → ℕ
  pub get_frame_max : ℕ → W → ℕ
  pub get_heartbeat : ℕ → W → ℕ
  pub get_server_properties : ℕ → W → AmqpTable
  pub get_client_properties : ℕ → W → AmqpTable
  pub open_channel : ℕ → ℤ → W → Bool × W
  pub rpc_reply : ℕ → W → RpcReply
  pub end_channel : ℕ → ℤ → W → W
  pub send_method : ℕ → ℤ → CloseOk → W → W
  pub request : ℕ → ℤ → Request → W → RpcReply × W
  pub post : ℕ → ℤ → Post → W → Option LibraryError × W
  pub queue_frame : ℕ → ℤ → Answer → W → W
  pub wait_frame : ℕ → Option TimeVal → W → (LibraryError ⊎ Frame) × W
  pub read_message : ℕ → ℤ → W → RpcReply × Message × W
  pub time : W → ℕ
  pub error_number : LibraryError → ℤ
  pub error_text : LibraryError → Bytes

pub record Session (W : Type 0) : Type 0 where
  pub conn : Connection
  pub open conn use *
  pub system : W

-- `memset(channels, 0, sizeof(channels)); channels[0] |= 0x01;`
unfoldable pub reset_channels : List Bool → List Bool
reset_channels channels = set (map (λ b. false) channels) 0 true

-- The values of `res` in `check_status`.
abbrev pub is_fatal : LibraryError → Bool
is_fatal connection_closed = true
is_fatal socket_error = true
is_fatal ssl_error = true
is_fatal _ = false

-- `conn->state && conn->status > 0`
abbrev pub is_good : Connection → Bool
is_good c = elim c.state [ none ↦ false | some h ↦ ltb 0 (pos_part c.status) ]

-- `connection:closed()` and `connection:good()`
unfoldable pub cn_closed : Connection → Reply
cn_closed c = values (boolean (elim c.state [ none ↦ true | some h ↦ false ]) ∷ [])

unfoldable pub cn_good : Connection → Reply
cn_good c = values (boolean (is_good c) ∷ [])

-- The first value of a failure.
abbrev pub failure : ℤ → LuaVal
failure (negsuc zero) = nil
failure (pos zero) = boolean false
failure _ = integer (negsuc 0)

abbrev pub disconnected : Reply
disconnected = values (nil ∷ string (text "connection disconnect or abnormal status") ∷ [])

module _ {W : Type 0} (conv : Conversions) (calls : AmqpCalls W) where
  -- The message of a failure. `lua_pushfstring` knows no `%08X`, and raises an error.
  unfoldable pub report_amqp_error : ℤ → RpcReply → Reply
  report_amqp_error f (normal a) = values []
  report_amqp_error f response_none =
      values (failure f ∷ string (text "missing RPC reply type") ∷ [])
  report_amqp_error f (library_exception e) = values (
      failure f
      ∷ string (
          text "library error:"
          ++ (conv.show_int (calls.error_number e) ++ (text ", message:" ++ calls.error_text e)))
      ∷ [])
  report_amqp_error f (server_exception (connection_close code msg)) = values (
      failure f
      ∷ string
          (text "server connection error: " ++ (conv.show_int code ++ (text ", message: " ++ msg)))
      ∷ [])
  report_amqp_error f (server_exception (channel_close code msg)) = values (
      failure f
      ∷ string
          (text "server channel error: " ++ (conv.show_int code ++ (text ", message: " ++ msg)))
      ∷ [])
  report_amqp_error f (server_exception (other_method id)) =
      raised (text "invalid option '%0' to 'lua_pushfstring'")

  unfoldable pub report_os_error : ℤ → LibraryError → Reply
  report_os_error f e = report_amqp_error f (library_exception e)

  abbrev pub with_conn : Session W → Connection → Session W
  with_conn s c = record s { conn = c }

  -- The connection is of no more use, and with it none of its channels.
  unfoldable pub broken : Connection → Connection
  broken c = record c { channels = reset_channels c.channels; status = negsuc 0 }

  -- `check_status(conn, ch, res)`
  unfoldable pub check_status : Channel → LibraryError → Connection → Channel × Connection
  check_status ch e c =
      if is_fatal e then (record ch { channel_id = negsuc 0 }, broken c) else (ch, c)

  -- `amqp_send_method(conn->state, ...)`; a connection that is checked has a state.
  abbrev pub send : Channel → CloseOk → Session W → W
  send ch m s = elim s.state [
    | none ↦ s.system
    | some h ↦ calls.send_method h ch.channel_id m s.system
  ]

  abbrev pub check_reply : Channel → RpcReply → Session W → Channel × Session W
  check_reply ch (library_exception e) s =
      let (ch', c) = check_status ch e s.conn in (ch', with_conn s c)
  check_reply ch (server_exception (connection_close code msg)) s = (
    record ch { channel_id = negsuc 0 },
    record { conn = broken s.conn; system = send ch connection_close_ok s },
  )
  check_reply ch (server_exception (channel_close code msg)) s = (
    record ch { channel_id = negsuc 0 },
    record {
      conn = record s.conn { channels = set s.channels (pos_part ch.channel_id) false };
      system = send ch channel_close_ok s;
    },
  )
  check_reply ch _ s = (ch, s)

  unfoldable pub check_rpc_reply : Channel → RpcReply → Session W → Channel × Session W
  check_rpc_reply ch r s = if ltb 0 (pos_part s.status) then check_reply ch r s else (ch, s)
