-- ===== src/Amqp/Connection/Setup.antt =====
-- lamqplib.c, `connection:...`: how a connection is made and ended, and what it says of itself.
use lua_xlib.Amqp.Field.{decode_table}
use lua_xlib.Base.Int.{pos, pos_part}
use lua_xlib.Lua.{text}
use lua_xlib.Amqp.Connection.{
  AmqpCalls, RpcReply, Session, SslInfo, LibraryError, Reply, none, normal, some, arg_error,
  library_exception, reset_channels, values, [], boolean, ltb, pos, text, integer, pos_part, true,
  report_amqp_error,
}
use lua_xlib.Amqp.Lua.{Conversions, Reply, arg_error, values, boolean, integer}
use lua_xlib.Base.{ℕ, Option, none, if◌then◌else◌, [], ltb, true, ◌∷◌}

module _ {W : Type 0} (conv : Conversions) (calls : AmqpCalls W) where
  -- `error_login:`
  abbrev pub error_login : ℕ → RpcReply → Session W → RpcReply × Session W
  error_login h r s =
      (r, record { conn = record s.conn { state = none }; system = calls.destroy h s.system })

  -- The socket of a new connection.
  abbrev pub new_socket : ℕ → Option SslInfo → W → W
  new_socket h none w = calls.tcp_socket_new h w
  new_socket h (some ssl) w =
      let w1 = calls.ssl_socket_new h w in
      let w2 : W = elim ssl.cacert [ none ↦ w1 | some cacert ↦ calls.ssl_set_cacert h cacert w1 ] in
      let w3 : W = elim ssl.cert [ none ↦ w2 | some cert ↦ calls.ssl_set_key h cert ssl.key w2 ] in
      calls.ssl_set_verify_hostname h ssl.verify_hostname
        (calls.ssl_set_verify_peer h ssl.verify_peer w3)

  -- The rest of `establish_connection`, once the login is answered.
  abbrev pub logged_in : ℕ → Session W → RpcReply → W → RpcReply × Session W
  logged_in h s (normal a) w = (
    normal a,
    record {
      conn = record s.conn {
        state = some h;
        channels = reset_channels s.channels;
        status = pos 1;
        timestamp = calls.time w;
      };
      system = w;
    },
  )
  logged_in h s other w = error_login h other (record s { system = w })

  -- The rest of it, once the socket is opened or not.
  abbrev pub socket_opened : ℕ → Session W → Option LibraryError → W → RpcReply × Session W
  socket_opened h s (some e) w = error_login h (library_exception e) (record s { system = w })
  socket_opened h s none w = let (r, w1) = calls.login h s.login_info w in logged_in h s r w1

  unfoldable pub establish_connection : Session W → RpcReply × Session W
  establish_connection s =
      let (h, w1) = calls.new_connection s.system in
      let (status, w2) =
        calls.socket_open h s.login_info.host s.login_info.port s.login_info.timeout
          (new_socket h s.login_info.ssl w1) in
      socket_opened h s status w2

  unfoldable pub close_connection : Session W → Session W
  close_connection s = elim s.state [
    | none ↦ s
    | some h ↦
        let w1 = if ltb 0 (pos_part s.status) then calls.end_connection h s.system else s.system in
        record {
          conn = record s.conn { state = none; status = pos 0 };
          system = calls.destroy h (calls.release_buffers h w1);
        }
  ]

  -- `connection:close()`; the finalizer does the same.
  unfoldable pub cn_close : Session W → Reply × Session W
  cn_close s = (values [], close_connection s)

  -- What `cn_connect` returns.
  abbrev pub connect_reply : RpcReply × Session W → Reply × Session W
  connect_reply (normal a, s) = (values (boolean true ∷ []), s)
  connect_reply (r, s) = (report_amqp_error conv calls (pos 0) r, s)

  -- `connection:connect()`
  unfoldable pub cn_connect : Session W → Reply × Session W
  cn_connect s = elim s.state [
    | some h ↦ (arg_error 1 (text "already connect"), s)
    | none ↦ connect_reply (establish_connection s)
  ]

  -- `connection:get_channel_max()`
  unfoldable pub cn_get_channel_max : Session W → Reply
  cn_get_channel_max s = elim s.state [
    | none ↦ arg_error 1 (text "connection disconnect")
    | some h ↦ values (integer (pos (calls.get_channel_max h s.system)) ∷ [])
  ]

  -- `connection:get_frame_max()` and `connection:get_heartbeat()`
  unfoldable pub cn_get_frame_max : Session W → Reply
  cn_get_frame_max s = elim s.state [
    | none ↦ arg_error 1 (text "connection disconnect")
    | some h ↦ values (integer (pos (calls.get_frame_max h s.system)) ∷ [])
  ]

  unfoldable pub cn_get_heartbeat : Session W → Reply
  cn_get_heartbeat s = elim s.state [
    | none ↦ arg_error 1 (text "connection disconnect")
    | some h ↦ values (integer (pos (calls.get_heartbeat h s.system)) ∷ [])
  ]

  -- `connection:get_server_properties()` and `connection:get_client_properties()`
  unfoldable pub cn_get_server_properties : (widen : ℕ → ℕ) → Session W → Reply
  cn_get_server_properties widen s = elim s.state [
    | none ↦ arg_error 1 (text "connection disconnect")
    | some h ↦ values (decode_table widen (calls.get_server_properties h s.system) ∷ [])
  ]

  unfoldable pub cn_get_client_properties : (widen : ℕ → ℕ) → Session W → Reply
  cn_get_client_properties widen s = elim s.state [
    | none ↦ arg_error 1 (text "connection disconnect")
    | some h ↦ values (decode_table widen (calls.get_client_properties h s.system) ∷ [])
  ]
