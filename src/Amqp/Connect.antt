-- ===== src/Amqp/Connect.antt =====
-- lamqplib.c, `amqp.connect`: what the table of its argument says, and its defaults.
use lua_xlib.Amqp.Lua.{LuaVal, Entries, Reply, Conversions, table, get_field, raised, values}
use lua_xlib.Amqp.Options.{
  Options, Fetched, ok, bad, fetch, get_field_i, get_field_s, encode_if_table, ◌>>=◌,
}
use lua_xlib.Amqp.Field.{encode_bytes, end}
use lua_xlib.Amqp.Connection.{Connection, AmqpCalls, LoginInfo, SslInfo, report_amqp_error, normal}
use lua_xlib.Amqp.Connection.Setup.{establish_connection}
use mathlib.Core.Option
use lua_xlib.Socket.Deadline.{TimeVal}
use lua_xlib.Lua.{Bytes, text}
use lua_xlib.Base.Int.{ℤ, pos, negsuc}
use lua_xlib.Base.Words.{to_int}
use lua_xlib.Base.{ℕ, Option, none, some, replicate, false, []}

-- The number of bits in `channels`, `8*1024` bytes.
abbrev pub max_channels : ℕ
max_channels = 65536

module _ {W : Type 0} (conv : Conversions) (to_timeout : LuaVal → Option (Option TimeVal))
    (calls : AmqpCalls W) where
  -- A string of the login, copied up to its first zero.
  abbrev login_string : Entries → Bytes → Bytes → Fetched Bytes
  login_string t name default = do s ← get_field_s conv t name default; ok (encode_bytes s 0)

  abbrev login_int : Entries → Bytes → ℤ → Fetched ℤ
  login_int t name default = do z ← get_field_i conv t name default; ok (to_int z)

  -- `luaL_optstring(L, -1, NULL)`
  abbrev optional_string : LuaVal → Option Bytes → Fetched (Option Bytes)
  optional_string v default = fetch (λ x. Option.map (λ s. some s) (conv.to_string x)) v default

  abbrev copied : Option Bytes → Option Bytes
  copied = Option.map (λ s. encode_bytes s 0)

  -- The table `ssl` of the login. The key's default is the value of `cacert`.
  abbrev ssl_info : LuaVal → Fetched (Option SslInfo)
  ssl_info (table vs t) = do
    cacert ← optional_string (get_field t (text "cacert")) none
    cert ← optional_string (get_field t (text "cert")) none
    key ← optional_string (get_field t (text "key")) cacert
    verify_peer ← get_field_i conv t (text "verify_peer") (pos 0)
    verify_hostname ← get_field_i conv t (text "verify_hostname") (pos 0)
    ok (
        some (record {
          cacert = copied cacert;
          cert = copied cert;
          key = copied key;
          verify_peer = to_int verify_peer;
          verify_hostname = to_int verify_hostname;
        }))
  ssl_info _ = ok none

  -- `AMQP_SASL_METHOD_PLAIN` is 0.
  abbrev pub default_login : LoginInfo
  default_login = record {
    host = text "localhost";
    user = text "guest";
    password = text "guest";
    vhost = text "/";
    port = pos 5672;
    sasl_method = pos 0;
    channel_max = pos 0;
    frame_max = pos 131072;
    heartbeat = pos 0;
    timeout = none;
    ssl = none;
    client_properties = end;
  }

  unfoldable pub login_of : Options → Fetched LoginInfo
  login_of none = ok default_login
  login_of (some t) = do
    host ← login_string t (text "host") (text "localhost")
    user ← login_string t (text "user") (text "guest")
    password ← login_string t (text "password") (text "guest")
    vhost ← login_string t (text "vhost") (text "/")
    port ← login_int t (text "port") (pos 5672)
    sasl_method ← login_int t (text "sasl_method") (pos 0)
    channel_max ← login_int t (text "channel_max") (pos 0)
    frame_max ← login_int t (text "frame_max") (pos 131072)
    heartbeat ← login_int t (text "heartbeat") (pos 0)
    timeout ← fetch to_timeout (get_field t (text "timeout")) none
    ssl ← ssl_info (get_field t (text "ssl"))
    ok (record {
      host = host;
      user = user;
      password = password;
      vhost = vhost;
      port = port;
      sasl_method = sasl_method;
      channel_max = channel_max;
      frame_max = frame_max;
      heartbeat = heartbeat;
      timeout = timeout;
      ssl = ssl;
      client_properties = encode_if_table (get_field t (text "client_properties"));
    })

  -- A new connection object, all of whose bytes are 0 but for the login.
  abbrev pub new_connection : LoginInfo → Connection
  new_connection login = record {
    status = pos 0;
    timestamp = 0;
    state = none;
    login_info = login;
    channels = replicate max_channels false;
  }

  -- `amqp.connect(...)`: the connection, if there is one.
  unfoldable pub cn_create : Options → W → Reply × Option Connection × W
  cn_create t w = elim (login_of t) [
    | bad e ↦ (raised e, none, w)
    | ok login ↦
        let (r, s) =
          establish_connection conv calls (record { conn = new_connection login; system = w }) in
        elim r [
          | normal a ↦ (values [], some s.conn, s.system)
          | other ↦ (report_amqp_error conv calls (negsuc 0) other, none, s.system)
        ]
  ]
