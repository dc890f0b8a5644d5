-- ===== src/Amqp/Methods.antt =====
-- lamqplib.c, `channel:...`: the methods of a channel that make a request or send a message. Strings
-- are those that `luaL_checkstring` gives, and end at their first zero (`amqp_cstring_bytes`).
pub mod Calls
pub mod Closed
pub mod Ended
use lua_xlib.Amqp.Lua.{
  LuaVal, Entries, Reply, Conversions, boolean, integer, string, table, values, arg_error, raised,
  no_items, no_entries, entry, get_field,
}
use lua_xlib.Amqp.Options.{Options, Fetched, ok, bad, flag, arguments, encode_if_table, ◌>>=◌}
use lua_xlib.Amqp.Properties.{encode_properties, has_flags}
use lua_xlib.Amqp.Connection.{Channel, Session, AmqpCalls, RpcReply, normal}
use lua_xlib.Amqp.Channel.{perform, perform_post, with_channel, settle}
use lua_xlib.Amqp.Frame.{
  Request, Post, Answer, Properties, flow, exchange_declare, exchange_delete, exchange_bind,
  exchange_unbind, queue_declare, queue_delete, queue_bind, queue_unbind, queue_purge, basic_qos,
  basic_consume, basic_cancel, basic_recover, basic_get, tx_select, tx_commit, tx_rollback,
  confirm_select, plain, get_empty, declared, consuming, get_ok, basic_publish, basic_ack,
  basic_nack, basic_reject,
}
use lua_xlib.Lua.{Bytes, text, c_string}
use lua_xlib.Base.Int.{ℤ, pos, negsuc}
use lua_xlib.Base.Words.{to_size, to_uint16}
use lua_xlib.Base.{ℕ, Bool, Option, none, some, ◌∷◌, [], true, ◌+◌, if◌then◌else◌}

abbrev succeed : Answer → Reply
succeed a = values (boolean true ∷ [])

-- The table that `queue_declare` returns.
abbrev declared_table : Answer → Reply
declared_table (declared queue message_count consumer_count) = values (
    table no_items (
      entry (text "queue") (string queue) (
        entry (text "message_count") (integer (pos message_count))
          (entry (text "consumer_count") (integer (pos consumer_count)) no_entries)))
    ∷ [])
declared_table _ = values []

abbrev consumer_tag : Answer → Reply
consumer_tag (consuming tag) = values (string tag ∷ [])
consumer_tag _ = values []

-- The `type` of `exchange_declare`, one of the strings of `types`.
pub data ExchangeType : Type 0 where
  direct fanout topic headers : ExchangeType

abbrev type_name : ExchangeType → Bytes
type_name direct = text "direct"
type_name fanout = text "fanout"
type_name topic = text "topic"
type_name headers = text "headers"

module _ {W : Type 0} (conv : Conversions) (calls : AmqpCalls W) where
  abbrev pub Method : Type 0
  Method = Channel → Session W → Reply × Channel × Session W

  -- The checks of the channel come first, then those of the options, then the request.
  abbrev pub with_options :
      {A : Type 0} → Fetched A → (A → Method) → Channel → Session W → Reply × Channel × Session W
  with_options (ok a) go ch s = go a ch s
  with_options (bad e) go ch s = with_channel conv calls ch s (λ h. (raised e, ch, s))

  unfoldable pub ch_flow : Bool → Method
  ch_flow active = perform conv calls (pos 0) (flow active) succeed

  unfoldable pub ch_exchange_declare : Bytes → ExchangeType → Options → Method
  ch_exchange_declare exchange kind t =
      with_options
        (do
          passive ← flag conv t (text "passive")
          durable ← flag conv t (text "durable")
          auto_delete ← flag conv t (text "auto_delete")
          internal ← flag conv t (text "internal")
          ok (
              exchange_declare (c_string exchange) (type_name kind) passive durable auto_delete
                internal (arguments t)))
        (λ r. perform conv calls (pos 0) r succeed)

  unfoldable pub ch_exchange_delete : Bytes → Options → Method
  ch_exchange_delete exchange t = with_options (flag conv t (text "if_unused")) (λ if_unused.
      perform conv calls (pos 0) (exchange_delete (c_string exchange) if_unused) succeed)

  unfoldable pub ch_exchange_bind : Bytes → Bytes → Bytes → LuaVal → Method
  ch_exchange_bind dest source key t =
      perform conv calls (pos 0)
        (exchange_bind (c_string dest) (c_string source) (c_string key) (encode_if_table t)) succeed

  unfoldable pub ch_exchange_unbind : Bytes → Bytes → Bytes → LuaVal → Method
  ch_exchange_unbind dest source key t =
      perform conv calls (pos 0)
        (exchange_unbind (c_string dest) (c_string source) (c_string key) (encode_if_table t))
        succeed

  unfoldable pub ch_queue_declare : Bytes → Options → Method
  ch_queue_declare queue t =
      with_options
        (do
          passive ← flag conv t (text "passive")
          durable ← flag conv t (text "durable")
          auto_delete ← flag conv t (text "auto_delete")
          exclusive ← flag conv t (text "exclusive")
          ok (queue_declare (c_string queue) passive durable exclusive auto_delete (arguments t)))
        (λ r. perform conv calls (pos 0) r declared_table)

  unfoldable pub ch_queue_delete : Bytes → Options → Method
  ch_queue_delete queue t =
      with_options
        (do
          if_unused ← flag conv t (text "if_unused")
          if_empty ← flag conv t (text "if_empty")
          ok (queue_delete (c_string queue) if_unused if_empty))
        (λ r. perform conv calls (pos 0) r succeed)

  unfoldable pub ch_queue_bind : Bytes → Bytes → Bytes → LuaVal → Method
  ch_queue_bind queue exchange key t =
      perform conv calls (pos 0)
        (queue_bind (c_string queue) (c_string exchange) (c_string key) (encode_if_table t)) succeed

  unfoldable pub ch_queue_unbind : Bytes → Bytes → Bytes → LuaVal → Method
  ch_queue_unbind queue exchange key t =
      perform conv calls (pos 0)
        (queue_unbind (c_string queue) (c_string exchange) (c_string key) (encode_if_table t))
        succeed

  unfoldable pub ch_queue_purge : Bytes → Method
  ch_queue_purge queue = perform conv calls (pos 0) (queue_purge (c_string queue)) succeed

  unfoldable pub ch_basic_qos : ℤ → ℤ → Options → Method
  ch_basic_qos prefetch_size prefetch_count t =
      with_options (flag conv t (text "global")) (λ global.
        perform conv calls (pos 0)
          (basic_qos (to_uint16 prefetch_size) (to_uint16 prefetch_count) global) succeed)

  -- The properties of a message: NULL where no flag is set.
  abbrev message_properties : Options → Option Properties
  message_properties none = none
  message_properties (some t) = elim (get_field t (text "properties")) [
    | table vs es ↦ let p = encode_properties conv es in if has_flags p then some p else none
    | _ ↦ none
  ]

  unfoldable pub ch_basic_publish : Bytes → Bytes → Bytes → Options → Method
  ch_basic_publish message exchange key t =
      with_options
        (do
          mandatory ← flag conv t (text "mandatory")
          immediate ← flag conv t (text "immediate")
          ok (
              basic_publish (c_string exchange) (c_string key) mandatory immediate
                (message_properties t) message))
        (perform_post conv calls)

  unfoldable pub ch_basic_consume : Bytes → Options → Method
  ch_basic_consume queue t =
      with_options
        (do
          no_local ← flag conv t (text "no_local")
          no_ack ← flag conv t (text "no_ack")
          exclusive ← flag conv t (text "exclusive")
          ok (basic_consume (c_string queue) no_local no_ack exclusive (arguments t)))
        (λ r. perform conv calls (negsuc 0) r consumer_tag)

  unfoldable pub ch_basic_cancel : Bytes → Method
  ch_basic_cancel tag = perform conv calls (negsuc 0) (basic_cancel (c_string tag)) succeed

  unfoldable pub ch_basic_recover : Options → Method
  ch_basic_recover t =
      with_options (flag conv t (text "requeue"))
        (λ requeue. perform conv calls (pos 0) (basic_recover requeue) succeed)

  -- The end of `basic_get`: an empty queue gives 0, a message is put back for `drain_events`.
  abbrev pub got_message : ℕ → Answer → Channel → Session W → Reply × Channel × Session W
  got_message h get_empty ch s =
      (values (integer (pos 0) ∷ []), ch, record s { system = calls.release_buffers h s.system })
  got_message h (get_ok n) ch s = (
    values (integer (pos (n + 1)) ∷ []),
    ch,
    record s { system = calls.queue_frame h ch.channel_id (get_ok n) s.system },
  )
  got_message h _ ch s = (values [], ch, s)

  abbrev pub get_settled : ℕ → RpcReply → Channel → Session W → Reply × Channel × Session W
  get_settled h (normal a) ch s = got_message h a ch s
  get_settled h r ch s = settle conv calls (negsuc 0) (λ a. values []) r ch s

  unfoldable pub ch_basic_get : Bytes → Options → Method
  ch_basic_get queue t = with_options (flag conv t (text "no_ack")) (λ no_ack ch s.
      with_channel conv calls ch s (λ h.
        let (r, w) = calls.request h ch.channel_id (basic_get (c_string queue) no_ack) s.system in
        get_settled h r ch (record s { system = w })))

  unfoldable pub ch_basic_ack : ℤ → Options → Method
  ch_basic_ack tag t =
      with_options (flag conv t (text "multiple"))
        (λ multiple. perform_post conv calls (basic_ack (to_size tag) multiple))

  unfoldable pub ch_basic_nack : ℤ → Options → Method
  ch_basic_nack tag t =
      with_options
        (do
          multiple ← flag conv t (text "multiple")
          requeue ← flag conv t (text "requeue")
          ok (basic_nack (to_size tag) multiple requeue))
        (perform_post conv calls)

  unfoldable pub ch_basic_reject : ℤ → Options → Method
  ch_basic_reject tag t =
      with_options (flag conv t (text "requeue"))
        (λ requeue. perform_post conv calls (basic_reject (to_size tag) requeue))

  unfoldable pub ch_tx_select : Method
  ch_tx_select = perform conv calls (pos 0) tx_select succeed

  unfoldable pub ch_tx_commit : Method
  ch_tx_commit = perform conv calls (pos 0) tx_commit succeed

  unfoldable pub ch_tx_rollback : Method
  ch_tx_rollback = perform conv calls (pos 0) tx_rollback succeed

  unfoldable pub ch_confirm_select : Method
  ch_confirm_select = perform conv calls (pos 0) confirm_select succeed
