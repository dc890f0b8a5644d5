-- ===== src/Amqp/Properties.antt =====
-- lamqplib.c, `encode_properties` and `decode_properties`: the properties of a message as a Lua table.
use lua_xlib.Amqp.Lua.{
  LuaVal, Entries, Conversions, integer, string, table, no_items, no_entries, get_field, set_entry,
}
use lua_xlib.Amqp.Field.{AmqpTable, encode_table, decode_table, end}
use lua_xlib.Amqp.Frame.{Properties}
use lua_xlib.Lua.{Bytes, text, c_string}
use lua_xlib.Base.Words.{to_size, signed64}
use mathlib.Core.Option
use lua_xlib.Base.{ℕ, Bool, Option, none, some, ◌%◌, ◌^◌, true, false, ◌||◌}

module _ (conv : Conversions) where
  -- `encode_header_field_s` and `encode_header_field_i`; an integer is cut to the bits of its field.
  abbrev encode_header_field_s : Entries → Bytes → Option Bytes
  encode_header_field_s t name = Option.map c_string (conv.to_string (get_field t name))

  abbrev encode_header_field_i : Entries → Bytes → ℕ → Option ℕ
  encode_header_field_i t name bits =
      Option.map (λ z. to_size z % 2 ^ bits) (conv.to_integer (get_field t name))

  -- The headers, of which the flag is set only if there are any.
  abbrev some_rows : AmqpTable → Option AmqpTable
  some_rows end = none
  some_rows t = some t

  abbrev encode_headers : LuaVal → Option AmqpTable
  encode_headers (table vs es) = some_rows (encode_table es)
  encode_headers _ = none

  unfoldable pub encode_properties : Entries → Properties
  encode_properties t = record {
    content_type = encode_header_field_s t (text "content_type");
    content_encoding = encode_header_field_s t (text "content_encoding");
    type = encode_header_field_s t (text "type");
    time = encode_header_field_i t (text "timestamp") 64;
    delivery_mode = encode_header_field_i t (text "delivery_mode") 8;
    priority = encode_header_field_i t (text "priority") 8;
    expiration = encode_header_field_s t (text "expiration");
    user_id = encode_header_field_s t (text "user_id");
    app_id = encode_header_field_s t (text "app_id");
    message_id = encode_header_field_s t (text "message_id");
    reply_to = encode_header_field_s t (text "reply_to");
    correlation_id = encode_header_field_s t (text "correlation_id");
    cluster_id = encode_header_field_s t (text "cluster_id");
    headers = encode_headers (get_field t (text "headers"));
  }

abbrev is_set : {A : Type 0} → Option A → Bool
is_set none = false
is_set (some a) = true

-- `properties._flags != 0`
abbrev pub has_flags : Properties → Bool
has_flags p =
    is_set p.content_type
    || is_set p.content_encoding
    || is_set p.type
    || is_set p.time
    || is_set p.delivery_mode
    || is_set p.priority
    || is_set p.expiration
    || is_set p.user_id
    || is_set p.app_id
    || is_set p.message_id
    || is_set p.reply_to
    || is_set p.correlation_id
    || is_set p.cluster_id
    || is_set p.headers

-- `decode_header_field_s` and `decode_header_field_i`
abbrev decode_header_field_s : Bytes → Option Bytes → Entries → Entries
decode_header_field_s name none t = t
decode_header_field_s name (some s) t = set_entry name (string s) t

abbrev decode_header_field_i : Bytes → Option ℕ → Entries → Entries
decode_header_field_i name none t = t
decode_header_field_i name (some n) t = set_entry name (integer (signed64 n)) t

abbrev decode_headers : (widen : ℕ → ℕ) → Option AmqpTable → Entries → Entries
decode_headers widen none t = t
decode_headers widen (some end) t = t
decode_headers widen (some h) t = set_entry (text "headers") (decode_table widen h) t

unfoldable pub decode_properties : (widen : ℕ → ℕ) → Properties → LuaVal
decode_properties widen p =
    let t1 = decode_header_field_s (text "content_type") p.content_type no_entries in
    let t2 = decode_header_field_s (text "content_encoding") p.content_encoding t1 in
    let t3 = decode_header_field_s (text "type") p.type t2 in
    let t4 = decode_header_field_i (text "timestamp") p.time t3 in
    let t5 = decode_header_field_i (text "delivery_mode") p.delivery_mode t4 in
    let t6 = decode_header_field_i (text "priority") p.priority t5 in
    let t7 = decode_header_field_s (text "expiration") p.expiration t6 in
    let t8 = decode_header_field_s (text "user_id") p.user_id t7 in
    let t9 = decode_header_field_s (text "app_id") p.app_id t8 in
    let t10 = decode_header_field_s (text "message_id") p.message_id t9 in
    let t11 = decode_header_field_s (text "reply_to") p.reply_to t10 in
    let t12 = decode_header_field_s (text "correlation_id") p.correlation_id t11 in
    let t13 = decode_header_field_s (text "cluster_id") p.cluster_id t12 in
    table no_items (decode_headers widen p.headers t13)
