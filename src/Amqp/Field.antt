-- ===== src/Amqp/Field.antt =====
-- lamqplib.c, `encode_field`, `decode_field` and the like: Lua values as AMQP field values, and back.
-- The build is one for Lua 5.3 or later, where `checkout_integer` asks Lua what is an integer.
pub mod Cleaned
pub mod RoundTrip
mod Tests
use lua_xlib.Amqp.Lua.{
  LuaVal, Items, Entries, nil, other, boolean, integer, number, string, table, no_items, item,
  no_entries, entry, set_entry, rawlen,
}
use lua_xlib.Lua.{Bytes, c_string}
use lua_xlib.Base.Int.{ℤ, pos, negsuc}
use lua_xlib.Base.Words.{signed64, to_int}
use lua_xlib.Base.{ℕ, Bool, Option, none, some, ◌==◌, if◌then◌else◌, ltb, ◌^◌, take, length}

-- `amqp_field_value_t`, a constructor for each kind.
mutual
  pub data FieldValue : Type 0 where
    kind_boolean : Bool → FieldValue
    kind_i8 kind_i16 kind_i32 kind_i64 : ℤ → FieldValue
    kind_u8 kind_u16 kind_u32 kind_u64 : ℕ → FieldValue
    kind_f32 kind_f64 : ℕ → FieldValue
    kind_bytes kind_utf8 : Bytes → FieldValue
    kind_timestamp kind_decimal : ℕ → FieldValue
    kind_table : AmqpTable → FieldValue
    kind_array : AmqpArray → FieldValue
    kind_void : FieldValue

  pub data AmqpTable : Type 0 where
    end : AmqpTable
    row : Bytes → FieldValue → AmqpTable → AmqpTable

  pub data AmqpArray : Type 0 where
    stop : AmqpArray
    cell : FieldValue → AmqpArray → AmqpArray

-- `encode_bytes(s, l, pool)`, on a string with a zero behind its bytes: a length of 0 is made out anew.
abbrev pub encode_bytes : Bytes → ℕ → Bytes
encode_bytes s l = if l == 0 then c_string s else take l s

-- `INT_MIN <= i && i <= INT_MAX`
abbrev pub in_int : ℤ → Bool
in_int (pos n) = ltb n (2 ^ 31)
in_int (negsuc n) = ltb n (2 ^ 31)

-- `none` stands for the return of 0, with the kind VOID.
unfoldable mutual
  pub encode_field : LuaVal → Option FieldValue
  encode_field nil = none
  encode_field other = none
  encode_field (boolean b) = some (kind_boolean b)
  encode_field (integer i) = some (if in_int i then kind_i32 (to_int i) else kind_i64 i)
  encode_field (number f) = some (kind_f64 f)
  encode_field (string s) = some (kind_utf8 (encode_bytes s (length s)))
  encode_field (table vs es) =
      some (if rawlen vs == 0 then kind_table (encode_table es) else kind_array (encode_array vs))

  pub encode_table : Entries → AmqpTable
  encode_table no_entries = end
  encode_table (entry k v es) = elim (encode_field v) [
    | none ↦ encode_table es
    | some x ↦ row (encode_bytes k (length k)) x (encode_table es)
  ]

  pub encode_array : Items → AmqpArray
  encode_array no_items = stop
  encode_array (item v vs) = elim (encode_field v) [
    | none ↦ encode_array vs
    | some x ↦ cell x (encode_array vs)
  ]

module _ (widen : ℕ → ℕ) where
  -- `widen` makes a double of a float. `none` stands for the return of 0, with nothing pushed.
  unfoldable mutual
    pub decode_field : FieldValue → Option LuaVal
    decode_field (kind_boolean b) = some (boolean b)
    decode_field (kind_i8 z) = some (integer z)
    decode_field (kind_i16 z) = some (integer z)
    decode_field (kind_i32 z) = some (integer z)
    decode_field (kind_i64 z) = some (integer z)
    decode_field (kind_u8 n) = some (integer (pos n))
    decode_field (kind_u16 n) = some (integer (pos n))
    decode_field (kind_u32 n) = some (integer (pos n))
    decode_field (kind_u64 n) = some (integer (signed64 n))
    decode_field (kind_f32 f) = some (number (widen f))
    decode_field (kind_f64 f) = some (number f)
    decode_field (kind_bytes s) = some (string s)
    decode_field (kind_utf8 s) = some (string s)
    decode_field (kind_table t) = some (table no_items (decode_entries t no_entries))
    decode_field (kind_array a) = some (table (decode_array a) no_entries)
    decode_field (kind_timestamp n) = none
    decode_field (kind_decimal n) = none
    decode_field kind_void = none

    -- The loop of `decode_table`, on the new table.
    pub decode_entries : AmqpTable → Entries → Entries
    decode_entries end es = es
    decode_entries (row k x t) es = elim (decode_field x) [
      | none ↦ decode_entries t es
      | some v ↦ decode_entries t (set_entry k v es)
    ]

    pub decode_array : AmqpArray → Items
    decode_array stop = no_items
    decode_array (cell x a) = elim (decode_field x) [
      | none ↦ decode_array a
      | some v ↦ item v (decode_array a)
    ]

  unfoldable pub decode_table : AmqpTable → LuaVal
  decode_table t = table no_items (decode_entries t no_entries)
