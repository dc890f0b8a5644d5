-- ===== src/Amqp/Options.antt =====
-- lamqplib.c, `check_table`, `get_field_i` and `get_field_s`: the table of options that ends the
-- arguments of many methods.
use lua_xlib.Amqp.Lua.{LuaVal, Entries, Conversions, nil, table, get_field}
use lua_xlib.Amqp.Field.{AmqpTable, encode_table, end}
use lua_xlib.Lua.{Bytes, text}
use lua_xlib.Base.Int.{ℤ, pos}
use lua_xlib.Base.Words.{to_int}
use lua_xlib.Base.{Option, none, some}

-- A value, or the error that `luaL_optinteger` and `luaL_optstring` raise for a field.
pub data Fetched (A : Type 0) : Type 0 where
  ok : A → Fetched A
  bad : Bytes → Fetched A

infixl 5 ◌>>=◌
abbrev pub ◌>>=◌ : {A B : Type 0} → Fetched A → (A → Fetched B) → Fetched B
ok a >>= f = f a
bad e >>= f = bad e

-- `none` is no table: the argument is nil or missing.
abbrev pub Options : Type 0
Options = Option Entries

-- An optional field: nil is the default, and what does not convert is an error.
abbrev pub fetch : {A : Type 0} → (LuaVal → Option A) → LuaVal → A → Fetched A
fetch convert nil default = ok default
fetch convert v default = elim (convert v) [ none ↦ bad (text "bad argument") | some a ↦ ok a ]

module _ (conv : Conversions) where
  unfoldable pub get_field_i : Entries → Bytes → ℤ → Fetched ℤ
  get_field_i t name default = fetch conv.to_integer (get_field t name) default

  unfoldable pub get_field_s : Entries → Bytes → Bytes → Fetched Bytes
  get_field_s t name default = fetch conv.to_string (get_field t name) default

  -- An `amqp_boolean_t` of the options, an `int`.
  abbrev pub flag : Options → Bytes → Fetched ℤ
  flag none name = ok (pos 0)
  flag (some t) name = do z ← get_field_i t name (pos 0); ok (to_int z)

-- `if (lua_istable(L, -1)) encode_table(...)`, with the empty table otherwise. The table is one of
-- entries: on the key of an item `lua_tolstring` would change it under `lua_next`.
abbrev pub encode_if_table : LuaVal → AmqpTable
encode_if_table (table vs es) = encode_table es
encode_if_table _ = end

-- The field `arguments` of the options.
abbrev pub arguments : Options → AmqpTable
arguments none = end
arguments (some t) = encode_if_table (get_field t (text "arguments"))
