-- ===== src/Amqp/Lua.antt =====
-- lamqplib.c: the Lua values that it takes and gives, tables included, and how a call ends. Lua's own
-- conversions between strings and numbers belong to Lua: they are the calls of `Conversions`.
use lua_xlib.Lua.{Bytes}
use lua_xlib.Base.Int.{ℤ}
use lua_xlib.Base.{
  ℕ, Bool, List, Option, ◌==◌, ◌&&◌, true, false, if◌then◌else◌, [], ◌∷◌, ◌↔◌, ◌≡◌, arith, suc,
  refl,
}

-- A double is given by its bits. A table has its items under 1, 2, ..., and entries under strings, in
-- the order in which `lua_next` goes through them. Functions, userdata and threads are `other`.
mutual
  pub data LuaVal : Type 0 where
    nil other : LuaVal
    boolean : Bool → LuaVal
    integer : ℤ → LuaVal
    number : ℕ → LuaVal
    string : Bytes → LuaVal
    table : Items → Entries → LuaVal

  pub data Items : Type 0 where
    no_items : Items
    item : LuaVal → Items → Items

  pub data Entries : Type 0 where
    no_entries : Entries
    entry : Bytes → LuaVal → Entries → Entries

-- How a call ends: it returns values, or raises an error for an argument or another one, or touches
-- memory outside the object that it may use.
pub data Reply : Type 0 where
  values : List LuaVal → Reply
  arg_error : ℕ → Bytes → Reply
  raised : Bytes → Reply
  overrun : Reply

-- `lua_isstring` with `lua_tolstring`, `lua_isnumber` with `lua_tointeger`, and `%d` of
-- `lua_pushfstring`.
pub record Conversions : Type 0 where
  pub to_string : LuaVal → Option Bytes
  pub to_integer : LuaVal → Option ℤ
  pub show_int : ℤ → Bytes

abbrev pub eq_bytes : Bytes → Bytes → Bool
eq_bytes [] [] = true
eq_bytes (a ∷ xs) (b ∷ ys) = a == b && eq_bytes xs ys
eq_bytes _ _ = false

pub eq_bytes_iff : (a b : Bytes) → (eq_bytes a b ≡ true) ↔ (a ≡ b)
eq_bytes_iff [] [] = ground arith
eq_bytes_iff [] (b ∷ bs) = ground arith
eq_bytes_iff (a ∷ xs) [] = ground arith
eq_bytes_iff (a ∷ xs) (b ∷ ys) = ground (arith, eq_bytes_iff xs ys)

pub eq_bytes_comm : (a b : Bytes) → eq_bytes a b ≡ eq_bytes b a
eq_bytes_comm [] [] = refl
eq_bytes_comm [] (b ∷ ys) = refl
eq_bytes_comm (a ∷ xs) [] = refl
eq_bytes_comm (a ∷ xs) (b ∷ ys) = ground (arith, eq_bytes_comm xs ys)

-- `lua_settable` with a string as the key.
unfoldable pub set_entry : Bytes → LuaVal → Entries → Entries
set_entry k v no_entries = entry k v no_entries
set_entry k v (entry j w es) = if eq_bytes j k then entry j v es else entry j w (set_entry k v es)

-- `lua_getfield`
unfoldable pub get_field : Entries → Bytes → LuaVal
get_field no_entries k = nil
get_field (entry j w es) k = if eq_bytes j k then w else get_field es k

-- `lua_rawlen`
abbrev pub rawlen : Items → ℕ
rawlen no_items = 0
rawlen (item v vs) = suc (rawlen vs)
