-- ===== src/Amqp/Field/Cleaned.antt =====
-- What is left of a Lua value that goes through AMQP, and tables as finite maps.
use lua_xlib.Amqp.Lua.{
  LuaVal, Items, Entries, nil, other, boolean, integer, number, string, table, no_items, item,
  no_entries, entry, set_entry, rawlen, eq_bytes,
}
use lua_xlib.Lua.{Bytes}
use lua_xlib.Base.{Option, none, some, ◌==◌, if◌then◌else◌, ◌≡◌, false, refl, ap}

-- Values that AMQP has no kind for are left out, wherever they stand; what follows them in a list moves
-- up. A table that has items loses its entries.
unfoldable mutual
  pub cleaned : LuaVal → Option LuaVal
  cleaned nil = none
  cleaned other = none
  cleaned (boolean b) = some (boolean b)
  cleaned (integer i) = some (integer i)
  cleaned (number f) = some (number f)
  cleaned (string s) = some (string s)
  cleaned (table vs es) = some (
      if rawlen vs == 0
      then table no_items (cleaned_entries es)
      else table (cleaned_items vs) no_entries)

  pub cleaned_entries : Entries → Entries
  cleaned_entries no_entries = no_entries
  cleaned_entries (entry k v es) = elim (cleaned v) [
    | none ↦ cleaned_entries es
    | some x ↦ entry k x (cleaned_entries es)
  ]

  pub cleaned_items : Items → Items
  cleaned_items no_items = no_items
  cleaned_items (item v vs) = elim (cleaned v) [
    | none ↦ cleaned_items vs
    | some x ↦ item x (cleaned_items vs)
  ]

-- No entry of the table stands under the key.
abbrev pub Absent : Bytes → Entries → Type 0
Absent k no_entries = Unit {0}
Absent k (entry j v es) = (eq_bytes j k ≡ false) × Absent k es

-- The keys of a table are distinct, as in Lua, and so for the tables within it.
unfoldable mutual
  pub IsTable : LuaVal → Type 0
  IsTable (table vs es) = AllTables vs × HasKeys es
  IsTable _ = Unit {0}

  pub AllTables : Items → Type 0
  AllTables no_items = Unit {0}
  AllTables (item v vs) = IsTable v × AllTables vs

  pub HasKeys : Entries → Type 0
  HasKeys no_entries = Unit {0}
  HasKeys (entry k v es) = IsTable v × Absent k es × HasKeys es

abbrev pub append_entries : Entries → Entries → Entries
append_entries no_entries fs = fs
append_entries (entry k v es) fs = entry k v (append_entries es fs)

pub append_entries_assoc :
    (es fs gs : Entries)
    → append_entries (append_entries es fs) gs ≡ append_entries es (append_entries fs gs)
append_entries_assoc no_entries fs gs = refl
append_entries_assoc (entry k v es) fs gs = ap (entry k v) (append_entries_assoc es fs gs)

pub append_entries-nil : (es : Entries) → append_entries es no_entries ≡ es
append_entries-nil no_entries = refl
append_entries-nil (entry k v es) = ap (entry k v) (append_entries-nil es)

-- A new key goes to the end.
pub set_entry-Absent :
    (k : Bytes) (v : LuaVal) (es : Entries)
    → Absent k es
    → set_entry k v es ≡ append_entries es (entry k v no_entries)
unfolding set_entry
set_entry-Absent k v no_entries a = refl
set_entry-Absent k v (entry j w es) a = rw a.0 (ap (entry j w) (set_entry-Absent k v es a.1))

pub Absent-append :
    (k : Bytes) (es fs : Entries) → Absent k es → Absent k fs → Absent k (append_entries es fs)
Absent-append k no_entries fs a b = b
Absent-append k (entry j w es) fs a b = (a.0, Absent-append k es fs a.1 b)

-- The keys of `es` are new to `acc`.
abbrev pub AllAbsent : Entries → Entries → Type 0
AllAbsent no_entries acc = Unit {0}
AllAbsent (entry k v es) acc = Absent k acc × AllAbsent es acc

pub AllAbsent-nil : (es : Entries) → AllAbsent es no_entries
AllAbsent-nil no_entries = tt
AllAbsent-nil (entry k v es) = (tt, AllAbsent-nil es)
