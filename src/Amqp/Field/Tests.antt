-- ===== src/Amqp/Field/Tests.antt =====
-- Values that go through the encoding of lamqplib.c.
use lua_xlib.Amqp.Field.Cleaned.{cleaned}
use lua_xlib.Amqp.Lua.{LuaVal, other, integer, string, table, no_items, item, no_entries, entry}
use lua_xlib.Base.Int.{pos}
use lua_xlib.Base.{some, ◌≡◌, refl, ◌∷◌, [], ◌^◌}

-- { a = { 1, f, "x" }, b = f, [""] = 2 ^ 40 }, with a function f.
abbrev sample : LuaVal
sample = table no_items (
    entry (97 ∷ [])
      (table (item (integer (pos 1)) (item other (item (string (120 ∷ [])) no_items))) no_entries)
      (entry (98 ∷ []) other (entry [] (integer (pos (2 ^ 40))) no_entries)))

sample-cleaned :
    cleaned sample
    ≡ some (
        table no_items (
          entry
            (97 ∷ [])
            (table (item (integer (pos 1)) (item (string (120 ∷ [])) no_items)) no_entries)
            (entry [] (integer (pos (2 ^ 40))) no_entries)))
unfolding cleaned
sample-cleaned = refl
