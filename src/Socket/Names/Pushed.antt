-- ===== src/Socket/Names/Pushed.antt =====
-- lsocklib.c, `lsock_pushaddr`: what stands before an address when it is pushed.
use lua_xlib.Socket.Address.{SockAddr, lsock_pushaddr}
use lua_xlib.Socket.Names.{NameCalls, SockAddr, push_address}
use lua_xlib.Lua.{Bytes, LuaValue, values}
use lua_xlib.Base.{ℕ, List, ◌≡◌, some, ◌++◌, ◌∷◌, [], refl}

module _ {W : Type 0} (strerror : ℕ → Bytes) (calls : NameCalls W) where
  pub push_address_lem :
      (before : List LuaValue) (x : SockAddr) (v : LuaValue)
      → lsock_pushaddr calls.net x ≡ some v
      → push_address strerror calls before x ≡ values (before ++ v ∷ [])
  push_address_lem before x v named = rw (push_address, named) refl
