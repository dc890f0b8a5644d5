-- ===== src/User/Identity.antt =====
-- luserlib.c: the users and groups that the process runs as.
use lua_xlib.Base.Words.{to_uint32}
use lua_xlib.Base.Int.{ℤ, pos}
use lua_xlib.Lua.{
  Bytes, Reply, SysRet, LuaValue, boolean_status, done, failed, values, integer, report_error,
  table, lret_nil, overrun,
}
use lua_xlib.Base.{ℕ, List, map, ◌∷◌, [], if◌then◌else◌, ◌==◌}
use lua_xlib.User.{UserCalls, numbered, ℕ, Bytes, ℤ, to_uint32}

module _ {W : Type 0} (strerror : ℕ → Bytes) (calls : UserCalls W) where
  abbrev pub status : SysRet (Unit {0}) × W → Reply × W
  status (ret, w) = (boolean_status strerror ret, w)

  abbrev pub shown : ℕ → Reply
  shown id = values (integer (pos id) ∷ [])

  unfoldable pub luser_getuid : W → Reply
  luser_getuid w = shown (calls.getuid w)

  unfoldable pub luser_geteuid : W → Reply
  luser_geteuid w = shown (calls.geteuid w)

  unfoldable pub luser_getgid : W → Reply
  luser_getgid w = shown (calls.getgid w)

  unfoldable pub luser_getegid : W → Reply
  luser_getegid w = shown (calls.getegid w)

  -- `user.setuid(uid)`, `user.seteuid(euid)`, `user.setreuid(ruid, euid)`
  unfoldable pub luser_setuid : ℤ → W → Reply × W
  luser_setuid uid w = status (calls.setuid (to_uint32 uid) w)

  unfoldable pub luser_seteuid : ℤ → W → Reply × W
  luser_seteuid euid w = status (calls.seteuid (to_uint32 euid) w)

  unfoldable pub luser_setreuid : ℤ → ℤ → W → Reply × W
  luser_setreuid ruid euid w = status (calls.setreuid (to_uint32 ruid) (to_uint32 euid) w)

  -- `user.setgid(gid)`, `user.setegid(egid)`, which calls `setgid` as well, and `user.setregid(rgid, egid)`
  unfoldable pub luser_setgid : ℤ → W → Reply × W
  luser_setgid gid w = status (calls.setgid (to_uint32 gid) w)

  unfoldable pub luser_setegid : ℤ → W → Reply × W
  luser_setegid egid w = status (calls.setgid (to_uint32 egid) w)

  unfoldable pub luser_setregid : ℤ → ℤ → W → Reply × W
  luser_setregid rgid egid w = status (calls.setregid (to_uint32 rgid) (to_uint32 egid) w)

  abbrev pub gids : List ℕ → LuaValue
  gids ids = table (numbered 1 (map (λ (g : ℕ). integer (pos g)) ids))

  -- The second call of `user.getgroups`. With no room `getgroups` counts once more, and as many numbers are
  -- read from an empty block.
  abbrev pub filled : SysRet (List ℕ) × W → Reply × W
  filled (failed e, w) = (report_error strerror lret_nil e, w)
  filled (done ids, w) = (values (gids ids ∷ []), w)

  abbrev pub counted_again : SysRet ℕ × W → Reply × W
  counted_again (failed e, w) = (report_error strerror lret_nil e, w)
  counted_again (done count, w) = (if count == 0 then values (gids [] ∷ []) else overrun, w)

  abbrev pub with_count : SysRet ℕ × W → Reply × W
  with_count (failed e, w) = (report_error strerror lret_nil e, w)
  with_count (done count, w) =
      if count == 0 then counted_again (calls.group_count w) else filled (calls.getgroups count w)

  -- `user.getgroups()`
  unfoldable pub luser_getgroups : W → Reply × W
  luser_getgroups w = with_count (calls.group_count w)
