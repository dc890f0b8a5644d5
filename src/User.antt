-- ===== src/User.antt =====
-- luserlib.c: the identity of the process, and the databases of users, groups and passwords, in the build with
-- shadow.h. The databases belong to the C library, and are parameters.
use lua_xlib.Base.Words.{to_uint32}
use lua_xlib.Lua.{
  Bytes, LuaValue, Fields, Reply, SysRet, table, c_string, end, failed, field, values, report_error,
  string, integer, lret_nil, text, done,
}
use lua_xlib.Base.Int.{ℤ, pos}
use Prim.Native.String.{String, [], ◌∷◌}
use mathlib.Core.List.{map}
use lua_xlib.Base.{suc, ℕ, List, Option, [], ◌∷◌, some, none}
pub mod Identity
mod Tests

pub record Passwd : Type 0 where
  pub pw_name : Bytes
  pub pw_passwd : Bytes
  pub pw_uid : ℕ
  pub pw_gid : ℕ
  pub pw_gecos : Bytes
  pub pw_dir : Bytes
  pub pw_shell : Bytes

pub record Group : Type 0 where
  pub gr_name : Bytes
  pub gr_passwd : Bytes
  pub gr_gid : ℕ
  pub gr_mem : List Bytes

pub record Spwd : Type 0 where
  pub sp_namp : Bytes
  pub sp_pwdp : Bytes
  pub sp_lstchg : ℤ
  pub sp_min : ℤ
  pub sp_max : ℤ
  pub sp_warn : ℤ
  pub sp_inact : ℤ
  pub sp_expire : ℤ
  pub sp_flag : ℤ

-- The calls on one database: by a name, by a number, and one entry after the other.
pub record Database (W E : Type 0) : Type 0 where
  pub by_name : Bytes → W → SysRet E × W
  pub by_id : ℕ → W → SysRet E × W
  pub rewind : W → W
  pub next : W → Option E × W
  pub finish : W → W

-- The calls on the identity. `group_count` is `getgroups(0, NULL)`, and `getgroups` what it writes.
pub record UserCalls (W : Type 0) : Type 0 where
  pub getuid : W → ℕ
  pub geteuid : W → ℕ
  pub getgid : W → ℕ
  pub getegid : W → ℕ
  pub setuid : ℕ → W → SysRet (Unit {0}) × W
  pub seteuid : ℕ → W → SysRet (Unit {0}) × W
  pub setreuid : ℕ → ℕ → W → SysRet (Unit {0}) × W
  pub setgid : ℕ → W → SysRet (Unit {0}) × W
  pub setregid : ℕ → ℕ → W → SysRet (Unit {0}) × W
  pub group_count : W → SysRet ℕ × W
  pub getgroups : ℕ → W → SysRet (List ℕ) × W

abbrev text_field : String → Bytes → Fields → Fields
text_field name value rest = field (string (text name)) (string value) rest

abbrev number_field : String → ℤ → Fields → Fields
number_field name value rest = field (string (text name)) (integer value) rest

-- Values at 1, 2 and so on; the number is that of the first one.
abbrev pub numbered : ℕ → List LuaValue → Fields
numbered k [] = end
numbered k (v ∷ vs) = field (integer (pos k)) v (numbered (suc k) vs)

abbrev pub push_passwd : Passwd → LuaValue
push_passwd p = table (
    text_field "pw_name" p.pw_name (
      text_field "pw_passwd" p.pw_passwd (
        number_field "pw_uid" (pos p.pw_uid) (
          number_field "pw_gid" (pos p.pw_gid) (
            text_field "pw_gecos" p.pw_gecos
              (text_field "pw_dir" p.pw_dir (text_field "pw_shell" p.pw_shell end)))))))

abbrev pub push_group : Group → LuaValue
push_group g = table (
    text_field "gr_name" g.gr_name (
      text_field "gr_passwd" g.gr_passwd (
        number_field "gr_gid" (pos g.gr_gid) (
          field (string (text "gr_mem"))
            (table (numbered 1 (map (λ (m : Bytes). string m) g.gr_mem))) end))))

abbrev pub push_spwd : Spwd → LuaValue
push_spwd s = table (
    text_field "sp_namp" s.sp_namp (
      text_field "sp_pwdp" s.sp_pwdp (
        number_field "sp_lstchg" s.sp_lstchg (
          number_field "sp_min" s.sp_min (
            number_field "sp_max" s.sp_max (
              number_field "sp_warn" s.sp_warn (
                number_field "sp_inact" s.sp_inact (
                  number_field "sp_expire" s.sp_expire
                    (number_field "sp_flag" s.sp_flag end)))))))))

module _ {W : Type 0} (strerror : ℕ → Bytes) where
  abbrev pub found : {E : Type 0} → (E → LuaValue) → SysRet E × W → Reply × W
  found push (failed e, w) = (report_error strerror lret_nil e, w)
  found push (done x, w) = (values (push x ∷ []), w)

  -- An iterator: the next entry, or nothing and the end of the database.
  abbrev pub step : {E : Type 0} → (E → LuaValue) → (W → W) → Option E × W → Reply × W
  step push finish (none, w) = (values [], finish w)
  step push finish (some x, w) = (values (push x ∷ []), w)

module _ {W : Type 0} (strerror : ℕ → Bytes) (passwds : Database W Passwd)
    (groups : Database W Group) (spwds : Database W Spwd) where
  -- `user.getpwnam(username)`, `user.getpwuid(uid)`, and the iterator of `user.getpwall()`
  unfoldable pub luser_getpwnam : Bytes → W → Reply × W
  luser_getpwnam name w = found strerror push_passwd (passwds.by_name (c_string name) w)

  unfoldable pub luser_getpwuid : ℤ → W → Reply × W
  luser_getpwuid uid w = found strerror push_passwd (passwds.by_id (to_uint32 uid) w)

  unfoldable pub luser_getpwall : W → W
  luser_getpwall w = passwds.rewind w

  unfoldable pub next_passwd : W → Reply × W
  next_passwd w = step strerror push_passwd passwds.finish (passwds.next w)

  -- `user.getgrnam(groupname)`, `user.getgrgid(gid)`, and the iterator of `user.getgrall()`
  unfoldable pub luser_getgrnam : Bytes → W → Reply × W
  luser_getgrnam name w = found strerror push_group (groups.by_name (c_string name) w)

  unfoldable pub luser_getgrgid : ℤ → W → Reply × W
  luser_getgrgid gid w = found strerror push_group (groups.by_id (to_uint32 gid) w)

  unfoldable pub luser_getgrall : W → W
  luser_getgrall w = groups.rewind w

  unfoldable pub next_group : W → Reply × W
  next_group w = step strerror push_group groups.finish (groups.next w)

  -- `user.getspnam(username)`, and the iterator of `user.getspall()`
  unfoldable pub luser_getspnam : Bytes → W → Reply × W
  luser_getspnam name w = found strerror push_spwd (spwds.by_name (c_string name) w)

  unfoldable pub luser_getspall : W → W
  luser_getspall w = spwds.rewind w

  unfoldable pub next_spwd : W → Reply × W
  next_spwd w = step strerror push_spwd spwds.finish (spwds.next w)
