-- ===== src/User/Tests.antt =====
-- Runs of luserlib.c: a system whose state is the real and the effective group.
use lua_xlib.Lua.{Bytes, done, values, table, field, integer, end}
use lua_xlib.Base.{ℕ, ◌≡◌, refl, ◌∷◌, []}
use lua_xlib.Base.Int.{pos}
use lua_xlib.User.{UserCalls, pos, ℕ, Bytes, done, values}
use lua_xlib.User.Identity.{luser_getgroups}

abbrev strerror : ℕ → Bytes
strerror e = e ∷ []

abbrev calls : UserCalls (ℕ × ℕ)
calls = record {
  getuid = λ w. 0;
  geteuid = λ w. 0;
  getgid = λ w. w.0;
  getegid = λ w. w.1;
  setuid = λ u w. (done tt, w);
  seteuid = λ u w. (done tt, w);
  setreuid = λ r e w. (done tt, w);
  setgid = λ g w. (done tt, (g, g));
  setregid = λ r e w. (done tt, (r, e));
  group_count = λ w. (done 2, w);
  getgroups = λ n w. (done (10 ∷ 20 ∷ []), w);
}

two_groups : luser_getgroups strerror calls (0, 0) ≡ (
  values (
      table (
        field (integer (pos 1)) (integer (pos 10)) (field (integer (pos 2)) (integer (pos 20)) end))
      ∷ []),
  (0, 0),
)
unfolding luser_getgroups
two_groups = refl
