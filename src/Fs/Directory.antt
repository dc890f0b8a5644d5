-- ===== src/Fs/Directory.antt =====
-- lfslib.c, `fs.listdir` and its iterator `lua_lsnext`, and `fs.fnmatch`.
use lua_xlib.Base.Words.{to_int}
use lua_xlib.Lua.{
  Bytes, SysRet, Reply, c_string, failed, text, report_error, values, boolean, lret_nil, done,
  integer,
}
use lua_xlib.Base.Int.{ℤ, pos, eq_ℤ}
use lua_xlib.Base.{
  ℕ, Bool, Option, none, some, ◌||◌, ◌∷◌, suc, ◌==◌, ◌⊎◌, false, zero, if◌then◌else◌, inl, true, [],
  inr,
}
use mathlib.Core.Option.{get_or}
pub mod Listing

-- The calls on directories. A directory that is read is a number; an entry is a name and an inode.
pub record DirCalls (W : Type 0) : Type 0 where
  pub opendir : Bytes → W → SysRet ℕ × W
  pub readdir : ℕ → W → Option (Bytes × ℤ) × W
  pub closedir : ℕ → W → W
  pub fnmatch : Bytes → Bytes → ℤ → ℤ

-- `FNM_PATHNAME|FNM_PERIOD`
abbrev pub fnm_flags : ℤ
fnm_flags = pos 5

-- `pattern[0]=='*' && pattern[1]=='\0'`
abbrev pub is_star : Bytes → Bool
is_star (c ∷ []) = c == 42
is_star _ = false

-- The iterator: the directory and the pattern that it holds.
pub record Iterator : Type 0 where
  pub dir : ℕ
  pub pattern : Bytes

module _ {W : Type 0} (strerror : ℕ → Bytes) (calls : DirCalls W) where
  -- What `opendir` makes of the call.
  abbrev pub listed : Bytes → SysRet ℕ × W → (Reply ⊎ Iterator) × W
  listed pattern (failed e, w) = (inl (report_error strerror lret_nil e), w)
  listed pattern (done dir, w) = (inr (record { dir = dir; pattern = pattern }), w)

  -- `fs.listdir([dir='.'[, pattern='*']])`: a reply, or the iterator
  unfoldable pub lfs_listdir : Option Bytes → Option Bytes → W → (Reply ⊎ Iterator) × W
  lfs_listdir path pattern w =
      listed (c_string (get_or pattern (text "*")))
        (calls.opendir (c_string (get_or path (text "."))) w)

module _ {W : Type 0} (calls : DirCalls W) where
  -- Whether an entry is given out.
  abbrev pub matches : Bytes → Bytes × ℤ → Bool
  matches pattern (name, ino) =
      is_star pattern || eq_ℤ (calls.fnmatch pattern name fnm_flags) (pos 0)

  -- One entry: the end, which closes the directory; one that is given out; or the next one.
  abbrev pub round :
      (W → Option (Option (Bytes × ℤ)) × W)
      → Iterator
      → Option (Bytes × ℤ) × W
      → Option (Option (Bytes × ℤ)) × W
  round again it (none, w) = (some none, calls.closedir it.dir w)
  round again it (some e, w) = elim (matches it.pattern e) [
    | true ↦ (some (some e), w)
    | false ↦ again w
  ]

  -- `lua_lsnext`, on fuel: `none` is without fuel, `some none` the end.
  unfoldable pub lua_lsnext : ℕ → Iterator → W → Option (Option (Bytes × ℤ)) × W
  lua_lsnext zero it w = (none, w)
  lua_lsnext (suc fuel) it w = round (lua_lsnext fuel it) it (calls.readdir it.dir w)

  -- `fs.fnmatch(filename, pattern[, flags=FNM_PATHNAME|FNM_PERIOD])`
  unfoldable pub lfs_fnmatch : Bytes → Bytes → Option ℤ → Reply
  lfs_fnmatch filename pattern flags =
      let retcode =
        calls.fnmatch (c_string pattern) (c_string filename) (to_int (get_or flags fnm_flags)) in
      if eq_ℤ retcode (pos 0)
      then values (boolean true ∷ [])
      else values (boolean false ∷ integer retcode ∷ [])
