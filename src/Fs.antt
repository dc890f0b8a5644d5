-- ===== src/Fs.antt =====
-- lfslib.c: files and directories by their paths. A path is given as Lua has it, and used up to its first zero.
use lua_xlib.Base.Words.{to_int, to_uint32}
use Prim.Native.Nat.{ℕ}
use lua_xlib.Base.Int.{ℤ, pos, negsuc}
use lua_xlib.Lua.{
  Bytes, LuaValue, Reply, SysRet, table, boolean_status, c_string, end, failed, overrun, string,
  values, integer, report_error, lret_nil, done, Fields, arg_error, field, text,
}
use lua_xlib.Base.{
  none, some, ℕ, Bool, List, Option, get_elem?, if◌then◌else◌, ◌∷◌, [], ◌==◌, ◌++◌, drop, length,
  false, ◌||◌,
}
use mathlib.Core.Option.{get_or}
use Prim.Native.String.{String}
pub mod Directory
pub mod Readlink
mod Tests

-- `struct stat`, as far as it is read.
pub record FileStat : Type 0 where
  pub st_dev : ℤ
  pub st_ino : ℤ
  pub st_mode : ℤ
  pub st_nlink : ℤ
  pub st_uid : ℤ
  pub st_gid : ℤ
  pub st_rdev : ℤ
  pub st_size : ℤ
  pub st_blksize : ℤ
  pub st_blocks : ℤ
  pub st_atime : ℤ
  pub st_mtime : ℤ
  pub st_ctime : ℤ

-- The system calls. `stack` is what stands in a variable of `PATH_MAX` bytes before it is filled.
pub record FsCalls (W : Type 0) : Type 0 where
  pub umask : ℤ → W → ℤ × W
  pub access : Bytes → ℤ → W → SysRet (Unit {0}) × W
  pub stat : Bytes → W → SysRet FileStat × W
  pub lstat : Bytes → W → SysRet FileStat × W
  pub chroot : Bytes → W → SysRet (Unit {0}) × W
  pub chdir : Bytes → W → SysRet (Unit {0}) × W
  pub getcwd : W → SysRet Bytes × W
  pub mkfifo : Bytes → ℤ → W → SysRet (Unit {0}) × W
  pub mkdir : Bytes → ℤ → W → SysRet (Unit {0}) × W
  pub rmdir : Bytes → W → SysRet (Unit {0}) × W
  pub chmod : Bytes → ℤ → W → SysRet (Unit {0}) × W
  pub chown : Bytes → ℕ → ℕ → W → SysRet (Unit {0}) × W
  pub rename : Bytes → Bytes → W → SysRet (Unit {0}) × W
  pub remove : Bytes → W → SysRet (Unit {0}) × W
  pub truncate : Bytes → ℤ → W → SysRet (Unit {0}) × W
  pub link : Bytes → Bytes → W → SysRet (Unit {0}) × W
  pub symlink : Bytes → Bytes → W → SysRet (Unit {0}) × W
  pub unlink : Bytes → W → SysRet (Unit {0}) × W
  pub readlink : Bytes → ℕ → W → SysRet Bytes × W
  pub realpath : Bytes → W → SysRet Bytes × W
  pub stack : W → Bytes

-- `PATH_MAX`
abbrev pub path_max : ℕ
path_max = 4096

-- `0640` and `0755`
abbrev fifo_mode : ℤ
fifo_mode = pos 416

abbrev dir_mode : ℤ
dir_mode = pos 493

abbrev named : String → ℤ → Fields → Fields
named name value rest = field (string (text name)) (integer value) rest

-- The table that `fs.stat` makes.
abbrev pub stat_table : FileStat → LuaValue
stat_table sb = table (
    named "st_dev" sb.st_dev (
      named "st_ino" sb.st_ino (
        named "st_mode" sb.st_mode (
          named "st_nlink" sb.st_nlink (
            named "st_uid" sb.st_uid (
              named "st_gid" sb.st_gid (
                named "st_rdev" sb.st_rdev (
                  named "st_size" sb.st_size (
                    named "st_blksize" sb.st_blksize (
                      named "st_blocks" sb.st_blocks (
                        named "st_atime" sb.st_atime (
                          named "st_mtime" sb.st_mtime
                            (named "st_ctime" sb.st_ctime end)))))))))))))

-- Whether a zero stands in the buffer.
abbrev pub is_terminated : Bytes → Bool
is_terminated [] = false
is_terminated (b ∷ bs) = b == 0 || is_terminated bs

-- The buffer as it is read when it is pushed: up to its first zero, or beyond its end.
abbrev pub pushed_buffer : Bytes → Reply
pushed_buffer bs = if is_terminated bs then values (string (c_string bs) ∷ []) else overrun

module _ {W : Type 0} (strerror : ℕ → Bytes) (calls : FsCalls W) where
  -- A call that succeeds or sets `errno`.
  abbrev pub status : SysRet (Unit {0}) × W → Reply × W
  status (ret, w) = (boolean_status strerror ret, w)

  abbrev pub pushes : {A : Type 0} → (A → LuaValue) → SysRet A × W → Reply × W
  pushes f (failed e, w) = (report_error strerror lret_nil e, w)
  pushes f (done a, w) = (values (f a ∷ []), w)

  -- `fs.umask(mask)`
  unfoldable pub lfs_umask : ℤ → W → Reply × W
  lfs_umask mask w = let (old, w1) = calls.umask (to_int mask) w in (values (integer old ∷ []), w1)

  -- `fs.access(path[, mode=F_OK])`
  unfoldable pub lfs_access : Bytes → Option ℤ → W → Reply × W
  lfs_access path mode w = status (calls.access (c_string path) (to_int (get_or mode (pos 0))) w)

  -- `fs.stat(path[, tolink=false])`
  unfoldable pub lfs_stat : Bytes → Bool → W → Reply × W
  lfs_stat path tolink w =
      pushes stat_table
        (if tolink then calls.stat (c_string path) w else calls.lstat (c_string path) w)

  -- `fs.chroot(path)` and `fs.chdir(dir)`
  unfoldable pub lfs_chroot : Bytes → W → Reply × W
  lfs_chroot path w = status (calls.chroot (c_string path) w)

  unfoldable pub lfs_chdir : Bytes → W → Reply × W
  lfs_chdir path w = status (calls.chdir (c_string path) w)

  -- `fs.getcwd()`
  unfoldable pub lfs_getcwd : W → Reply × W
  lfs_getcwd w = pushes (λ (p : Bytes). string p) (calls.getcwd w)

  -- `fs.mkfifo(path[, mode=0640])`, `fs.mkdir(dir[, mode=0755])`, `fs.rmdir(dir)`
  unfoldable pub lfs_mkfifo : Bytes → Option ℤ → W → Reply × W
  lfs_mkfifo path mode w = status (calls.mkfifo (c_string path) (to_int (get_or mode fifo_mode)) w)

  unfoldable pub lfs_mkdir : Bytes → Option ℤ → W → Reply × W
  lfs_mkdir path mode w = status (calls.mkdir (c_string path) (to_int (get_or mode dir_mode)) w)

  unfoldable pub lfs_rmdir : Bytes → W → Reply × W
  lfs_rmdir path w = status (calls.rmdir (c_string path) w)

  -- `fs.chmod(path, mode)` and `fs.chown(path[, uid=-1, gid=-1])`
  unfoldable pub lfs_chmod : Bytes → ℤ → W → Reply × W
  lfs_chmod path mode w = status (calls.chmod (c_string path) (to_int mode) w)

  unfoldable pub lfs_chown : Bytes → Option ℤ → Option ℤ → W → Reply × W
  lfs_chown path uid gid w = status (
      calls.chown (c_string path) (to_uint32 (get_or uid (negsuc 0)))
        (to_uint32 (get_or gid (negsuc 0))) w)

  -- `fs.rename(oldpath, newpath)`, `fs.remove(path)`, `fs.truncate(path, length)`
  unfoldable pub lfs_rename : Bytes → Bytes → W → Reply × W
  lfs_rename oldpath newpath w = status (calls.rename (c_string oldpath) (c_string newpath) w)

  unfoldable pub lfs_remove : Bytes → W → Reply × W
  lfs_remove path w = status (calls.remove (c_string path) w)

  unfoldable pub lfs_truncate : Bytes → ℤ → W → Reply × W
  lfs_truncate path length w = status (calls.truncate (c_string path) length w)

  -- `fs.link(oldpath, newpath)` and `fs.symlink(oldpath, newpath)`
  unfoldable pub lfs_link : Bytes → Bytes → W → Reply × W
  lfs_link oldpath newpath w = status (calls.link (c_string oldpath) (c_string newpath) w)

  unfoldable pub lfs_symlink : Bytes → Bytes → W → Reply × W
  lfs_symlink oldpath newpath w = status (calls.symlink (c_string oldpath) (c_string newpath) w)

  -- `fs.unlink(path)`, by its arguments: the second one is read.
  unfoldable pub lfs_unlink : List Bytes → W → Reply × W
  lfs_unlink args w = elim (get_elem? args 1) [
    | none ↦ (arg_error 2 (text "string expected"), w)
    | some path ↦ status (calls.unlink (c_string path) w)
  ]

  abbrev pub link_read : Bytes → SysRet Bytes × W → Reply × W
  link_read buffer (failed e, w) = (report_error strerror lret_nil e, w)
  link_read buffer (done target, w) = (pushed_buffer (target ++ drop (length target) buffer), w)

  -- `fs.readlink(linkpath)`: `readlink` writes the target and no zero behind it.
  unfoldable pub lfs_readlink : Bytes → W → Reply × W
  lfs_readlink linkpath w =
      link_read (calls.stack w) (calls.readlink (c_string linkpath) path_max w)

  -- `fs.realpath(path)`
  unfoldable pub lfs_realpath : Bytes → W → Reply × W
  lfs_realpath path w = pushes (λ (p : Bytes). string p) (calls.realpath (c_string path) w)
