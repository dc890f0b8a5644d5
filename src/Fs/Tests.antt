-- ===== src/Fs/Tests.antt =====
-- Runs of lfslib.c: a directory with three entries, and a link to `/tmp` with a buffer full of sevens.
use lua_xlib.Base.Int.{eq_ℤ, pos, ℤ}
use lua_xlib.Base.{
  List, ℕ, ◌∷◌, [], ◌≡◌, Option, if◌then◌else◌, refl, some, arith, none, ◌+◌, ◌==◌, replicate, ◌↔◌,
  get_elem?, length-replicate,
}
use lua_xlib.Lua.{Bytes, arg_error, done, failed, values, string, text}
use lua_xlib.Fs.{
  FsCalls, lfs_readlink, lfs_unlink, path_max, Bytes, List, ℕ, ◌∷◌, arg_error, done, failed, values,
  string, text,
}
use lua_xlib.Fs.Directory.{DirCalls, Iterator}
use lua_xlib.Fs.Directory.Listing.{Stream, listing, listing-Stream}
use lua_xlib.Fs.Readlink.{lfs_readlink_lem}

abbrev strerror : ℕ → Bytes
strerror e = e ∷ []

abbrev next : List (Bytes × ℤ) → Option (Bytes × ℤ) × List (Bytes × ℤ)
next [] = (none, [])
next (e ∷ es) = (some e, es)

-- A name matches a pattern that begins with the same character.
abbrev same_first : Bytes → Bytes → ℤ
same_first (a ∷ as') (b ∷ bs) = if a == b then pos 0 else pos 1
same_first _ _ = pos 1

-- The state is what is left of the directory; closing it leaves a mark.
abbrev dirs : DirCalls (List (Bytes × ℤ))
dirs = record {
  opendir = λ path w. (done 3, w);
  readdir = λ d w. next w;
  closedir = λ d w. (99 ∷ [], pos d) ∷ w;
  fnmatch = λ pattern name flags. same_first pattern name;
}

abbrev entries : List (Bytes × ℤ)
entries = (97 ∷ 49 ∷ [], pos 1) ∷ (98 ∷ [], pos 2) ∷ (97 ∷ 50 ∷ [], pos 3) ∷ []

abbrev it : Iterator
it = record { dir = 3; pattern = 97 ∷ 42 ∷ [] }

entries-Stream : (es : List (Bytes × ℤ)) → Stream dirs 3 es es []
entries-Stream [] = Stream.ended [] [] refl
entries-Stream (e ∷ es) = Stream.entry (e ∷ es) es [] e es refl (entries-Stream es)

listing_a :
    listing dirs 4 4 it entries
    ≡ (some ((97 ∷ 49 ∷ [], pos 1) ∷ (97 ∷ 50 ∷ [], pos 3) ∷ []), (99 ∷ [], pos 3) ∷ [])
unfolding eq_ℤ
listing_a =
    listing-Stream dirs it entries [] entries 4 4 (entries-Stream entries) (omega arith)
      (omega arith)

-- The pattern `*`.
abbrev all : Iterator
all = record { dir = 3; pattern = 42 ∷ [] }

listing-Stream_example : listing dirs 4 4 all entries ≡ (some entries, (99 ∷ [], pos 3) ∷ [])
listing-Stream_example =
    listing-Stream dirs all entries [] entries 4 4 (entries-Stream entries) (omega arith)
      (omega arith)

abbrev files : FsCalls ℕ
files = record {
  umask = λ mask w. (pos 18, w);
  access = λ p m w. (failed 2, w);
  stat = λ p w. (failed 2, w);
  lstat = λ p w. (failed 2, w);
  chroot = λ p w. (failed 1, w);
  chdir = λ p w. (failed 2, w);
  getcwd = λ w. (done (47 ∷ []), w);
  mkfifo = λ p m w. (failed 1, w);
  mkdir = λ p m w. (failed 1, w);
  rmdir = λ p w. (failed 1, w);
  chmod = λ p m w. (failed 1, w);
  chown = λ p u g w. (failed 1, w);
  rename = λ p q w. (failed 1, w);
  remove = λ p w. (failed 1, w);
  truncate = λ p n w. (failed 1, w);
  link = λ p q w. (failed 1, w);
  symlink = λ p q w. (failed 1, w);
  unlink = λ p w. (done tt, w + 1);
  readlink = λ p n w. (done (47 ∷ 116 ∷ []), w + 1);
  realpath = λ p w. (failed 2, w);
  stack = λ w. replicate path_max 7;
}

lfs_readlink_lem_example :
    ((lfs_readlink strerror files (108 ∷ []) 0).0 ≡ values (string (47 ∷ 116 ∷ []) ∷ []))
    ↔ (get_elem? (files.stack 0) 2 ≡ some 0)
lfs_readlink_lem_example =
    lfs_readlink_lem strerror files (108 ∷ []) (47 ∷ 116 ∷ []) 0 1 refl (omega arith)
      (length-replicate {A = ℕ} path_max 7) refl

-- `fs.unlink(path)` with the one argument that it is documented to take.
unlink_one :
    lfs_unlink strerror files ((47 ∷ []) ∷ []) 0 ≡ (arg_error 2 (text "string expected"), 0)
unfolding lfs_unlink
unlink_one = refl
