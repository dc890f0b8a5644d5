-- ===== src/Fd/Select.antt =====
-- lfdlib.c, `lfd_select`: which descriptors of a table can be read from or written to. An fd_set is a
-- list of its FD_SETSIZE bits; FD_SET and FD_ISSET outside it are the reply `overrun`.
pub mod Watching
use lua_xlib.Base.Words.{to_int}
use lua_xlib.Base.Int.{ℤ, negsuc, pos}
use lua_xlib.Lua.{
  Bytes, Fields, SysRet, Reply, end, failed, field, overrun, integer, report_error, lret_nil, done,
  values, table,
}
use mathlib.Core.Option
use lua_xlib.Base.{
  ℕ, Bool, Option, List, replicate, false, some, none, ◌∷◌, get_elem?, if◌then◌else◌, [], ltb,
  length, ◌+◌, set, true,
}

-- `FD_SETSIZE`
abbrev pub set_size : ℕ
set_size = 1024

-- `FD_ZERO`
abbrev pub empty_set : List Bool
empty_set = replicate set_size false

-- `FD_SET` and `FD_ISSET`; `none` for a number outside the set.
abbrev pub fd_set : ℤ → List Bool → Option (List Bool)
fd_set (negsuc n) fds = none
fd_set (pos n) fds = if ltb n (length fds) then some (set fds n true) else none

abbrev pub fd_isset : ℤ → List Bool → Option Bool
fd_isset (negsuc n) fds = none
fd_isset (pos n) fds = get_elem? fds n

-- `if (fd > nfd) nfd = fd;`, on `nfd + 1`
abbrev pub widest : ℤ → ℕ → ℕ
widest (negsuc n) count = count
widest (pos n) count = if ltb n count then count else n + 1

-- The loop that fills the set, with the `nfd + 1` of the descriptors so far. A number of the table is cut to an int.
unfoldable pub fill : List ℤ → ℕ → List Bool → Option (ℕ × List Bool)
fill [] count fds = some (count, fds)
fill (z ∷ zs) count fds = elim (fd_set (to_int z) fds) [
  | none ↦ none
  | some fds' ↦ fill zs (widest (to_int z) count) fds'
]

-- The loop that picks the descriptors that are still in the set. A number of the table is not cut here.
unfoldable pub pick : List ℤ → List Bool → Option (List ℤ)
pick [] fds = some []
pick (z ∷ zs) fds = elim (fd_isset z fds) [
  | none ↦ none
  | some b ↦ Option.map (λ (ready : List ℤ). if b then z ∷ ready else ready) (pick zs fds)
]

-- A table with the items 1, 2, ...
abbrev pub items : ℕ → List ℤ → Fields
items first [] = end
items first (z ∷ zs) = field (integer (pos first)) (integer z) (items (first + 1) zs)

module _ {W : Type 0} (strerror : ℕ → Bytes) where
  -- The end of `lfd_select`, by the answer of `select`: how many descriptors are ready, and the set.
  abbrev pub answered : List ℤ → SysRet (ℕ × List Bool) × W → Reply × W
  answered zs (failed e, w) = (report_error strerror lret_nil e, w)
  answered zs (done (retval, fds), w) =
      if ltb 0 retval
      then elim (pick zs fds) [
        | none ↦ (overrun, w)
        | some ready ↦ (values (table (items 1 ready) ∷ []), w)
      ]
      else (values (table end ∷ []), w)

  -- `fd.readable(fds[, timeout])` and `fd.writable(fds[, timeout])`, by the call of `select` on the set for
  -- reading or that for writing, with the timeout.
  unfoldable pub lfd_select :
      (select : ℕ → List Bool → W → SysRet (ℕ × List Bool) × W) → List ℤ → W → Reply × W
  lfd_select select zs w = elim (fill zs 0 empty_set) [
    | none ↦ (overrun, w)
    | some (count, fds) ↦ answered zs (select count fds w)
  ]
