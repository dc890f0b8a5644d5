-- ===== src/Socket/Poller.antt =====
-- lsocklib.c, the selector object of the build without USE_EPOLL: an array of `struct pollfd` that
-- grows by doubling, and the iterator that `poller:select` returns.
-- Other code decides what `realloc` leaves behind the old entries, and what `poll` answers.
pub mod Table
pub mod Removal
pub mod Registry
pub mod Iteration
mod Tests
use lua_xlib.Base.Words.{to_int, to_short}
use lua_xlib.Base.Int.{pos, ℤ, eq_ℤ}
use lua_xlib.Lua.{
  Bytes, SysRet, Reply, failed, values, boolean, report_errmsg, lret_boolean, lret_nil, text, done,
}
use lua_xlib.Base.{
  ℕ, Bool, List, Option, replicate, get_elem?, none, not, set, suc, ◌-◌, ◌∷◌, [], drop,
  if◌then◌else◌, some, zero, ◌+◌, ltb, take, ◌==◌, true, ◌++◌, ◌*◌,
}

pub record PollFd : Type 0 where
  pub fd : ℤ
  pub events : ℤ
  pub revents : ℤ

pub record PollObj : Type 0 where
  pub len : ℕ
  pub size : ℕ
  pub fds : List PollFd

-- `realloc` grows the array by the number of entries given, and shows what it finds in the new ones;
-- `poll` answers with a count and the `revents` of each entry.
pub record PollCalls (W : Type 0) : Type 0 where
  pub realloc : ℕ → W → SysRet (List PollFd) × W
  pub poll : List PollFd → ℤ → W → SysRet (ℕ × List ℤ) × W

abbrev pub zero_entry : PollFd
zero_entry = record { fd = pos 0; events = pos 0; revents = pos 0 }

-- `for(i=0; i<len; i++) if (fds[i].fd == fd) break;`: the first index with that descriptor, or `len`.
abbrev pub index_of : ℤ → ℕ → List PollFd → ℕ
index_of fd zero ps = 0
index_of fd (suc n) [] = suc n
index_of fd (suc n) (p ∷ ps) = if eq_ℤ p.fd fd then 0 else suc (index_of fd n ps)

-- `fds[i].events = events`
abbrev pub set_events : List PollFd → ℕ → ℤ → List PollFd
set_events [] i events = []
set_events (p ∷ ps) zero events = record p { events = events } ∷ ps
set_events (p ∷ ps) (suc i) events = p ∷ set_events ps i events

-- `for(i=0; i<len; i++) fds[i].revents = 0;`, and what `poll` writes into the first `len` entries.
abbrev pub set_revents : ℕ → List ℤ → List PollFd → List PollFd
set_revents zero rs ps = ps
set_revents (suc n) rs [] = []
set_revents (suc n) [] (p ∷ ps) = record p { revents = pos 0 } ∷ set_revents n [] ps
set_revents (suc n) (r ∷ rs) (p ∷ ps) = record p { revents = r } ∷ set_revents n rs ps

-- `fds[i] = fds[j]`
abbrev pub copy_entry : List PollFd → ℕ → ℕ → List PollFd
copy_entry ps i j = elim (get_elem? ps j) [ none ↦ ps | some p ↦ set ps i p ]

-- `socket.PollSelector()`
unfoldable pub lsock_PollSelector : PollObj
lsock_PollSelector = record { len = 0; size = 64; fds = replicate 64 zero_entry }

abbrev pub never_registered : (ℕ → Bytes) → Reply
never_registered strerror =
    values (report_errmsg strerror lret_boolean 0 (some (text "file descriptor never registered")))

-- The entry that `poller:register` writes behind the others.
abbrev pub append_entry : ℤ → ℤ → PollObj → PollObj
append_entry fd events p = record p {
  fds = set p.fds p.len (record { fd = fd; events = events; revents = pos 0 });
  len = p.len + 1;
}

module _ {W : Type 0} (strerror : ℕ → Bytes) where
  abbrev succeed : PollObj → W → Reply × PollObj × W
  succeed p w = (values (boolean true ∷ []), p, w)

  -- The methods after their arguments are converted to `int`, and the events to `short`.
  modify_at : ℤ → ℤ → PollObj → W → Reply × PollObj × W
  modify_at fd events p w =
      let i = index_of fd p.len p.fds in
      if ltb i p.len
      then succeed (record p { fds = set_events p.fds i events }) w
      else (never_registered strerror, p, w)

  unregister_at : ℤ → PollObj → W → Reply × PollObj × W
  unregister_at fd p w =
      let i = index_of fd p.len p.fds in
      if i == p.len
      then (never_registered strerror, p, w)
      else let ps = if ltb i (p.len - 1) then copy_entry p.fds i (p.len - 1) else p.fds in
        succeed (record p { fds = set ps (p.len - 1) zero_entry; len = p.len - 1 }) w

  -- `poller:modify(sockfd, events)`
  unfoldable pub lpoll_modify : ℤ → ℤ → PollObj → W → Reply × PollObj × W
  unfolding modify_at
  lpoll_modify fd events = modify_at (to_int fd) (to_short events)

  -- `poller:unregister(sockfd)`
  unfoldable pub lpoll_unregister : ℤ → PollObj → W → Reply × PollObj × W
  unfolding unregister_at
  lpoll_unregister fd = unregister_at (to_int fd)

  -- `poller:clear()`
  unfoldable pub lpoll_clear : PollObj → W → Reply × PollObj × W
  lpoll_clear p w = (values [], record p { len = 0; fds = replicate p.size zero_entry }, w)

  module _ (calls : PollCalls W) where
    abbrev pub grown : SysRet (List PollFd) × W → ℤ → ℤ → PollObj → Reply × PollObj × W
    grown (failed e, w) fd events p =
        (values (report_errmsg strerror lret_boolean e (some (text "realloc()"))), p, w)
    grown (done more, w) fd events p =
        succeed (append_entry fd events (record p { fds = p.fds ++ more; size = p.size * 2 })) w

    register_at : ℤ → ℤ → PollObj → W → Reply × PollObj × W
    register_at fd events p w =
        let i = index_of fd p.len p.fds in
        if ltb i p.len
        then succeed (record p { fds = set_events p.fds i events }) w
        else if i == p.size
        then grown (calls.realloc p.size w) fd events p
        else succeed (append_entry fd events p) w

    -- `poller:register(sockfd, events)`
    unfoldable pub lpoll_register : ℤ → ℤ → PollObj → W → Reply × PollObj × W
    unfolding register_at
    lpoll_register fd events = register_at (to_int fd) (to_short events)

    abbrev polled : SysRet (ℕ × List ℤ) × W → PollObj → Option ℕ × Reply × PollObj × W
    polled (failed e, w) p =
        (none, values (report_errmsg strerror lret_nil e (some (text "poll()"))), p, w)
    polled (done (n, rs), w) p =
        (some 0, values [], record p { fds = set_revents p.len rs p.fds }, w)

    -- `poller:select([timeout=-1])`, with the timeout in milliseconds: the position of the iterator
    -- that it returns, or its error.
    unfoldable pub lpoll_select : ℤ → PollObj → W → Option ℕ × Reply × PollObj × W
    lpoll_select timeout p w =
        let cleared = record p { fds = set_revents p.len [] p.fds } in
        polled (calls.poll (take p.len cleared.fds) timeout w) cleared

-- `poller->fds[i].revents != 0`
abbrev pub is_ready : PollFd → Bool
is_ready p = not (eq_ℤ p.revents (pos 0))

-- The loop of the iterator over the entries from `i` on, `n` of them left: the next position, and the
-- entry found.
abbrev pub next_ready : ℕ → ℕ → List PollFd → Option (ℕ × PollFd)
next_ready zero i ps = none
next_ready (suc n) i [] = none
next_ready (suc n) i (p ∷ ps) =
    let rest = next_ready n (i + 1) ps in if is_ready p then some (i + 1, p) else rest

-- A call of the iterator at position `i`: the descriptor, its events and the new position.
unfoldable pub lpoll_nextevents : PollObj → ℕ → Option (ℕ × ℤ × ℤ)
lpoll_nextevents p i = elim (next_ready (p.len - i) i (drop i p.fds)) [
  | none ↦ none
  | some (j, e) ↦ some (j, e.fd, e.revents)
]
