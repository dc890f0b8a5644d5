-- ===== src/Socket/Poller/Registry.antt =====
-- `poller:register`, `poller:modify`, `poller:unregister` and `poller:clear` of lsocklib.c as operations
-- on a finite map from descriptors to events.
use lua_xlib.Socket.Poller.Removal.{removed_lem}
use lua_xlib.Socket.Poller.Table.{
  length-set_events, lookup, Distinct, Distinct-set_events, Distinct-append, lookup-set_last,
  Distinct-set_last, index_of-lookup, lookup-set_events, lookup-append,
}
use lua_xlib.Base.Words.{to_int, to_short}
use lua_xlib.Base.Int.{ℤ, eq_ℤ, pos, eq_ℤ_iff}
use lua_xlib.Socket.Poller.{
  PollObj, lsock_PollSelector, ℤ, PollFd, lpoll_modify, lpoll_unregister, set_events, to_int,
  zero_entry, append_entry, never_registered, PollCalls, modify_at, unregister_at, index_of,
  copy_entry, lpoll_clear, lpoll_register, register_at, grown,
}
use lua_xlib.Lua.{
  Bytes, values, boolean, done, Reply, SysRet, failed, report_errmsg, lret_boolean, text,
}
use lua_xlib.Base.{
  ℕ, List, arith, ◌≤◌, Option, length, length-replicate, ◌<◌, ◌≡◌, none, some, ◌++◌, ◌*◌,
  if◌then◌else◌, true, ◌∷◌, [], length-append, length-set, inl, inr, set, ◌-◌, ltb, suc, ℕ_discrete,
  ◌⊎◌, ◌∙◌, refl,
}

pub record IsValid (p : PollObj) : Type 0 where
  pub fits : p.len ≤ p.size
  pub room : length p.fds ≡ p.size
  pub grows : 0 < p.size
  pub distinct : Distinct p.len p.fds

-- The events for which the selector watches a descriptor.
abbrev pub events_of : PollObj → ℤ → Option ℤ
events_of p j = lookup j p.len p.fds

-- The first statement holds of a registered descriptor, the second of any other.
abbrev pub ByEntry : Option ℤ → Type 0 → Type 0 → Type 0
ByEntry (some e) registered other = registered
ByEntry none registered other = other

-- The entries that `realloc` adds are as many as were asked for.
abbrev pub ReallocGrows : {W : Type 0} → PollCalls W → Type 0
ReallocGrows {W} calls =
    (n : ℕ) (w w' : W) (more : List PollFd) → calls.realloc n w ≡ (done more, w') → length more ≡ n

pub lsock_PollSelector-IsValid : IsValid lsock_PollSelector
unfolding lsock_PollSelector
lsock_PollSelector-IsValid = ground (arith, length-replicate 64 zero_entry)

module _ (p : PollObj) (v : IsValid p) where
  set_events-IsValid : (i : ℕ) (e : ℤ) → IsValid (record p { fds = set_events p.fds i e })
  set_events-IsValid i e =
      ground (arith, length-set_events p.fds i e, Distinct-set_events e i p.len p.fds v.distinct)

  append_entry_lem :
      (j fd e : ℤ)
      → p.len < p.size
      → events_of p fd ≡ none
      → IsValid (append_entry fd e p)
        × (events_of (append_entry fd e p) j ≡ (if eq_ℤ fd j then some e else events_of p j))
  append_entry_lem j fd e h new =
      let q : PollFd = record { fd = fd; events = e; revents = pos 0 } in
      ground (
        arith,
        length-set p.fds p.len q,
        lookup-set_last j p.len p.fds q,
        Distinct-set_last p.len p.fds q,
        eq_ℤ_iff fd j,
        v.distinct,
        v.room,
      )

  grown-IsValid :
      (more : List PollFd)
      → length more ≡ p.size
      → IsValid (record p { fds = p.fds ++ more; size = p.size * 2 })
  grown-IsValid more h =
      ground (arith, length-append p.fds more, Distinct-append p.len p.fds more, v.room)

abbrev without : ℤ → PollObj → List PollFd
without fd p =
    let i = index_of fd p.len p.fds in
    set (if ltb i (p.len - 1) then copy_entry p.fds i (p.len - 1) else p.fds) (p.len - 1) zero_entry

removed_at :
    (p : PollObj)
    → IsValid p
    → (j fd : ℤ) → index_of fd p.len p.fds < p.len
    → (lookup j (p.len - 1) (without fd p) ≡ (if eq_ℤ fd j then none else lookup j p.len p.fds))
      × Distinct (p.len - 1) (without fd p)
      × (length (without fd p) ≡ length p.fds)
removed_at p v j fd i =
    let e : suc (p.len - 1) ≡ p.len = omega arith in
    let d : Distinct (suc (p.len - 1)) p.fds = rw e v.distinct in
    let h : index_of fd (suc (p.len - 1)) p.fds < suc (p.len - 1) = rw e i in
    rw e at (removed_lem j fd (p.len - 1) p.fds (omega (arith, v.fits, v.room)) d h)

module _ {W : Type 0} (strerror : ℕ → Bytes) (p : PollObj) (v : IsValid p) (w : W) where
  modify_at_lem :
      (j fd events : ℤ)
      → let (r, p', w') = modify_at strerror fd events p w in
        IsValid p'
        × ByEntry
            (events_of p fd)
            ((r ≡ values (boolean true ∷ []))
              × (events_of p' j ≡ (if eq_ℤ fd j then some events else events_of p j)))
            ((r ≡ never_registered strerror) × (p' ≡ p))
  unfolding modify_at
  modify_at_lem j fd events = elim (index_of-lookup fd p.len p.fds) [
    | inl (i, l) ↦ ground (arith, i, l)
    | inr (e, i, l) ↦ ground (
      arith,
      i,
      l,
      lookup-set_events j fd events p.len p.fds i,
      set_events-IsValid p v (index_of fd p.len p.fds) events,
    )
  ]

  unregister_at_lem :
      (j fd : ℤ)
      → let (r, p', w') = unregister_at strerror fd p w in
        IsValid p'
        × ByEntry
            (events_of p fd)
            ((r ≡ values (boolean true ∷ []))
              × (events_of p' j ≡ (if eq_ℤ fd j then none else events_of p j)))
            ((r ≡ never_registered strerror) × (p' ≡ p))
  unfolding unregister_at
  unregister_at_lem j fd = elim (index_of-lookup fd p.len p.fds) [
    | inl (i, l) ↦ ground (arith, i, l)
    | inr (e, i, l) ↦ ground (arith, i, l, removed_at p v j fd i)
  ]

module _ {W : Type 0} (strerror : ℕ → Bytes) (p : PollObj) (v : IsValid p) (w : W) (j fd : ℤ) where
  -- `poller:modify` on a registered descriptor changes its events and no other's, and keeps the
  -- selector valid; on any other descriptor it fails and changes nothing.
  pub lpoll_modify_lem :
      (events : ℤ)
      → let (r, p', w') = lpoll_modify strerror fd events p w in
        IsValid p'
        × ByEntry
            (events_of p (to_int fd))
            ((r ≡ values (boolean true ∷ []))
              × (events_of p' j
                  ≡ (if eq_ℤ (to_int fd) j then some (to_short events) else events_of p j)))
            ((r ≡ never_registered strerror) × (p' ≡ p))
  unfolding lpoll_modify
  lpoll_modify_lem events = modify_at_lem strerror p v w j (to_int fd) (to_short events)

  -- `poller:unregister` on a registered descriptor takes it out of the selector, and no other, and keeps
  -- the selector valid; on any other descriptor it fails and changes nothing.
  pub lpoll_unregister_lem :
      let (r, p', w') = lpoll_unregister strerror fd p w in
      IsValid p'
      × ByEntry
          (events_of p (to_int fd))
          ((r ≡ values (boolean true ∷ []))
            × (events_of p' j ≡ (if eq_ℤ (to_int fd) j then none else events_of p j)))
          ((r ≡ never_registered strerror) × (p' ≡ p))
  unfolding lpoll_unregister
  lpoll_unregister_lem = unregister_at_lem strerror p v w j (to_int fd)

-- `poller:register` has added `fd` to the map, or changed its events; or it failed for want of memory,
-- which it asks for only where `fd` is new and the array is full, and changed nothing.
abbrev pub Registered :
    {W : Type 0}
    → (ℕ → Bytes)
    → PollCalls W
    → PollObj
    → W
    → ℤ
    → ℤ
    → ℤ
    → Reply × PollObj × W
    → Type 0
Registered strerror calls p w j fd events (r, p', w') =
    IsValid p'
    × (((r ≡ values (boolean true ∷ []))
          × (events_of p' j ≡ (if eq_ℤ fd j then some events else events_of p j)))
        ⊎ ((p' ≡ p)
            × (events_of p fd ≡ none)
            × (p.len ≡ p.size)
            × (e : ℕ) × (calls.realloc p.size w ≡ (failed e, w'))
            × (r ≡ values (report_errmsg strerror lret_boolean e (some (text "realloc()"))))))

module _ {W : Type 0} (strerror : ℕ → Bytes) (calls : PollCalls W) (p : PollObj) (v : IsValid p)
    (w : W) where
  grown_lem :
      (j fd events : ℤ) (a : SysRet (List PollFd) × W)
      → ReallocGrows calls
      → calls.realloc p.size w ≡ a
      → events_of p fd ≡ none
      → p.len ≡ p.size
      → Registered strerror calls p w j fd events (grown strerror calls a fd events p)
  grown_lem j fd events (failed e, w') law c l full = (v, inr (refl, l, full, e, c, refl))
  grown_lem j fd events (done more, w') law c l full =
      let p2 : PollObj = record p { fds = p.fds ++ more; size = p.size * 2 } in
      let v2 : IsValid p2 = grown-IsValid p v more (law p.size w w' more c) in
      let stays : (i : ℤ) → lookup i p.len (p.fds ++ more) ≡ lookup i p.len p.fds =
        λ i. lookup-append i p.len p.fds more (omega (arith, v.room)) in
      let added : IsValid (append_entry fd events p2)
          × (events_of (append_entry fd events p2) j
              ≡ (if eq_ℤ fd j then some events else events_of p2 j)) =
        append_entry_lem p2 v2 j fd events (omega (arith, v.grows)) (stays fd ∙ l) in
      (added.0, inl (refl, rw (← stays j) added.1))

  register_at_lem :
      (j fd events : ℤ)
      → ReallocGrows calls
      → Registered strerror calls p w j fd events (register_at strerror calls fd events p w)
  unfolding register_at
  register_at_lem j fd events law = elim (index_of-lookup fd p.len p.fds) [
    | inl (i, l) ↦ elim (ℕ_discrete p.len p.size) [
      | yes full ↦
          let step : register_at strerror calls fd events p w
              ≡ grown strerror calls (calls.realloc p.size w) fd events p =
            ground (arith, i, full) in
          rw step (grown_lem j fd events (calls.realloc p.size w) law refl l full)
      | no room ↦
          let step : register_at strerror calls fd events p w
              ≡ (values (boolean true ∷ []), append_entry fd events p, w) =
            ground (arith, i) in
          let added : IsValid (append_entry fd events p)
              × (events_of (append_entry fd events p) j
                  ≡ (if eq_ℤ fd j then some events else events_of p j)) =
            append_entry_lem p v j fd events (omega (arith, v.fits)) l in
          rw step (added.0, inl (refl, added.1))
    ]
    | inr (e, i, l) ↦
        let ps : List PollFd = set_events p.fds (index_of fd p.len p.fds) events in
        let step : register_at strerror calls fd events p w
            ≡ (values (boolean true ∷ []), record p { fds = ps }, w) =
          ground (arith, i) in
        rw step (
          set_events-IsValid p v (index_of fd p.len p.fds) events,
          inl (refl, lookup-set_events j fd events p.len p.fds i),
        )
  ]

  -- `poller:register` on a valid selector, if `realloc` adds as many entries as it is asked for: the
  -- selector stays valid, and either watches the descriptor for the given events, and every other as
  -- before; or `realloc` failed, which is called only for a new descriptor and a full array, its error
  -- is reported, and the selector is as before.
  pub lpoll_register_lem :
      (j fd events : ℤ)
      → ReallocGrows calls
      → Registered strerror calls p w j
          (to_int fd)
          (to_short events)
          (lpoll_register strerror calls fd events p w)
  unfolding lpoll_register
  lpoll_register_lem j fd events law = register_at_lem j (to_int fd) (to_short events) law

-- `poller:clear` leaves a valid selector that watches no descriptor.
pub lpoll_clear_lem :
    {W : Type 0} (strerror : ℕ → Bytes) (p : PollObj) (w : W) (j : ℤ)
    → IsValid p
    → let (r, p', w') = lpoll_clear strerror p w in IsValid p' × (events_of p' j ≡ none)
unfolding lpoll_clear
lpoll_clear_lem strerror p w j v = ground (arith, length-replicate p.size zero_entry)
