-- ===== src/Socket/Poller/Iteration.antt =====
-- The iterator that `poller:select` of lsocklib.c returns: what a `for` loop over it sees, and what it
-- sees if the loop unregisters the descriptor that it was just given.
use lua_xlib.Base.Words.{to_int}
use lua_xlib.Socket.Poller.Registry.{IsValid}
use lua_xlib.Lua.{Bytes}
use lua_xlib.Base.Int.{ℤ}
use lua_xlib.Socket.Poller.{
  PollObj, PollFd, ℤ, next_ready, lpoll_nextevents, is_ready, lpoll_unregister, Bytes, index_of,
  to_int, unregister_at, zero_entry,
}
use lua_xlib.Base.{
  ℕ, List, Option, [], suc, ◌≡◌, some, ◌∷◌, if◌then◌else◌, zero, ◌+◌, drop, refl, none, Bool-cases,
  false, ◌<◌, arith, inl, ◌-◌, drop-drop, inr, ap, set, ◌≤◌, get_elem?-some, ◌∙◌,
}

-- The descriptors with events among the first `n` entries, in order.
abbrev pub ready : ℕ → List PollFd → List (ℤ × ℤ)
ready zero ps = []
ready (suc n) [] = []
ready (suc n) (p ∷ ps) = if is_ready p then (p.fd, p.revents) ∷ ready n ps else ready n ps

-- `for fd, revents in iterator`, from position `i` on, for at most so many rounds.
unfoldable pub collect : ℕ → PollObj → ℕ → List (ℤ × ℤ)
collect zero p i = []
collect (suc fuel) p i = elim (lpoll_nextevents p i) [
  | none ↦ []
  | some (j, fd, revents) ↦ (fd, revents) ∷ collect fuel p j
]

-- Where the loop of the iterator finds nothing, nothing is ready; where it finds an entry, it stands
-- behind that, and the ready ones from there on are left.
Found : ℕ → ℕ → List PollFd → Option (ℕ × PollFd) → Type 0
Found n i ps none = ready n ps ≡ []
Found n i ps (some (j, e)) =
    (k : ℕ) × (m : ℕ) × (j ≡ i + suc k)
    × (n ≡ suc k + m)
    × (ready n ps ≡ (e.fd, e.revents) ∷ ready m (drop (suc k) ps))

Found-skip :
    (n i : ℕ) (p : PollFd) (ps : List PollFd) (o : Option (ℕ × PollFd))
    → is_ready p ≡ false
    → Found n (i + 1) ps o
    → Found (suc n) i (p ∷ ps) o
unfolding Found
Found-skip n i p ps none r h = rw r h
Found-skip n i p ps (some (j, e)) r (k, m, a, b, c) = (suc k, m, omega arith, omega arith, rw r c)

next_ready-Found : (n i : ℕ) (ps : List PollFd) → Found n i ps (next_ready n i ps)
unfolding Found
next_ready-Found zero i ps = refl
next_ready-Found (suc n) i [] = refl
next_ready-Found (suc n) i (p ∷ ps) = elim (Bool-cases (is_ready p)) [
  | inl r ↦ rw r (0, n, refl, omega arith, rw r)
  | inr r ↦ rw r (Found-skip n i p ps (next_ready n (i + 1) ps) r (next_ready-Found n (i + 1) ps))
]

collect_step :
    (f : ℕ) (p : PollObj) (i n : ℕ) (o : Option (ℕ × PollFd))
    → ((j m : ℕ) → j + m ≡ p.len → m < f → collect f p j ≡ ready m (drop j p.fds))
    → i + n ≡ p.len
    → n < suc f
    → next_ready (p.len - i) i (drop i p.fds) ≡ o
    → Found n i (drop i p.fds) o
    → collect (suc f) p i ≡ ready n (drop i p.fds)
unfolding collect lpoll_nextevents Found
collect_step f p i n none ih len fuel next found = ground (arith, next, found)
collect_step f p i n (some (j, e)) ih len fuel next (k, m, a, b, c) =
    let round : collect (suc f) p i ≡ (e.fd, e.revents) ∷ collect f p j = ground (arith, next) in
    let rest : drop (suc k) (drop i p.fds) ≡ drop j p.fds = rw a (drop-drop i (suc k) p.fds) in
    rw (round, c, rest) (ap (◌∷◌ (e.fd, e.revents)) (ih j m (omega arith) (omega arith)))

-- From position `i` on, a loop with fuel for one round more than there are entries left sees exactly
-- the ready ones of these, in order.
collect_from :
    (f : ℕ) (p : PollObj) (i n : ℕ) → i + n ≡ p.len → n < f → collect f p i ≡ ready n (drop i p.fds)
unfolding collect
collect_from zero p i n len fuel = absurd (omega arith)
collect_from (suc f) p i n len fuel =
    let e : p.len - i ≡ n = omega arith in
    collect_step f p i n (next_ready (p.len - i) i (drop i p.fds)) (λ j m. collect_from f p j m) len
      fuel refl (rw e (next_ready-Found n i (drop i p.fds)))

-- If nothing changes the selector during the loop, the loop sees every ready descriptor once, in order, and ends
-- within one round more than there are entries.
pub collect_all : (p : PollObj) → collect (suc p.len) p 0 ≡ ready p.len p.fds
collect_all p = collect_from (suc p.len) p 0 p.len (omega arith) (omega arith)

drop-set_before :
    (ps : List PollFd) (i : ℕ) (q : PollFd) → drop (suc i) (set ps i q) ≡ drop (suc i) ps
drop-set_before [] i q = refl
drop-set_before (p ∷ ps) zero q = refl
drop-set_before (p ∷ ps) (suc i) q = drop-set_before ps i q

ready-set_behind :
    (j m n : ℕ) (ps : List PollFd) (q : PollFd)
    → j + m ≤ n
    → ready m (drop j (set ps n q)) ≡ ready m (drop j ps)
ready-set_behind j m n [] q h = refl
ready-set_behind zero zero n (p ∷ ps) q h = refl
ready-set_behind zero (suc m) zero (p ∷ ps) q h = absurd (omega arith)
ready-set_behind zero (suc m) (suc n) (p ∷ ps) q h = ground (arith, ready-set_behind zero m n ps q)
ready-set_behind (suc j) m zero (p ∷ ps) q h = absurd (omega arith)
ready-set_behind (suc j) m (suc n) (p ∷ ps) q h = ready-set_behind j m n ps q (omega arith)

-- What the loop sees of the entries behind `i` after the last entry was copied there.
ready_copied :
    (ps : List PollFd) (i m n : ℕ) (z : PollFd)
    → i + 1 + m ≤ n
    → ready m (drop (i + 1) (set (set ps i z) n zero_entry)) ≡ ready m (drop (i + 1) ps)
ready_copied ps i m n z h =
    let e : i + 1 ≡ suc i = omega arith in
    ready-set_behind (i + 1) m n (set ps i z) zero_entry h
    ∙ ap (ready m) (rw e (drop-set_before ps i z))

collect-unregister_at :
    {W : Type 0} (strerror : ℕ → Bytes) (p : PollObj) (w : W) (fd : ℤ) (i fuel : ℕ)
    → IsValid p
    → index_of fd p.len p.fds ≡ i
    → i + 1 < p.len
    → p.len < fuel
    → collect fuel (unregister_at strerror fd p w).1 (i + 1)
      ≡ ready (p.len - 1 - (i + 1)) (drop (i + 1) p.fds)
collect-unregister_at strerror p w fd i fuel v at h f =
    let n : ℕ = p.len - 1 in
    let (z, last) = get_elem?-some p.fds (p.len - 1) (omega (arith, v.fits, v.room)) in
    let p' : PollObj = record p { fds = set (set p.fds i z) n zero_entry; len = n } in
    let step : (unregister_at strerror fd p w).1 ≡ p' =
      unfold unregister_at in ground (arith, at, last) in
    rw step (
      collect_from fuel p' (i + 1) (p.len - 1 - (i + 1)) (omega arith) (omega arith)
      ∙ ready_copied p.fds i (p.len - 1 - (i + 1)) n z (omega arith))

-- On a valid selector, a loop that unregisters the descriptor it was just given, where that stands at
-- index `i` and is not the last: from there on, given fuel for all rounds, it sees the ready entries that stood behind that one without the last, which now stands in a place
-- that the loop has passed.
pub collect-unregister :
    {W : Type 0} (strerror : ℕ → Bytes) (p : PollObj) (w : W) (fd : ℤ) (i fuel : ℕ)
    → IsValid p
    → index_of (to_int fd) p.len p.fds ≡ i
    → i + 1 < p.len
    → p.len < fuel
    → collect fuel (lpoll_unregister strerror fd p w).1 (i + 1)
      ≡ ready (p.len - 1 - (i + 1)) (drop (i + 1) p.fds)
unfolding lpoll_unregister
collect-unregister strerror p w fd i fuel v at h f =
    collect-unregister_at strerror p w (to_int fd) i fuel v at h f
