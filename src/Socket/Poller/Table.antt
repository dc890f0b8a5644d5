-- ===== src/Socket/Poller/Table.antt =====
-- The array of the selector of lsocklib.c as a map from descriptors to events: what each way of
-- writing an entry does to the entry of every descriptor.
use lua_xlib.Socket.Poller.{PollFd, index_of, set_events}
use lua_xlib.Base.Int.{ℤ, eq_ℤ, eq_ℤ_iff}
use lua_xlib.Base.{
  ℕ, List, Option, length, suc, ◌<◌, ◌≡◌, if◌then◌else◌, none, ◌+◌, ◌∷◌, ◌≤◌, ap, arith, set, zero,
  ◌⊎◌, refl, some, inl, Bool-cases, inr, [], ◌++◌, ◌∙◌,
}

-- The events under which a descriptor stands in the first `n` entries.
abbrev pub lookup : ℤ → ℕ → List PollFd → Option ℤ
lookup j zero ps = none
lookup j (suc n) [] = none
lookup j (suc n) (p ∷ ps) = if eq_ℤ p.fd j then some p.events else lookup j n ps

-- No descriptor stands twice in the first `n` entries.
abbrev pub Distinct : ℕ → List PollFd → Type 0
Distinct zero ps = Unit {0}
Distinct (suc n) [] = Unit {0}
Distinct (suc n) (p ∷ ps) = (lookup p.fd n ps ≡ none) × Distinct n ps

pub index_of-le : (j : ℤ) (n : ℕ) (ps : List PollFd) → index_of j n ps ≤ n
index_of-le j zero ps = omega arith
index_of-le j (suc n) [] = omega arith
index_of-le j (suc n) (p ∷ ps) = ground (arith, index_of-le j n ps)

-- The search finds exactly the descriptors that the map holds.
pub index_of-lookup :
    (j : ℤ) (n : ℕ) (ps : List PollFd)
    → ((index_of j n ps ≡ n) × (lookup j n ps ≡ none))
      ⊎ ((e : ℤ) × (index_of j n ps < n) × (lookup j n ps ≡ some e))
index_of-lookup j zero ps = inl (refl, refl)
index_of-lookup j (suc n) [] = inl (refl, refl)
index_of-lookup j (suc n) (p ∷ ps) = elim (Bool-cases (eq_ℤ p.fd j)) [
  | inl e ↦ inr (p.events, ground arith, ground arith)
  | inr ne ↦ elim (index_of-lookup j n ps) [
    | inl (i, l) ↦ inl (ground arith, ground arith)
    | inr (e, i, l) ↦ inr (e, ground arith, ground arith)
  ]
]

pub length-set_events : (ps : List PollFd) (i : ℕ) (e : ℤ) → length (set_events ps i e) ≡ length ps
length-set_events [] i e = refl
length-set_events (p ∷ ps) zero e = refl
length-set_events (p ∷ ps) (suc i) e = ap suc (length-set_events ps i e)

pub lookup-set_events :
    (j fd e : ℤ) (n : ℕ) (ps : List PollFd)
    → index_of fd n ps < n
    → lookup j n (set_events ps (index_of fd n ps) e)
      ≡ (if eq_ℤ fd j then some e else lookup j n ps)
lookup-set_events j fd e zero ps h = elim h [ ]
lookup-set_events j fd e (suc n) [] h = absurd (omega arith)
lookup-set_events j fd e (suc n) (p ∷ ps) h =
    ground (arith, lookup-set_events j fd e n ps, eq_ℤ_iff p.fd fd, eq_ℤ_iff p.fd j, eq_ℤ_iff fd j)

lookup-set_events-none :
    (j e : ℤ) (i n : ℕ) (ps : List PollFd)
    → lookup j n ps ≡ none
    → lookup j n (set_events ps i e) ≡ none
lookup-set_events-none j e i zero ps h = refl
lookup-set_events-none j e i (suc n) [] h = refl
lookup-set_events-none j e zero (suc n) (p ∷ ps) h = ground arith
lookup-set_events-none j e (suc i) (suc n) (p ∷ ps) h =
    ground (arith, lookup-set_events-none j e i n ps)

pub Distinct-set_events :
    (e : ℤ) (i n : ℕ) (ps : List PollFd) → Distinct n ps → Distinct n (set_events ps i e)
Distinct-set_events e i zero ps d = tt
Distinct-set_events e i (suc n) [] d = tt
Distinct-set_events e zero (suc n) (p ∷ ps) d = d
Distinct-set_events e (suc i) (suc n) (p ∷ ps) d =
    (lookup-set_events-none p.fd e i n ps d.0, Distinct-set_events e i n ps d.1)

-- An entry written behind the first `n` is found last.
pub lookup-set_last :
    (j : ℤ) (n : ℕ) (ps : List PollFd) (q : PollFd)
    → n < length ps
    → lookup j (n + 1) (set ps n q) ≡ elim (lookup j n ps) [
      | some e ↦ some e
      | none ↦ if eq_ℤ q.fd j then some q.events else none
    ]
lookup-set_last j n [] q h = elim h [ ]
lookup-set_last j zero (p ∷ ps) q h = refl
lookup-set_last j (suc n) (p ∷ ps) q h =
    let e : suc n + 1 ≡ suc (n + 1) = omega arith in rw e (ground (arith, lookup-set_last j n ps q))

pub Distinct-set_last :
    (n : ℕ) (ps : List PollFd) (q : PollFd)
    → n < length ps
    → lookup q.fd n ps ≡ none
    → Distinct n ps
    → Distinct (n + 1) (set ps n q)
Distinct-set_last n [] q h l d = elim h [ ]
Distinct-set_last zero (p ∷ ps) q h l d = (refl, tt)
Distinct-set_last (suc n) (p ∷ ps) q h l d =
    let e : suc n + 1 ≡ suc (n + 1) = omega arith in
    rw e (
      ground (
        arith,
        lookup-set_last p.fd n ps q,
        Distinct-set_last n ps q,
        eq_ℤ_iff p.fd q.fd,
        eq_ℤ_iff q.fd p.fd,
      ))

-- What stands behind the array does not matter.
pub lookup-append :
    (j : ℤ) (n : ℕ) (ps qs : List PollFd) → n ≤ length ps → lookup j n (ps ++ qs) ≡ lookup j n ps
lookup-append j zero ps qs h = refl
lookup-append j (suc n) [] qs h = absurd (omega arith)
lookup-append j (suc n) (p ∷ ps) qs h = ground (arith, lookup-append j n ps qs)

pub Distinct-append :
    (n : ℕ) (ps qs : List PollFd) → n ≤ length ps → Distinct n ps → Distinct n (ps ++ qs)
Distinct-append zero ps qs h d = tt
Distinct-append (suc n) [] qs h d = absurd (omega arith)
Distinct-append (suc n) (p ∷ ps) qs h d =
    (lookup-append p.fd n ps qs (omega arith) ∙ d.0, Distinct-append n ps qs (omega arith) d.1)
