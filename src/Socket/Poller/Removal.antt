-- ===== src/Socket/Poller/Removal.antt =====
-- Taking an entry out of the selector's array of lsocklib.c: the last entry is copied over it, and the
-- array is one entry shorter.
use lua_xlib.Socket.Poller.Table.{Distinct, lookup}
use lua_xlib.Socket.Poller.{PollFd, index_of, copy_entry, zero_entry}
use lua_xlib.Base.Int.{ℤ, eq_ℤ, eq_ℤ_iff}
use lua_xlib.Base.{
  ℕ, List, get_elem?, set, suc, ◌≡◌, some, ◌∷◌, arith, if◌then◌else◌, none, zero, ◌∙◌, [], ◌<◌,
  refl, Bool-cases, inl, inr, length, ltb, get_elem?-some, dec_lt, length-set,
}

-- The last of `suc n` entries is found after the `n` before it.
lookup-last :
    (j : ℤ) (n : ℕ) (ps : List PollFd) (z : PollFd)
    → get_elem? ps n ≡ some z
    → lookup j (suc n) ps ≡ elim (lookup j n ps) [
      | some e ↦ some e
      | none ↦ if eq_ℤ z.fd j then some z.events else none
    ]
lookup-last j n [] z h = cc
lookup-last j zero (p ∷ ps) z h = ground arith
lookup-last j (suc n) (p ∷ ps) z h = ground (arith, lookup-last j n ps z h)

last_new :
    (n : ℕ) (ps : List PollFd) (z : PollFd)
    → get_elem? ps n ≡ some z
    → Distinct (suc n) ps
    → lookup z.fd n ps ≡ none
last_new n [] z h d = cc
last_new zero (p ∷ ps) z h d = refl
last_new (suc n) (p ∷ ps) z h d = ground (
  arith,
  last_new n ps z h d.1,
  lookup-last p.fd n ps z h,
  d.0,
  eq_ℤ_iff p.fd z.fd,
  eq_ℤ_iff z.fd p.fd,
)

lookup-shrink :
    (j : ℤ) (n : ℕ) (ps : List PollFd) → lookup j (suc n) ps ≡ none → lookup j n ps ≡ none
lookup-shrink j zero ps h = refl
lookup-shrink j (suc n) [] h = refl
lookup-shrink j (suc n) (p ∷ ps) h = ground (arith, lookup-shrink j n ps)

Distinct-shrink : (n : ℕ) (ps : List PollFd) → Distinct (suc n) ps → Distinct n ps
Distinct-shrink zero ps d = tt
Distinct-shrink (suc n) [] d = tt
Distinct-shrink (suc n) (p ∷ ps) d = (lookup-shrink p.fd n ps d.0, Distinct-shrink n ps d.1)

-- Behind the first `n` entries nothing that is written is found among them.
lookup-set_behind :
    (j : ℤ) (n : ℕ) (ps : List PollFd) (q : PollFd) → lookup j n (set ps n q) ≡ lookup j n ps
lookup-set_behind j n [] q = refl
lookup-set_behind j zero (p ∷ ps) q = refl
lookup-set_behind j (suc n) (p ∷ ps) q = ground (arith, lookup-set_behind j n ps q)

Distinct-set_behind :
    (n : ℕ) (ps : List PollFd) (q : PollFd) → Distinct n ps → Distinct n (set ps n q)
Distinct-set_behind n [] q d = d
Distinct-set_behind zero (p ∷ ps) q d = tt
Distinct-set_behind (suc n) (p ∷ ps) q d =
    (lookup-set_behind p.fd n ps q ∙ d.0, Distinct-set_behind n ps q d.1)

-- Copying the last entry over that of `fd` takes `fd` out of the map, and no other descriptor.
lookup-copy_last :
    (j fd : ℤ) (n : ℕ) (ps : List PollFd) (z : PollFd)
    → get_elem? ps n ≡ some z
    → Distinct (suc n) ps
    → index_of fd (suc n) ps < n
    → lookup j n (set ps (index_of fd (suc n) ps) z)
      ≡ (if eq_ℤ fd j then none else lookup j (suc n) ps)
lookup-copy_last j fd n [] z h d i = cc
lookup-copy_last j fd zero (p ∷ ps) z h d i = elim i [ ]
lookup-copy_last j fd (suc n) (p ∷ ps) z h d i = elim (Bool-cases (eq_ℤ p.fd fd)) [
  | inl e ↦ ground (
    arith,
    e,
    lookup-last j n ps z h,
    last_new n ps z h d.1,
    d.0,
    eq_ℤ_iff p.fd fd,
    eq_ℤ_iff p.fd j,
    eq_ℤ_iff fd j,
    eq_ℤ_iff z.fd j,
  )
  | inr ne ↦ ground (
    arith,
    ne,
    lookup-copy_last j fd n ps z h d.1,
    eq_ℤ_iff p.fd fd,
    eq_ℤ_iff p.fd j,
    eq_ℤ_iff fd j,
  )
]

-- Where `fd` has the last entry, leaving that out is enough.
lookup-drop_last :
    (j fd : ℤ) (n : ℕ) (ps : List PollFd) (z : PollFd)
    → get_elem? ps n ≡ some z
    → Distinct (suc n) ps
    → index_of fd (suc n) ps ≡ n
    → lookup j n ps ≡ (if eq_ℤ fd j then none else lookup j (suc n) ps)
lookup-drop_last j fd n [] z h d i = cc
lookup-drop_last j fd zero (p ∷ ps) z h d i =
    ground (arith, eq_ℤ_iff p.fd fd, eq_ℤ_iff p.fd j, eq_ℤ_iff fd j)
lookup-drop_last j fd (suc n) (p ∷ ps) z h d i =
    ground
      (arith, lookup-drop_last j fd n ps z h d.1, eq_ℤ_iff p.fd fd, eq_ℤ_iff p.fd j, eq_ℤ_iff fd j)

Distinct-copy_last :
    (fd : ℤ) (n : ℕ) (ps : List PollFd) (z : PollFd)
    → get_elem? ps n ≡ some z
    → Distinct (suc n) ps
    → index_of fd (suc n) ps < n
    → Distinct n (set ps (index_of fd (suc n) ps) z)
Distinct-copy_last fd n [] z h d i = cc
Distinct-copy_last fd zero (p ∷ ps) z h d i = tt
Distinct-copy_last fd (suc n) (p ∷ ps) z h d i = elim (Bool-cases (eq_ℤ p.fd fd)) [
  | inl e ↦ rw e (last_new n ps z h d.1, Distinct-shrink n ps d.1)
  | inr ne ↦
      let i' : index_of fd (suc n) ps < n = ground (arith, ne) in
      rw ne (
        ground (arith, lookup-copy_last p.fd fd n ps z h d.1 i', d.0),
        Distinct-copy_last fd n ps z h d.1 i',
      )
]

-- The array after `poller:unregister` of a descriptor that it holds.
abbrev pub removed : ℤ → ℕ → List PollFd → List PollFd
removed fd n ps =
    let i = index_of fd (suc n) ps in set (if ltb i n then copy_entry ps i n else ps) n zero_entry

pub removed_lem :
    (j fd : ℤ) (n : ℕ) (ps : List PollFd)
    → n < length ps
    → Distinct (suc n) ps
    → index_of fd (suc n) ps < suc n
    → (lookup j n (removed fd n ps) ≡ (if eq_ℤ fd j then none else lookup j (suc n) ps))
      × Distinct n (removed fd n ps)
      × (length (removed fd n ps) ≡ length ps)
removed_lem j fd n ps room d h =
    let (z, last) = get_elem?-some ps n room in
    let i : ℕ = index_of fd (suc n) ps in
    elim (dec_lt i n) [
      | yes inner ↦
          let qs : List PollFd = set ps i z in
          let here : removed fd n ps ≡ set qs n zero_entry = ground (arith, last) in
          rw here (
            lookup-set_behind j n qs zero_entry ∙ lookup-copy_last j fd n ps z last d inner,
            Distinct-set_behind n qs zero_entry (Distinct-copy_last fd n ps z last d inner),
            length-set qs n zero_entry ∙ length-set ps i z,
          )
      | no outer ↦
          let here : removed fd n ps ≡ set ps n zero_entry = ground arith in
          rw here (
            lookup-set_behind j n ps zero_entry ∙ lookup-drop_last j fd n ps z last d (omega arith),
            Distinct-set_behind n ps zero_entry (Distinct-shrink n ps d),
            length-set ps n zero_entry,
          )
    ]
