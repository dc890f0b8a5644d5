-- ===== src/Sys/Signal/Replace.antt =====
-- lsyslib.c, `_sig_handler`: what changes where one entry of the table is replaced.
use lua_xlib.Sys.Signal.{
  SignalCalls, Disposition, Signals, release, unwrapped, caught, sig_handler, update,
}
use lua_xlib.Sys.Signal.Laws.{SignalLaws, IsValid, reaction, react}
use lua_xlib.Base.{
  ℕ, ◌≡◌, ◌≢◌, Option, none, some, refl, ap, sym, ◌∙◌, Option-cases, inl, ◌⊎◌, arith, inr, subst,
}

module _ {F W : Type 0} (calls : SignalCalls F W) (disposition : W → ℕ → Disposition)
    (laws : SignalLaws calls disposition) where
  rawgeti-release :
      (o : Option ℕ) (r : ℕ) (w : W)
      → o ≢ some r
      → calls.rawgeti r (release calls o w) ≡ calls.rawgeti r w
  rawgeti-release none r w h = refl
  rawgeti-release (some q) r w h = laws.unref_others q w r (λ e. h (ap some (sym e)))

  pub disposition-release :
      (o : Option ℕ) (w : W) (n : ℕ) → disposition (release calls o w) n ≡ disposition w n
  disposition-release none w n = refl
  disposition-release (some q) w n = laws.unref_disposition q w n

  pub rawgeti-unwrapped :
      (signo n r : ℕ) (s : Signals W)
      → IsValid calls disposition s
      → n ≢ signo
      → s.handlers n ≡ some r
      → calls.rawgeti r (unwrapped calls signo s).system ≡ calls.rawgeti r s.system
  unfolding unwrapped
  rawgeti-unwrapped signo n r s v ne h =
      rawgeti-release (s.handlers signo) r s.system (λ e. ne (v.distinct n signo r h e))

  pub rawgeti-wrapped :
      (signo n r : ℕ) (f : F) (s : Signals W)
      → IsValid calls disposition s
      → n ≢ signo
      → s.handlers n ≡ some r
      → (r ≢ (calls.ref f (unwrapped calls signo s).system).0)
        × (calls.rawgeti r (calls.ref f (unwrapped calls signo s).system).1
            ≡ calls.rawgeti r s.system)
  rawgeti-wrapped signo n r f s v ne h =
      let w : W = (unwrapped calls signo s).system in
      let same = rawgeti-unwrapped signo n r s v ne h in
      let other : r ≢ (calls.ref f w).0 =
        λ e. v.held n r h (sym same ∙ ap (λ q. calls.rawgeti q w) e ∙ laws.ref_fresh f w) in
      (other, laws.ref_others f w r other ∙ same)

  update-cases :
      (f : ℕ → Option ℕ) (signo n r : ℕ) (o : Option ℕ)
      → update f signo o n ≡ some r
      → ((signo ≡ n) × (o ≡ some r)) ⊎ ((n ≢ signo) × (f n ≡ some r))
  update-cases f signo n r o h = ground arith

  sig_handler-same :
      (n signo : ℕ) (o : Option ℕ) (s : Signals W) (w : W)
      → n ≢ signo
      → ((r : ℕ) → s.handlers n ≡ some r → calls.rawgeti r w ≡ calls.rawgeti r s.system)
      → sig_handler calls n (record { handlers = update s.handlers signo o; system = w })
        ≡ sig_handler calls n s
  unfolding sig_handler
  sig_handler-same n signo o s w ne same = elim (Option-cases (s.handlers n)) [
    | inl e ↦ ground (arith, e)
    | inr (r, e) ↦ ground (arith, e, same r e)
  ]

  -- One entry of the table is replaced, and the system goes on to `w`.
  module _ (signo : ℕ) (o : Option ℕ) (s : Signals W) (w : W) (v : IsValid calls disposition s)
      (same : (n r : ℕ)
        → n ≢ signo
        → s.handlers n ≡ some r
        → calls.rawgeti r w ≡ calls.rawgeti r s.system)
      (unshared : (n r : ℕ) → n ≢ signo → s.handlers n ≡ some r → o ≢ some r)
      (own : (r : ℕ) → o ≡ some r → (calls.rawgeti r w ≢ none) × (disposition w signo ≡ caught))
      (others : (n : ℕ) → n ≢ signo → disposition w n ≡ disposition s.system n) where
    pub replaced-IsValid :
        IsValid calls disposition (record { handlers = update s.handlers signo o; system = w })
    replaced-IsValid = record {
      held = λ n r h. elim (update-cases s.handlers signo n r o h) [
        | inl (e, i) ↦ (own r i).0
        | inr (ne, i) ↦ λ z. v.held n r i (sym (same n r ne i) ∙ z)
      ];
      distinct = λ n m r h i. elim (update-cases s.handlers signo n r o h) [
        | inl (e, j) ↦ elim (update-cases s.handlers signo m r o i) [
          | inl (e', k) ↦ sym e ∙ e'
          | inr (ne, k) ↦ elim (unshared m r ne k j) [ ]
        ]
        | inr (ne, j) ↦ elim (update-cases s.handlers signo m r o i) [
          | inl (e', k) ↦ elim (unshared n r ne j k) [ ]
          | inr (ne', k) ↦ v.distinct n m r j k
        ]
      ];
      installed = λ n r h. elim (update-cases s.handlers signo n r o h) [
        | inl (e, i) ↦ subst (λ x. disposition w x ≡ caught) e (own r i).1
        | inr (ne, i) ↦ others n ne ∙ v.installed n r i
      ];
    }

    pub reaction-replaced :
        (n : ℕ)
        → n ≢ signo
        → reaction calls disposition (record { handlers = update s.handlers signo o; system = w }) n
          ≡ reaction calls disposition s n
    reaction-replaced n ne =
        ap
          (λ d.
            react d
              (sig_handler calls n (record { handlers = update s.handlers signo o; system = w })))
          (others n ne)
        ∙ ap (react (disposition s.system n)) (sig_handler-same n signo o s w ne (λ r. same n r ne))
