-- ===== src/Amqp/Channel/Checks.antt =====
-- lamqplib.c, `check_connection` and `check_channel`: what they let through and what they refuse.
use mathlib.Core.Bool.{false≢true}
use lua_xlib.Base.Int.{pos_part, negsuc, ℤ}
use lua_xlib.Amqp.Channel.{
  checked, is_usable, pos_part, with_channel, channel_closed, none, disconnected, admit, get_elem?,
  negsuc, ℤ, not, set, Bool, Option,
}
use lua_xlib.Amqp.Connection.{
  Connection, AmqpCalls, is_good, Channel, Session, disconnected, broken,
}
use lua_xlib.Amqp.Lua.{Conversions, Reply}
use lua_xlib.Base.{
  ℕ, ◌≡◌, true, false, some, ltb, Option-cases, none, refl, inl, inr, ◌∙◌, Bool-cases, sym, ap,
  get_elem?, ◌<◌, length, ◌||◌, get_elem?-lt, not, set, arith, get_elem?-set, some-injective, Bool,
  Option, if◌then◌else◌,
}

-- The handle of a good connection.
pub good-state :
    (c : Connection)
    → is_good c ≡ true
    → (h : ℕ) × (c.state ≡ some h) × (ltb 0 (pos_part c.status) ≡ true)
good-state c good = elim (Option-cases c.state) [
  | inl e ↦ absurd (false≢true (sym (down e) ∙ good))
  | inr (h, e) ↦ (h, e, sym (up h e) ∙ good)
]
  where
    down : c.state ≡ none → is_good c ≡ false
    down e = rw e refl

    up : (h : ℕ) → c.state ≡ some h → is_good c ≡ ltb 0 (pos_part c.status)
    up h e = rw e refl

pub usable-bit :
    (ch : Channel) (c : Connection)
    → is_usable ch c ≡ some true
    → (ltb 0 (pos_part ch.channel_id) ≡ true)
      × (get_elem? c.channels (pos_part ch.channel_id) ≡ some true)
usable-bit ch c h =
    elim (Bool-cases (ltb ch.timestamp c.timestamp || not (ltb 0 (pos_part ch.channel_id)))) [
      | inl old ↦ absurd (false≢true (some-injective (sym (no_test old) ∙ h)))
      | inr fresh ↦ (positive fresh, sym (test fresh) ∙ h)
    ]
  where
    no_test :
        (ltb ch.timestamp c.timestamp || not (ltb 0 (pos_part ch.channel_id))) ≡ true
        → is_usable ch c ≡ some false
    no_test e = rw e refl

    test :
        (ltb ch.timestamp c.timestamp || not (ltb 0 (pos_part ch.channel_id))) ≡ false
        → is_usable ch c ≡ get_elem? c.channels (pos_part ch.channel_id)
    test e = rw e refl

    positive :
        (ltb ch.timestamp c.timestamp || not (ltb 0 (pos_part ch.channel_id))) ≡ false
        → ltb 0 (pos_part ch.channel_id) ≡ true
    positive e = ground (arith, e)

pub usable-length :
    (ch : Channel) (c : Connection)
    → is_usable ch c ≡ some true
    → pos_part ch.channel_id < length c.channels
usable-length ch c h =
    let (p, bit) = usable-bit ch c h in get_elem?-lt c.channels (pos_part ch.channel_id) true bit

-- No object of a channel is usable once the bit is cleared.
pub is_usable-cleared :
    (ch : Channel) (c : Connection) (id : ℤ)
    → pos_part id < length c.channels
    → ch.channel_id ≡ id
    → is_usable ch (record c { channels = set c.channels (pos_part id) false }) ≡ some false
is_usable-cleared ch c id h same =
    elim (Bool-cases (ltb ch.timestamp c.timestamp || not (ltb 0 (pos_part ch.channel_id)))) [
      | inl old ↦ rw old refl
      | inr fresh ↦
          rw fresh
            (rw (same, get_elem?-set c.channels (pos_part id) (pos_part id) false h) (ground arith))
    ]

pub is_usable-ended :
    (c : Connection) (t : ℕ)
    → is_usable (record { channel_id = negsuc 0; timestamp = t }) c ≡ some false
is_usable-ended c t = elim (Bool-cases (ltb t c.timestamp)) [
  | inl old ↦ rw old refl
  | inr new ↦ rw new refl
]

-- What holds of both ends of a choice by the state holds of the choice.
pub state-cases :
    {A : Type 0} (P : A → Type 0) (o : Option ℕ) (bad : A) (go : ℕ → A)
    → (o ≡ none → P bad)
    → ((h : ℕ) → o ≡ some h → P (go h))
    → P (elim o [ none ↦ bad | some h ↦ go h ])
state-cases P none bad go b g = b refl
state-cases P (some h) bad go b g = g h refl

pub choice-cases :
    {A : Type 0} (P : A → Type 0) (b : Bool) (x y : A) → P x → P y → P (if b then x else y)
choice-cases P true x y p q = p
choice-cases P false x y p q = q

module _ {W : Type 0} (conv : Conversions) (calls : AmqpCalls W) where
  pub checked-bad {ℓ} :
      {A : Type ℓ} (s : Session W) (bad : A) (go : ℕ → A)
      → is_good s.conn ≡ false
      → checked conv calls s bad go ≡ bad
  checked-bad s bad go h = elim (Option-cases s.state) [
    | inl e ↦ rw e refl
    | inr (i, e) ↦ elim (Bool-cases (ltb 0 (pos_part s.status))) [
      | inl up ↦ absurd (false≢true (sym h ∙ working i e up))
      | inr down ↦ rw (e, down) refl
    ]
  ]
    where
      working :
          (i : ℕ) → s.state ≡ some i → ltb 0 (pos_part s.status) ≡ true → is_good s.conn ≡ true
      working i e up = rw (e, up) refl

  pub is_good-broken : (c : Connection) → is_good (broken conv calls c) ≡ false
  unfolding broken
  is_good-broken c = elim (Option-cases c.state) [ inl e ↦ rw e refl | inr (h, e) ↦ rw e refl ]

  pub checked-good {ℓ} :
      {A : Type ℓ} (s : Session W) (bad : A) (go : ℕ → A) (h : ℕ)
      → s.state ≡ some h
      → ltb 0 (pos_part s.status) ≡ true
      → checked conv calls s bad go ≡ go h
  checked-good s bad go h e up = rw (e, up) refl

  pub with_channel-closed :
      (ch : Channel) (s : Session W) (go : ℕ → Reply × Channel × Session W)
      → is_good s.conn ≡ true
      → is_usable ch s.conn ≡ some false
      → with_channel conv calls ch s go ≡ (channel_closed, ch, s)
  with_channel-closed ch s go good shut =
      let (h, e, up) = good-state s.conn good in
      checked-good s (disconnected, ch, s) (λ i. admit conv calls (is_usable ch s.conn) ch s (go i))
        h e up
      ∙ ap (λ b. admit conv calls b ch s (go h)) shut

  pub with_channel-usable :
      (ch : Channel) (s : Session W) (go : ℕ → Reply × Channel × Session W) (h : ℕ)
      → s.state ≡ some h
      → ltb 0 (pos_part s.status) ≡ true
      → is_usable ch s.conn ≡ some true
      → with_channel conv calls ch s go ≡ go h
  with_channel-usable ch s go h e up usable =
      checked-good s (disconnected, ch, s) (λ i. admit conv calls (is_usable ch s.conn) ch s (go i))
        h e up
      ∙ ap (λ b. admit conv calls b ch s (go h)) usable

  pub checked-cases :
      {A : Type 0} (P : A → Type 0) (s : Session W) (bad : A) (go : ℕ → A)
      → P bad
      → ((h : ℕ) → s.state ≡ some h → P (go h))
      → P (checked conv calls s bad go)
  checked-cases P s bad go b g =
      state-cases P s.state bad _ (λ e. b)
        (λ h e. choice-cases P (ltb 0 (pos_part s.status)) _ _ (g h e) b)
