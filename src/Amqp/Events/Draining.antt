-- ===== src/Amqp/Events/Draining.antt =====
-- lamqplib.c, `connection:drain_events`: the wait ends at the first frame that matters.
use lua_xlib.Socket.Deadline.{TimeVal}
use lua_xlib.Amqp.Frame.{Frame, Event, other_event, plain, unblocked}
use lua_xlib.Amqp.Connection.{
  AmqpCalls, LibraryError, library_exception, server_exception, channel_close, connection_close,
  normal,
}
use lua_xlib.Amqp.Events.{
  Frame, TimeVal, drain_event, Drained, drain_round, inl, inr, frame_received, none, role,
  wait_answered, some, suc, Event, other_event, blocked, closes_channel, cancel, ack,
  closes_connection, nack, deliver, got, returned, plain,
}
use lua_xlib.Amqp.Lua.{Conversions}
use native.Mathlib.Omega.{arith}
use lua_xlib.Base.{
  ℕ, Option, ◌≡◌, ◌⊎◌, inr, none, ◌<◌, refl, some, suc, arith, zero, ap, some-injective, none≢some,
}

module _ {W : Type 0} (calls : AmqpCalls W) (h : ℕ) (timeout : Option TimeVal) where
  -- So many frames come one after the other, each of a method that is none of those that a client is sent
  -- unasked.
  pub data Skips : ℕ → W → W → Type 0 where
    nothing : {w : W} → Skips 0 w w
    skip :
        {n id : ℕ} {f : Frame} {w w1 w2 : W}
        → calls.wait_frame h timeout w ≡ (inr f, w1)
        → f.event ≡ other_event id
        → Skips n w1 w2
        → Skips (suc n) w w2

module _ {W : Type 0} (calls : AmqpCalls W) (h : ℕ) where
  -- What an event is to leave: notices leave themselves, the three that announce a message also the message
  -- that is read on their channel, with the reply of reading it, and the closes the exception.
  abbrev pub outcome : Frame → Event → W → Option (Drained W)
  outcome f (other_event id) w = none
  outcome f (closes_channel code msg) w = some (record {
    reply = server_exception (channel_close code msg);
    frame = some f;
    message = none;
    system = w;
  })
  outcome f (closes_connection code msg) w = some (record {
    reply = server_exception (connection_close code msg);
    frame = some f;
    message = none;
    system = w;
  })
  outcome f (deliver exchange key tag redelivered consumer) w =
      let (r, m, w1) = calls.read_message h f.channel w in
      some (record { reply = r; frame = some f; message = some m; system = w1 })
  outcome f (got exchange key tag redelivered count) w =
      let (r, m, w1) = calls.read_message h f.channel w in
      some (record { reply = r; frame = some f; message = some m; system = w1 })
  outcome f (returned exchange key code msg) w =
      let (r, m, w1) = calls.read_message h f.channel w in
      some (record { reply = r; frame = some f; message = some m; system = w1 })
  outcome f _ w = some (record { reply = normal plain; frame = some f; message = none; system = w })

  -- What an answer of the library is to leave, if it ends the wait.
  abbrev pub ending : LibraryError ⊎ Frame → W → Option (Drained W)
  ending (inl e) w =
      some (record { reply = library_exception e; frame = none; message = none; system = w })
  ending (inr f) w = outcome f f.event w

module _ {W : Type 0} (conv : Conversions) (calls : AmqpCalls W) where
  received-outcome :
      (h : ℕ) (f : Frame) (v : Event) (w : W) (d : Drained W)
      → outcome calls h f v w ≡ some d
      → frame_received conv calls h f w (role v) ≡ inl d
  received-outcome h f (blocked reason) w d e = ap inl (some-injective e)
  received-outcome h f unblocked w d e = ap inl (some-injective e)
  received-outcome h f (cancel tag) w d e = ap inl (some-injective e)
  received-outcome h f (ack tag multiple) w d e = ap inl (some-injective e)
  received-outcome h f (nack tag multiple) w d e = ap inl (some-injective e)
  received-outcome h f (deliver x k tag redelivered c) w d e = ap inl (some-injective e)
  received-outcome h f (got x k tag redelivered c) w d e = ap inl (some-injective e)
  received-outcome h f (returned x k code msg) w d e = ap inl (some-injective e)
  received-outcome h f (closes_channel code msg) w d e = ap inl (some-injective e)
  received-outcome h f (closes_connection code msg) w d e = ap inl (some-injective e)
  received-outcome h f (other_event id) w d e = absurd (none≢some refl e)

  answered-ending :
      (h : ℕ) (answer : LibraryError ⊎ Frame) (w : W) (d : Drained W)
      → ending calls h answer w ≡ some d
      → wait_answered conv calls h answer w ≡ inl d
  answered-ending h (inl x) w d e = ap inl (some-injective e)
  answered-ending h (inr f) w d e = received-outcome h f f.event w d e

  -- However many frames of other methods come first, `drain_event` comes to an end with the first failure or
  -- frame of an event, when it has a unit of fuel for each frame before and for that one. A notice
  -- (blocked, unblocked, cancel, ack or nack) gives a normal reply and its frame; deliver, get-ok and return
  -- the message that is read then on their channel, with the reply of reading it; the closes of a channel or of
  -- the connection the server's exception; a failure of the wait the library's exception and no frame.
  pub drain_event-ends :
      (h : ℕ) (timeout : Option TimeVal) (n fuel : ℕ) (w w1 w2 : W) (answer : LibraryError ⊎ Frame)
      (d : Drained W)
      → Skips calls h timeout n w w1
      → calls.wait_frame h timeout w1 ≡ (answer, w2)
      → ending calls h answer w2 ≡ some d
      → n < fuel
      → drain_event conv calls fuel h timeout w ≡ some d
  unfolding drain_event drain_round
  drain_event-ends h timeout n zero w w1 w2 answer d k e matters q = absurd (omega (arith, q))
  drain_event-ends h timeout zero (suc fuel) w w1 w2 answer d nothing e matters q =
      rw (e, answered-ending h answer w2 d matters) refl
  drain_event-ends h timeout (suc n) (suc fuel) w w1 w2 answer d (skip here over k) e matters q =
      rw (here, over)
        (drain_event-ends h timeout n fuel _ w1 w2 answer d k e matters (omega (arith, q)))
