-- ===== src/Amqp/Agreement/Steps.antt =====
-- lamqplib.c: programs on a connection, and that the bits of a good connection are those of the broker's
-- channels after any program.
use lua_xlib.Amqp.Events.{cn_drain}
use lua_xlib.Amqp.Channel.{cn_channel, ch_close}
use lua_xlib.Socket.Deadline.{TimeVal}
use lua_xlib.Amqp.Methods.Calls.{Call, call_method}
use lua_xlib.Amqp.Agreement.{TimeVal, some, ◌∷◌, Bool}
use lua_xlib.Amqp.Connection.{AmqpCalls, Channel, Session}
use lua_xlib.Amqp.Connection.Setup.{cn_connect, cn_close}
use mathlib.Core.Option
use lua_xlib.Base.Int.{ℤ}
use lua_xlib.Amqp.Lua.{Conversions, Reply}
use lua_xlib.Base.{ℕ, Option, List, some, ◌∷◌, none, [], Bool}

-- A call of a program, on any channel object.
pub data Step : Type 0 where
  connects closes : Step
  opens_channel : (channel_id : Option ℤ) → Step
  closes_channel : Channel → Step
  invokes : Call → Channel → Step
  drains : (fuel : ℕ) (garbage : ℤ) (timeout : Option TimeVal) → Step

module _ {W : Type 0} (conv : Conversions) (calls : AmqpCalls W) (widen : ℕ → ℕ) where
  -- The session after a step; a wait that runs out of fuel has not ended.
  unfoldable pub step : Step → Session W → Option (Session W)
  step connects s = some (cn_connect conv calls s).1
  step closes s = some (cn_close conv calls s).1
  step (opens_channel id) s = some (cn_channel conv calls id s).2
  step (closes_channel ch) s = some (ch_close conv calls ch s).2
  step (invokes c ch) s = some (call_method conv calls c ch s).2
  step (drains fuel garbage timeout) s =
      Option.map (λ (t : Reply × Session W). t.1) (cn_drain conv calls widen fuel garbage timeout s)

  unfoldable pub run : List Step → Session W → Option (Session W)
  run [] s = some s
  run (p ∷ ps) s = elim (step p s) [ none ↦ none | some s' ↦ run ps s' ]
