-- ===== src/Amqp/Events.antt =====
-- lamqplib.c, `connection:drain_events`: the loop that waits for a frame that matters, and the table
-- that it returns. The loop runs on fuel, a unit for each frame.
pub mod Draining
use lua_xlib.Base.Words.{signed64}
use lua_xlib.Amqp.Lua.{
  LuaVal, Entries, Reply, Conversions, integer, string, table, boolean, values, no_items,
  no_entries, entry, set_entry, overrun,
}
use lua_xlib.Amqp.Connection.{
  Channel, Session, AmqpCalls, RpcReply, LibraryError, ServerMethod, report_amqp_error,
  check_rpc_reply, normal, library_exception, server_exception, channel_close, connection_close,
  disconnected, timed_out, response_none,
}
use lua_xlib.Amqp.Channel.{checked}
use lua_xlib.Amqp.Frame.{
  Frame, Event, Message, Answer, plain, blocked, unblocked, cancel, ack, nack, deliver, got,
  returned, closes_channel, closes_connection, other_event,
}
use lua_xlib.Amqp.Properties.{decode_properties}
use lua_xlib.Socket.Deadline.{TimeVal}
use lua_xlib.Lua.{Bytes, text}
use lua_xlib.Base.Int.{ℤ, pos, negsuc}
use lua_xlib.Base.{
  ℕ, Bool, Option, none, some, ◌∷◌, [], true, false, zero, suc, if◌then◌else◌, ◌⊎◌, inl, inr,
}

-- The numbers of the methods, `AMQP_..._METHOD`, are those of AMQP 0-9-1: class, then method.
abbrev pub basic_get_empty_method : ℕ
basic_get_empty_method = 0x003c0048

abbrev pub method_id : Event → ℕ
method_id (blocked reason) = 0x000a003c
method_id unblocked = 0x000a003d
method_id (cancel tag) = 0x003c001e
method_id (ack tag multiple) = 0x003c0050
method_id (nack tag multiple) = 0x003c0078
method_id (deliver exchange key tag redelivered consumer) = 0x003c003c
method_id (got exchange key tag redelivered count) = 0x003c0047
method_id (returned exchange key code msg) = 0x003c0032
method_id (closes_channel code msg) = 0x00140028
method_id (closes_connection code msg) = 0x000a0032
method_id (other_event id) = id

-- What a frame is to `drain_event`, which takes it for the frame of a method: it ends the wait, it begins a message, it is a failure, or it is
-- passed over.
pub data Role : Type 0 where
  ends begins skipped : Role
  fails : ServerMethod → Role

abbrev pub role : Event → Role
role (blocked reason) = ends
role unblocked = ends
role (cancel tag) = ends
role (ack tag multiple) = ends
role (nack tag multiple) = ends
role (deliver exchange key tag redelivered consumer) = begins
role (got exchange key tag redelivered count) = begins
role (returned exchange key code msg) = begins
role (closes_channel code msg) = fails (channel_close code msg)
role (closes_connection code msg) = fails (connection_close code msg)
role (other_event id) = skipped

-- What `drain_event` leaves: the reply, the frame if there is one, and the message if there is one.
pub record Drained (W : Type 0) : Type 0 where
  pub reply : RpcReply
  pub frame : Option Frame
  pub message : Option Message
  pub system : W

-- A field of C's that is a truth value is pushed as a number.
abbrev of_bool : Bool → LuaVal
of_bool b = integer (pos (if b then 1 else 0))

-- The table of `decode_frame`, behind `method` and `channel`.
abbrev event_fields : Event → Entries
event_fields (ack tag multiple) =
    entry (text "delivery_tag") (integer (signed64 tag))
      (entry (text "multiple") (of_bool multiple) no_entries)
event_fields (nack tag multiple) =
    entry (text "delivery_tag") (integer (signed64 tag))
      (entry (text "multiple") (of_bool multiple) no_entries)
event_fields (cancel tag) = entry (text "consumer_tag") (string tag) no_entries
event_fields (blocked reason) = entry (text "reason") (string reason) no_entries
event_fields (deliver exchange key tag redelivered consumer) =
    entry (text "exchange") (string exchange) (
      entry (text "routing_key") (string key) (
        entry (text "delivery_tag") (integer (signed64 tag)) (
          entry (text "redelivered") (of_bool redelivered)
            (entry (text "consumer_tag") (string consumer) no_entries))))
event_fields (got exchange key tag redelivered count) = entry (text "exchange") (string exchange) (
    entry (text "routing_key") (string key) (
      entry (text "delivery_tag") (integer (signed64 tag)) (
        entry (text "redelivered") (of_bool redelivered)
          (entry (text "message_count") (integer (pos count)) no_entries))))
event_fields (returned exchange key code msg) = entry (text "exchange") (string exchange) (
    entry (text "routing_key") (string key) (
      entry (text "reply_code") (integer (pos code))
        (entry (text "reply_text") (string msg) no_entries)))
event_fields _ = no_entries

unfoldable pub decode_frame : Frame → Entries
decode_frame f =
    entry (text "method") (integer (pos (method_id f.event)))
      (entry (text "channel") (integer f.channel) (event_fields f.event))

module _ {W : Type 0} (conv : Conversions) (calls : AmqpCalls W) where
  -- What the loop does with a frame, by what it is.
  abbrev pub frame_received : ℕ → Frame → W → Role → Drained W ⊎ W
  frame_received h f w ends =
      inl (record { reply = normal plain; frame = some f; message = none; system = w })
  frame_received h f w begins =
      let (r, message, w1) = calls.read_message h f.channel w in
      inl (record { reply = r; frame = some f; message = some message; system = w1 })
  frame_received h f w (fails m) =
      inl (record { reply = server_exception m; frame = some f; message = none; system = w })
  frame_received h f w skipped = inr w

  abbrev pub wait_answered : ℕ → LibraryError ⊎ Frame → W → Drained W ⊎ W
  wait_answered h (inl e) w =
      inl (record { reply = library_exception e; frame = none; message = none; system = w })
  wait_answered h (inr f) w = frame_received h f w (role f.event)

  -- A round of the loop: it ends with what it leaves, or another round is made.
  unfoldable pub drain_round : ℕ → Option TimeVal → W → Drained W ⊎ W
  drain_round h timeout w =
      let (answer, w1) = calls.wait_frame h timeout w in wait_answered h answer w1

  -- The end of a round, or what the rounds after it give.
  abbrev pub end_round : Drained W ⊎ W → (W → Option (Drained W)) → Option (Drained W)
  end_round (inl d) go = some d
  end_round (inr w) go = go w

  -- `drain_event`; `none` means that the fuel ran out.
  unfoldable pub drain_event : ℕ → ℕ → Option TimeVal → W → Option (Drained W)
  drain_event zero h timeout w = none
  drain_event (suc fuel) h timeout w =
      end_round (drain_round h timeout w) (λ w1. drain_event fuel h timeout w1)

  -- The channel object made up for `check_rpc_reply`. Its number is that of the frame; where no frame
  -- came, it is what stood in an uninitialised variable.
  abbrev pub drain_channel : (garbage : ℤ) → Option Frame → Channel
  drain_channel garbage none = record { channel_id = garbage; timestamp = 0 }
  drain_channel garbage (some f) = record { channel_id = f.channel; timestamp = 0 }

  abbrev pub drain_failed : (garbage : ℤ) → RpcReply → Option Frame → Session W → Reply × Session W
  drain_failed garbage r f s = (
    report_amqp_error conv calls (negsuc 0) r,
    (check_rpc_reply conv calls (drain_channel garbage f) r s).1,
  )

  module _ (widen : ℕ → ℕ) where
    -- The table for an event, with the message where one was read.
    abbrev event_table : Frame → Option Message → LuaVal
    event_table f none = table no_items (decode_frame f)
    event_table f (some m) = table no_items (
        set_entry (text "body") (string m.body)
          (set_entry (text "properties") (decode_properties widen m.properties) (decode_frame f)))

    -- The table that stands for a timeout.
    abbrev empty_event : LuaVal
    empty_event =
        table no_items (entry (text "method") (integer (pos basic_get_empty_method)) no_entries)

    -- The end of `cn_drain`, by the frame and by the reply.
    abbrev pub event_reply : Option Frame → Option Message → Reply
    event_reply none m = overrun
    event_reply (some f) m = values (event_table f m ∷ [])

    abbrev pub drained : (garbage : ℤ) → Drained W → RpcReply → Session W → Reply × Session W
    drained garbage d (normal a) s = (event_reply d.frame d.message, s)
    drained garbage d (library_exception timed_out) s = (values (empty_event ∷ []), s)
    drained garbage d r s = drain_failed garbage r d.frame s

    abbrev pub wait_over :
        ℕ → (garbage : ℤ) → Option (Drained W) → Session W → Option (Reply × Session W)
    wait_over h garbage none s = none
    wait_over h garbage (some d) s =
        some (drained garbage d d.reply (record s { system = calls.release_buffers h d.system }))

    -- `connection:drain_events([timeout])`, with `none` for a timeout below 0.
    unfoldable pub cn_drain :
        ℕ → (garbage : ℤ) → Option TimeVal → Session W → Option (Reply × Session W)
    cn_drain fuel garbage timeout s =
        checked conv calls s (some (disconnected, s))
          (λ h. wait_over h garbage (drain_event fuel h timeout s.system) s)
