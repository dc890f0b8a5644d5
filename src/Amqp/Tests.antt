-- ===== src/Amqp/Tests.antt =====
-- lamqplib.c: a broker that the theorems are tried on, with the channels that it has open, the answers
-- that it will give and the frames that it will send.
use lua_xlib.Amqp.Field.{end}
use lua_xlib.Amqp.Methods.Closed.{lost_connection_lem, performing, getting}
use lua_xlib.Amqp.Methods.Ended.{ch_close_lem, closed_by_server_lem}
use lua_xlib.Amqp.Events.Draining.{drain_event-ends, skip, nothing}
use lua_xlib.Amqp.Channel.Free.{first_clear, free_channel-first_clear}
use lua_xlib.Amqp.Events.{drain_event}
use lua_xlib.Amqp.Methods.{ch_basic_get}
use lua_xlib.Amqp.Channel.{
  open_channel, cn_channel, open_channel, perform, free_channel, ch_close, channel_closed,
}
use lua_xlib.Amqp.Methods.Calls.{queue_purge_call, call_method, tx_commit_call}
use lua_xlib.Amqp.Connect.{default_login}
use lua_xlib.Lua.{text, end}
use lua_xlib.Amqp.Agreement.Steps.{Step, opens_channel, closes_channel, invokes, drains}
use lua_xlib.Base.Int.{ℤ, pos, pos_part, negsuc}
use lua_xlib.Amqp.Frame.{
  Properties, Frame, other_event, plain, closes_channel, tx_select, unblocked,
}
use lua_xlib.Amqp.Connection.{
  AmqpCalls, Channel, RpcReply, Session, CloseOk, normal, server_exception, LibraryError,
  channel_close, channel_close_ok, connection_close_ok, timed_out, library_exception, socket_error,
  cn_good, disconnected,
}
use lua_xlib.Amqp.Lua.{Conversions, values, boolean}
use lua_xlib.Amqp.Agreement.{told, told_answer}
use lua_xlib.Base.{
  ℕ, Bool, ◌≡◌, List, true, if◌then◌else◌, none, ◌∷◌, [], false, refl, replicate, some, drop,
  get_elem?, ◌==◌, ◌⊎◌, arith, inl, inr, ◌++◌,
}

record Broker : Type 0 where
  open_channels : ℕ → Bool
  answers : List RpcReply
  frames : List Frame

abbrev mark : ℤ → Bool → Broker → Broker
mark id v w = record w { open_channels = λ n. if pos_part id == n then v else w.open_channels n }

abbrev next_answer : List RpcReply → RpcReply
next_answer [] = normal plain
next_answer (r ∷ rs) = r

abbrev next_frame : List Frame → LibraryError ⊎ Frame
next_frame [] = inl timed_out
next_frame (f ∷ fs) = inr f

abbrev no_properties : Properties
no_properties = record {
  content_type = none;
  content_encoding = none;
  type = none;
  time = none;
  delivery_mode = none;
  priority = none;
  expiration = none;
  user_id = none;
  app_id = none;
  message_id = none;
  reply_to = none;
  correlation_id = none;
  cluster_id = none;
  headers = none;
}

abbrev accept_close : ℤ → CloseOk → Broker → Broker
accept_close id channel_close_ok w = mark id false w
accept_close id connection_close_ok w = w

-- The closes that the client is told of.
abbrev hear : RpcReply → ℤ → Broker → Broker
hear r id w = record w { open_channels = λ n. told r id n (w.open_channels n) }

abbrev hear_answer : LibraryError ⊎ Frame → Broker → Broker
hear_answer a w = record w { open_channels = λ n. told_answer a n (w.open_channels n) }

abbrev calls : AmqpCalls Broker
calls = record {
  new_connection = λ w. (1, w);
  tcp_socket_new = λ h w. w;
  ssl_socket_new = λ h w. w;
  ssl_set_cacert = λ h b w. w;
  ssl_set_key = λ h b k w. w;
  ssl_set_verify_peer = λ h z w. w;
  ssl_set_verify_hostname = λ h z w. w;
  socket_open = λ h host port timeout w. (none, w);
  login = λ h login w. (normal plain, record w { open_channels = λ n. false });
  end_connection = λ h w. w;
  release_buffers = λ h w. w;
  destroy = λ h w. w;
  get_channel_max = λ h w. 16;
  get_frame_max = λ h w. 131072;
  get_heartbeat = λ h w. 0;
  get_server_properties = λ h w. end;
  get_client_properties = λ h w. end;
  open_channel = λ h id w. (true, mark id true w);
  rpc_reply = λ h w. normal plain;
  end_channel = λ h id w. mark id false w;
  send_method = λ h id m w. accept_close id m w;
  request = λ h id r w. (
    next_answer w.answers,
    hear (next_answer w.answers) id (record w { answers = drop 1 w.answers }),
  );
  post = λ h id p w. (none, w);
  queue_frame = λ h id a w. w;
  wait_frame = λ h timeout w. (
    next_frame w.frames,
    hear_answer (next_frame w.frames) (record w { frames = drop 1 w.frames }),
  );
  read_message = λ h id w. (normal plain, record { properties = no_properties; body = [] }, w);
  time = λ w. 5;
  error_number = λ e. negsuc 0;
  error_text = λ e. text "error";
}

abbrev no_conversions : Conversions
no_conversions = record { to_string = λ v. none; to_integer = λ v. none; show_int = λ z. [] }

abbrev opened : Broker → ℕ → Bool
opened w = w.open_channels

-- A connection with channel 1 open, of 16.
abbrev one_channel : List RpcReply → List Frame → Session Broker
one_channel answers frames = record {
  conn = record {
    status = pos 1;
    timestamp = 5;
    state = some 1;
    login_info = default_login no_conversions (λ v. none) calls;
    channels = true ∷ true ∷ replicate 14 false;
  };
  system = record { open_channels = λ n. n == 1; answers = answers; frames = frames };
}

abbrev first_channel : Channel
first_channel = record { channel_id = pos 1; timestamp = 5 }

abbrev closes_channel_1 : RpcReply
closes_channel_1 = server_exception (channel_close (pos 404) (text "NOT_FOUND"))

-- A channel is opened; the first channel is closed by the server; it is opened again; an event that
-- closes the second one comes.
abbrev program : List Step
program =
    opens_channel none
    ∷ invokes (queue_purge_call (text "q")) first_channel
    ∷ opens_channel (some (pos 1))
    ∷ drains 3 (pos 0) none
    ∷ []

abbrev events : List Frame
events =
    record { channel = pos 2; event = other_event 7 }
    ∷ record { channel = pos 2; event = closes_channel (pos 406) (text "PRECONDITION_FAILED") }
    ∷ []

abbrev before : Session Broker
before = one_channel (closes_channel_1 ∷ []) events

abbrev after : Session Broker
after = record {
  conn = record before.conn { channels = true ∷ true ∷ replicate 14 false };
  system = record {
    open_channels = λ n.
        if 2 == n
        then false
        else if 2 == n
        then false
        else if 1 == n
        then true
        else if 1 == n
        then false
        else if 1 == n
        then false
        else if 2 == n
        then true
        else n == 1;
    answers = [];
    frames = [];
  };
}

-- A basic_get on the first channel that the server answers by closing it, and what comes of a publish.
closed_by_server_lem_example :
    let (reply, ch1, s1) = ch_basic_get no_conversions calls (text "q") none first_channel before in
    (s1.system
      ≡ mark (pos 1) false (hear closes_channel_1 (pos 1) (record before.system { answers = [] })))
    × (call_method no_conversions calls tx_commit_call ch1 s1 ≡ (channel_closed, ch1, s1))
    × (call_method no_conversions calls tx_commit_call first_channel s1
        ≡ (channel_closed, first_channel, s1))
    × (get_elem? s1.channels 0 ≡ some true)
closed_by_server_lem_example =
    closed_by_server_lem no_conversions calls (getting (text "q") none (pos 0)) first_channel before
      1 (pos 404) (text "NOT_FOUND") tx_commit_call first_channel 0 refl refl refl refl refl refl
      (omega arith) (omega arith)

ch_close_lem_example :
    let (reply, ch1, s1) = ch_close no_conversions calls first_channel before in
    (s1.system ≡ mark (pos 1) false before.system)
    × (call_method no_conversions calls tx_commit_call ch1 s1 ≡ (channel_closed, ch1, s1))
    × (call_method no_conversions calls tx_commit_call first_channel s1
        ≡ (channel_closed, first_channel, s1))
    × (get_elem? s1.channels 0 ≡ some true)
ch_close_lem_example =
    ch_close_lem no_conversions calls first_channel before 1 tx_commit_call first_channel 0 refl
      refl refl refl (omega arith) (omega arith)

-- The connection breaks in the middle of a request.
abbrev breaking : Session Broker
breaking = one_channel (library_exception socket_error ∷ []) []

lost_connection_lem_example :
    let (reply, ch1, s1) =
      perform no_conversions calls (pos 0) tx_select (λ a. values []) first_channel breaking in
    (ch1.channel_id ≡ negsuc 0)
    × (cn_good s1.conn ≡ values (boolean false ∷ []))
    × (call_method no_conversions calls tx_commit_call first_channel s1
        ≡ (disconnected, first_channel, s1))
    × (cn_channel no_conversions calls none s1 ≡ (disconnected, none, s1))
lost_connection_lem_example =
    lost_connection_lem no_conversions calls (performing (pos 0) tx_select (λ a. values []))
      first_channel breaking 1 tx_commit_call first_channel none tt refl refl refl refl

-- Two frames that are passed over, then a blocked connection.
abbrev passing : List Frame
passing =
    record { channel = pos 0; event = other_event 7 }
    ∷ record { channel = pos 0; event = other_event 8 }
    ∷ record { channel = pos 0; event = unblocked }
    ∷ []

drain_event-ends_example :
    drain_event no_conversions calls 3 1 none (one_channel [] passing).system
    ≡ some (record {
      reply = normal plain;
      frame = some (record { channel = pos 0; event = unblocked });
      message = none;
      system = record (one_channel [] passing).system { frames = [] };
    })
drain_event-ends_example =
    drain_event-ends no_conversions calls 1 none 2 3 (one_channel [] passing).system
      (record (one_channel [] passing).system { frames = drop 2 passing })
      (record (one_channel [] passing).system { frames = [] })
      (inr (record { channel = pos 0; event = unblocked }))
      (record {
        reply = normal plain;
        frame = some (record { channel = pos 0; event = unblocked });
        message = none;
        system = record (one_channel [] passing).system { frames = [] };
      })
      (skip refl refl (skip refl refl nothing)) refl refl (omega arith)

-- The search on two bytes with nine bits set.
abbrev nine : List Bool
nine = replicate 9 true ++ replicate 7 false

free_channel-first_clear_example : free_channel 0 nine ≡ first_clear 0 nine
free_channel-first_clear_example = free_channel-first_clear 2 nine refl
