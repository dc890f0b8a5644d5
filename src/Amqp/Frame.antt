-- ===== src/Amqp/Frame.antt =====
-- lamqplib.c: what goes to the broker and what comes from it, as the file names it. A request is a
-- method that the broker answers, a post is one that it does not.
use lua_xlib.Amqp.Field.{AmqpTable}
use lua_xlib.Lua.{Bytes}
use lua_xlib.Base.Int.{ℤ}
use lua_xlib.Base.{ℕ, Bool, Option}

-- `amqp_basic_properties_t`: a field is `some` where its flag is set.
pub record Properties : Type 0 where
  pub content_type : Option Bytes
  pub content_encoding : Option Bytes
  pub type : Option Bytes
  pub time : Option ℕ  -- the field `timestamp`
  pub delivery_mode : Option ℕ
  pub priority : Option ℕ
  pub expiration : Option Bytes
  pub user_id : Option Bytes
  pub app_id : Option Bytes
  pub message_id : Option Bytes
  pub reply_to : Option Bytes
  pub correlation_id : Option Bytes
  pub cluster_id : Option Bytes
  pub headers : Option AmqpTable

pub record Message : Type 0 where
  pub properties : Properties
  pub body : Bytes

pub data Request : Type 0 where
  flow : (active : Bool) → Request
  exchange_declare :
      (exchange kind : Bytes) (passive durable auto_delete internal : ℤ) (arguments : AmqpTable)
      → Request
  exchange_delete : (exchange : Bytes) (if_unused : ℤ) → Request
  exchange_bind exchange_unbind :
      (dest_exch source_exch routing_key : Bytes) (arguments : AmqpTable) → Request
  queue_declare :
      (queue : Bytes) (passive durable exclusive auto_delete : ℤ) (arguments : AmqpTable) → Request
  queue_delete : (queue : Bytes) (if_unused if_empty : ℤ) → Request
  queue_bind queue_unbind : (queue exchange routing_key : Bytes) (arguments : AmqpTable) → Request
  queue_purge : (queue : Bytes) → Request
  basic_qos : (prefetch_size prefetch_count : ℕ) (global : ℤ) → Request
  basic_consume : (queue : Bytes) (no_local no_ack exclusive : ℤ) (arguments : AmqpTable) → Request
  basic_cancel : (consumer_tag : Bytes) → Request
  basic_recover : (requeue : ℤ) → Request
  basic_get : (queue : Bytes) (no_ack : ℤ) → Request
  tx_select tx_commit tx_rollback confirm_select : Request

-- What a normal answer says, where the file looks at it.
pub data Answer : Type 0 where
  plain get_empty : Answer
  declared : (queue : Bytes) (message_count consumer_count : ℕ) → Answer
  consuming : (consumer_tag : Bytes) → Answer
  get_ok : (message_count : ℕ) → Answer

pub data Post : Type 0 where
  basic_publish :
      (exchange routing_key : Bytes) (mandatory immediate : ℤ) (properties : Option Properties)
      (body : Bytes)
      → Post
  basic_ack : (delivery_tag : ℕ) (multiple : ℤ) → Post
  basic_nack : (delivery_tag : ℕ) (multiple requeue : ℤ) → Post
  basic_reject : (delivery_tag : ℕ) (requeue : ℤ) → Post

-- The methods that may come in a frame.
pub data Event : Type 0 where
  blocked : (reason : Bytes) → Event
  unblocked : Event
  cancel : (consumer_tag : Bytes) → Event
  ack nack : (delivery_tag : ℕ) (multiple : Bool) → Event
  deliver :
      (exchange routing_key : Bytes) (delivery_tag : ℕ) (redelivered : Bool) (consumer_tag : Bytes)
      → Event
  got :
      (exchange routing_key : Bytes) (delivery_tag : ℕ) (redelivered : Bool) (message_count : ℕ)
      → Event
  returned : (exchange routing_key : Bytes) (reply_code : ℕ) (reply_text : Bytes) → Event
  closes_channel closes_connection : (reply_code : ℤ) (reply_text : Bytes) → Event
  other_event : (id : ℕ) → Event

pub record Frame : Type 0 where
  pub channel : ℤ
  pub event : Event
