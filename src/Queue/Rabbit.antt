-- ===== src/Queue/Rabbit.antt =====
-- pkg/queue/rabbitmq.go and the message of pkg/queue/queue.go. The AMQP channel (amqp091-go) is an
-- argument: it answers each command with no error or with the number of one, and what the code asks
-- of it is the list of commands that the model returns. Consume's goroutine is in Rabbit/Delivery
-- and the reconnection in Rabbit/Reconnect.
pub mod Guard
pub mod Delivery
pub mod Reconnect
pub mod Connect
use dgou_framework.Base.{
  ℕ, Bool, true, false, Option, none, some, List, [], ◌∷◌, Str, codes, if◌then◌else◌, apply_options,
  ◌++◌, not, ◌&&◌,
}
use dgou_framework.Base.Int.{ℤ, pos}
use dgou_framework.Queue.Options.{PublishOptions, ConsumeOptions, PublishOption, ConsumeOption}

-- `RabbitMQConfig`; durations in nanoseconds
pub record RabbitConfig : Type 0 where
  pub url : Str
  pub host : Str
  pub port : ℤ
  pub username : Str
  pub password : Str
  pub vhost : Str
  pub heartbeat : ℤ
  pub dial_timeout : ℤ
  pub max_retries : ℤ
  pub retry_delay : ℤ
  pub prefetch_count : ℤ
  pub prefetch_size : ℤ
  pub global_prefetch : Bool

-- `RabbitMQQueue`; `channel` and `conn` say whether the pointer is set.
pub record RabbitQueue : Type 0 where
  pub config : RabbitConfig
  pub conn : Bool
  pub channel : Bool
  pub closed : Bool
  pub done_closed : Bool

-- `amqp.Publishing`
pub record Publishing (Table : Type 0) : Type 0 where
  pub content_type : Str
  pub content_encoding : Str
  pub delivery_mode : ℕ
  pub priority : ℕ
  pub correlation_id : Str
  pub reply_to : Str
  pub expiration : Str
  pub message_id : Str
  pub timestamp : ℤ
  pub publishing_type : Str
  pub user_id : Str
  pub app_id : Str
  pub body : Str
  pub headers : Option Table

-- What the code asks of the channel or the connection.
pub data Command (Table : Type 0) : Type 0 where
  publish_cmd :
      (exchange routing_key : Str) (mandatory immediate : Bool) (p : Publishing Table)
      → Command Table
  qos_cmd : (count size : ℤ) (global : Bool) → Command Table
  consume_cmd :
      (queue consumer : Str) (auto_ack exclusive no_local no_wait : Bool) (args : Option Table)
      → Command Table
  exchange_declare_cmd :
      (name kind : Str) (durable auto_delete internal no_wait : Bool) (args : Option Table)
      → Command Table
  exchange_delete_cmd : (name : Str) (if_unused no_wait : Bool) → Command Table
  queue_declare_cmd :
      (name : Str) (durable auto_delete exclusive no_wait : Bool) (args : Option Table)
      → Command Table
  queue_delete_cmd : (name : Str) (if_unused if_empty no_wait : Bool) → Command Table
  queue_purge_cmd : (name : Str) (no_wait : Bool) → Command Table
  queue_inspect_cmd : (name : Str) → Command Table
  queue_bind_cmd :
      (name routing_key exchange : Str) (no_wait : Bool) (args : Option Table) → Command Table
  queue_unbind_cmd : (name routing_key exchange : Str) (args : Option Table) → Command Table
  close_channel_cmd close_conn_cmd : Command Table

-- a call of an operation that needs the channel
pub data Call (Table : Type 0) : Type 0 where
  publish : (body : Str) (opts : List (PublishOption Table)) → Call Table
  consume : (opts : List (ConsumeOption Table)) → Call Table
  declare_exchange :
      (name kind : Str) (durable auto_delete internal no_wait : Bool) (args : Option Table)
      → Call Table
  delete_exchange : (name : Str) (if_unused : Bool) → Call Table
  declare_queue :
      (name : Str) (durable auto_delete exclusive no_wait : Bool) (args : Option Table) → Call Table
  delete_queue : (name : Str) (if_unused if_empty : Bool) → Call Table
  queue_purge : (name : Str) → Call Table
  queue_inspect : (name : Str) → Call Table
  bind_queue : (name routing_key exchange : Str) (no_wait : Bool) (args : Option Table) → Call Table
  unbind_queue : (name routing_key exchange : Str) (args : Option Table) → Call Table

pub data QueueError : Type 0 where
  queue_closed channel_missing : QueueError
  channel_error set_qos_error consume_error : ℕ → QueueError

-- What a call gives: what it asked of the channel, and its error.
abbrev pub Answer : Type 0 → Type 0
Answer Table = List (Command Table) × Option QueueError

abbrev fail_with : (ℕ → QueueError) → Option ℕ → Option QueueError
fail_with kind none = none
fail_with kind (some e) = some (kind e)

module _ {Table : Type 0} where
  -- The options of `Publish` before the caller's; the time is an argument.
  unfoldable pub default_publish : ℤ → PublishOptions Table
  default_publish now = record {
    exchange = [];
    routing_key = [];
    mandatory = false;
    immediate = false;
    content_type = codes "application/octet-stream";
    content_encoding = [];
    delivery_mode = 2;
    priority = 0;
    correlation_id = [];
    reply_to = [];
    expiration = [];
    message_id = [];
    timestamp = now;
    message_type = [];
    user_id = [];
    app_id = [];
    headers = none;
  }

  unfoldable pub default_consume : RabbitConfig → ConsumeOptions Table
  default_consume config = record {
    queue = [];
    consumer = [];
    auto_ack = false;
    exclusive = false;
    no_local = false;
    no_wait = false;
    args = none;
    prefetch_count = config.prefetch_count;
    prefetch_size = config.prefetch_size;
    global_prefetch = config.global_prefetch;
  }

  unfoldable pub to_publishing : Str → PublishOptions Table → Publishing Table
  to_publishing body o = record {
    content_type = o.content_type;
    content_encoding = o.content_encoding;
    delivery_mode = o.delivery_mode;
    priority = o.priority;
    correlation_id = o.correlation_id;
    reply_to = o.reply_to;
    expiration = o.expiration;
    message_id = o.message_id;
    timestamp = o.timestamp;
    publishing_type = o.message_type;
    user_id = o.user_id;
    app_id = o.app_id;
    body = body;
    headers = o.headers;
  }

  module _ (ask : Command Table → Option ℕ) where
    -- one command, whose error the operation returns
    unfoldable pub single : Command Table → Answer Table
    single c = (c ∷ [], fail_with channel_error (ask c))

    -- `Publish` behind its guards
    unfoldable pub publish_on : ℤ → Str → List (PublishOption Table) → Answer Table
    unfolding single default_publish to_publishing
    publish_on now body opts =
        let o = apply_options (default_publish now) opts in
        single (publish_cmd o.exchange o.routing_key o.mandatory o.immediate (to_publishing body o))

    -- `Consume` behind its guards, up to the start of its goroutine: the prefetch limits, then the
    -- subscription
    unfoldable pub consume_with : ConsumeOptions Table → Answer Table
    consume_with o =
        let qos = qos_cmd o.prefetch_count o.prefetch_size o.global_prefetch in
        let c = consume_cmd o.queue o.consumer o.auto_ack o.exclusive o.no_local o.no_wait o.args in
        elim (ask qos) [
          | some e ↦ (qos ∷ [], some (set_qos_error e))
          | none ↦ (qos ∷ c ∷ [], fail_with consume_error (ask c))
        ]

    -- an operation behind its guards
    unfoldable pub perform : RabbitConfig → ℤ → Call Table → Answer Table
    unfolding publish_on consume_with single default_consume
    perform config now (publish body opts) = publish_on now body opts
    perform config now (consume opts) = consume_with (apply_options (default_consume config) opts)
    perform config now (declare_exchange name kind durable auto_delete internal no_wait args) =
        single (exchange_declare_cmd name kind durable auto_delete internal no_wait args)
    perform config now (delete_exchange name if_unused) =
        single (exchange_delete_cmd name if_unused false)
    perform config now (declare_queue name durable auto_delete exclusive no_wait args) =
        single (queue_declare_cmd name durable auto_delete exclusive no_wait args)
    perform config now (delete_queue name if_unused if_empty) =
        single (queue_delete_cmd name if_unused if_empty false)
    perform config now (queue_purge name) = single (queue_purge_cmd name false)
    perform config now (queue_inspect name) = single (queue_inspect_cmd name)
    perform config now (bind_queue name routing_key exchange no_wait args) =
        single (queue_bind_cmd name routing_key exchange no_wait args)
    perform config now (unbind_queue name routing_key exchange args) =
        single (queue_unbind_cmd name routing_key exchange args)

    -- an operation: the two guards that each of them starts with, then its body
    unfoldable pub call : RabbitQueue → ℤ → Call Table → Answer Table
    unfolding perform
    call q now c =
        if q.closed
        then ([], some queue_closed)
        else if q.channel
        then perform q.config now c
        else ([], some channel_missing)

  abbrev close_commands : Bool → Command Table → List (Command Table)
  close_commands true c = c ∷ []
  close_commands false c = []

  -- `Close`; its last part is `true` where a closed channel would be closed again, which panics.
  unfoldable pub close : RabbitQueue → RabbitQueue × List (Command Table) × Bool
  close q = (
    if q.closed then q else record q { closed = true; done_closed = true },
    close_commands q.channel close_channel_cmd ++ close_commands q.conn close_conn_cmd,
    not q.closed && q.done_closed,
  )
