-- ===== src/Queue/Rabbit/Connect.antt =====
-- pkg/queue/rabbitmq.go: `NewRabbitMQ` and `connect`. Dialling and opening a channel (amqp091-go) are
-- arguments: each works or fails.
use dgou_framework.Base.{
  ◌≡◌, Bool, true, false, Option, none, some, [], ◌∷◌, ◌++◌, Str, codes, if◌then◌else◌, arith, not,
  ◌⊎◌,
}
use dgou_framework.Base.Int.{ℤ}
use dgou_framework.Base.Strconv.{format_int}
use dgou_framework.Queue.Rabbit.{RabbitConfig, RabbitQueue}

-- `dial` is given the URL, the heartbeat in seconds and the time for dialling.
pub record Amqp : Type 0 where
  pub dial : Str → ℤ → ℤ → Bool
  pub open_channel : Bool

pub data ConnectError : Type 0 where
  closed_queue dial_failed channel_failed : ConnectError

abbrev is_empty : Str → Bool
is_empty [] = true
is_empty (c ∷ s) = false

unfoldable pub amqp_url : RabbitConfig → Str
amqp_url cfg =
    if is_empty cfg.url
    then (codes "amqp://"
        ++ cfg.username
        ++ codes ":"
        ++ cfg.password
        ++ codes "@"
        ++ cfg.host
        ++ codes ":"
        ++ format_int cfg.port
        ++ codes "/"
        ++ cfg.vhost)
    else cfg.url

module _ (amqp : Amqp) where
  -- `connect`; a connection whose channel does not open is closed and not kept. Setting the
  -- prefetch limits may fail, which is only logged.
  unfoldable pub connect : RabbitQueue → RabbitQueue × Option ConnectError
  unfolding amqp_url
  connect q =
      if q.closed
      then (q, some closed_queue)
      else if not (amqp.dial (amqp_url q.config) q.config.heartbeat q.config.dial_timeout)
      then (q, some dial_failed)
      else if not amqp.open_channel
      then (q, some channel_failed)
      else (record q { conn = true; channel = true }, none)

  unfoldable pub fresh_queue : RabbitConfig → RabbitQueue
  fresh_queue cfg = record {
    config = cfg;
    conn = false;
    channel = false;
    closed = false;
    done_closed = false;
  }

  abbrev pub if_connected : RabbitQueue × Option ConnectError → Option RabbitQueue
  if_connected (q, none) = some q
  if_connected (q, some e) = none

  -- `NewRabbitMQ` with a logger; `none` is the nil pointer that comes with an error.
  unfoldable pub new_rabbit_mq : RabbitConfig → Option RabbitQueue
  unfolding connect fresh_queue
  new_rabbit_mq cfg = if_connected (connect (fresh_queue cfg))

  -- A queue object has its channel, and then its connection, after a connect that gives no error;
  -- one that fails leaves it as it was.
  pub connect_outcome :
      (q : RabbitQueue)
      → let (q', error) = connect q in
        ((error ≡ none) × (q'.conn ≡ true) × (q'.channel ≡ true) × (q.closed ≡ false))
        ⊎ ((e : ConnectError) × (error ≡ some e) × (q' ≡ q))
  unfolding connect
  connect_outcome q = ground arith
