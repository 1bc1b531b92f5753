-- ===== src/Tests/Queue.antt =====
-- The queue at concrete calls and deliveries.
use dgou_framework.Base.{
  Str, ap, ◌∙◌, ◌++◌, ℕ, zero, suc, ◌≡◌, refl, Bool, true, false, Option, none, some, List, [], ◌∷◌,
  codes,
}
use dgou_framework.Base.Int.{pos}
use dgou_framework.Queue.Options.{with_routing_key, with_priority}
use dgou_framework.Queue.Rabbit.{RabbitQueue, Command, Call, publish, call, close, queue_closed}
use dgou_framework.Queue.Redis.{RedisLists, redis_publish, redis_consume, redis_fifo}
use dgou_framework.Queue.Rabbit.Guard.{close-call}
use dgou_framework.Queue.Rabbit.Delivery.{
  Message, Event, delivery, queue_done, ack, nack, consume_loop, settled_once, auto_ack_nacks,
}
use dgou_framework.Queue.Rabbit.Reconnect.{Ends, reconnect, reconnect-Ends, retry_limit}

abbrev queue : RabbitQueue
queue = record {
  config = record {
    url = [];
    host = codes "localhost";
    port = pos 5672;
    username = codes "guest";
    password = codes "guest";
    vhost = [];
    heartbeat = pos 30;
    dial_timeout = pos 10;
    max_retries = pos 3;
    retry_delay = pos 5;
    prefetch_count = pos 1;
    prefetch_size = pos 0;
    global_prefetch = false;
  };
  conn = true;
  channel = true;
  closed = false;
  done_closed = false;
}

-- a channel that answers every command without an error; a table is a number here
abbrev agree : Command ℕ → Option ℕ
agree c = none

abbrev hello : Call ℕ
hello = publish (codes "hello") (with_routing_key (codes "jobs") ∷ with_priority 4 ∷ [])

close-call_example :
    let (q', commands, panics) = close {Table = ℕ} queue in
    (panics ≡ false)
    × (q'.done_closed ≡ q'.closed)
    × ((close {Table = ℕ} q').2 ≡ false)
    × (call agree q' (pos 7) hello ≡ ([], some queue_closed))
close-call_example = close-call agree queue (pos 7) hello refl

-- the second message's handler fails
abbrev handler : Message → Option ℕ
handler m = elim m.delivery_tag [ zero ↦ none | suc zero ↦ none | suc (suc n) ↦ some 9 ]

abbrev messages : List Event
messages =
    delivery (record { body = codes "x"; delivery_tag = 1 })
    ∷ delivery (record { body = codes "y"; delivery_tag = 2 })
    ∷ queue_done
    ∷ delivery (record { body = codes "z"; delivery_tag = 3 })
    ∷ []

settled_once_example : consume_loop false handler messages ≡ ack 1 false ∷ nack 2 false true ∷ []
settled_once_example = settled_once handler messages

auto_ack_nacks_example : consume_loop true handler messages ≡ nack 2 false true ∷ []
auto_ack_nacks_example = auto_ack_nacks handler messages

abbrev third : ℕ → Bool
third zero = false
third (suc zero) = false
third (suc (suc n)) = true

abbrev never : ℕ → Bool
never n = false

reconnect-Ends_example : Ends never third 0 (retry_limit (pos 3)) (reconnect never third (pos 3))
reconnect-Ends_example = reconnect-Ends never third (pos 3)

-- one list for all keys, whose right end is the end of the list
unfoldable split_last : List Str → Option (Str × List Str)
split_last [] = none
split_last (v ∷ []) = some (v, [])
split_last (v ∷ w ∷ l) = elim (split_last (w ∷ l)) [ none ↦ none | some (x, r) ↦ some (x, v ∷ r) ]

split_last_snoc : (xs : List Str) (v : Str) → split_last (xs ++ v ∷ []) ≡ some (v, xs)
unfolding split_last
split_last_snoc [] v = refl
split_last_snoc (x ∷ []) v = refl
split_last_snoc (x ∷ y ∷ xs) v = rw (split_last_snoc (y ∷ xs) v, split_last) refl

abbrev one_list : RedisLists
one_list = record {
  Store = List Str;
  lpush = λ s k v. v ∷ s;
  brpop = λ s k. split_last s;
  contents = λ s k. s;
  contents-lpush = λ s k v. refl;
  brpop-contents = λ s k v xs h. (xs, ap split_last h ∙ split_last_snoc xs v, refl);
}

redis_fifo_example :
    redis_consume one_list 2 (codes "b" ∷ codes "a" ∷ []) (codes "jobs")
    ≡ codes "a" ∷ codes "b" ∷ []
unfolding redis_publish
redis_fifo_example = redis_fifo one_list [] (codes "jobs") (codes "a" ∷ codes "b" ∷ []) refl
