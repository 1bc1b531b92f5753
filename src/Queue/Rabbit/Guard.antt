-- ===== src/Queue/Rabbit/Guard.antt =====
-- The guards of the operations over RabbitMQ, and `Close`.
use dgou_framework.Base.{ℕ, ◌≡◌, ◌≢◌, ◌↔◌, ◌⊎◌, true, false, Option, some, [], arith}
use dgou_framework.Base.Int.{ℤ}
use dgou_framework.Queue.Rabbit.{
  RabbitQueue, RabbitConfig, Command, Call, publish, consume, declare_exchange, delete_exchange,
  declare_queue, delete_queue, queue_purge, queue_inspect, bind_queue, unbind_queue, queue_closed,
  single, publish_on, consume_with, perform, call, close,
}

module _ {Table : Type 0} (ask : Command Table → Option ℕ) where
  consume_with_asks : (o : _) → (consume_with ask o).0 ≢ []
  unfolding consume_with
  consume_with_asks o e = ground arith

  perform_asks :
      (config : RabbitConfig) (now : ℤ) (c : Call Table) → (perform ask config now c).0 ≢ []
  unfolding perform publish_on single
  perform_asks config now (publish body opts) e = cc
  perform_asks config now (consume opts) e = consume_with_asks _ e
  perform_asks config now (declare_exchange _ _ _ _ _ _ _) e = cc
  perform_asks config now (delete_exchange _ _) e = cc
  perform_asks config now (declare_queue _ _ _ _ _ _) e = cc
  perform_asks config now (delete_queue _ _ _) e = cc
  perform_asks config now (queue_purge _) e = cc
  perform_asks config now (queue_inspect _) e = cc
  perform_asks config now (bind_queue _ _ _ _ _) e = cc
  perform_asks config now (unbind_queue _ _ _ _) e = cc

  -- Each of the ten operations leaves the AMQP channel alone exactly when the queue is closed or has
  -- no channel; otherwise it sends it at least one command.
  pub call_silent_iff :
      (q : RabbitQueue) (now : ℤ) (c : Call Table)
      → ((call ask q now c).0 ≡ []) ↔ ((q.closed ≡ true) ⊎ (q.channel ≡ false))
  unfolding call
  call_silent_iff q now c =
      let asks = perform_asks q.config now c in (λ h. ground arith, λ h. ground arith)

  -- Where the channel done is closed just when the queue is, Close does not panic, keeps this,
  -- can be called again without a panic, and every operation after it is refused without a
  -- command.
  pub close-call :
      (q : RabbitQueue) (now : ℤ) (c : Call Table)
      → q.done_closed ≡ q.closed
      → let (q', commands, panics) = close {Table = Table} q in
        (panics ≡ false)
        × (q'.done_closed ≡ q'.closed)
        × ((close {Table = Table} q').2 ≡ false)
        × (call ask q' now c ≡ ([], some queue_closed))
  unfolding call close
  close-call q now c h = ground arith
