-- ===== src/Queue/Rabbit/Delivery.antt =====
-- pkg/queue/rabbitmq.go: the goroutine that `Consume` starts. Its `select` takes one event at a
-- time, in the order of the list; the handler is an argument, with what it returns for a message.
use dgou_framework.Base.{
  ℕ, ◌≡◌, refl, Bool, true, false, Option, none, some, List, [], ◌∷◌, ◌++◌, map, arith,
  if◌then◌else◌, Str,
}

-- what the model keeps of `amqp.Delivery`, and so of the message that is made of it
pub record Message : Type 0 where
  pub body : Str
  pub delivery_tag : ℕ

pub data Event : Type 0 where
  delivery : Message → Event
  context_done queue_done deliveries_closed : Event

-- what the consumer tells the server about a message
pub data Settlement : Type 0 where
  ack : (tag : ℕ) (multiple : Bool) → Settlement
  nack : (tag : ℕ) (multiple requeue : Bool) → Settlement

-- After the handler: its error asks for a redelivery, and success is acknowledged unless the
-- server does not wait for that.
unfoldable pub settle : Bool → Message → Option ℕ → List Settlement
settle auto_ack m (some e) = nack m.delivery_tag false true ∷ []
settle auto_ack m none = if auto_ack then [] else ack m.delivery_tag false ∷ []

-- The loop: the settlements it sends. It returns at the first event that is no delivery.
unfoldable pub consume_loop : Bool → (Message → Option ℕ) → List Event → List Settlement
unfolding settle
consume_loop auto_ack handler [] = []
consume_loop auto_ack handler (delivery m ∷ es) =
    settle auto_ack m (handler m) ++ consume_loop auto_ack handler es
consume_loop auto_ack handler (context_done ∷ es) = []
consume_loop auto_ack handler (queue_done ∷ es) = []
consume_loop auto_ack handler (deliveries_closed ∷ es) = []

-- the messages that come before the loop ends
abbrev pub delivered : List Event → List Message
delivered [] = []
delivered (delivery m ∷ es) = m ∷ delivered es
delivered (context_done ∷ es) = []
delivered (queue_done ∷ es) = []
delivered (deliveries_closed ∷ es) = []

abbrev verdict : Message → Option ℕ → Settlement
verdict m none = ack m.delivery_tag false
verdict m (some e) = nack m.delivery_tag false true

-- Without AutoAck, each message that is delivered before the loop ends is settled exactly once and
-- in its order: acknowledged alone if the handler succeeds, and put back alone if it fails.
pub settled_once :
    (handler : Message → Option ℕ) (es : List Event)
    → consume_loop false handler es ≡ map (λ m. verdict m (handler m)) (delivered es)
unfolding consume_loop settle
settled_once handler [] = refl
settled_once handler (delivery m ∷ es) =
    elim (handler m)
      as (λ r.
        settle false m r ++ consume_loop false handler es
        ≡ verdict m r ∷ map (λ m. verdict m (handler m)) (delivered es)) [
          | some e ↦ rw (settled_once handler es)
          | none ↦ rw (settled_once handler es)
        ]
settled_once handler (context_done ∷ es) = refl
settled_once handler (queue_done ∷ es) = refl
settled_once handler (deliveries_closed ∷ es) = refl

abbrev cons_failed : Option ℕ → ℕ → List ℕ → List ℕ
cons_failed none tag tags = tags
cons_failed (some e) tag tags = tag ∷ tags

abbrev pub failed_tags : (Message → Option ℕ) → List Message → List ℕ
failed_tags handler [] = []
failed_tags handler (m ∷ ms) = cons_failed (handler m) m.delivery_tag (failed_tags handler ms)

-- With AutoAck the server has settled each message already, and still the consumer sends one
-- negative acknowledgement for each message whose handler fails, and nothing else.
pub auto_ack_nacks :
    (handler : Message → Option ℕ) (es : List Event)
    → consume_loop true handler es
      ≡ map (λ tag. nack tag false true) (failed_tags handler (delivered es))
unfolding consume_loop settle
auto_ack_nacks handler [] = refl
auto_ack_nacks handler (delivery m ∷ es) = let ih = auto_ack_nacks handler es in ground arith
auto_ack_nacks handler (context_done ∷ es) = refl
auto_ack_nacks handler (queue_done ∷ es) = refl
auto_ack_nacks handler (deliveries_closed ∷ es) = refl
