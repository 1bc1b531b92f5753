-- ===== src/Queue/Redis.antt =====
-- pkg/queue/redis.go: the queue over a list of Redis. The client is an argument: LPUSH puts a value at
-- the left end of the list of a key and BRPOP takes the one at the right end, or waits. The names of
-- lists are the routing key, or "default", after a prefix. A handler's error is only logged, so the
-- handler is not an argument here: what the loop hands to it, it has taken from the list for good.
use dgou_framework.Base.{
  ℕ, zero, suc, ◌≡◌, refl, ap, ◌∙◌, sym, Option, none, some, List, [], ◌∷◌, ◌++◌, Str, codes,
  length,
}
use mathlib.Core.List.{append-nil, append_assoc}

pub record RedisLists : Type 1 where
  pub Store : Type 0
  pub lpush : Store → Str → Str → Store
  pub brpop : Store → Str → Option (Str × Store)
  pub contents : Store → Str → List Str
  pub contents-lpush : (s : Store) (k v : Str) → contents (lpush s k v) k ≡ v ∷ contents s k
  pub brpop-contents :
      (s : Store) (k v : Str) (xs : List Str)
      → contents s k ≡ xs ++ v ∷ []
      → (s' : Store) × (brpop s k ≡ some (v, s')) × (contents s' k ≡ xs)

-- the name of a list, for a queue name or a routing key
unfoldable pub redis_key : Str → Str
redis_key [] = codes "queue:" ++ codes "default"
redis_key (c ∷ s) = codes "queue:" ++ c ∷ s

module _ (r : RedisLists) where
  -- `Publish` of a body with a routing key, where LPUSH succeeds
  unfoldable pub redis_publish : r.Store → Str → Str → r.Store
  unfolding redis_key
  redis_publish s routing_key body = r.lpush s (redis_key routing_key) body

  -- `n` rounds of the loop of `Consume`: the bodies that reach the handler. It stops where BRPOP
  -- waits.
  unfoldable pub redis_consume : ℕ → r.Store → Str → List Str
  unfolding redis_key
  redis_consume zero s queue = []
  redis_consume (suc n) s queue = elim (r.brpop s (redis_key queue)) [
    | none ↦ []
    | some (body, s') ↦ body ∷ redis_consume n s' queue
  ]

  abbrev pub publish_all : r.Store → Str → List Str → r.Store
  publish_all s queue [] = s
  publish_all s queue (b ∷ bs) = publish_all (redis_publish s queue b) queue bs

  abbrev reversed : List Str → List Str
  reversed [] = []
  reversed (b ∷ bs) = reversed bs ++ b ∷ []

  reversed_snoc : (a : List Str) (b : Str) → reversed (a ++ b ∷ []) ≡ b ∷ reversed a
  reversed_snoc [] b = refl
  reversed_snoc (x ∷ a) b = ap (λ l. l ++ x ∷ []) (reversed_snoc a b)

  contents-publish_all :
      (s : r.Store) (queue : Str) (a bs : List Str)
      → r.contents s (redis_key queue) ≡ reversed a
      → r.contents (publish_all s queue bs) (redis_key queue) ≡ reversed (a ++ bs)
  unfolding redis_publish
  contents-publish_all s queue a [] h = h ∙ ap reversed (sym (append-nil a))
  contents-publish_all s queue a (b ∷ bs) h =
      let pushed =
        r.contents-lpush s (redis_key queue) b ∙ ap (λ l. b ∷ l) h ∙ sym (reversed_snoc a b) in
      contents-publish_all (redis_publish s queue b) queue (a ++ b ∷ []) bs pushed
      ∙ ap reversed (append_assoc a (b ∷ []) bs)

  consume-reversed :
      (s : r.Store) (queue : Str) (l : List Str)
      → r.contents s (redis_key queue) ≡ reversed l
      → redis_consume (length l) s queue ≡ l
  unfolding redis_consume
  consume-reversed s queue [] h = refl
  consume-reversed s queue (b ∷ l) h =
      let (s', taken, rest) = r.brpop-contents s (redis_key queue) b (reversed l) h in
      rw (taken, redis_consume) (ap (λ t. b ∷ t) (consume-reversed s' queue l rest))

  -- The bodies that are published to an empty queue reach the handler in the order of their
  -- publication.
  pub redis_fifo :
      (s : r.Store) (queue : Str) (bodies : List Str)
      → r.contents s (redis_key queue) ≡ []
      → redis_consume (length bodies) (publish_all s queue bodies) queue ≡ bodies
  redis_fifo s queue bodies h =
      consume-reversed (publish_all s queue bodies) queue bodies
        (contents-publish_all s queue [] bodies h)
