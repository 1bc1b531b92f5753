-- ===== src/Cache/Memory/Refines.antt =====
-- Runs of calls of the in-memory cache and of the bounded cache by recency (Cache/Recency).
use dgou_framework.Base.{◌≡◌, refl, ap, ◌∙◌, List, [], ◌∷◌}
use dgou_framework.Base.Int.{ℤ, pos, ◌-ℤ◌, wrap64}
use dgou_framework.Cache.Memory.{MemoryCache, get, exists, incr, decr}
use dgou_framework.Cache.Memory.Invariant.{IsValid}
use dgou_framework.Cache.Memory.Abstract.{abstract, delete_key-abstract, set-abstract}
use dgou_framework.Cache.Memory.Runs.{
  Operation, set_op, get_op, exists_op, delete_op, incr_op, decr_op, apply_op, apply_op-IsValid,
}
use dgou_framework.Cache.Memory.Invariant.{new_memory-IsValid}
use dgou_framework.Cache.Memory.{new_memory}
use dgou_framework.Cache.Recency.{
  Recency, Answer, done, text_answer, number_answer, flag_answer, spec_set, spec_delete, spec_get,
  spec_exists, spec_incr,
}
use dgou_framework.Cache.Memory.Agrees.{Agrees, get-Agrees, exists-Agrees, incr-Agrees}

-- The answer of a call.
unfoldable pub answer_op : MemoryCache → ℤ → Operation → Answer
unfolding decr
answer_op m now (set_op key value ttl) = done
answer_op m now (get_op key) = text_answer (get m now key).1
answer_op m now (exists_op key) = flag_answer (exists m now key).1
answer_op m now (delete_op key) = done
answer_op m now (incr_op key delta) = number_answer (incr m now key delta).1
answer_op m now (decr_op key delta) = number_answer (decr m now key delta).1

-- The same calls on a cache by recency.
unfoldable pub spec_op : Recency → ℤ → Operation → Recency × Answer
unfolding spec_set spec_get spec_exists spec_delete spec_incr
spec_op r now (set_op key value ttl) = (spec_set r now key value ttl, done)
spec_op r now (get_op key) = spec_get r now key
spec_op r now (exists_op key) = spec_exists r now key
spec_op r now (delete_op key) = (spec_delete r key, done)
spec_op r now (incr_op key delta) = spec_incr r now key delta
spec_op r now (decr_op key delta) = spec_incr r now key (wrap64 (pos 0 -ℤ delta))

op-Agrees :
    (m : MemoryCache) (now : ℤ) (op : Operation)
    → IsValid m
    → Agrees (apply_op m now op, answer_op m now op) (spec_op (abstract m) now op)
unfolding apply_op answer_op spec_op decr
op-Agrees m now (set_op key value ttl) v = (set-abstract m now key value ttl v, refl)
op-Agrees m now (get_op key) v = get-Agrees m now key v
op-Agrees m now (exists_op key) v = exists-Agrees m now key v
op-Agrees m now (delete_op key) v = (delete_key-abstract m key v, refl)
op-Agrees m now (incr_op key delta) v = incr-Agrees m now key delta v
op-Agrees m now (decr_op key delta) v = incr-Agrees m now key (wrap64 (pos 0 -ℤ delta)) v

-- The answers of a run.
unfoldable pub answers : MemoryCache → List (ℤ × Operation) → List Answer
unfolding answer_op apply_op
answers m [] = []
answers m ((now, op) ∷ ops) = answer_op m now op ∷ answers (apply_op m now op) ops

unfoldable pub spec_answers : Recency → List (ℤ × Operation) → List Answer
unfolding spec_op
spec_answers r [] = []
spec_answers r ((now, op) ∷ ops) = let (r', a) = spec_op r now op in a ∷ spec_answers r' ops

answers_lem :
    (m : MemoryCache) (ops : List (ℤ × Operation))
    → IsValid m
    → answers m ops ≡ spec_answers (abstract m) ops
unfolding answers spec_answers
answers_lem m [] v = refl
answers_lem m ((now, op) ∷ ops) v =
    let (state, answer) = op-Agrees m now op v in
    let rest = answers_lem (apply_op m now op) ops (apply_op-IsValid m now op v) in
    ap (λ a. a ∷ answers (apply_op m now op) ops) answer
    ∙ ap (λ later. (spec_op (abstract m) now op).1 ∷ later)
        (rest ∙ ap (λ r. spec_answers r ops) state)

-- Any sequence of calls on a new cache gets the answers that a list of entries in the order of their
-- last use gives, of which a new entry keeps the latest that fit: no caller can tell them apart.
pub answers-spec_answers :
    (mb ttl : ℤ) (ops : List (ℤ × Operation))
    → answers (new_memory mb ttl) ops ≡ spec_answers (abstract (new_memory mb ttl)) ops
answers-spec_answers mb ttl ops = answers_lem (new_memory mb ttl) ops (new_memory-IsValid mb ttl)
