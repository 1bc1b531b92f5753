-- ===== src/Cache/Memory/Runs.antt =====
-- The cache after any sequence of calls, each at its own time.
use dgou_framework.Base.{Str, List, [], ◌∷◌}
use dgou_framework.Base.Int.{ℤ}
use dgou_framework.Cache.Memory.{
  MemoryCache, Value, new_memory, set, get, exists, delete_key, incr, decr,
}
use dgou_framework.Cache.Memory.Invariant.{IsValid, new_memory-IsValid, delete_key-IsValid}
use dgou_framework.Cache.Memory.Methods.{get-IsValid, exists-IsValid, set-IsValid, incr-IsValid}

-- a call that reads or changes the entries
pub data Operation : Type 0 where
  set_op : (key : Str) (value : Value) (ttl : ℤ) → Operation
  get_op exists_op delete_op : (key : Str) → Operation
  incr_op decr_op : (key : Str) (delta : ℤ) → Operation

unfoldable pub apply_op : MemoryCache → ℤ → Operation → MemoryCache
unfolding decr
apply_op m now (set_op key value ttl) = set m now key value ttl
apply_op m now (get_op key) = (get m now key).0
apply_op m now (exists_op key) = (exists m now key).0
apply_op m now (delete_op key) = delete_key m key
apply_op m now (incr_op key delta) = (incr m now key delta).0
apply_op m now (decr_op key delta) = (decr m now key delta).0

unfoldable pub run_ops : MemoryCache → List (ℤ × Operation) → MemoryCache
run_ops m [] = m
run_ops m ((now, op) ∷ ops) = run_ops (apply_op m now op) ops

pub apply_op-IsValid :
    (m : MemoryCache) (now : ℤ) (op : Operation) → IsValid m → IsValid (apply_op m now op)
unfolding apply_op decr
apply_op-IsValid m now (set_op key value ttl) v = set-IsValid m now key value ttl v
apply_op-IsValid m now (get_op key) v = get-IsValid m now key v
apply_op-IsValid m now (exists_op key) v = exists-IsValid m now key v
apply_op-IsValid m now (delete_op key) v = delete_key-IsValid m key v
apply_op-IsValid m now (incr_op key delta) v = incr-IsValid m now key delta v
apply_op-IsValid m now (decr_op key delta) v = incr-IsValid m now key _ v

run_ops_lem : (m : MemoryCache) (ops : List (ℤ × Operation)) → IsValid m → IsValid (run_ops m ops)
unfolding run_ops
run_ops_lem m [] v = v
run_ops_lem m ((now, op) ∷ ops) v =
    run_ops_lem (apply_op m now op) ops (apply_op-IsValid m now op v)

-- After any sequence of calls on a new cache, whatever its limit and its default time, the entries,
-- the list and the list's map agree: each key of the list has an item and each item stands in the
-- list once, under its key and its element; and the bytes counted are the sum of the items' sizes.
pub run_ops-IsValid :
    (mb ttl : ℤ) (ops : List (ℤ × Operation)) → IsValid (run_ops (new_memory mb ttl) ops)
run_ops-IsValid mb ttl ops = run_ops_lem (new_memory mb ttl) ops (new_memory-IsValid mb ttl)
