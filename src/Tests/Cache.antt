-- ===== src/Tests/Cache.antt =====
-- The in-memory cache at small inputs: a limit of ten bytes, so that three entries of four bytes
-- make the oldest go.
use dgou_framework.Base.{
  ◌≡◌, false, ◌≢◌, ◌⊎◌, [], ◌∷◌, Str, codes, length, arith, str_eq, str_eq_iff, sym, ◌∙◌, List,
}
use dgou_framework.Base.Int.{ℤ, pos, ◌+ℤ◌, ◌≤ℤ◌, ◌<ℤ◌}
use dgou_framework.Cache.Memory.{
  MemoryCache, make_room, evict_loop, evict_locked, store, drop_old, back, text, new_memory, set,
  is_over,
}
use dgou_framework.Cache.Memory.Invariant.{IsValid, new_memory-IsValid}
use dgou_framework.Cache.Memory.Methods.{set-IsValid}
use dgou_framework.Cache.Memory.Eviction.{Evicts, make_room-Evicts}
use dgou_framework.Cache.Memory.Promises.{set-used-le}
use dgou_framework.Cache.Memory.Abstract.{abstract}
use dgou_framework.Cache.Memory.Refines.{answers, spec_answers, answers-spec_answers}
use dgou_framework.Cache.Memory.Runs.{
  Operation, set_op, get_op, incr_op, delete_op, run_ops, run_ops-IsValid,
}

differ : (s t : Str) → str_eq s t ≡ false → s ≢ t
differ s t h e = cc (sym h ∙ (str_eq_iff s t).1 e)

abbrev small : MemoryCache
unfolding new_memory
small = record (new_memory (pos 1) (pos 60)) { max_bytes = pos 10 }

small-IsValid : IsValid small
unfolding new_memory
small-IsValid =
    let v = new_memory-IsValid (pos 1) (pos 60) in
    record {
      linked = v.linked;
      counted = v.counted;
      covered = v.covered;
      mapped = v.mapped;
      missing = v.missing;
    }

abbrev one : MemoryCache
one = set small (pos 1) (codes "b") (text (codes "7")) (pos 0)

one-IsValid : IsValid one
one-IsValid = set-IsValid small (pos 1) (codes "b") (text (codes "7")) (pos 0) small-IsValid

abbrev two : MemoryCache
two =
    set (set small (pos 0) (codes "a") (text (codes "111")) (pos 5)) (pos 1) (codes "b")
      (text (codes "7")) (pos 0)

two-IsValid : IsValid two
two-IsValid =
    set-IsValid _ (pos 1) (codes "b") (text (codes "7")) (pos 0)
      (set-IsValid small (pos 0) (codes "a") (text (codes "111")) (pos 5) small-IsValid)

run_ops-IsValid_example : IsValid (
    run_ops (new_memory (pos 1) (pos 60)) (
      (pos 0, set_op (codes "a") (text (codes "1")) (pos 5))
      ∷ (pos 1, incr_op (codes "a") (pos 2))
      ∷ (pos 9, get_op (codes "a"))
      ∷ (pos 9, delete_op (codes "b"))
      ∷ []))
run_ops-IsValid_example = run_ops-IsValid (pos 1) (pos 60) _

one_limit : pos 0 <ℤ one.max_bytes
unfolding small ◌+ℤ◌ set make_room evict_loop evict_locked store drop_old new_memory back
one_limit = omega arith

set-used-le_example :
    let m' = set one (pos 3) (codes "c") (text (codes "999999999")) (pos 5) in
    (m'.used ≤ℤ m'.max_bytes) ⊎ ((m'.used ≡ pos 10) × (length m'.lru_list ≡ 1))
unfolding set
set-used-le_example =
    set-used-le one (pos 3) (codes "c") (text (codes "999999999")) (pos 5) one-IsValid one_limit

make_room-Evicts_example :
    Evicts 6 two (make_room 6 two)
    × ((is_over (make_room 6 two) 6 ≡ false) ⊎ ((make_room 6 two).lru_list ≡ []))
make_room-Evicts_example = make_room-Evicts 6 two two-IsValid

abbrev calls : List (ℤ × Operation)
calls =
    (pos 0, set_op (codes "a") (text (codes "1")) (pos 5))
    ∷ (pos 1, incr_op (codes "a") (pos 2))
    ∷ (pos 9, get_op (codes "a"))
    ∷ []

answers-spec_answers_example :
    answers (new_memory (pos 1) (pos 60)) calls
    ≡ spec_answers (abstract (new_memory (pos 1) (pos 60))) calls
answers-spec_answers_example = answers-spec_answers (pos 1) (pos 60) calls
