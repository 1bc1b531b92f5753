-- ===== src/Cache/Memory/Methods.antt =====
-- What each method of the cache promises, from the invariant.
use dgou_framework.Base.{
  ℕ, ◌≡◌, sym, ◌∙◌, none, some, insert, Str, str_discrete, arith, inl, inr, Bool-cases,
  Option-cases,
}
use dgou_framework.Base.Int.{ℤ}
use dgou_framework.Base.Strconv.{parse_int}
use dgou_framework.Cache.Memory.{
  MemoryItem, MemoryCache, Value, move_to_front, is_expired, drop_old, set, get, exists, incr,
}
use dgou_framework.Cache.Memory.Links.{element_of, size_of}
use dgou_framework.Cache.Memory.Moves.{
  total_same_sizes, Linked-same_elements, total-move_to_front, has_key-move_to_front,
  Linked-move_to_front,
}
use dgou_framework.Cache.Memory.Invariant.{
  Inv, IsValid, delete_key-IsValid, drop_old-Inv, store-IsValid,
}
use dgou_framework.Cache.Memory.Eviction.{make_room-Kept}

-- `Get` moves an element to the front and changes nothing else.
touch-IsValid :
    (m : MemoryCache) (id : ℕ)
    → IsValid m
    → IsValid (record m { lru_list = move_to_front id m.lru_list })
touch-IsValid m id v = record {
  linked = Linked-move_to_front m.items m.fresh id m.lru_list v.linked;
  counted = rw (total-move_to_front m.items id m.lru_list) v.counted;
  covered = λ q p n. v.covered q p (sym (has_key-move_to_front id m.lru_list q) ∙ n);
  mapped = v.mapped;
  missing = λ q p. cc;
}

pub get-IsValid : (m : MemoryCache) (now : ℤ) (k : Str) → IsValid m → IsValid (get m now k).0
unfolding get
get-IsValid m now k v = elim (Option-cases (m.items k)) [
  | inl absent ↦ rw (absent, get) v
  | inr (item, present) ↦ elim (Bool-cases (is_expired item now)) [
    | inl old ↦ rw (present, get) (rw old (delete_key-IsValid m k v))
    | inr live ↦ rw (present, get) (rw live (touch-IsValid m item.element v))
  ]
]

pub exists-IsValid : (m : MemoryCache) (now : ℤ) (k : Str) → IsValid m → IsValid (exists m now k).0
unfolding exists
exists-IsValid m now k v = elim (Option-cases (m.items k)) [
  | inl absent ↦ rw (absent, exists) v
  | inr (item, present) ↦ elim (Bool-cases (is_expired item now)) [
    | inl old ↦ rw (present, exists) (rw old (delete_key-IsValid m k v))
    | inr live ↦ rw (present, exists) (rw live v)
  ]
]

pub set-IsValid :
    (m : MemoryCache) (now : ℤ) (k : Str) (value : Value) (ttl : ℤ)
    → IsValid m
    → IsValid (set m now k value ttl)
unfolding set
set-IsValid m now k value ttl v =
    store-IsValid k _ _ _ _ (make_room-Kept _ (drop_old k (m.items k) m) (drop_old-Inv m k v)).inv

-- A key that `Incr` finds absent leaves no gap to close.
pub widen : (m : MemoryCache) (k : Str) → IsValid m → m.items k ≡ none → Inv (some k) m
unfolding drop_old
widen m k v absent = rw (absent, drop_old) at (drop_old-Inv m k v)

-- A new text under a present key, with the recorded size left alone, keeps the count.
rewrite-IsValid :
    (m : MemoryCache) (k value : Str) (item : MemoryItem)
    → IsValid m
    → m.items k ≡ some item
    → IsValid (record m {
      items = insert str_discrete k (record item { value = value }) m.items;
      lru_list = move_to_front item.element m.lru_list;
    })
rewrite-IsValid m k value item v present =
    let items' = insert str_discrete k (record item { value = value }) m.items in
    let sizes : (q : Str) → size_of (items' q) ≡ size_of (m.items q) = λ q. ground arith in
    let elements : (q : Str) → element_of (items' q) ≡ element_of (m.items q) = λ q. ground arith in
    let moved = touch-IsValid m item.element v in
    record {
      linked = Linked-same_elements m.items items' m.fresh _ elements moved.linked;
      counted = rw (total_same_sizes m.items items' _ sizes) moved.counted;
      covered = λ q p n. ground (arith, moved.covered q p n);
      mapped = λ q p. rw (elements q) (v.mapped q p);
      missing = λ q p. cc;
    }

pub incr-IsValid :
    (m : MemoryCache) (now : ℤ) (k : Str) (delta : ℤ) → IsValid m → IsValid (incr m now k delta).0
unfolding incr
incr-IsValid m now k delta v = elim (Option-cases (m.items k)) [
  | inl absent ↦
      rw (absent, incr) (store-IsValid k _ _ _ _ (make_room-Kept _ m (widen m k v absent)).inv)
  | inr (item, present) ↦ elim (Option-cases (parse_int item.value)) [
    | inl bad ↦ rw (present, incr) (rw bad v)
    | inr (cur, good) ↦ rw (present, incr) (rw good (rewrite-IsValid m k _ item v present))
  ]
]
