-- ===== src/Cache/Memory.antt =====
-- pkg/cache/memory.go: the in-memory cache. Each method runs under the cache's mutex and is one
-- function from the state to the new state and the results; the clock that `time.Now()` reads is
-- an argument. A pointer to a list element is the number that `fresh` gave it, so that removal
-- and moves go by identity, as in container/list.
mod Links
mod Moves
pub mod Invariant
pub mod Eviction
pub mod Methods
pub mod Promises
pub mod Runs
pub mod View
pub mod Trim
pub mod Abstract
pub mod Agrees
pub mod Refines
use dgou_framework.Base.{
  ℕ, zero, suc, ◌+◌, ◌*◌, ◌==◌, ◌&&◌, Bool, true, false, not, Option, none, some, List, [], ◌∷◌,
  GoMap, empty_map, insert, delete, Str, codes, str_discrete, length, if◌then◌else◌, ltb,
}
use dgou_framework.Base.Int.{ℤ, pos, negsuc, ◌+ℤ◌, ◌-ℤ◌, ltb_ℤ, scale, wrap64}
use dgou_framework.Base.Strconv.{format_int, parse_int}

-- `list.Element`
pub record Element : Type 0 where
  pub id : ℕ
  pub value : Str

-- `memoryItem`; `expire` is `none` for the zero time
pub record MemoryItem : Type 0 where
  pub value : Str
  pub expire : Option ℤ
  pub size : ℕ
  pub element : ℕ

pub record MemoryCache : Type 0 where
  pub items : GoMap Str MemoryItem
  pub lru_list : List Element
  pub lru_map : GoMap Str ℕ
  pub max_bytes : ℤ
  pub used : ℤ
  pub ttl : ℤ
  pub fresh : ℕ

-- A value for `Set`: a string, or anything else as the bytes that json.Marshal gives for it.
pub data Value : Type 0 where
  text : Str → Value
  other : (marshalled : Str) → Value

pub data CacheError : Type 0 where
  key_not_found key_expired not_integer not_implemented : CacheError

pub data Result {ℓ} (A : Type ℓ) : Type ℓ where
  ok : A → Result A
  err : CacheError → Result A

unfoldable pub new_memory : ℤ → ℤ → MemoryCache
new_memory max_memory_mb default_ttl = record {
  items = empty_map;
  lru_list = [];
  lru_map = empty_map;
  max_bytes = wrap64 (scale (1024 * 1024) max_memory_mb);
  used = pos 0;
  ttl = default_ttl;
  fresh = 0;
}

-- `l.Remove(e)`
unfoldable pub remove_elem : ℕ → List Element → List Element
remove_elem id [] = []
remove_elem id (e ∷ l) = if e.id == id then l else e ∷ remove_elem id l

unfoldable pub find_elem : ℕ → List Element → Option Element
find_elem id [] = none
find_elem id (e ∷ l) = if e.id == id then some e else find_elem id l

-- `l.MoveToFront(e)` does nothing for an element that is not in the list.
unfoldable pub move_to_front : ℕ → List Element → List Element
unfolding find_elem remove_elem
move_to_front id l = elim (find_elem id l) [ none ↦ l | some e ↦ e ∷ remove_elem id l ]

-- `l.Back()`
unfoldable pub back : List Element → Option Element
back [] = none
back (e ∷ []) = some e
back (e ∷ f ∷ l) = back (f ∷ l)

-- `!item.expire.IsZero() && item.expire.Before(time.Now())`
unfoldable pub is_expired : MemoryItem → ℤ → Bool
is_expired item now = elim item.expire [ none ↦ false | some t ↦ ltb_ℤ t now ]

-- the `if item, ok := m.items[key]` of `evictLocked`
evict_item : Str → Option MemoryItem → MemoryCache → MemoryCache
evict_item key none m = m
evict_item key (some item) m = record m {
  used = m.used -ℤ pos item.size;
  items = delete str_discrete key m.items;
  lru_map = delete str_discrete key m.lru_map;
}

unfoldable pub evict_locked : MemoryCache → MemoryCache × Bool
unfolding evict_item
evict_locked m = elim (back m.lru_list) [
  | none ↦ (m, false)
  | some e ↦
      let m' = evict_item e.value (m.items e.value) m in
      (record m' { lru_list = remove_elem e.id m'.lru_list }, true)
]

-- `m.maxBytes > 0 && m.used+int64(size) > m.maxBytes`
abbrev pub is_over : MemoryCache → ℕ → Bool
is_over m size = ltb_ℤ (pos 0) m.max_bytes && ltb_ℤ m.max_bytes (m.used +ℤ pos size)

-- The eviction loop, which both `Set` and `Incr` contain. A round that goes on has removed an
-- element, so one round more than the list is long is enough.
unfoldable pub evict_loop : ℕ → ℕ → MemoryCache → MemoryCache
evict_loop zero size m = m
evict_loop (suc fuel) size m =
    let (m', evicted) = evict_locked m in
    let rest = evict_loop fuel size m' in
    if is_over m size then (if evicted then rest else m) else m

unfoldable pub make_room : ℕ → MemoryCache → MemoryCache
make_room size m = evict_loop (suc (length m.lru_list)) size m

-- `PushFront`, and the new item under its key
unfoldable pub store : Str → Str → Option ℤ → ℕ → MemoryCache → MemoryCache
store key value expire size m =
    let item : MemoryItem = record {
      value = value;
      expire = expire;
      size = size;
      element = m.fresh;
    } in
    record m {
      lru_list = record { id = m.fresh; value = key } ∷ m.lru_list;
      items = insert str_discrete key item m.items;
      lru_map = insert str_discrete key m.fresh m.lru_map;
      used = m.used +ℤ pos size;
      fresh = suc m.fresh;
    }

-- the `if old, ok := m.items[m.key(key)]` of `Set`
unfoldable pub drop_old : Str → Option MemoryItem → MemoryCache → MemoryCache
drop_old key none m = m
drop_old key (some old) m = record m {
  used = m.used -ℤ pos old.size;
  lru_list = remove_elem old.element m.lru_list;
  lru_map = delete str_discrete key m.lru_map;
}

abbrev pub to_text : Value → Str
to_text (text s) = s
to_text (other b) = b

-- the expiry time of a new item
abbrev pub expire_time : ℤ → ℤ → ℤ → Option ℤ
expire_time now ttl default_ttl =
    if ltb_ℤ (pos 0) ttl
    then some (now +ℤ ttl)
    else if ltb_ℤ (pos 0) default_ttl
    then some (now +ℤ default_ttl)
    else none

unfoldable pub set : MemoryCache → ℤ → Str → Value → ℤ → MemoryCache
set m now key value ttl =
    let str = to_text value in
    let size = length key + length str in
    let m' = make_room size (drop_old key (m.items key) m) in
    store key str (expire_time now ttl m.ttl) size m'

-- the `if item, ok := m.items[m.key(key)]` of `Delete`
unfoldable pub delete_item : Str → Option MemoryItem → MemoryCache → MemoryCache
delete_item key none m = m
delete_item key (some item) m = record m {
  used = m.used -ℤ pos item.size;
  lru_list = remove_elem item.element m.lru_list;
  lru_map = delete str_discrete key m.lru_map;
  items = delete str_discrete key m.items;
}

unfoldable pub delete_key : MemoryCache → Str → MemoryCache
unfolding delete_item
delete_key m key = delete_item key (m.items key) m

unfoldable pub get : MemoryCache → ℤ → Str → MemoryCache × Result Str
get m now key = elim (m.items key) [
  | none ↦ (m, err key_not_found)
  | some item ↦
      if is_expired item now
      then (delete_key m key, err key_expired)
      else (record m { lru_list = move_to_front item.element m.lru_list }, ok item.value)
]

unfoldable pub exists : MemoryCache → ℤ → Str → MemoryCache × Bool
exists m now key = elim (m.items key) [
  | none ↦ (m, false)
  | some item ↦ if is_expired item now then (delete_key m key, false) else (m, true)
]

-- `Incr`. A new key expires after `m.ttl` whatever its sign; a present one keeps its expiry time
-- and its recorded size.
unfoldable pub incr : MemoryCache → ℤ → Str → ℤ → MemoryCache × Result ℤ
incr m now key delta = elim (m.items key) [
  | none ↦
      let new_val = format_int delta in
      let size = length key + length new_val in
      (store key new_val (some (now +ℤ m.ttl)) size (make_room size m), ok delta)
  | some item ↦ elim (parse_int item.value) [
    | none ↦ (m, err not_integer)
    | some cur ↦
        let new_val = wrap64 (cur +ℤ delta) in
        (
          record m {
            items = insert str_discrete key (record item { value = format_int new_val }) m.items;
            lru_list = move_to_front item.element m.lru_list;
          },
          ok new_val,
        )
  ]
]

unfoldable pub decr : MemoryCache → ℤ → Str → ℤ → MemoryCache × Result ℤ
decr m now key delta = incr m now key (wrap64 (pos 0 -ℤ delta))
