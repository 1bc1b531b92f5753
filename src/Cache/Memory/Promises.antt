-- ===== src/Cache/Memory/Promises.antt =====
-- What a caller of the cache can rely on: reads after writes, the memory bound, and counters.
use dgou_framework.Base.{
  ℕ, ◌+◌, ◌≡◌, ◌≢◌, refl, ap, ◌∙◌, false, Option, none, some, GoMap, Str, str_discrete, length,
  if◌then◌else◌, arith, inl, inr, ◌⊎◌, Option-cases, insert_self,
}
use dgou_framework.Base.Int.{ℤ, pos, ◌+ℤ◌, ◌≤ℤ◌, ◌<ℤ◌, ltb_ℤ, int_laws, wrap64, FitsInt64}
use dgou_framework.Base.Strconv.{format_int, parse_int, parse_int-format_int}
use dgou_framework.Cache.Memory.{
  MemoryItem, MemoryCache, Value, key_not_found, key_expired, Result, ok, err, is_expired, is_over,
  make_room, store, drop_old, to_text, expire_time, set, delete_item, delete_key, get, incr,
}
use dgou_framework.Cache.Memory.Links.{total}
use dgou_framework.Cache.Memory.Invariant.{Inv, IsValid, drop_old-Inv}
use dgou_framework.Cache.Memory.Eviction.{make_room-Evicts, make_room-Kept}

-- What a read at `now` gives for a text that was stored with an expiry time.
abbrev pub read_at : Option ℤ → ℤ → Str → Result Str
read_at none now s = ok s
read_at (some t) now s = if ltb_ℤ t now then err key_expired else ok s

get_present :
    (m : MemoryCache) (now : ℤ) (k : Str) (item : MemoryItem)
    → m.items k ≡ some item
    → (get m now k).1 ≡ read_at item.expire now item.value
unfolding get is_expired
get_present m now k item h = rw (h, get) (ground arith)

store-items :
    (k value : Str) (expire : Option ℤ) (size : ℕ) (m : MemoryCache)
    → (item : MemoryItem) × ((store k value expire size m).items k ≡ some item)
      × (item.value ≡ value)
      × (item.expire ≡ expire)
      × (item.size ≡ size)
unfolding store
store-items k value expire size m = (_, insert_self str_discrete k _ m.items, refl, refl, refl)

-- A `Get` after a `Set` of the key gives the stored text, until the item's expiry time has passed;
-- from then on it gives the expiry error. The time is the given one, or else the cache's default,
-- or else there is none.
pub get-set :
    (m : MemoryCache) (now now' : ℤ) (k : Str) (value : Value) (ttl : ℤ)
    → (get (set m now k value ttl) now' k).1
      ≡ read_at (expire_time now ttl m.ttl) now' (to_text value)
unfolding set
get-set m now now' k value ttl =
    let m' = make_room _ (drop_old k (m.items k) m) in
    let (item, here, text, time, size) =
      store-items k (to_text value) (expire_time now ttl m.ttl) (length k + length (to_text value))
        m' in
    get_present (set m now k value ttl) now' k item here ∙ rw (text, time)

-- A deleted key is not found, at any later time.
pub get-delete_key :
    (m : MemoryCache) (now : ℤ) (k : Str) → (get (delete_key m k) now k).1 ≡ err key_not_found
unfolding get delete_key delete_item
get-delete_key m now k = elim (Option-cases (m.items k)) [
  | inl absent ↦ ground (arith, absent)
  | inr (item, present) ↦ ground (arith, present)
]

drop_old-items :
    (k : Str) (o : Option MemoryItem) (m : MemoryCache) → (drop_old k o m).items ≡ m.items
unfolding drop_old
drop_old-items k none m = refl
drop_old-items k (some item) m = refl

-- On a cache with the invariant, Set leaves the item of another key as it is, or has evicted it.
pub set-items_ne :
    (m : MemoryCache) (now : ℤ) (k : Str) (value : Value) (ttl : ℤ) (q : Str)
    → IsValid m
    → q ≢ k
    → let m' = set m now k value ttl in (m'.items q ≡ m.items q) ⊎ (m'.items q ≡ none)
unfolding set store
set-items_ne m now k value ttl q v n =
    let d = drop_old k (m.items k) m in
    let kept = make_room-Kept (length k + length (to_text value)) d (drop_old-Inv m k v) in
    ground
      (arith, kept.items q, ap (λ (f : GoMap Str MemoryItem). f q) (drop_old-items k (m.items k) m))

fits-le :
    (m : MemoryCache) (size : ℕ)
    → pos 0 <ℤ m.max_bytes
    → is_over m size ≡ false
    → m.used +ℤ pos size ≤ℤ m.max_bytes
fits-le m size h fits = ground arith

used-bound :
    (gap : Option Str) (k value : Str) (expire : Option ℤ) (size : ℕ) (m : MemoryCache)
    → Inv gap m
    → pos 0 <ℤ m.max_bytes
    → let m' = store k value expire size (make_room size m) in
      (m'.used ≤ℤ m'.max_bytes) ⊎ ((m'.used ≡ pos size) × (length m'.lru_list ≡ 1))
unfolding store total
used-bound gap k value expire size m v h =
    let r = make_room size m in
    let kept = make_room-Kept size m v in
    elim (make_room-Evicts size m v).1 [
      | inl fits ↦ inl (fits-le r size (rw kept.limits.0 h) fits)
      | inr empty ↦ inr (rw (kept.inv.counted, empty) (omega int_laws), rw empty)
    ]

drop_old-max_bytes :
    (k : Str) (o : Option MemoryItem) (m : MemoryCache)
    → ((drop_old k o m).max_bytes ≡ m.max_bytes) × ((drop_old k o m).ttl ≡ m.ttl)
unfolding drop_old
drop_old-max_bytes k none m = (refl, refl)
drop_old-max_bytes k (some item) m = (refl, refl)

-- On a cache with the invariant and a positive limit, the bytes counted after a Set stay within
-- the limit, or the new entry alone is counted and is the only one in the list.
pub set-used-le :
    (m : MemoryCache) (now : ℤ) (k : Str) (value : Value) (ttl : ℤ)
    → IsValid m
    → pos 0 <ℤ m.max_bytes
    → let m' = set m now k value ttl in
      (m'.used ≤ℤ m'.max_bytes)
      ⊎ ((m'.used ≡ pos (length k + length (to_text value))) × (length m'.lru_list ≡ 1))
unfolding set
set-used-le m now k value ttl v h =
    used-bound (some k) k _ _ _ (drop_old k (m.items k) m) (drop_old-Inv m k v)
      (rw (drop_old-max_bytes k (m.items k) m).0 h)

-- A key that holds the decimal text of `n` counts on from it, with 64-bit wrap-around: `Incr`
-- returns the sum, and a `Get` that the entry has not expired for reads its decimal text.
pub incr_counts :
    (m : MemoryCache) (now now' : ℤ) (k : Str) (delta n : ℤ) (item : MemoryItem)
    → m.items k ≡ some item
    → item.value ≡ format_int n
    → FitsInt64 n
    → let (m', r) = incr m now k delta in
      (r ≡ ok (wrap64 (n +ℤ delta)))
      × ((get m' now' k).1 ≡ read_at item.expire now' (format_int (wrap64 (n +ℤ delta))))
unfolding incr
incr_counts m now now' k delta n item present text fits =
    let parsed : parse_int item.value ≡ some n = rw text (parse_int-format_int n fits) in
    rw (present, incr)
      (rw parsed (refl, get_present _ now' k _ (insert_self str_discrete k _ m.items)))

-- `Incr` on an absent key starts at the increment.
pub incr_starts :
    (m : MemoryCache) (now now' : ℤ) (k : Str) (delta : ℤ)
    → m.items k ≡ none
    → let (m', r) = incr m now k delta in
      (r ≡ ok delta) × ((get m' now' k).1 ≡ read_at (some (now +ℤ m.ttl)) now' (format_int delta))
unfolding incr
incr_starts m now now' k delta absent =
    let (item, here, text, time, size) =
      store-items k (format_int delta) (some (now +ℤ m.ttl)) (length k + length (format_int delta))
        (make_room (length k + length (format_int delta)) m) in
    rw (absent, incr) (refl, get_present _ now' k item here ∙ rw (text, time))
