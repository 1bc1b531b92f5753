-- ===== src/Cache/Memory/Invariant.antt =====
-- The invariant of the cache, and the parts of the methods that keep it.
use dgou_framework.Base.{
  ℕ, ◌≡◌, ◌≢◌, refl, true, false, Option, none, some, insert, delete, Str, str_discrete, arith, inl,
  inr, Bool-cases, Option-cases, delete_ne, insert_ne, insert_self,
}
use dgou_framework.Base.Int.{ℤ, pos, ◌-ℤ◌, int_laws}
use dgou_framework.Cache.Memory.{
  MemoryItem, MemoryCache, remove_elem, store, drop_old, delete_item, delete_key, new_memory,
}
use dgou_framework.Cache.Memory.Links.{
  element_of, size_of, has_key, total, Linked, Linked-remove_elem, has_key-remove_elem,
  total-remove_elem, total-agree, Linked-agree, has_key_of_none, Apart-new, Linked-suc,
}

-- What holds of the cache between two steps. `gap` is the key whose old item `Set` has taken out
-- of the list and out of the count, and which it is about to overwrite.
pub record Inv (gap : Option Str) (m : MemoryCache) : Type 0 where
  pub linked : Linked m.items m.fresh m.lru_list
  pub counted : m.used ≡ pos (total m.items m.lru_list)
  pub covered : (q : Str) → gap ≢ some q → has_key q m.lru_list ≡ false → m.items q ≡ none
  pub mapped : (q : Str) → gap ≢ some q → m.lru_map q ≡ element_of (m.items q)
  pub missing : (q : Str) → gap ≡ some q → (has_key q m.lru_list ≡ false) × (m.lru_map q ≡ none)

-- Between two calls: the count is the sum of the recorded sizes, the list links each item once,
-- by its own element, and `lruMap` agrees.
abbrev pub IsValid : MemoryCache → Type 0
IsValid = Inv none

pub new_memory-IsValid : (mb ttl : ℤ) → IsValid (new_memory mb ttl)
unfolding new_memory total
new_memory-IsValid mb ttl = record {
  linked = tt;
  counted = refl;
  covered = λ q g h. refl;
  mapped = λ q g. refl;
  missing = λ q g. cc;
}

-- An item that is present is in the list.
pub has_key_of_some :
    {m : MemoryCache} {gap : Option Str} (k : Str) {item : MemoryItem}
    → Inv gap m
    → gap ≢ some k
    → m.items k ≡ some item
    → has_key k m.lru_list ≡ true
has_key_of_some {m} k v g h = elim (Bool-cases (has_key k m.lru_list)) [
  | inl p ↦ p
  | inr p ↦ ground (arith, v.covered k g p)
]

-- Unlinking a key and its item, as `Delete` and `evictLocked` do.
abbrev pub unlinked : MemoryCache → Str → MemoryItem → MemoryCache
unlinked m k item = record m {
  used = m.used -ℤ pos item.size;
  lru_list = remove_elem item.element m.lru_list;
  lru_map = delete str_discrete k m.lru_map;
  items = delete str_discrete k m.items;
}

pub unlinked-Inv :
    (gap : Option Str) (m : MemoryCache) (k : Str) (item : MemoryItem)
    → Inv gap m
    → gap ≢ some k
    → m.items k ≡ some item
    → Inv gap (unlinked m k item)
unlinked-Inv gap m k item v g h =
    let held = has_key_of_some {m = m} k v g h in
    let own : element_of (m.items k) ≡ some item.element = rw h in
    let keys = has_key-remove_elem m.items m.fresh k item.element m.lru_list v.linked held own in
    let gone : has_key k (remove_elem item.element m.lru_list) ≡ false = ground (arith, keys k) in
    let links = Linked-remove_elem m.items m.fresh item.element m.lru_list v.linked in
    let agree = delete_ne str_discrete k m.items in
    let same = total-agree m.items (delete str_discrete k m.items) k _ agree gone in
    let sizes = total-remove_elem m.items m.fresh k item.element m.lru_list v.linked held own in
    let size : size_of (m.items k) ≡ item.size = rw h in
    record {
      linked = Linked-agree m.items (delete str_discrete k m.items) k m.fresh _ agree gone links;
      counted = rw (same, v.counted) (omega (int_laws, sizes, size));
      covered = λ q p n. ground (arith, keys q, v.covered q p);
      mapped = λ q p. ground (arith, v.mapped q p);
      missing = λ q p. ground (arith, keys q, v.missing q p);
    }

-- `Delete` removes exactly the key's item.
pub delete_key-IsValid : (m : MemoryCache) (k : Str) → IsValid m → IsValid (delete_key m k)
unfolding delete_key
delete_key-IsValid m k v = elim (Option-cases (m.items k)) [
  | inl absent ↦ rw (absent, delete_item) v
  | inr (item, present) ↦ rw (present, delete_item) (unlinked-Inv none m k item v (λ p. cc) present)
]

-- `Set` takes an old item out of the list, and leaves a gap under its key.
drop_present-Inv :
    (m : MemoryCache) (k : Str) (item : MemoryItem)
    → IsValid m
    → m.items k ≡ some item
    → Inv (some k) (drop_old k (some item) m)
unfolding drop_old
drop_present-Inv m k item v h =
    let held = has_key_of_some {m = m} k v (λ p. cc) h in
    let own : element_of (m.items k) ≡ some item.element = rw h in
    let keys = has_key-remove_elem m.items m.fresh k item.element m.lru_list v.linked held own in
    let sizes = total-remove_elem m.items m.fresh k item.element m.lru_list v.linked held own in
    let size : size_of (m.items k) ≡ item.size = rw h in
    record {
      linked = Linked-remove_elem m.items m.fresh item.element m.lru_list v.linked;
      counted = rw v.counted (omega (int_laws, sizes, size));
      covered = λ q p n. ground (arith, keys q, v.covered q);
      mapped = λ q p. ground (arith, v.mapped q);
      missing = λ q p. ground (arith, keys q);
    }

pub drop_old-Inv : (m : MemoryCache) (k : Str) → IsValid m → Inv (some k) (drop_old k (m.items k) m)
unfolding drop_old
drop_old-Inv m k v = elim (Option-cases (m.items k)) [
  | inl absent ↦
      rw (absent, drop_old)
        (record {
          linked = v.linked;
          counted = v.counted;
          covered = λ q p n. v.covered q (λ e. cc) n;
          mapped = λ q p. v.mapped q (λ e. cc);
          missing = λ q p.
              ground
                (arith, has_key_of_none m.items k m.fresh m.lru_list v.linked absent, v.mapped k);
        })
  | inr (item, present) ↦ rw present (drop_present-Inv m k item v present)
]

-- `store` closes the gap.
pub store-IsValid :
    (k value : Str) (expire : Option ℤ) (size : ℕ) (m : MemoryCache)
    → Inv (some k) m
    → IsValid (store k value expire size m)
unfolding store total has_key
store-IsValid k value expire size m v =
    let item : MemoryItem = record {
      value = value;
      expire = expire;
      size = size;
      element = m.fresh;
    } in
    let new = insert str_discrete k item m.items in
    let agree = insert_ne str_discrete k item m.items in
    let gone : has_key k m.lru_list ≡ false = (v.missing k refl).0 in
    let links = Linked-agree m.items new k m.fresh m.lru_list agree gone v.linked in
    let same = total-agree m.items new k m.lru_list agree gone in
    let here = insert_self str_discrete k item m.items in
    record {
      linked = (
        omega arith,
        rw here,
        Apart-new new k m.fresh m.fresh m.lru_list (omega arith) links gone,
        Linked-suc new m.fresh m.lru_list links,
      );
      counted = rw (same, here, v.counted) (omega int_laws);
      covered = λ q p n. ground (arith, v.covered q);
      mapped = λ q p. ground (arith, v.mapped q);
      missing = λ q p. cc;
    }
