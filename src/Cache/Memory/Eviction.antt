-- ===== src/Cache/Memory/Eviction.antt =====
-- The eviction loop of `Set` and `Incr`: what a run of it removes, and that it ends.
use dgou_framework.Base.{
  ℕ, zero, suc, ◌+◌, ◌<◌, ◌≡◌, ◌≢◌, refl, ap, sym, ◌∙◌, true, false, Option, none, some, List, [],
  ◌∷◌, ◌++◌, Str, length, arith, inl, inr, ◌⊎◌, Bool-cases, Option-cases, length-append,
}
use mathlib.Core.List.{append-nil, append_assoc}
use dgou_framework.Cache.Memory.{
  Element, MemoryItem, MemoryCache, remove_elem, back, evict_item, evict_locked, is_over,
  evict_loop, make_room,
}
use dgou_framework.Cache.Memory.Links.{element_of, back-Linked}
use dgou_framework.Cache.Memory.Invariant.{Inv, unlinked, unlinked-Inv}

-- One run of the loop: while the new size does not fit, the item of the last element goes.
pub data Evicts (size : ℕ) : MemoryCache → MemoryCache → Type 0 where
  done : {m : MemoryCache} → Evicts size m m
  evict :
      {m m' : MemoryCache} (e : Element) (item : MemoryItem)
      → is_over m size ≡ true
      → back m.lru_list ≡ some e
      → m.items e.value ≡ some item
      → item.element ≡ e.id
      → Evicts size (unlinked m e.value item) m'
      → Evicts size m m'

back_of_none : (l : List Element) → back l ≡ none → l ≡ []
unfolding back
back_of_none [] h = refl
back_of_none (x ∷ []) h = cc
back_of_none (x ∷ y ∷ l) h = absurd (cc (back_of_none (y ∷ l) h))

some_of_element_of :
    (o : Option MemoryItem) {id : ℕ}
    → element_of o ≡ some id
    → (item : MemoryItem) × (o ≡ some item) × (item.element ≡ id)
some_of_element_of none h = cc
some_of_element_of (some item) h = (item, refl, ground arith)

evict_locked-none : (m : MemoryCache) → back m.lru_list ≡ none → evict_locked m ≡ (m, false)
unfolding evict_locked
evict_locked-none m b = rw (b, evict_locked)

evict_locked-some :
    (m : MemoryCache) (e : Element) (item : MemoryItem)
    → back m.lru_list ≡ some e
    → m.items e.value ≡ some item
    → item.element ≡ e.id
    → evict_locked m ≡ (unlinked m e.value item, true)
unfolding evict_locked
evict_locked-some m e item b found same = rw (b, evict_locked) (rw (found, evict_item) (rw same))

module _ (fuel size : ℕ) (m : MemoryCache) where
  evict_loop_fits : is_over m size ≡ false → evict_loop (suc fuel) size m ≡ m
  unfolding evict_loop
  evict_loop_fits h = rw h

  evict_loop_empty :
      is_over m size ≡ true → back m.lru_list ≡ none → evict_loop (suc fuel) size m ≡ m
  unfolding evict_loop
  evict_loop_empty h b = rw (h, evict_locked-none m b)

  evict_loop-some :
      (e : Element) (item : MemoryItem)
      → is_over m size ≡ true
      → back m.lru_list ≡ some e
      → m.items e.value ≡ some item
      → item.element ≡ e.id
      → evict_loop (suc fuel) size m ≡ evict_loop fuel size (unlinked m e.value item)
  unfolding evict_loop
  evict_loop-some e item h b found same = rw (h, evict_locked-some m e item b found same)

module _ {gap : Option Str} (m : MemoryCache) (v : Inv gap m) where
  -- The last element is that of an item outside the gap.
  last_item :
      (e : Element)
      → back m.lru_list ≡ some e
      → (item : MemoryItem) × (m.items e.value ≡ some item)
        × (item.element ≡ e.id)
        × (gap ≢ some e.value)
  last_item e b =
      let (held, own, split) = back-Linked m.items m.fresh m.lru_list v.linked b in
      let (item, found, same) = some_of_element_of (m.items e.value) own in
      (item, found, same, λ g. ground (arith, v.missing e.value g))

  length-unlinked :
      (e : Element) (item : MemoryItem)
      → back m.lru_list ≡ some e
      → item.element ≡ e.id
      → length (remove_elem item.element m.lru_list) + 1 ≡ length m.lru_list
  length-unlinked e item b same =
      let (held, own, split) = back-Linked m.items m.fresh m.lru_list v.linked b in
      rw same (omega (arith, length-append (remove_elem e.id m.lru_list) (e ∷ []), ap length split))

-- With more fuel than the list is long, the loop ends by its own tests: the new size fits, or
-- nothing is left to evict.
evict_loop-Evicts :
    {gap : Option Str} (fuel size : ℕ) (m : MemoryCache)
    → Inv gap m
    → length m.lru_list < fuel
    → Evicts size m (evict_loop fuel size m)
      × ((is_over (evict_loop fuel size m) size ≡ false) ⊎ ((evict_loop fuel size m).lru_list ≡ []))
evict_loop-Evicts zero size m v h = elim h [ ]
evict_loop-Evicts {gap} (suc fuel) size m v h = elim (Bool-cases (is_over m size)) [
  | inr fits ↦ rw (evict_loop_fits fuel size m fits) (done, inl fits)
  | inl over ↦ elim (Option-cases (back m.lru_list)) [
    | inl b ↦ rw (evict_loop_empty fuel size m over b) (done, inr (back_of_none m.lru_list b))
    | inr (e, b) ↦
        let (item, found, same, out) = last_item m v e b in
        let (run, end) =
          evict_loop-Evicts fuel size (unlinked m e.value item)
            (unlinked-Inv gap m e.value item v out found)
            (omega (arith, length-unlinked m v e item b same)) in
        rw (evict_loop-some fuel size m e item over b found same)
          (evict e item over b found same run, end)
  ]
]

-- From a state with the invariant, the loop evicts the item of the last list element again and again
-- while the new size does not fit, does nothing else, and ends with room or with an empty list.
pub make_room-Evicts :
    {gap : Option Str} (size : ℕ) (m : MemoryCache)
    → Inv gap m
    → Evicts size m (make_room size m)
      × ((is_over (make_room size m) size ≡ false) ⊎ ((make_room size m).lru_list ≡ []))
unfolding make_room
make_room-Evicts size m v = evict_loop-Evicts (suc (length m.lru_list)) size m v (omega arith)

-- What a run keeps and what it removes.
pub record Kept (gap : Option Str) (m m' : MemoryCache) : Type 0 where
  pub inv : Inv gap m'
  pub limits : (m'.max_bytes ≡ m.max_bytes) × (m'.ttl ≡ m.ttl) × (m'.fresh ≡ m.fresh)
  -- The elements that go are the last ones: the least recently used.
  pub victims : (gone : List Element) × (m.lru_list ≡ m'.lru_list ++ gone)
  -- An item stays as it is, or it is gone.
  pub items : (q : Str) → (m'.items q ≡ m.items q) ⊎ (m'.items q ≡ none)

pub Evicts-Kept :
    {gap : Option Str} {size : ℕ} {m m' : MemoryCache}
    → Evicts size m m'
    → Inv gap m
    → Kept gap m m'
Evicts-Kept done v = record {
  inv = v;
  limits = (refl, refl, refl);
  victims = ([], sym (append-nil _));
  items = λ q. inl refl;
}
Evicts-Kept {gap} {m = m} {m' = m'} (evict e item over b found same run) v =
    let (held, own, split) = back-Linked m.items m.fresh m.lru_list v.linked b in
    let out : gap ≢ some e.value = λ g. ground (arith, v.missing e.value g) in
    let ih = Evicts-Kept run (unlinked-Inv gap m e.value item v out found) in
    let (gone, before) = ih.victims in
    let back_again : remove_elem item.element m.lru_list ++ e ∷ [] ≡ m.lru_list = rw same split in
    record {
      inv = ih.inv;
      limits = ih.limits;
      victims = (
        gone ++ e ∷ [],
        sym back_again ∙ ap (λ l. l ++ e ∷ []) before ∙ append_assoc m'.lru_list gone (e ∷ []),
      );
      items = λ q. ground (arith, ih.items q);
    }

-- A whole run of the loop from a state with the invariant.
pub make_room-Kept :
    {gap : Option Str} (size : ℕ) (m : MemoryCache) → Inv gap m → Kept gap m (make_room size m)
make_room-Kept size m v = Evicts-Kept (make_room-Evicts size m v).0 v

-- Nothing is evicted where the new size fits.
pub make_room_fits : (size : ℕ) (m : MemoryCache) → is_over m size ≡ false → make_room size m ≡ m
unfolding make_room
make_room_fits size m h = evict_loop_fits (length m.lru_list) size m h
