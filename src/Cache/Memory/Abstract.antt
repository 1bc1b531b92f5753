-- ===== src/Cache/Memory/Abstract.antt =====
-- The state of the cache as a cache by recency, and what the parts of the methods do to it.
use dgou_framework.Base.{
  ℕ, ◌+◌, ◌≡◌, ◌≢◌, refl, ap, sym, ◌∙◌, true, false, Option, none, some, List, [], ◌∷◌, GoMap, Str,
  str_discrete, delete_ne, delete, insert, insert_ne, insert_self, arith, inl, inr, Option-cases,
  length,
}
use dgou_framework.Base.Int.{ℤ}
use dgou_framework.Cache.Memory.{
  Element, MemoryItem, MemoryCache, Value, to_text, expire_time, remove_elem, find_elem,
  move_to_front, make_room, store, drop_old, set, delete_item, delete_key,
}
use dgou_framework.Cache.Memory.Links.{
  has_key, Linked, element_of, id-ne, has_key-remove_elem, has_key_of_none,
}
use dgou_framework.Cache.Memory.Moves.{move_to_front_hit}
use dgou_framework.Cache.Memory.Invariant.{Inv, IsValid, has_key_of_some, drop_old-Inv}
use dgou_framework.Cache.Memory.Eviction.{make_room-Kept}
use dgou_framework.Cache.Memory.View.{
  entry_of, view, view-cons, view-remove_elem, view-agree, lookup-view, absent-view,
}
use dgou_framework.Cache.Memory.Trim.{make_room-fit}
use dgou_framework.Cache.Recency.{
  Entry, Recency, lookup, without, fit, put, entry, spec_set, spec_delete,
}

-- The cache as its users see it.
unfoldable pub abstract : MemoryCache → Recency
unfolding view
abstract m = record { entries = view m.items m.lru_list; max_bytes = m.max_bytes; ttl = m.ttl }

pub recency_path :
    {es es' : List Entry} {a a' t t' : ℤ}
    → es ≡ es'
    → a ≡ a'
    → t ≡ t'
    → ◌≡◌ {A = Recency}
        (record { entries = es; max_bytes = a; ttl = t })
        (record { entries = es'; max_bytes = a'; ttl = t' })
recency_path p q r = λ i. record { entries = p i; max_bytes = q i; ttl = r i }

pub find_elem-own :
    (items : GoMap Str MemoryItem) (fresh : ℕ) (k : Str) (id : ℕ) (l : List Element)
    → Linked items fresh l
    → has_key k l ≡ true
    → element_of (items k) ≡ some id
    → (e : Element) × (find_elem id l ≡ some e) × (e.value ≡ k)
unfolding has_key find_elem
find_elem-own items fresh k id [] h p e = absurd (cc p)
find_elem-own items fresh k id (x ∷ l) h p e = elim (str_discrete k x.value) [
  | yes here ↦ (x, ground arith, sym here)
  | no there ↦
      let (d, found, own) = find_elem-own items fresh k id l h.3 (ground arith) e in
      let other = id-ne items fresh x k id l h.3 (ground arith) e h.2 in (d, ground arith, own)
]

module _ (m : MemoryCache) (k : Str) (v : IsValid m) where
  module _ (absent : m.items k ≡ none) where
    no_key : has_key k m.lru_list ≡ false
    no_key = has_key_of_none m.items k m.fresh m.lru_list v.linked absent

    pub not_there : lookup k (view m.items m.lru_list) ≡ none
    not_there = (absent-view m.items m.fresh k m.lru_list v.linked no_key).0

    without_same : without k (view m.items m.lru_list) ≡ view m.items m.lru_list
    without_same = (absent-view m.items m.fresh k m.lru_list v.linked no_key).1

  module _ (item : MemoryItem) (present : m.items k ≡ some item) where
    held : has_key k m.lru_list ≡ true
    held = has_key_of_some {m = m} k v (λ p. cc) present

    own : element_of (m.items k) ≡ some item.element
    own = rw present refl

    pub there : lookup k (view m.items m.lru_list) ≡ some (entry_of k item)
    there = lookup-view m.items m.fresh k m.lru_list item v.linked held present

    gone : has_key k (remove_elem item.element m.lru_list) ≡ false
    gone =
        let keys =
          has_key-remove_elem m.items m.fresh k item.element m.lru_list v.linked held own in
        ground (arith, keys k)

    removed :
        view m.items (remove_elem item.element m.lru_list) ≡ without k (view m.items m.lru_list)
    removed = view-remove_elem m.items m.fresh k item.element m.lru_list v.linked held own

    -- The list of a use, with a new item under the key.
    pub moved :
        (items' : GoMap Str MemoryItem) (item' : MemoryItem)
        → items' k ≡ some item'
        → ((q : Str) → q ≢ k → items' q ≡ m.items q)
        → view items' (move_to_front item.element m.lru_list)
          ≡ entry_of k item' ∷ without k (view m.items m.lru_list)
    unfolding view
    moved items' item' here agree =
        let (e, found, same) =
          find_elem-own m.items m.fresh k item.element m.lru_list v.linked held own in
        let rest =
          view-agree m.items items' k (remove_elem item.element m.lru_list) agree gone ∙ removed in
        let r = remove_elem item.element m.lru_list in
        ap (view items') (move_to_front_hit item.element m.lru_list found)
        ∙ view-cons items' m.fresh e r item' (ap items' same ∙ here)
        ∙ ap (λ q. entry_of q item' ∷ view items' r) same
        ∙ ap (λ es. entry_of k item' ∷ es) rest

    delete_present : abstract (delete_item k (some item) m) ≡ spec_delete (abstract m) k
    unfolding abstract delete_item spec_delete
    delete_present =
        let rest =
          view-agree m.items (delete str_discrete k m.items) k (remove_elem item.element m.lru_list)
            (delete_ne str_discrete k m.items) gone
          ∙ removed in
        recency_path rest refl refl

  pub delete_key-abstract : abstract (delete_key m k) ≡ spec_delete (abstract m) k
  unfolding delete_key spec_delete abstract
  delete_key-abstract = elim (Option-cases (m.items k)) [
    | inl absent ↦ rw (absent, delete_item) (recency_path (sym (without_same absent)) refl refl)
    | inr (item, present) ↦ rw present (delete_present item present)
  ]

  pub view-drop_old :
      view (drop_old k (m.items k) m).items (drop_old k (m.items k) m).lru_list
      ≡ without k (view m.items m.lru_list)
  unfolding drop_old
  view-drop_old = elim (Option-cases (m.items k)) [
    | inl absent ↦ rw (absent, drop_old) (sym (without_same absent))
    | inr (item, present) ↦ rw (present, drop_old) (removed item present)
  ]

  pub drop_old-fixed :
      ((drop_old k (m.items k) m).max_bytes ≡ m.max_bytes)
      × ((drop_old k (m.items k) m).ttl ≡ m.ttl)
  unfolding drop_old
  drop_old-fixed = elim (Option-cases (m.items k)) [
    | inl absent ↦ rw (absent, drop_old) (refl, refl)
    | inr (item, present) ↦ rw (present, drop_old) (refl, refl)
  ]

-- `make_room` and `store` together put a new entry.
pub store-abstract :
    (d : MemoryCache) (k value : Str) (expire : Option ℤ) (es : List Entry)
    → Inv (some k) d
    → view d.items d.lru_list ≡ es
    → let size = length k + length value in
      abstract (store k value expire size (make_room size d))
      ≡ put (record { entries = es; max_bytes = d.max_bytes; ttl = d.ttl }) (entry k value expire)
unfolding abstract store put
store-abstract d k value expire es v same =
    let size = length k + length value in
    let kept = make_room-Kept size d v in
    let r = make_room size d in
    let apart : has_key k r.lru_list ≡ false = (kept.inv.missing k refl).0 in
    let item : MemoryItem = record {
      value = value;
      expire = expire;
      size = size;
      element = r.fresh;
    } in
    let new = insert str_discrete k item r.items in
    let top =
      view-cons new r.fresh (record { id = r.fresh; value = k }) r.lru_list item
        (insert_self str_discrete k item r.items) in
    let rest =
      view-agree r.items new k r.lru_list (insert_ne str_discrete k item r.items) apart
      ∙ make_room-fit size d v
      ∙ ap (fit d.max_bytes size) same in
    recency_path (top ∙ ap (λ es. entry_of k item ∷ es) rest) kept.limits.0 kept.limits.1

pub set-abstract :
    (m : MemoryCache) (now : ℤ) (k : Str) (value : Value) (ttl : ℤ)
    → IsValid m
    → abstract (set m now k value ttl) ≡ spec_set (abstract m) now k value ttl
unfolding set spec_set abstract
set-abstract m now k value ttl v =
    let d = drop_old k (m.items k) m in
    let fixed = drop_old-fixed m k v in
    store-abstract d k (to_text value) (expire_time now ttl m.ttl)
      (without k (view m.items m.lru_list)) (drop_old-Inv m k v) (view-drop_old m k v)
    ∙ ap (λ r. put r (entry k (to_text value) (expire_time now ttl m.ttl)))
        (recency_path refl fixed.0 fixed.1)
