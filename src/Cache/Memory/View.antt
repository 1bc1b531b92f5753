-- ===== src/Cache/Memory/View.antt =====
-- The entries that the list of elements stands for, and what removal, moves and new items do to them.
use dgou_framework.Base.{
  ℕ, ◌+◌, ◌≡◌, ◌≢◌, refl, ap, sym, ◌∙◌, true, false, Option, none, some, List, [], ◌∷◌, GoMap, Str,
  str_discrete, arith,
}
use dgou_framework.Cache.Memory.{Element, MemoryItem, remove_elem}
use dgou_framework.Cache.Memory.Links.{
  element_of, has_key, total, Linked, remove_elem_self, remove_elem_ne, id-ne,
}
use dgou_framework.Cache.Recency.{Entry, lookup, without, sizes}

abbrev pub entry_of : Str → MemoryItem → Entry
entry_of k item = record { key = k; value = item.value; expire = item.expire; size = item.size }

abbrev pub cons_entry : Str → Option MemoryItem → List Entry → List Entry
cons_entry k none es = es
cons_entry k (some item) es = entry_of k item ∷ es

unfoldable pub view : GoMap Str MemoryItem → List Element → List Entry
view items [] = []
view items (e ∷ l) = cons_entry e.value (items e.value) (view items l)

pub some_of_linked :
    (o : Option MemoryItem) {id : ℕ}
    → element_of o ≡ some id
    → (item : MemoryItem) × (o ≡ some item) × (item.element ≡ id)
some_of_linked none h = cc
some_of_linked (some item) h = (item, refl, ground arith)

module _ (k : Str) (e : Entry) (es : List Entry) where
  without_hit : k ≡ e.key → without k (e ∷ es) ≡ es
  unfolding without
  without_hit h = ground (arith, h)

  without_miss : k ≢ e.key → without k (e ∷ es) ≡ e ∷ without k es
  unfolding without
  without_miss h = ground (arith, h)

  lookup_hit : k ≡ e.key → lookup k (e ∷ es) ≡ some e
  unfolding lookup
  lookup_hit h = ground (arith, h)

  lookup_miss : k ≢ e.key → lookup k (e ∷ es) ≡ lookup k es
  unfolding lookup
  lookup_miss h = ground (arith, h)

module _ (items : GoMap Str MemoryItem) (fresh : ℕ) where
  pub view-cons :
      (x : Element) (l : List Element) (item : MemoryItem)
      → items x.value ≡ some item
      → view items (x ∷ l) ≡ entry_of x.value item ∷ view items l
  unfolding view
  view-cons x l item h = rw h refl

  pub view-remove_elem :
      (k : Str) (id : ℕ) (l : List Element)
      → Linked items fresh l
      → has_key k l ≡ true
      → element_of (items k) ≡ some id
      → view items (remove_elem id l) ≡ without k (view items l)
  unfolding has_key view without
  view-remove_elem k id [] h p e = cc
  view-remove_elem k id (x ∷ l) h p e =
      let (item, found, own) = some_of_linked (items x.value) h.1 in
      elim (str_discrete k x.value) [
        | yes here ↦
            rw (remove_elem_self x id l (ground arith), view-cons x l item found)
              (sym (without_hit k (entry_of x.value item) (view items l) here))
        | no there ↦
            rw
              (
                remove_elem_ne x id l (id-ne items fresh x k id l h.3 (ground arith) e h.2),
                view-cons x l item found,
                view-cons x (remove_elem id l) item found,
              )
              (ap (λ es. entry_of x.value item ∷ es) (view-remove_elem k id l h.3 (ground arith) e)
                ∙ sym (without_miss k (entry_of x.value item) (view items l) there))
      ]

  pub lookup-view :
      (k : Str) (l : List Element) (item : MemoryItem)
      → Linked items fresh l
      → has_key k l ≡ true
      → items k ≡ some item
      → lookup k (view items l) ≡ some (entry_of k item)
  unfolding has_key view lookup
  lookup-view k [] item h p e = cc
  lookup-view k (x ∷ l) item h p e =
      let (item', found, own) = some_of_linked (items x.value) h.1 in
      rw (view-cons x l item' found) (elim (str_discrete k x.value) [
        | yes here ↦
            lookup_hit k (entry_of x.value item') (view items l) here
            ∙ ground (arith, here, found, e)
        | no there ↦
            lookup_miss k (entry_of x.value item') (view items l) there
            ∙ lookup-view k l item h.3 (ground arith) e
      ])

  pub absent-view :
      (k : Str) (l : List Element)
      → Linked items fresh l
      → has_key k l ≡ false
      → (lookup k (view items l) ≡ none) × (without k (view items l) ≡ view items l)
  unfolding has_key view lookup without
  absent-view k [] h p = (refl, refl)
  absent-view k (x ∷ l) h p =
      let (item, found, own) = some_of_linked (items x.value) h.1 in
      let other : k ≢ x.value = λ here. ground arith in
      let rest : has_key k l ≡ false = ground arith in
      let (missing, same) = absent-view k l h.3 rest in
      rw (view-cons x l item found) (
        lookup_miss k (entry_of x.value item) (view items l) other ∙ missing,
        without_miss k (entry_of x.value item) (view items l) other
            ∙ ap (λ es. entry_of x.value item ∷ es) same,
      )

  pub sizes-view : (l : List Element) → Linked items fresh l → sizes (view items l) ≡ total items l
  unfolding view sizes total
  sizes-view [] h = refl
  sizes-view (x ∷ l) h =
      let (item, found, own) = some_of_linked (items x.value) h.1 in
      rw (view-cons x l item found) (rw found (ap (λ n. item.size + n) (sizes-view l h.3)))

pub view-agree :
    (items items' : GoMap Str MemoryItem) (k : Str) (l : List Element)
    → ((q : Str) → q ≢ k → items' q ≡ items q)
    → has_key k l ≡ false
    → view items' l ≡ view items l
unfolding view has_key
view-agree items items' k [] a h = refl
view-agree items items' k (x ∷ l) a h = ground (arith, a x.value, view-agree items items' k l a)
