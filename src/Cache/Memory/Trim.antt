-- ===== src/Cache/Memory/Trim.antt =====
-- The eviction loop keeps the latest entries that fit.
use dgou_framework.Base.{
  ℕ, ◌+◌, ◌≡◌, ◌≢◌, refl, ap, sym, ◌∙◌, true, false, Option, some, List, [], ◌∷◌, ◌++◌, GoMap, Str,
  str_discrete, delete_ne, delete, subst, arith, inl, inr, Bool-cases, Option-cases, ◌⊎◌, ◌&&◌,
}
use dgou_framework.Base.Int.{ℤ, pos, ltb_ℤ, ◌+ℤ◌, int_laws}
use dgou_framework.Cache.Memory.{
  Element, MemoryItem, MemoryCache, remove_elem, back, is_over, make_room,
}
use dgou_framework.Cache.Memory.Links.{has_key, back-Linked, has_key-remove_elem}
use dgou_framework.Cache.Memory.Invariant.{Inv, unlinked, unlinked-Inv}
use dgou_framework.Cache.Memory.Eviction.{Evicts, done, evict, Evicts-Kept, make_room-Evicts}
use dgou_framework.Cache.Memory.View.{entry_of, view, view-agree, sizes-view}
use dgou_framework.Cache.Recency.{Entry, sizes, keep, fit}

keep_all :
    (max : ℤ) (used : ℕ) (es : List Entry)
    → ltb_ℤ max (pos (used + sizes es)) ≡ false
    → keep max used es ≡ es
unfolding keep sizes
keep_all max used [] h = refl
keep_all max used (e ∷ es) h = ground (arith, keep_all max (used + e.size) es)

keep_snoc :
    (max : ℤ) (used : ℕ) (es : List Entry) (x : Entry)
    → ltb_ℤ max (pos (used + sizes es + x.size)) ≡ true
    → keep max used (es ++ x ∷ []) ≡ keep max used es
unfolding keep sizes
keep_snoc max used [] x h = ground arith
keep_snoc max used (e ∷ es) x h = ground (arith, keep_snoc max (used + e.size) es x)

sizes_snoc : (es : List Entry) (x : Entry) → sizes (es ++ x ∷ []) ≡ sizes es + x.size
unfolding sizes
sizes_snoc [] x = omega arith
sizes_snoc (e ∷ es) x = omega (arith, sizes_snoc es x)

-- the code's test for an eviction, with the sum in place of the count
fit_snoc :
    (max : ℤ) (size : ℕ) (es : List Entry) (x : Entry)
    → ltb_ℤ (pos 0) max && ltb_ℤ max (pos (sizes es + x.size) +ℤ pos size) ≡ true
    → fit max size es ≡ fit max size (es ++ x ∷ [])
unfolding fit
fit_snoc max size es x h =
    let sum : pos (sizes es + x.size) +ℤ pos size ≡ pos (size + sizes es + x.size) =
      omega int_laws in
    let over : ltb_ℤ max (pos (size + sizes es + x.size)) ≡ true = ground arith in
    ground (arith, keep_snoc max size es x over)

fit_all :
    (max : ℤ) (size : ℕ) (es : List Entry)
    → ltb_ℤ (pos 0) max && ltb_ℤ max (pos (sizes es) +ℤ pos size) ≡ false
    → fit max size es ≡ es
unfolding fit
fit_all max size es h = elim (Bool-cases (ltb_ℤ (pos 0) max)) [
  | inr no_limit ↦ rw no_limit refl
  | inl limit ↦
      let sum : pos (sizes es) +ℤ pos size ≡ pos (size + sizes es) = omega int_laws in
      let room : ltb_ℤ max (pos (size + sizes es)) ≡ false = ground arith in
      rw (limit, keep_all max size es room) refl
]

view-append :
    (items : GoMap Str MemoryItem) (l : List Element) (x : Element) (item : MemoryItem)
    → items x.value ≡ some item
    → view items (l ++ x ∷ []) ≡ view items l ++ entry_of x.value item ∷ []
unfolding view
view-append items [] x item h = rw h refl
view-append items (y ∷ l) x item h = elim (Option-cases (items y.value)) [
  | inl absent ↦ ground (arith, view-append items l x item h)
  | inr (i, present) ↦ ground (arith, view-append items l x item h)
]

module _ {gap : Option Str} (m : MemoryCache) (v : Inv gap m) where
  sizes-used : m.used ≡ pos (sizes (view m.items m.lru_list))
  sizes-used = v.counted ∙ ap pos (sym (sizes-view m.items m.fresh m.lru_list v.linked))

  fit_over :
      (size : ℕ) (e : Element) (item : MemoryItem)
      → is_over m size ≡ true
      → back m.lru_list ≡ some e
      → m.items e.value ≡ some item
      → item.element ≡ e.id
      → let m' = unlinked m e.value item in
        fit m.max_bytes size (view m'.items m'.lru_list)
        ≡ fit m.max_bytes size (view m.items m.lru_list)
  unfolding fit
  fit_over size e item over b found same =
      let (held, own, split) = back-Linked m.items m.fresh m.lru_list v.linked b in
      let l' = remove_elem e.id m.lru_list in
      let gone : has_key e.value l' ≡ false = ground (
        arith,
        has_key-remove_elem m.items m.fresh e.value e.id m.lru_list v.linked held own e.value,
      ) in
      let agree =
        view-agree m.items (delete str_discrete e.value m.items) e.value l'
          (delete_ne str_discrete e.value m.items) gone in
      let whole : view m.items m.lru_list ≡ view m.items l' ++ entry_of e.value item ∷ [] =
        ap (view m.items) (sym split) ∙ view-append m.items l' e item found in
      let count : m.used ≡ pos (sizes (view m.items l') + item.size) =
        sizes-used
        ∙ ap (λ es. pos (sizes es)) whole
        ∙ ap pos (sizes_snoc (view m.items l') (entry_of e.value item)) in
      let test : ltb_ℤ (pos 0) m.max_bytes
            && ltb_ℤ m.max_bytes (pos (sizes (view m.items l') + item.size) +ℤ pos size)
          ≡ true =
        subst (λ used. ltb_ℤ (pos 0) m.max_bytes && ltb_ℤ m.max_bytes (used +ℤ pos size) ≡ true)
          count over in
      rw (same, agree, whole)
        (fit_snoc m.max_bytes size (view m.items l') (entry_of e.value item) test)

fit-Evicts :
    {gap : Option Str} {size : ℕ} {m m' : MemoryCache}
    → Evicts size m m'
    → Inv gap m
    → fit m'.max_bytes size (view m'.items m'.lru_list)
      ≡ fit m.max_bytes size (view m.items m.lru_list)
fit-Evicts done v = refl
fit-Evicts {gap} {size} {m} {m'} (evict e item over b found same run) v =
    let (held, own, split) = back-Linked m.items m.fresh m.lru_list v.linked b in
    let out : gap ≢ some e.value = λ g. ground (arith, v.missing e.value g) in
    fit-Evicts run (unlinked-Inv gap m e.value item v out found)
    ∙ fit_over m v size e item over b found same

fit_room :
    {gap : Option Str} (size : ℕ) (m : MemoryCache)
    → Inv gap m
    → (is_over m size ≡ false) ⊎ (m.lru_list ≡ [])
    → fit m.max_bytes size (view m.items m.lru_list) ≡ view m.items m.lru_list
unfolding fit
fit_room size m v (inl fits) = fit_all m.max_bytes size (view m.items m.lru_list) (
    subst (λ used. ltb_ℤ (pos 0) m.max_bytes && ltb_ℤ m.max_bytes (used +ℤ pos size) ≡ false)
      (sizes-used m v) fits)
fit_room size m v (inr empty) =
    subst (λ l. fit m.max_bytes size (view m.items l) ≡ view m.items l) (sym empty)
      (unfold keep in unfold view in ground arith)

-- The loop leaves the latest entries that fit next to the new size, and no others.
pub make_room-fit :
    {gap : Option Str} (size : ℕ) (m : MemoryCache)
    → Inv gap m
    → view (make_room size m).items (make_room size m).lru_list
      ≡ fit m.max_bytes size (view m.items m.lru_list)
make_room-fit {gap} size m v =
    let (run, end) = make_room-Evicts size m v in
    let kept = Evicts-Kept run v in
    sym (fit_room size (make_room size m) kept.inv end) ∙ fit-Evicts run v
