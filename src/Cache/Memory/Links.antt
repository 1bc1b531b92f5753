-- ===== src/Cache/Memory/Links.antt =====
-- Lemmas on the list of elements: which keys it holds, what removal and moves do to it, and the
-- sizes of the items that it links.
use dgou_framework.Base.{
  ℕ, suc, ◌+◌, ◌<◌, ◌≤◌, ◌≡◌, ◌≢◌, refl, ap, ◌==◌, Bool, true, false, Option, none, some, List, [],
  ◌∷◌, ◌++◌, GoMap, Str, str_discrete, All, ite, arith, inl, inr, Bool-cases,
}
use dgou_framework.Cache.Memory.{Element, MemoryItem, remove_elem, back}

abbrev pub element_of : Option MemoryItem → Option ℕ
element_of none = none
element_of (some item) = some item.element

abbrev pub size_of : Option MemoryItem → ℕ
size_of none = 0
size_of (some item) = item.size

unfoldable pub has_key : Str → List Element → Bool
has_key k [] = false
has_key k (e ∷ l) = ite (str_discrete k e.value) true (has_key k l)

-- the recorded sizes of the items of a list of keys
unfoldable pub total : GoMap Str MemoryItem → List Element → ℕ
total items [] = 0
total items (e ∷ l) = size_of (items e.value) + total items l

-- No other element has the identity or the key of `e`.
abbrev pub Apart : Element → List Element → Type 0
Apart e = All (λ d. (d.id ≢ e.id) × (d.value ≢ e.value))

-- Every element was made before `fresh`, is apart from the later ones, and is the element of the
-- item under its key.
abbrev pub Linked : GoMap Str MemoryItem → ℕ → List Element → Type 0
Linked items fresh [] = Unit
Linked items fresh (e ∷ l) =
    (e.id < fresh) × (element_of (items e.value) ≡ some e.id) × Apart e l × Linked items fresh l

pub Apart-remove_elem :
    (e : Element) (id : ℕ) (l : List Element) → Apart e l → Apart e (remove_elem id l)
unfolding remove_elem
Apart-remove_elem e id [] h = tt
Apart-remove_elem e id (d ∷ l) h = elim (Bool-cases (d.id == id)) [
  | inl same ↦ rw same h.1
  | inr other ↦ rw other (h.0, Apart-remove_elem e id l h.1)
]

pub remove_elem_self :
    (x : Element) (id : ℕ) (l : List Element) → x.id ≡ id → remove_elem id (x ∷ l) ≡ l
unfolding remove_elem
remove_elem_self x id l h = ground arith

pub remove_elem_ne :
    (x : Element) (id : ℕ) (l : List Element)
    → x.id ≢ id
    → remove_elem id (x ∷ l) ≡ x ∷ remove_elem id l
unfolding remove_elem
remove_elem_ne x id l h = ground arith

pub Apart-has_key : (e : Element) (l : List Element) → Apart e l → has_key e.value l ≡ false
unfolding has_key
Apart-has_key e [] h = refl
Apart-has_key e (d ∷ l) h = ground (arith, Apart-has_key e l h.1)

module _ (items : GoMap Str MemoryItem) (fresh : ℕ) where
  pub Linked-remove_elem :
      (id : ℕ) (l : List Element) → Linked items fresh l → Linked items fresh (remove_elem id l)
  unfolding remove_elem
  Linked-remove_elem id [] h = tt
  Linked-remove_elem id (e ∷ l) h = elim (Bool-cases (e.id == id)) [
    | inl same ↦ rw same h.3
    | inr other ↦ rw other (h.0, h.1, Apart-remove_elem e id l h.2, Linked-remove_elem id l h.3)
  ]

  -- An element apart from a list is not that of a key of the list.
  pub id-ne :
      (x : Element) (k : Str) (id : ℕ) (l : List Element)
      → Linked items fresh l
      → has_key k l ≡ true
      → element_of (items k) ≡ some id
      → Apart x l
      → x.id ≢ id
  unfolding has_key
  id-ne x k id [] h p e a = cc
  id-ne x k id (y ∷ l) h p e a = elim (str_discrete k y.value) [
    | yes here ↦ ground arith
    | no there ↦ id-ne x k id l h.3 (ground arith) e a.1
  ]

  -- The element of a linked key is the one that is removed.
  pub has_key-remove_elem :
      (k : Str) (id : ℕ) (l : List Element)
      → Linked items fresh l
      → has_key k l ≡ true
      → element_of (items k) ≡ some id
      → (q : Str) → has_key q (remove_elem id l) ≡ ite (str_discrete q k) false (has_key q l)
  unfolding has_key
  has_key-remove_elem k id [] h p e q = cc
  has_key-remove_elem k id (x ∷ l) h p e q = elim (str_discrete k x.value) [
    | yes here ↦ rw (remove_elem_self x id l (ground arith)) (ground (arith, Apart-has_key x l h.2))
    | no there ↦
        rw (remove_elem_ne x id l (id-ne x k id l h.3 (ground arith) e h.2))
          (ground (arith, has_key-remove_elem k id l h.3 (ground arith) e q))
  ]

  pub total-remove_elem :
      (k : Str) (id : ℕ) (l : List Element)
      → Linked items fresh l
      → has_key k l ≡ true
      → element_of (items k) ≡ some id
      → total items (remove_elem id l) + size_of (items k) ≡ total items l
  unfolding has_key total
  total-remove_elem k id [] h p e = cc
  total-remove_elem k id (x ∷ l) h p e = elim (str_discrete k x.value) [
    | yes here ↦ rw (remove_elem_self x id l (ground arith), here) (omega arith)
    | no there ↦
        rw (remove_elem_ne x id l (id-ne x k id l h.3 (ground arith) e h.2))
          (omega (arith, total-remove_elem k id l h.3 (ground arith) e))
  ]

  -- The last element is linked, and removing it leaves the elements before it.
  pub back-Linked :
      (l : List Element) {e : Element}
      → Linked items fresh l
      → back l ≡ some e
      → (has_key e.value l ≡ true)
        × (element_of (items e.value) ≡ some e.id)
        × (remove_elem e.id l ++ e ∷ [] ≡ l)
  unfolding back has_key
  back-Linked [] h b = cc
  back-Linked (x ∷ []) {e} h b =
      (ground arith, ground arith, ground (arith, remove_elem_self x e.id []))
  back-Linked (x ∷ y ∷ l) {e} h b =
      let (found, same, split) = back-Linked (y ∷ l) h.3 b in
      let other = id-ne x e.value e.id (y ∷ l) h.3 found same h.2 in
      (ground arith, same, rw (remove_elem_ne x e.id (y ∷ l) other) (ap (◌∷◌ x) split))

-- What the list links does not depend on the items of other keys.
module _ (items items' : GoMap Str MemoryItem) (k : Str) where
  abbrev Agree : Type 0
  Agree = (q : Str) → q ≢ k → items' q ≡ items q

  pub total-agree :
      (l : List Element) → Agree → has_key k l ≡ false → total items' l ≡ total items l
  unfolding total has_key
  total-agree [] a h = refl
  total-agree (x ∷ l) a h = ground (arith, a x.value, total-agree l a)

  pub Linked-agree :
      (fresh : ℕ) (l : List Element)
      → Agree
      → has_key k l ≡ false
      → Linked items fresh l
      → Linked items' fresh l
  unfolding has_key
  Linked-agree fresh [] a h w = tt
  Linked-agree fresh (x ∷ l) a h w =
      (w.0, ground (arith, a x.value), w.2, Linked-agree fresh l a (ground arith) w.3)

module _ (items : GoMap Str MemoryItem) where
  -- A key with no item is in no element.
  pub has_key_of_none :
      (k : Str) (fresh : ℕ) (l : List Element)
      → Linked items fresh l
      → items k ≡ none
      → has_key k l ≡ false
  unfolding has_key
  has_key_of_none k fresh [] h e = refl
  has_key_of_none k fresh (x ∷ l) h e = ground (arith, has_key_of_none k fresh l)

  -- A new element is apart from all that are linked, if its key is new.
  pub Apart-new :
      (k : Str) (n fresh : ℕ) (l : List Element)
      → fresh ≤ n
      → Linked items fresh l
      → has_key k l ≡ false
      → Apart (record { id = n; value = k }) l
  unfolding has_key
  Apart-new k n fresh [] le h p = tt
  Apart-new k n fresh (x ∷ l) le h p =
      ((omega arith, ground arith), Apart-new k n fresh l le h.3 (ground arith))

  pub Linked-suc :
      (fresh : ℕ) (l : List Element) → Linked items fresh l → Linked items (suc fresh) l
  Linked-suc fresh [] h = tt
  Linked-suc fresh (x ∷ l) h = (omega arith, h.1, h.2, Linked-suc fresh l h.3)
