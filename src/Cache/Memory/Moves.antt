-- ===== src/Cache/Memory/Moves.antt =====
-- Lemmas on `move_to_front`: the same keys, the same total, and links that stay right.
use dgou_framework.Base.{
  ℕ, ◌≡◌, ◌≢◌, refl, ◌∙◌, ◌==◌, none, some, List, [], ◌∷◌, GoMap, Str, arith, inl, inr, Bool-cases,
  Option-cases, subst, sym,
}
use dgou_framework.Cache.Memory.{Element, MemoryItem, remove_elem, find_elem, move_to_front}
use dgou_framework.Cache.Memory.Links.{
  element_of, size_of, has_key, total, Apart, Linked, Apart-remove_elem, remove_elem_self,
  remove_elem_ne,
}

-- Moving an element of the list to the front permutes the list.
move_to_front_miss : (id : ℕ) (l : List Element) → find_elem id l ≡ none → move_to_front id l ≡ l
unfolding move_to_front
move_to_front_miss id l h = rw (h, move_to_front)

pub move_to_front_hit :
    (id : ℕ) (l : List Element) {e : Element}
    → find_elem id l ≡ some e
    → move_to_front id l ≡ e ∷ remove_elem id l
unfolding move_to_front
move_to_front_hit id l h = rw (h, move_to_front)

find_elem-total :
    (items : GoMap Str MemoryItem) (l : List Element) (id : ℕ)
    → {e : Element} → find_elem id l ≡ some e
    → total items (e ∷ remove_elem id l) ≡ total items l
unfolding find_elem remove_elem total
find_elem-total items [] id h = cc
find_elem-total items (x ∷ l) id {e} h = elim (Bool-cases (x.id == id)) [
  | inl same ↦ ground arith
  | inr other ↦ rw other (ground (arith, find_elem-total items l id {e = e}))
]

pub total-move_to_front :
    (items : GoMap Str MemoryItem) (id : ℕ) (l : List Element)
    → total items (move_to_front id l) ≡ total items l
total-move_to_front items id l = elim (Option-cases (find_elem id l)) [
  | inl miss ↦ rw (move_to_front_miss id l miss)
  | inr (e, hit) ↦ rw (move_to_front_hit id l hit, find_elem-total items l id hit)
]

find_elem-has_key :
    (l : List Element) (id : ℕ) {e : Element} (q : Str)
    → find_elem id l ≡ some e
    → has_key q (e ∷ remove_elem id l) ≡ has_key q l
unfolding find_elem remove_elem has_key
find_elem-has_key [] id q h = cc
find_elem-has_key (x ∷ l) id {e} q h = elim (Bool-cases (x.id == id)) [
  | inl same ↦ ground arith
  | inr other ↦ rw other (ground (arith, find_elem-has_key l id {e = e} q))
]

pub has_key-move_to_front :
    (id : ℕ) (l : List Element) (q : Str) → has_key q (move_to_front id l) ≡ has_key q l
has_key-move_to_front id l q = elim (Option-cases (find_elem id l)) [
  | inl miss ↦ rw (move_to_front_miss id l miss)
  | inr (e, hit) ↦ rw (move_to_front_hit id l hit, find_elem-has_key l id q hit)
]

find_elem-Apart :
    (x : Element) (l : List Element) (id : ℕ) {e : Element}
    → find_elem id l ≡ some e
    → Apart x l
    → (e.id ≢ x.id) × (e.value ≢ x.value)
unfolding find_elem
find_elem-Apart x [] id h a = cc
find_elem-Apart x (y ∷ l) id {e} h a = elim (Bool-cases (y.id == id)) [
  | inl same ↦ ground arith
  | inr other ↦ find_elem-Apart x l id (ground arith) a.1
]

find_elem-Linked :
    (items : GoMap Str MemoryItem) (fresh : ℕ) (l : List Element) (id : ℕ) {e : Element}
    → find_elem id l ≡ some e
    → Linked items fresh l
    → Linked items fresh (e ∷ remove_elem id l)
unfolding find_elem
find_elem-Linked items fresh [] id h w = cc
find_elem-Linked items fresh (x ∷ l) id {e} h w = elim (Bool-cases (x.id == id)) [
  | inl same ↦
      let here : x ≡ e = ground arith in
      rw (remove_elem_self x id l (ground arith)) (subst (λ d. Linked items fresh (d ∷ l)) here w)
  | inr other ↦
      let found : find_elem id l ≡ some e = ground arith in
      let (low, own, apart, rest) = find_elem-Linked items fresh l id found w.3 in
      let (n, k) = find_elem-Apart x l id found w.2 in
      rw (remove_elem_ne x id l (ground arith)) (
        low,
        own,
        ((λ p. n (sym p), λ p. k (sym p)), apart),
        (w.0, w.1, Apart-remove_elem x id l w.2, rest),
      )
]

pub Linked-move_to_front :
    (items : GoMap Str MemoryItem) (fresh : ℕ) (id : ℕ) (l : List Element)
    → Linked items fresh l
    → Linked items fresh (move_to_front id l)
Linked-move_to_front items fresh id l w = elim (Option-cases (find_elem id l)) [
  | inl miss ↦ rw (move_to_front_miss id l miss) w
  | inr (e, hit) ↦ rw (move_to_front_hit id l hit) (find_elem-Linked items fresh l id hit w)
]

-- The list reads no more of an item than its size and its element.
module _ (items items' : GoMap Str MemoryItem) where
  pub total_same_sizes :
      (l : List Element)
      → ((q : Str) → size_of (items' q) ≡ size_of (items q))
      → total items' l ≡ total items l
  unfolding total
  total_same_sizes [] h = refl
  total_same_sizes (x ∷ l) h = rw (h x.value, total_same_sizes l h)

  pub Linked-same_elements :
      (fresh : ℕ) (l : List Element)
      → ((q : Str) → element_of (items' q) ≡ element_of (items q))
      → Linked items fresh l
      → Linked items' fresh l
  Linked-same_elements fresh [] h w = tt
  Linked-same_elements fresh (x ∷ l) h w =
      (w.0, h x.value ∙ w.1, w.2, Linked-same_elements fresh l h w.3)
