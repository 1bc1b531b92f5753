-- ===== src/Tests/Support/Sorting.antt =====
-- An insertion sort, to run the shutdown with.
use dgou_framework.Base.{
  ℕ, ◌≡◌, refl, Bool, false, List, [], ◌∷◌, arith, leb, if◌then◌else◌, All, Bool-cases, inl, inr,
  codes, map,
}
use dgou_framework.Base.Int.{pos, negsuc}
use mathlib.Core.List.{Perm}
use mathlib.Core.List.Perm
use dgou_framework.App.Shutdown.{
  ShutdownEntry, ShutdownHandler, Ending, returned, panicked, hangs, IsOrdered, IsWeakOrder,
  IsSortedBy, Sort, execute, execute-calls,
}

module _ (less : ShutdownEntry → ShutdownEntry → Bool) where
  unfoldable place : ShutdownEntry → List ShutdownEntry → List ShutdownEntry
  place e [] = e ∷ []
  place e (x ∷ l) = let rest = place e l in if less x e then x ∷ rest else e ∷ x ∷ l

  unfoldable sort : List ShutdownEntry → List ShutdownEntry
  sort [] = []
  sort (e ∷ l) = place e (sort l)

  place-perm : (e : ShutdownEntry) (l : List ShutdownEntry) → Perm (place e l) (e ∷ l)
  unfolding place
  place-perm e [] = Perm.refl _
  place-perm e (x ∷ l) = elim (Bool-cases (less x e)) [
    | inl p ↦ rw p (Perm.trans (Perm.cons x (place-perm e l)) (Perm.swap e x l))
    | inr p ↦ rw p (Perm.refl _)
  ]

  sort-perm : (l : List ShutdownEntry) → Perm (sort l) l
  unfolding sort
  sort-perm [] = Perm.refl _
  sort-perm (e ∷ l) = Perm.trans (place-perm e (sort l)) (Perm.cons e (sort-perm l))

  module _ (order : IsWeakOrder less) where
    All-above :
        (a b : ShutdownEntry) (l : List ShutdownEntry)
        → less b a ≡ false
        → All (λ x. less x b ≡ false) l
        → All (λ x. less x a ≡ false) l
    All-above a b [] h v = tt
    All-above a b (x ∷ l) h v = (order.negative x b a v.0 h, All-above a b l h v.1)

    place-All :
        (a e : ShutdownEntry) (l : List ShutdownEntry)
        → less e a ≡ false
        → All (λ x. less x a ≡ false) l
        → All (λ x. less x a ≡ false) (place e l)
    unfolding place
    place-All a e [] h v = (h, tt)
    place-All a e (x ∷ l) h v = elim (Bool-cases (less x e)) [
      | inl p ↦ rw p (v.0, place-All a e l h v.1)
      | inr p ↦ rw p (h, v)
    ]

    place-IsSortedBy :
        (e : ShutdownEntry) (l : List ShutdownEntry)
        → IsSortedBy less l
        → IsSortedBy less (place e l)
    unfolding place
    place-IsSortedBy e [] v = (tt, tt)
    place-IsSortedBy e (x ∷ l) v = elim (Bool-cases (less x e)) [
      | inl p ↦ rw p (place-All x e l (order.asymmetric x e p) v.0, place-IsSortedBy e l v.1)
      | inr p ↦ rw p ((p, All-above e x l p v.0), v)
    ]

    sort-IsSortedBy : (l : List ShutdownEntry) → IsSortedBy less (sort l)
    unfolding sort
    sort-IsSortedBy [] = tt
    sort-IsSortedBy (e ∷ l) = place-IsSortedBy e (sort l) (sort-IsSortedBy l)

abbrev insertion : Sort
insertion = record {
  sort = sort;
  sort-perm = sort-perm;
  sort-IsSortedBy = λ less l order. sort-IsSortedBy less order l;
}

abbrev handlers : ShutdownHandler
handlers = record {
  handlers =
      record { handler = 1; priority = negsuc 0; name = codes "db" }
      ∷ record { handler = 2; priority = pos 0; name = codes "http" }
      ∷ [];
  executed = false;
}

abbrev behaviour : ℕ → Ending
behaviour n = if leb n 1 then panicked else returned

behaviour_ends : (n : ℕ) → ¬ (behaviour n ≡ hangs)
behaviour_ends n h = ground arith

execute-calls_example :
    let called = map (λ c. c.0) (execute insertion behaviour handlers).1 in
    Perm called handlers.handlers × IsOrdered called
execute-calls_example = execute-calls insertion behaviour handlers behaviour_ends refl
