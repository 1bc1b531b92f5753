-- ===== src/Upload/Local/Inside.antt =====
-- Which paths lead out of the base directory.
use dgou_framework.Base.{
  ℕ, zero, suc, ◌==◌, ◌||◌, Bool, true, false, List, [], ◌∷◌, ◌++◌, Str, codes, str_eq, str_eq_ne,
  str_eq_iff, ◌≡◌, ◌≢◌, refl, ap, ◌∙◌, sym, All, length, Bool-cases, inl, inr, if◌then◌else◌,
}
use mathlib.Core.List.{append_assoc}
use dgou_framework.Upload.Local.Paths.{
  elements, is_rooted, up, enter, walk, print_path, clean, join_path, prepend, is_empty,
}

abbrev split_by : Bool → ℕ → List Str → List Str
split_by slash c rest = if slash then [] ∷ rest else prepend c rest

split_some : (slash : Bool) (c : ℕ) (l : List Str) → split_by slash c l ≢ []
split_some true c l e = cc
split_some false c [] e = cc
split_some false c (x ∷ l) e = cc

split-append :
    (slash : Bool) (c : ℕ) (l m : List Str)
    → l ≢ []
    → split_by slash c (l ++ m) ≡ split_by slash c l ++ m
split-append true c l m n = refl
split-append false c [] m n = absurd (n refl)
split-append false c (e ∷ l) m n = refl

elements_some : (s : Str) → elements s ≢ []
unfolding elements
elements_some [] e = cc
elements_some (c ∷ s) e = split_some (c == b'/') c (elements s) e

elements-append : (a b : Str) → elements (a ++ codes "/" ++ b) ≡ elements a ++ elements b
unfolding elements
elements-append [] b = refl
elements-append (c ∷ a) b =
    ap (split_by (c == b'/') c) (elements-append a b)
    ∙ split-append (c == b'/') c (elements a) (elements b) (elements_some a)

walk-append : (r : Bool) (es p q : List Str) → walk r es (p ++ q) ≡ walk r (walk r es p) q
unfolding walk
walk-append r es [] q = refl
walk-append r es (e ∷ p) q = walk-append r (enter r es e) p q

abbrev pub Plain : Str → Type 0
Plain e = e ≢ codes ".."

enter-Plain :
    (r : Bool) (es : List Str) (e : Str)
    → Plain e
    → enter r es e ≡ (if is_empty e || str_eq e (codes ".") then es else e ∷ es)
unfolding enter
enter-Plain r es e n = rw (str_eq_ne e (codes "..") n) refl

enter_more :
    (r : Bool) (es : List Str) (e : Str) → Plain e → (more : List Str) × (enter r es e ≡ more ++ es)
enter_more r es e n = elim (Bool-cases (is_empty e || str_eq e (codes "."))) [
  | inl skip ↦ ([], enter-Plain r es e n ∙ rw skip refl)
  | inr new ↦ (e ∷ [], enter-Plain r es e n ∙ rw new refl)
]

walk-Plain :
    (r : Bool) (es p : List Str) → All Plain p → (more : List Str) × (walk r es p ≡ more ++ es)
unfolding walk
walk-Plain r es [] v = ([], refl)
walk-Plain r es (e ∷ p) (n, v) =
    let (one, first) = enter_more r es e n in
    let (more, rest) = walk-Plain r (enter r es e) p v in
    (more ++ one, rest ∙ ap (λ l. more ++ l) first ∙ sym (append_assoc more one es))

-- The elements of a base and a path of which none is `..`, joined, are those of the base and more.
pub join_path_inside :
    (base path : Str)
    → base ≢ []
    → All Plain (elements path)
    → (more : List Str) × (join_path base path
        ≡ print_path (is_rooted base) (more ++ walk (is_rooted base) [] (elements base)))
unfolding join_path clean
join_path_inside [] path n v = absurd (n refl)
join_path_inside (c ∷ base) [] n v = ([], refl)
join_path_inside (c ∷ base) (d ∷ path) n v =
    let r = is_rooted (c ∷ base) in
    let start = walk r [] (elements (c ∷ base)) in
    let (more, ends) = walk-Plain r start (elements (d ∷ path)) v in
    (
      more,
      ap (λ es. print_path r (walk r [] es)) (elements-append (c ∷ base) (d ∷ path))
          ∙ ap (print_path r) (walk-append r [] (elements (c ∷ base)) (elements (d ∷ path)) ∙ ends),
    )

-- `n` times `../` and then the target
unfoldable pub climb : ℕ → Str → Str
climb zero target = target
climb (suc n) target = codes ".." ++ codes "/" ++ climb n target

-- Entering an element from a rooted path keeps `..` out of it.
up-Plain : (es : List Str) → All Plain es → All Plain (up true es)
unfolding up
up-Plain [] v = v
up-Plain (e ∷ es) (n, v) = rw (str_eq_ne e (codes "..") n) v

not_dots : (e : Str) → str_eq e (codes "..") ≡ false → Plain e
not_dots e other same = cc (sym other ∙ (str_eq_iff e (codes "..")).1 same)

enter-All-Plain : (es : List Str) (e : Str) → All Plain es → All Plain (enter true es e)
unfolding enter
enter-All-Plain es e v = elim (Bool-cases (is_empty e || str_eq e (codes "."))) [
  | inl skip ↦ rw skip v
  | inr kept ↦ elim (Bool-cases (str_eq e (codes ".."))) [
    | inl dots ↦ rw kept (rw dots (up-Plain es v))
    | inr other ↦ rw kept (rw other (not_dots e other, v))
  ]
]

walk-All-Plain : (es p : List Str) → All Plain es → All Plain (walk true es p)
unfolding walk
walk-All-Plain es [] v = v
walk-All-Plain es (e ∷ p) v = walk-All-Plain (enter true es e) p (enter-All-Plain es e v)

-- `..` takes the last element off.
enter_up : (e : Str) (es : List Str) → Plain e → enter true (e ∷ es) (codes "..") ≡ es
unfolding enter up str_eq
enter_up e es n = rw (str_eq_ne e (codes "..") n) refl

walk_up :
    (e : Str) (es p : List Str)
    → Plain e
    → walk true (e ∷ es) (elements (codes "..") ++ p) ≡ walk true es p
unfolding walk elements
walk_up e es p n = ap (λ l. walk true l p) (enter_up e es n)

walk-climb :
    (es : List Str) (target : Str)
    → All Plain es
    → walk true es (elements (climb (length es) target)) ≡ walk true [] (elements target)
unfolding climb
walk-climb [] target v = refl
walk-climb (e ∷ es) target (n, v) =
    ap (walk true (e ∷ es)) (elements-append (codes "..") (climb (length es) target))
    ∙ walk_up e es (elements (climb (length es) target)) n
    ∙ walk-climb es target v

with_path :
    (c : ℕ) (base p : Str) → p ≢ [] → join_path (c ∷ base) p ≡ clean ((c ∷ base) ++ codes "/" ++ p)
unfolding join_path
with_path c base [] n = absurd (n refl)
with_path c base (d ∷ p) n = refl

clean_rooted :
    (c : ℕ) (s : Str)
    → is_rooted (c ∷ s) ≡ true
    → clean (c ∷ s) ≡ print_path true (walk true [] (elements (c ∷ s)))
unfolding clean
clean_rooted c s rooted = ap (λ r. print_path r (walk r [] (elements (c ∷ s)))) rooted

slash_some : (a b : Str) → a ++ codes "/" ++ b ≢ []
slash_some [] b e = cc
slash_some (c ∷ a) b e = cc

-- Under an absolute base directory, a path of any directory and enough `..` after it leads to any
-- target, whatever the base is.
pub join_path_escapes :
    (base before target : Str)
    → is_rooted base ≡ true
    → let depth = length (walk true [] (elements base ++ elements before)) in
      join_path base (before ++ codes "/" ++ climb depth target)
      ≡ print_path true (walk true [] (elements target))
join_path_escapes [] before target rooted = cc
join_path_escapes (c ∷ base) before target rooted =
    let place = walk true [] (elements (c ∷ base) ++ elements before) in
    let path = before ++ codes "/" ++ climb (length place) target in
    let parts : elements ((c ∷ base) ++ codes "/" ++ path)
        ≡ (elements (c ∷ base) ++ elements before) ++ elements (climb (length place) target) =
      elements-append (c ∷ base) path
      ∙ ap (λ l. elements (c ∷ base) ++ l) (elements-append before (climb (length place) target))
      ∙ sym (
          append_assoc (elements (c ∷ base)) (elements before)
            (elements (climb (length place) target))) in
    with_path c base path (slash_some before (climb (length place) target))
    ∙ clean_rooted c (base ++ codes "/" ++ path) rooted
    ∙ ap (λ l. print_path true (walk true [] l)) parts
    ∙ ap (print_path true) (
        walk-append true [] (elements (c ∷ base) ++ elements before)
          (elements (climb (length place) target))
        ∙ walk-climb place target (walk-All-Plain [] (elements (c ∷ base) ++ elements before) tt))
