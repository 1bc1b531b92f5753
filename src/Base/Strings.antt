-- ===== src/Base/Strings.antt =====
-- Go strings as lists of bytes, and what the code uses of package strings and path/filepath.
use Prim.Native.Nat.{ℕ, ◌+◌}
use Prim.Native.Char.{code}
use Prim.Native.String.{String}
use mathlib.Core.Path.{◌≡◌, refl, ap₂}
use mathlib.Core.Bool.{Bool, true, false, ◌&&◌, ◌||◌, not}
use mathlib.Core.Option.{Option, none, some}
use mathlib.Core.Logic.{◌↔◌, ◌≢◌, inl, inr}
use mathlib.Core.List.{List, [], ◌∷◌}
use native.Mathlib.Omega.{arith}
use native.Mathlib.Decide.{ℕ_discrete}
use dgou_framework.Base.Tests.{Bool-cases, ◌==◌, leb, if◌then◌else◌}

abbrev pub Str : Type 0
Str = List ℕ

-- The bytes of an ASCII literal.
abbrev pub codes : String → Str
codes String.[] = []
codes (String.◌∷◌ c s) = code c ∷ codes s

-- `==` on strings
unfoldable pub str_eq : Str → Str → Bool
str_eq [] [] = true
str_eq [] (y ∷ ys) = false
str_eq (x ∷ xs) [] = false
str_eq (x ∷ xs) (y ∷ ys) = x == y && str_eq xs ys

pub str_eq_refl : (s : Str) → str_eq s s ≡ true
unfolding str_eq
str_eq_refl [] = refl
str_eq_refl (x ∷ xs) = ground (arith, str_eq_refl xs)

str_eq_sound : (s t : Str) → str_eq s t ≡ true → s ≡ t
unfolding str_eq
str_eq_sound [] [] h = refl
str_eq_sound [] (y ∷ ys) h = cc
str_eq_sound (x ∷ xs) [] h = cc
str_eq_sound (x ∷ xs) (y ∷ ys) h = ground (arith, str_eq_sound xs ys)

pub str_eq_iff : (s t : Str) → (str_eq s t ≡ true) ↔ (s ≡ t)
str_eq_iff s t = (str_eq_sound s t, λ e. ground (arith, str_eq_refl s))

pub str_eq_ne : (s t : Str) → s ≢ t → str_eq s t ≡ false
str_eq_ne s t n = elim (Bool-cases (str_eq s t)) [
  | inl same ↦ absurd (n ((str_eq_iff s t).0 same))
  | inr other ↦ other
]

-- Equality of strings as a decision, for the keys of maps.
unfoldable pub str_discrete : Discrete Str
unfolding ℕ_discrete
str_discrete [] [] = yes refl
str_discrete [] (y ∷ ys) = no (λ e. cc)
str_discrete (x ∷ xs) [] = no (λ e. cc)
str_discrete (x ∷ xs) (y ∷ ys) = elim (ℕ_discrete x y) [
  | yes p ↦ elim (str_discrete xs ys) [ yes q ↦ yes (ap₂ ◌∷◌ p q) | no q ↦ no (λ e. q (cc)) ]
  | no p ↦ no (λ e. p (cc))
]

-- strings.HasPrefix
unfoldable pub has_prefix : Str → Str → Bool
has_prefix s [] = true
has_prefix [] (p ∷ ps) = false
has_prefix (c ∷ s) (p ∷ ps) = c == p && has_prefix s ps

-- strings.Contains
unfoldable pub contains : Str → Str → Bool
unfolding has_prefix
contains [] sub = has_prefix [] sub
contains (c ∷ s) sub = has_prefix (c ∷ s) sub || contains s sub

-- strings.ContainsRune for one byte
unfoldable pub has_byte : ℕ → Str → Bool
has_byte b [] = false
has_byte b (c ∷ s) = c == b || has_byte b s

-- strings.TrimPrefix
abbrev pub cut_prefix : Str → Str → Option Str
cut_prefix s [] = some s
cut_prefix [] (p ∷ ps) = none
cut_prefix (c ∷ s) (p ∷ ps) = if c == p then cut_prefix s ps else none

abbrev pub get_or : Option Str → Str → Str
get_or none d = d
get_or (some s) d = s

abbrev pub trim_prefix : Str → Str → Str
trim_prefix s p = get_or (cut_prefix s p) s

-- strings.ToLower on ASCII text; bytes from 128 on are left as they are
abbrev pub lower_byte : ℕ → ℕ
lower_byte c = if leb b'A' c && leb c b'Z' then c + 32 else c

unfoldable pub to_lower : Str → Str
to_lower [] = []
to_lower (c ∷ s) = lower_byte c ∷ to_lower s

-- strings.TrimLeft and strings.TrimRight with a cutset of one byte
unfoldable pub trim_left : Str → ℕ → Str
trim_left [] b = []
trim_left (c ∷ s) b = let rest = trim_left s b in if c == b then rest else c ∷ s

abbrev cons_kept : ℕ → ℕ → Str → Str
cons_kept b c [] = if c == b then [] else c ∷ []
cons_kept b c (d ∷ s) = c ∷ d ∷ s

unfoldable pub trim_right : Str → ℕ → Str
trim_right [] b = []
trim_right (c ∷ s) b = cons_kept b c (trim_right s b)

-- filepath.Ext on a system whose separator is "/": the suffix from the last dot of the last
-- element on, and nothing if there is no dot in it.
abbrev last_dot : ℕ → Str → Str → Str
last_dot c s [] = if c == b'.' && not (has_byte b'/' s) then c ∷ s else []
last_dot c s (d ∷ e) = d ∷ e

unfoldable pub ext : Str → Str
unfolding has_byte
ext [] = []
ext (c ∷ s) = last_dot c s (ext s)

-- The extension without its dot, in lower case.
unfoldable pub lower_ext : Str → Str
unfolding ext to_lower
lower_ext filename = to_lower (trim_prefix (ext filename) (codes "."))
