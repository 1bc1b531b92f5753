-- ===== src/Base/Maps.antt =====
-- Go maps as functions: `m[k]`, `m[k] = v` and `delete(m, k)`.
use mathlib.Core.Path.{◌≡◌, refl}
use mathlib.Core.Logic.{◌≢◌, ite, if_pos, if_neg}
use mathlib.Core.Option.{Option, none, some}

abbrev pub GoMap {ℓ κ} : Type ℓ → Type κ → Type (ℓ ⊔ κ)
GoMap K V = K → Option V

module _ {ℓ κ} {K : Type ℓ} {V : Type κ} where
  abbrev pub empty_map : GoMap K V
  empty_map k = none

  module _ (dec : Discrete K) where
    abbrev pub insert : K → V → GoMap K V → GoMap K V
    insert k v m q = ite (dec q k) (some v) (m q)

    abbrev pub delete : K → GoMap K V → GoMap K V
    delete k m q = ite (dec q k) none (m q)

    pub insert_self : (k : K) (v : V) (m : GoMap K V) → insert k v m k ≡ some v
    insert_self k v m = if_pos (dec k k) refl _ _

    pub insert_ne : (k : K) (v : V) (m : GoMap K V) (q : K) → q ≢ k → insert k v m q ≡ m q
    insert_ne k v m q n = if_neg (dec q k) n _ _

    pub delete_self : (k : K) (m : GoMap K V) → delete k m k ≡ none
    delete_self k m = if_pos (dec k k) refl _ _

    pub delete_ne : (k : K) (m : GoMap K V) (q : K) → q ≢ k → delete k m q ≡ m q
    delete_ne k m q n = if_neg (dec q k) n _ _
