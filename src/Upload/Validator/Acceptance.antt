-- ===== src/Upload/Validator/Acceptance.antt =====
-- What `Validate` accepts.
use dgou_framework.Base.{
  ◌≡◌, ◌≢◌, ◌↔◌, ◌⊎◌, inl, inr, refl, sym, Bool, true, false, Option, none, some, List, [], ◌∷◌,
  Str, str_eq_iff, any, All, length, contains, to_lower, lower_ext, arith, Bool-cases,
}
use dgou_framework.Base.Int.{ℤ, pos, ◌≤ℤ◌, ◌<ℤ◌}
use dgou_framework.Upload.Validator.Detect.{type_eq_iff, detect_file_type}
use dgou_framework.Upload.Validator.{
  ValidationConfig, FileHeader, ValidationError, extension_refused, mime_refused, type_refused,
  ◌or_then◌, validate_size, validate_name, find_dangerous, dangerous_chars, check_null,
  check_allowed, validate_extension, validate_mime_type, validate_file_type, validate,
}

-- The size lies within the limits that are set.
abbrev pub SizeAllowed : ValidationConfig → ℤ → Type 0
SizeAllowed cfg size =
    (pos 0 <ℤ size)
    × (pos 0 <ℤ cfg.max_file_size → size ≤ℤ cfg.max_file_size)
    × (pos 0 <ℤ cfg.min_file_size → cfg.min_file_size ≤ℤ size)

-- The name is there, not too long, and holds none of the dangerous strings and no null byte.
abbrev pub NameAllowed : ValidationConfig → Str → Type 0
NameAllowed cfg name =
    (name ≢ [])
    × (pos 0 <ℤ cfg.max_file_name_length → pos (length name) ≤ℤ cfg.max_file_name_length)
    × All (λ d. contains name d ≡ false) dangerous_chars
    × (contains name (0 ∷ []) ≡ false)

-- Some entry of the list has the value `x` under `f`.
abbrev pub Somewhere {ℓ} : {A : Type ℓ} {B : Type 0} → (A → B) → List A → B → Type 0
Somewhere f [] x = ⊥
Somewhere f (y ∷ ys) x = (f y ≡ x) ⊎ Somewhere f ys x

-- An empty list of allowed values allows everything.
abbrev pub Allowed {ℓ} : {A : Type ℓ} {B : Type 0} → (A → B) → List A → B → Type ℓ
Allowed f l x = (l ≡ []) ⊎ Somewhere f l x

validate_size_iff :
    (cfg : ValidationConfig) (size : ℤ) → (validate_size cfg size ≡ none) ↔ SizeAllowed cfg size
unfolding validate_size
validate_size_iff cfg size =
    (λ h. (ground arith, λ p. ground arith, λ p. ground arith), λ h. ground arith)

find_dangerous_iff :
    (ds : List Str) (name : Str)
    → (find_dangerous ds name ≡ none) ↔ All (λ d. contains name d ≡ false) ds
unfolding find_dangerous
find_dangerous_iff [] name = (λ h. tt, λ h. refl)
find_dangerous_iff (d ∷ ds) name =
    let (a, b) = find_dangerous_iff ds name in
    (λ h. (ground arith, a (ground arith)), λ h. ground (arith, b h.1))

validate_name_iff :
    (cfg : ValidationConfig) (name : Str) → (validate_name cfg name ≡ none) ↔ NameAllowed cfg name
unfolding validate_name check_null
validate_name_iff cfg [] = (λ h. cc, λ h. absurd (h.0 refl))
validate_name_iff cfg (c ∷ s) =
    let (a, b) = find_dangerous_iff dangerous_chars (c ∷ s) in
    (
      λ h. (λ e. cc, λ p. ground arith, a (ground arith), ground arith),
      λ h. let safe = b h.2 in ground arith,
    )

-- The loops over allowed values look for an entry that passes the test.
module _ {ℓ} {A : Type ℓ} {B : Type 0} (f : A → B) (test : A → Bool) (x : B)
    (right : (a : A) → (test a ≡ true) ↔ (f a ≡ x)) where
  any_iff : (l : List A) → (any test l ≡ true) ↔ Somewhere f l x
  unfolding any
  any_iff [] = (λ h. cc, λ h. elim h [ ])
  any_iff (a ∷ l) = (
    λ h. elim (Bool-cases (test a)) [
      | inl here ↦ inl ((right a).0 here)
      | inr other ↦ inr ((any_iff l).0 (ground arith))
    ],
    λ h. elim h [
      | inl here ↦ ground (arith, (right a).1 here)
      | inr there ↦ elim (Bool-cases (test a)) [
        | inl p ↦ ground arith
        | inr p ↦ rw p ((any_iff l).1 there)
      ]
    ],
  )

  check_allowed_iff :
      (l : List A) (e : ValidationError) → (check_allowed test l e ≡ none) ↔ Allowed f l x
  unfolding check_allowed
  check_allowed_iff [] e = (λ h. inl refl, λ h. refl)
  check_allowed_iff (a ∷ l) e =
      let (p, q) = any_iff (a ∷ l) in
      (
        λ h. inr (p (ground arith)),
        λ h. elim h [ inl none_there ↦ cc | inr there ↦ ground (arith, q there) ],
      )

flip : {P : Type 0} {A : Type 0} {a b : A} → (P ↔ (a ≡ b)) → P ↔ (b ≡ a)
flip e = (λ p. sym (e.0 p), λ q. e.1 (sym q))

or_then_iff : (a b : Option ValidationError) → ((a or_then b) ≡ none) ↔ ((a ≡ none) × (b ≡ none))
or_then_iff none b = (λ h. (refl, h), λ h. h.1)
or_then_iff (some e) b = (λ h. cc, λ h. cc)

-- What an accepted upload satisfies: its size, its name, its extension in lower case among the
-- allowed ones in lower case, its MIME type and its detected type among the allowed ones.
abbrev pub Acceptable : ValidationConfig → FileHeader → Type 0
Acceptable cfg h =
    SizeAllowed cfg h.size
    × NameAllowed cfg h.filename
    × Allowed to_lower cfg.allowed_extensions (lower_ext h.filename)
    × Allowed (λ m. m) cfg.allowed_mime_types h.content_type
    × Allowed (λ t. t) cfg.allowed_types (detect_file_type h.filename h.content_type)

module _ (cfg : ValidationConfig) (h : FileHeader) where
  extension_iff :
      (validate_extension cfg h.filename ≡ none)
      ↔ Allowed to_lower cfg.allowed_extensions (lower_ext h.filename)
  unfolding validate_extension
  extension_iff =
      check_allowed_iff to_lower _ (lower_ext h.filename)
        (λ a. str_eq_iff (to_lower a) (lower_ext h.filename)) cfg.allowed_extensions
        extension_refused

  mime_iff :
      (validate_mime_type cfg h.content_type ≡ none)
      ↔ Allowed (λ m. m) cfg.allowed_mime_types h.content_type
  unfolding validate_mime_type
  mime_iff =
      check_allowed_iff (λ m. m) _ h.content_type (λ a. flip (str_eq_iff h.content_type a))
        cfg.allowed_mime_types mime_refused

  type_iff :
      (validate_file_type cfg h.filename h.content_type ≡ none)
      ↔ Allowed (λ t. t) cfg.allowed_types (detect_file_type h.filename h.content_type)
  unfolding validate_file_type
  type_iff =
      check_allowed_iff (λ t. t) _ (detect_file_type h.filename h.content_type)
        (λ a. flip (type_eq_iff (detect_file_type h.filename h.content_type) a)) cfg.allowed_types
        type_refused

  -- `Validate` accepts an upload exactly when it is acceptable: no check is skipped and none
  -- refuses more than its limit says.
  pub validate_iff : (validate cfg (some h) ≡ none) ↔ Acceptable cfg h
  unfolding validate
  validate_iff = (
    λ e.
        let (s, e1) = (or_then_iff _ _).0 e in
        let (n, e2) = (or_then_iff _ _).0 e1 in
        let (x, e3) = (or_then_iff _ _).0 e2 in
        let (m, t) = (or_then_iff _ _).0 e3 in
        (
          (validate_size_iff cfg h.size).0 s,
          (validate_name_iff cfg h.filename).0 n,
          extension_iff.0 x,
          mime_iff.0 m,
          type_iff.0 t,
        ),
    λ (s, n, x, m, t).
        rw
          (
            (validate_size_iff cfg h.size).1 s,
            (validate_name_iff cfg h.filename).1 n,
            extension_iff.1 x,
            mime_iff.1 m,
          )
          (type_iff.1 t),
  )
