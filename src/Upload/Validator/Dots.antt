-- ===== src/Upload/Validator/Dots.antt =====
-- The dot of an extension, and allowed extensions that are written with one.
use dgou_framework.Base.{
  ◌≡◌, ◌≢◌, ◌⊎◌, inl, inr, refl, ap, false, ◌&&◌, not, some, List, [], ◌∷◌, Str, str_eq, any, All,
  to_lower, lower_ext, has_byte, ext, arith, Bool-cases, ◌==◌,
}
use dgou_framework.Upload.Validator.{
  ValidationConfig, extension_refused, check_allowed, validate_extension,
}

-- With no extension there is no dot in a name without a slash.
no_dot : (s : Str) → ext s ≡ [] → has_byte b'/' s ≡ false → has_byte b'.' s ≡ false
unfolding ext has_byte
no_dot [] e h = refl
no_dot (c ∷ s) e h = ground (arith, no_dot s)

-- An extension is empty, or a dot and no further dot.
ext_shape : (s : Str) → (ext s ≡ []) ⊎ ((t : Str) × (ext s ≡ b'.' ∷ t) × (has_byte b'.' t ≡ false))
unfolding ext
ext_shape [] = inl refl
ext_shape (c ∷ s) = elim (ext_shape s) [
  | inl empty ↦ elim (Bool-cases (c == b'.' && not (has_byte b'/' s))) [
    | inl dot ↦
        let e : c ≡ b'.' = ground arith in
        inr (s, rw (empty, dot) (ap (λ x. x ∷ s) e), no_dot s empty (ground arith))
    | inr other ↦ inl (rw (empty, other) refl)
  ]
  | inr (t, e, h) ↦ inr (t, rw e refl, h)
]

to_lower-has_byte : (s : Str) → has_byte b'.' s ≡ false → has_byte b'.' (to_lower s) ≡ false
unfolding has_byte to_lower
to_lower-has_byte [] h = refl
to_lower-has_byte (c ∷ s) h = ground (arith, to_lower-has_byte s)

-- The extension that is compared holds no dot.
lower_ext-has_byte : (name : Str) → has_byte b'.' (lower_ext name) ≡ false
unfolding lower_ext
lower_ext-has_byte name = elim (ext_shape name) [
  | inl empty ↦ rw empty refl
  | inr (t, e, h) ↦ rw e (to_lower-has_byte t h)
]

str_eq_dotted : (a s : Str) → has_byte b'.' s ≡ false → str_eq (b'.' ∷ a) s ≡ false
unfolding str_eq has_byte
str_eq_dotted a [] h = refl
str_eq_dotted a (c ∷ s) h = ground arith

-- the entries that begin with a dot
abbrev pub Dotted : Str → Type 0
Dotted a = (b : Str) × (a ≡ b'.' ∷ b)

any-Dotted :
    (name : Str) (l : List Str)
    → All Dotted l
    → any (λ allowed. str_eq (to_lower allowed) (lower_ext name)) l ≡ false
unfolding any to_lower
any-Dotted name [] h = refl
any-Dotted name (a ∷ l) ((b, e), h) =
    rw (e, str_eq_dotted (to_lower b) (lower_ext name) (lower_ext-has_byte name))
      (any-Dotted name l h)

-- Where the list of allowed extensions is not empty and each entry begins with a dot, as the
-- defaults of the configuration have it, every file name is refused.
pub Dotted-refused :
    (cfg : ValidationConfig) (name : Str)
    → cfg.allowed_extensions ≢ []
    → All Dotted cfg.allowed_extensions
    → validate_extension cfg name ≡ some extension_refused
unfolding validate_extension check_allowed
Dotted-refused cfg name some_entry h = go cfg.allowed_extensions some_entry h
  where
    go :
        (l : List Str)
        → l ≢ []
        → All Dotted l
        → check_allowed (λ allowed. str_eq (to_lower allowed) (lower_ext name)) l extension_refused
          ≡ some extension_refused
    go [] some_entry h = absurd (some_entry refl)
    go (a ∷ l) some_entry h = ground (arith, any-Dotted name (a ∷ l) h)
