-- ===== src/Upload/Validator.antt =====
-- pkg/upload/validator.go. Errors are told apart by their kind; a text in one names its character.
pub mod Detect
pub mod Acceptance
pub mod Dots
use dgou_framework.Base.{
  ℕ, zero, suc, ◌+◌, ◌*◌, Bool, true, false, ◌&&◌, ◌||◌, Option, none, some, List, [], ◌∷◌, ltb,
  if◌then◌else◌, Str, codes, str_eq, any, length, contains, to_lower, lower_ext, has_prefix, not,
}
use dgou_framework.Base.Int.{ℤ, pos, ltb_ℤ, leb_ℤ}
use dgou_framework.Upload.Validator.Detect.{FileType, type_eq, detect_file_type}

pub record ValidationConfig : Type 0 where
  pub allowed_types : List FileType
  pub allowed_extensions : List Str
  pub allowed_mime_types : List Str
  pub max_file_size : ℤ
  pub min_file_size : ℤ
  pub max_file_name_length : ℤ
  pub validate_virus : Bool

-- the parts of `multipart.FileHeader` that are read
pub record FileHeader : Type 0 where
  pub filename : Str
  pub size : ℤ
  pub content_type : Str

pub data ValidationError : Type 0 where
  nil_header size_not_positive size_too_large size_too_small : ValidationError
  name_empty name_too_long null_byte extension_refused mime_refused type_refused : ValidationError
  dangerous : Str → ValidationError

-- The configuration of `NewValidator(nil, log)`.
unfoldable pub default_config : ValidationConfig
default_config = record {
  allowed_types = [];
  allowed_extensions = [];
  allowed_mime_types = [];
  max_file_size = pos (10 * 1024 * 1024);
  min_file_size = pos 0;
  max_file_name_length = pos 255;
  validate_virus = false;
}

-- The next check, if there is no error yet.
infixr 20 ◌or_then◌
abbrev pub ◌or_then◌ : Option ValidationError → Option ValidationError → Option ValidationError
none or_then e = e
some x or_then e = some x

unfoldable pub validate_size : ValidationConfig → ℤ → Option ValidationError
validate_size cfg size =
    if leb_ℤ size (pos 0)
    then some size_not_positive
    else if ltb_ℤ (pos 0) cfg.max_file_size && ltb_ℤ cfg.max_file_size size
    then some size_too_large
    else if ltb_ℤ (pos 0) cfg.min_file_size && ltb_ℤ size cfg.min_file_size
    then some size_too_small
    else none

abbrev pub dangerous_chars : List Str
dangerous_chars =
    codes ".."
    ∷ codes "/"
    ∷ (b'\\' ∷ [])
    ∷ codes ":"
    ∷ codes "*"
    ∷ codes "?"
    ∷ (34 ∷ [])
    ∷ codes "<"
    ∷ codes ">"
    ∷ codes "|"
    ∷ []

-- the loop over the dangerous strings
unfoldable pub find_dangerous : List Str → Str → Option ValidationError
find_dangerous [] filename = none
find_dangerous (d ∷ ds) filename =
    let rest = find_dangerous ds filename in
    if contains filename d then some (dangerous d) else rest

unfoldable pub check_null : Str → Option ValidationError
check_null filename = if contains filename (0 ∷ []) then some null_byte else none

abbrev is_empty : Str → Bool
is_empty [] = true
is_empty (c ∷ s) = false

unfoldable pub validate_name : ValidationConfig → Str → Option ValidationError
validate_name cfg filename =
    if is_empty filename
    then some name_empty
    else if ltb_ℤ (pos 0) cfg.max_file_name_length
        && ltb_ℤ cfg.max_file_name_length (pos (length filename))
    then some name_too_long
    else find_dangerous dangerous_chars filename or_then check_null filename

-- A list of allowed values: an empty one allows all.
unfoldable pub check_allowed {ℓ} :
    {A : Type ℓ} → (A → Bool) → List A → ValidationError → Option ValidationError
unfolding any
check_allowed test [] e = none
check_allowed test (x ∷ xs) e = if any test (x ∷ xs) then none else some e

unfoldable pub validate_extension : ValidationConfig → Str → Option ValidationError
unfolding check_allowed lower_ext
validate_extension cfg filename =
    check_allowed (λ allowed. str_eq (to_lower allowed) (lower_ext filename)) cfg.allowed_extensions
      extension_refused

unfoldable pub validate_mime_type : ValidationConfig → Str → Option ValidationError
unfolding check_allowed
validate_mime_type cfg mime =
    check_allowed (λ allowed. str_eq mime allowed) cfg.allowed_mime_types mime_refused

unfoldable pub validate_file_type : ValidationConfig → Str → Str → Option ValidationError
unfolding check_allowed
validate_file_type cfg filename mime =
    check_allowed (λ allowed. type_eq (detect_file_type filename mime) allowed) cfg.allowed_types
      type_refused

unfoldable pub validate_header : ValidationConfig → FileHeader → Option ValidationError
validate_header cfg h =
    validate_size cfg h.size
    or_then validate_name cfg h.filename
    or_then validate_extension cfg h.filename
    or_then validate_mime_type cfg h.content_type
    or_then validate_file_type cfg h.filename h.content_type

-- `Validate`; `none` for the header is the nil pointer, `none` for the result is no error.
unfoldable pub validate : ValidationConfig → Option FileHeader → Option ValidationError
unfolding validate_header
validate cfg none = some nil_header
validate cfg (some h) = validate_header cfg h
