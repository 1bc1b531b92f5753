-- ===== src/Upload/Local/Address.antt =====
-- pkg/upload/local.go: the address of a stored file.
use dgou_framework.Base.{
  ℕ, ◌≡◌, ◌≢◌, refl, [], ◌∷◌, ◌++◌, if◌then◌else◌, Str, codes, trim_left, trim_right, arith, Option,
  none, some,
}
use dgou_framework.Upload.Local.{LocalConfig, is_empty, get_url}

abbrev pub first_byte : Str → Option ℕ
first_byte [] = none
first_byte (c ∷ s) = some c

abbrev pub last_byte : Str → Option ℕ
last_byte [] = none
last_byte (c ∷ []) = some c
last_byte (c ∷ d ∷ s) = last_byte (d ∷ s)

trim_left-first_byte : (s : Str) (b : ℕ) → first_byte (trim_left s b) ≢ some b
unfolding trim_left
trim_left-first_byte [] b e = cc
trim_left-first_byte (c ∷ s) b e = let ih = trim_left-first_byte s b in ground arith

trim_right-last_byte : (s : Str) (b : ℕ) → last_byte (trim_right s b) ≢ some b
unfolding trim_right
trim_right-last_byte [] b e = cc
trim_right-last_byte (c ∷ s) b e = let ih = trim_right-last_byte s b in ground arith

-- The address of a file is the CDN's address if there is one, else the base address, and the path,
-- with exactly one slash between them: the part before it does not end in one and the part after it
-- does not begin with one.
pub get_url_parts :
    (config : LocalConfig) (path : Str)
    → (before : Str) × (after : Str) × (get_url config path ≡ before ++ codes "/" ++ after)
      × (last_byte before ≢ some b'/')
      × (first_byte after ≢ some b'/')
unfolding get_url
get_url_parts config path =
    let base = if is_empty config.cdn_url then config.base_url else config.cdn_url in
    (
      trim_right base b'/',
      trim_left path b'/',
      refl,
      trim_right-last_byte base b'/',
      trim_left-first_byte path b'/',
    )
