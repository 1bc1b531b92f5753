-- ===== src/Tests/Upload.antt =====
-- Uploads at concrete headers.
use dgou_framework.Base.{
  ℕ, ◌≡◌, ◌↔◌, inr, refl, true, Option, none, some, [], ◌∷◌, ◌++◌, codes, contains, has_prefix, ext,
  any, str_eq, to_lower, lower_ext, has_byte, apply_options,
}
use dgou_framework.Base.Int.{pos}
use dgou_framework.Upload.Validator.{
  FileHeader, default_config, validate, validate_extension, validate_size, validate_name,
  find_dangerous, check_null, validate_mime_type, validate_file_type, validate_header,
  check_allowed,
}
use dgou_framework.Upload.Validator.Acceptance.{Acceptable, validate_iff}
use dgou_framework.Upload.Manager.{
  local, FileInfo, UploadConfig, Fresh, validation_config, upload, file_info, generate_path,
  directory, default_options,
}
use dgou_framework.Upload.Manager.Paths.{upload_accepted}

abbrev photo : FileHeader
photo = record { filename = codes "a.jpg"; size = pos 100; content_type = codes "image/jpeg" }

validate_iff_example :
    (validate default_config (some photo) ≡ none) ↔ Acceptable default_config photo
validate_iff_example = validate_iff default_config photo

abbrev config : UploadConfig
config = record { max_file_size = pos 1000; allowed_exts = codes "jpg" ∷ []; allowed_mimes = [] }

abbrev fresh : Fresh
fresh = record { uuid = codes "u1"; path_uuid = codes "u2"; day = codes "2024/01/02"; now = pos 9 }

-- a storage that stores everything; metadata are numbers here
abbrev put : FileInfo ℕ → Option (FileInfo ℕ)
put info = some (record info { url = codes "/f" })

abbrev stored_photo : FileInfo ℕ
stored_photo = record {
  id = codes "u1";
  name = codes "a.jpg";
  path = codes "2024/01/02/u2_a.jpg";
  url = codes "/f";
  size = pos 100;
  mime_type = codes "image/jpeg";
  extension = codes "jpg";
  md5 = [];
  storage_type = local;
  uploader_id = [];
  created_at = pos 9;
  is_public = true;
  metadata = none;
}

photo_stored : upload local put config fresh photo [] ≡ inr stored_photo
unfolding upload file_info generate_path directory ext validate validate_size validate_name
    find_dangerous check_null validate_extension validate_mime_type validate_file_type
    validate_header contains has_prefix validation_config check_allowed any str_eq to_lower
    lower_ext apply_options has_byte
photo_stored = refl

upload_accepted_example :
    Acceptable (validation_config config) photo
    × (sent : FileInfo ℕ) × (put sent ≡ some stored_photo)
    × (sent.name ≡ codes "a.jpg")
    × (sent.path
        ≡ directory (codes "2024/01/02") (default_options {Metadata = ℕ})
          ++ codes "/"
          ++ codes "u2"
          ++ codes "_"
          ++ codes "a.jpg")
unfolding apply_options
upload_accepted_example = upload_accepted local put config fresh photo [] stored_photo photo_stored
