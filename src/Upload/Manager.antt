-- ===== src/Upload/Manager.antt =====
-- pkg/upload/upload.go and the types of pkg/upload/storage.go: the manager over a storage. The
-- storage is an argument: `Put` and `PutMultipart` fill in fields of the file information that they
-- are given, or fail. New UUIDs, today's directory and the clock are arguments as well.
pub mod Paths
use dgou_framework.Base.{
  ℕ, Bool, true, false, ◌&&◌, Option, none, some, List, [], ◌∷◌, ◌++◌, if◌then◌else◌, Str, codes,
  ext, trim_prefix, ◌⊎◌, inl, inr, apply_options,
}
use dgou_framework.Base.Int.{ℤ, pos, ltb_ℤ}
use dgou_framework.Upload.Validator.{ValidationConfig, FileHeader, ValidationError, validate}

pub data StorageType : Type 0 where
  local oss s3 : StorageType

-- `FileInfo`; the metadata is a value of an opaque type, `none` for the nil map
pub record FileInfo (Metadata : Type 0) : Type 0 where
  pub id : Str
  pub name : Str
  pub path : Str
  pub url : Str
  pub size : ℤ
  pub mime_type : Str
  pub extension : Str
  pub md5 : Str
  pub storage_type : StorageType
  pub uploader_id : Str
  pub created_at : ℤ
  pub is_public : Bool
  pub metadata : Option Metadata

-- `Config`
pub record UploadConfig : Type 0 where
  pub max_file_size : ℤ
  pub allowed_exts : List Str
  pub allowed_mimes : List Str

pub record UploadOptions (Metadata : Type 0) : Type 0 where
  pub uploader_id : Str
  pub is_public : Bool
  pub category : Str
  pub metadata : Option Metadata
  pub mime_type : Str

abbrev pub UploadOption : Type 0 → Type 0
UploadOption Metadata = UploadOptions Metadata → UploadOptions Metadata

-- what `NewManager` configures its validator with
unfoldable pub validation_config : UploadConfig → ValidationConfig
validation_config cfg = record {
  allowed_types = [];
  allowed_extensions = cfg.allowed_exts;
  allowed_mime_types = cfg.allowed_mimes;
  max_file_size = cfg.max_file_size;
  min_file_size = pos 0;
  max_file_name_length = pos 255;
  validate_virus = false;
}

-- What the manager reads of the outside: two UUIDs, the directory of the day, and the time.
pub record Fresh : Type 0 where
  pub uuid : Str
  pub path_uuid : Str
  pub day : Str
  pub now : ℤ

pub data UploadError : Type 0 where
  refused : ValidationError → UploadError
  size_exceeded storage_failed : UploadError

abbrev is_empty : Str → Bool
is_empty [] = true
is_empty (c ∷ s) = false

abbrev pub or_octets : Str → Str
or_octets mime = if is_empty mime then codes "application/octet-stream" else mime

module _ {Metadata : Type 0} where
  abbrev pub with_uploader_id : Str → UploadOption Metadata
  with_uploader_id id o = record o { uploader_id = id }

  abbrev pub with_public : Bool → UploadOption Metadata
  with_public flag o = record o { is_public = flag }

  abbrev pub with_category : Str → UploadOption Metadata
  with_category c o = record o { category = c }

  abbrev pub with_metadata : Option Metadata → UploadOption Metadata
  with_metadata md o = record o { metadata = md }

  abbrev pub with_mime_type : Str → UploadOption Metadata
  with_mime_type mime o = record o { mime_type = mime }

  abbrev pub default_options : UploadOptions Metadata
  default_options = record {
    uploader_id = [];
    is_public = true;
    category = [];
    metadata = none;
    mime_type = [];
  }

  -- the directory of a new file
  unfoldable pub directory : Str → UploadOptions Metadata → Str
  directory day o = if is_empty o.category then day else o.category ++ codes "/" ++ day

  unfoldable pub generate_path : Fresh → Str → UploadOptions Metadata → Str
  unfolding directory
  generate_path fresh filename o =
      directory fresh.day o ++ codes "/" ++ fresh.path_uuid ++ codes "_" ++ filename

  -- the file information before the storage has it
  unfoldable pub file_info :
      Fresh → StorageType → Str → ℤ → Str → UploadOptions Metadata → FileInfo Metadata
  unfolding generate_path
  file_info fresh kind filename size mime o = record {
    id = fresh.uuid;
    name = filename;
    path = generate_path fresh filename o;
    url = [];
    size = size;
    mime_type = mime;
    extension = trim_prefix (ext filename) (codes ".");
    md5 = [];
    storage_type = kind;
    uploader_id = o.uploader_id;
    created_at = fresh.now;
    is_public = o.is_public;
    metadata = o.metadata;
  }

  abbrev pub stored : Option (FileInfo Metadata) → UploadError ⊎ FileInfo Metadata
  stored none = inl storage_failed
  stored (some info) = inr info

  module _ (kind : StorageType) (put : FileInfo Metadata → Option (FileInfo Metadata))
      (cfg : UploadConfig) where
    -- `Upload`; `none` is the nil header, which the validator refuses
    unfoldable pub upload :
        Fresh → FileHeader → List (UploadOption Metadata) → UploadError ⊎ FileInfo Metadata
    unfolding file_info validation_config
    upload fresh file opts = elim (validate (validation_config cfg) (some file)) [
      | some e ↦ inl (refused e)
      | none ↦ stored (
          put (
            file_info fresh kind file.filename file.size file.content_type
              (apply_options default_options opts)))
    ]

    unfoldable pub upload_reader :
        Fresh → Str → ℤ → List (UploadOption Metadata) → UploadError ⊎ FileInfo Metadata
    unfolding file_info
    upload_reader fresh filename size opts =
        let o = apply_options default_options opts in
        if ltb_ℤ (pos 0) cfg.max_file_size && ltb_ℤ cfg.max_file_size size
        then inl size_exceeded
        else stored (put (file_info fresh kind filename size (or_octets o.mime_type) o))
