-- ===== src/Upload/Manager/Paths.antt =====
-- What the two ways to upload a file check of its name and its size.
use dgou_framework.Base.{
  ◌≡◌, inl, inr, refl, sym, ap, ◌∙◌, true, Option, none, some, List, ◌++◌, codes, arith,
  Option-cases, contains, apply_options,
}
use dgou_framework.Base.Int.{◌≤ℤ◌}
use dgou_framework.Upload.Validator.{FileHeader, ValidationError, validate}
use dgou_framework.Upload.Validator.Acceptance.{Acceptable, validate_iff}
use dgou_framework.Upload.Manager.{
  StorageType, FileInfo, UploadConfig, UploadOption, refused, Fresh, validation_config,
  default_options, file_info, stored, or_octets, upload, upload_reader, generate_path, directory,
}

module _ {Metadata : Type 0} (kind : StorageType)
    (put : FileInfo Metadata → Option (FileInfo Metadata)) (cfg : UploadConfig) where
  stored_inv :
      (r : Option (FileInfo Metadata)) (info : FileInfo Metadata)
      → stored r ≡ inr info
      → r ≡ some info
  stored_inv none info h = cc
  stored_inv (some i) info h = ap some (cc)

  abbrev sent_info : Fresh → FileHeader → List (UploadOption Metadata) → FileInfo Metadata
  sent_info fresh file opts =
      file_info fresh kind file.filename file.size file.content_type
        (apply_options default_options opts)

  upload_good :
      (fresh : Fresh) (file : FileHeader) (opts : List (UploadOption Metadata))
      → validate (validation_config cfg) (some file) ≡ none
      → upload kind put cfg fresh file opts ≡ stored (put (sent_info fresh file opts))
  unfolding upload
  upload_good fresh file opts h = rw (h, upload) refl

  upload_bad :
      (fresh : Fresh) (file : FileHeader) (opts : List (UploadOption Metadata))
      (e : ValidationError)
      → validate (validation_config cfg) (some file) ≡ some e
      → upload kind put cfg fresh file opts ≡ inl (refused e)
  unfolding upload
  upload_bad fresh file opts e h = rw (h, upload) refl

  slash_refused :
      (file : FileHeader)
      → contains file.filename (codes "/") ≡ true
      → ¬ (validate (validation_config cfg) (some file) ≡ none)
  slash_refused file slash good =
      let (size, name, _, _, _) = (validate_iff (validation_config cfg) file).0 good in
      cc (name.2.1.0)

  -- Where `Upload` gives a file, the upload was acceptable, and the file is what the storage made of
  -- the information whose path is the directory, a slash, a new UUID, "_" and the name.
  pub upload_accepted :
      (fresh : Fresh) (file : FileHeader) (opts : List (UploadOption Metadata))
      (info : FileInfo Metadata)
      → upload kind put cfg fresh file opts ≡ inr info
      → let o = apply_options default_options opts in
        Acceptable (validation_config cfg) file
        × (sent : FileInfo Metadata) × (put sent ≡ some info)
        × (sent.name ≡ file.filename)
        × (sent.path
            ≡ directory fresh.day o ++ codes "/" ++ fresh.path_uuid ++ codes "_" ++ file.filename)
  unfolding upload file_info generate_path
  upload_accepted fresh file opts info h =
      elim (Option-cases (validate (validation_config cfg) (some file))) [
        | inl good ↦ (
          (validate_iff (validation_config cfg) file).0 good,
          sent_info fresh file opts,
          stored_inv _ info (sym (upload_good fresh file opts good) ∙ h),
          refl,
          refl,
        )
        | inr (e, bad) ↦ absurd (cc (sym (upload_bad fresh file opts e bad) ∙ h))
      ]

  -- A name with a slash is refused by `Upload`, whatever else the header says, while `UploadReader`
  -- passes it on to the storage, whatever the name is, if the size is within the limit.
  pub reader_unchecked :
      (fresh : Fresh) (file : FileHeader) (opts : List (UploadOption Metadata))
      → contains file.filename (codes "/") ≡ true
      → file.size ≤ℤ cfg.max_file_size
      → ((e : ValidationError) × (upload kind put cfg fresh file opts ≡ inl (refused e)))
        × ((sent : FileInfo Metadata) × (sent.name ≡ file.filename)
            × (upload_reader kind put cfg fresh file.filename file.size opts ≡ stored (put sent)))
  unfolding upload upload_reader file_info
  reader_unchecked fresh file opts slash small = (
    elim (Option-cases (validate (validation_config cfg) (some file))) [
      | inl good ↦ absurd (slash_refused file slash good)
      | inr (e, bad) ↦ (e, upload_bad fresh file opts e bad)
    ],
    (
      file_info fresh kind file.filename file.size
          (or_octets (apply_options default_options opts).mime_type)
          (apply_options default_options opts),
      refl,
      ground arith,
    ),
  )
