-- ===== src/Upload/Escape.antt =====
-- `UploadReader` of pkg/upload/upload.go with the local storage of pkg/upload/local.go as its storage:
-- where a file name with `..` in it is written.
use dgou_framework.Base.{
  ℕ, ◌≡◌, refl, sym, ap, ◌∙◌, true, Option, none, some, ◌⊎◌, inl, inr, List, [], ◌++◌, Str, codes,
  arith, length, apply_options,
}
use mathlib.Core.List.{append_assoc}
use dgou_framework.Base.Int.{ℤ, ◌≤ℤ◌}
use dgou_framework.Upload.Manager.{
  StorageType, FileInfo, UploadConfig, UploadOption, Fresh, default_options, file_info, stored,
  or_octets, upload_reader, generate_path, directory,
}
use dgou_framework.Upload.Local.{LocalConfig, Os, Disk, Reader, LocalError, put, get, full_path}
use dgou_framework.Upload.Local.Files.{put_done, put-get}
use dgou_framework.Upload.Local.Paths.{elements, is_rooted, walk, print_path, join_path, dir_name}
use dgou_framework.Upload.Local.Inside.{climb, join_path_escapes}

abbrev pub to_option : {A : Type 0} → LocalError ⊎ A → Option A
to_option (inl e) = none
to_option (inr x) = some x

module _ {Metadata : Type 0} (kind : StorageType) (os : Os) (cfg : UploadConfig)
    (config : LocalConfig) where
  -- The local storage as the storage of the manager, for one disk and the reader of one call.
  abbrev pub local_put :
      (Str → Str) → ℤ → Disk → Reader → FileInfo Metadata → Option (FileInfo Metadata)
  local_put md5 now disk reader file = to_option (put os config md5 now disk file reader).1

  -- the path of a new file up to its name
  abbrev pub before_name : Fresh → List (UploadOption Metadata) → Str
  before_name fresh opts =
      directory fresh.day (apply_options default_options opts)
      ++ codes "/"
      ++ fresh.path_uuid
      ++ codes "_"

  -- how many `..` lead from there to the root
  abbrev pub depth : Fresh → List (UploadOption Metadata) → ℕ
  depth fresh opts =
      length (walk true [] (elements config.base_path ++ elements (before_name fresh opts)))

  path_of_name :
      (fresh : Fresh) (opts : List (UploadOption Metadata)) (name : Str)
      → generate_path fresh name (apply_options default_options opts)
        ≡ before_name fresh opts ++ name
  unfolding generate_path
  path_of_name fresh opts name = refl

  -- What UploadReader sends to its storage.
  abbrev sent_file : Fresh → List (UploadOption Metadata) → ℤ → Str → FileInfo Metadata
  sent_file fresh opts size name =
      file_info fresh kind name size (or_octets (apply_options default_options opts).mime_type)
        (apply_options default_options opts)

  sent_place :
      (fresh : Fresh) (opts : List (UploadOption Metadata)) (size : ℤ) (target : Str)
      → is_rooted config.base_path ≡ true
      → let name = codes "/" ++ climb (depth fresh opts) target in
        full_path config (sent_file fresh opts size name).path
        ≡ print_path true (walk true [] (elements target))
  unfolding file_info full_path
  sent_place fresh opts size target rooted =
      let name = codes "/" ++ climb (depth fresh opts) target in
      ap (join_path config.base_path) (path_of_name fresh opts name)
      ∙ ap (join_path config.base_path) (
          sym (append_assoc (before_name fresh opts) (codes "/") (climb (depth fresh opts) target)))
      ∙ join_path_escapes config.base_path (before_name fresh opts) target rooted

  upload_reader_sends :
      (store : FileInfo Metadata → Option (FileInfo Metadata)) (fresh : Fresh)
      (opts : List (UploadOption Metadata)) (size : ℤ) (name : Str)
      → size ≤ℤ cfg.max_file_size
      → upload_reader kind store cfg fresh name size opts
        ≡ stored (store (sent_file fresh opts size name))
  unfolding upload_reader
  upload_reader_sends store fresh opts size name small = ground arith

  -- With an absolute base directory, for every target there is a file name with which UploadReader
  -- over the local storage succeeds and leaves the bytes of the reader at the target, wherever the
  -- base directory is, if the size is within the limit, the directory and the file of the target
  -- can be made, and the reader ends without an error.
  pub upload_reader_escapes :
      (md5 : Str → Str) (now : ℤ) (disk : Disk) (reader : Reader) (fresh : Fresh)
      (opts : List (UploadOption Metadata)) (size : ℤ) (target : Str)
      → is_rooted config.base_path ≡ true
      → size ≤ℤ cfg.max_file_size
      → os.mkdir_all (dir_name (print_path true (walk true [] (elements target)))) ≡ true
      → os.create (print_path true (walk true [] (elements target))) ≡ true
      → reader.ends_well ≡ true
      → let name = codes "/" ++ climb (depth fresh opts) target in
        (sent info : FileInfo Metadata) × (upload_reader kind
            (local_put md5 now disk reader)
            cfg
            fresh
            name
            size
            opts
          ≡ inr info)
        × ((put os config md5 now disk sent reader).1 ≡ inr info)
        × ((put os config md5 now disk sent reader).0
              (print_path true (walk true [] (elements target)))
            ≡ some reader.bytes)
  unfolding get
  upload_reader_escapes md5 now disk reader fresh opts size target rooted small dir room ends =
      let name = codes "/" ++ climb (depth fresh opts) target in
      let sent = sent_file fresh opts size name in
      let there = sent_place fresh opts size target rooted in
      let (info, done) =
        put_done os config disk md5 now sent reader
          (ap (λ p. os.mkdir_all (dir_name p)) there ∙ dir) (ap os.create there ∙ room) ends in
      let after = (put os config md5 now disk sent reader).0 in
      (
        sent,
        info,
        upload_reader_sends (local_put md5 now disk reader) fresh opts size name small
            ∙ ap (λ x. stored (to_option x)) done,
        done,
        ap after (sym there) ∙ (put-get os config disk md5 now sent info reader done).0,
      )
