-- ===== src/Upload/Local/Contained.antt =====
-- What Put and Delete of the local storage may change, for a path without `..`.
use dgou_framework.Base.{
  ◌≡◌, ◌≢◌, ◌⊎◌, inl, inr, refl, ◌∙◌, Bool, true, false, none, some, Option, List, ◌++◌, Str, All,
  insert_ne, delete_ne, str_discrete, [],
}
use dgou_framework.Base.Int.{ℤ}
use dgou_framework.Upload.Manager.{FileInfo}
use dgou_framework.Upload.Local.{
  LocalConfig, Disk, Os, LocalError, Reader, full_path, put, delete_file, finish, written, created,
  removed,
}
use dgou_framework.Upload.Local.Paths.{elements, is_rooted, walk, print_path}
use dgou_framework.Upload.Local.Files.{created_keeps}
use dgou_framework.Upload.Local.Inside.{Plain, join_path_inside}

module _ (os : Os) (config : LocalConfig) (disk : Disk) where
  finish_ne :
      {Metadata : Type 0} (md5 : Str → Str) (now : ℤ) (file : FileInfo Metadata) (bytes q : Str)
      (d : Disk) (good : Bool)
      → q ≢ full_path config file.path
      → d q ≡ disk q
      → (finish os config md5 now file bytes d good).0 q ≡ disk q
  finish_ne md5 now file bytes q d true n keeps =
      insert_ne str_discrete (full_path config file.path) bytes d q n ∙ keeps
  finish_ne md5 now file bytes q d false n keeps =
      delete_ne str_discrete (full_path config file.path) d q n ∙ keeps

  written_ne :
      {Metadata : Type 0} (md5 : Str → Str) (now : ℤ) (file : FileInfo Metadata) (reader : Reader)
      (q : Str) (x : LocalError ⊎ Disk)
      → q ≢ full_path config file.path
      → ((d : Disk) → x ≡ inr d → d q ≡ disk q)
      → (written os config md5 now file reader disk x).0 q ≡ disk q
  written_ne md5 now file reader q (inl e) n keeps = refl
  written_ne md5 now file reader q (inr d) n keeps =
      finish_ne md5 now file reader.bytes q d reader.ends_well n (keeps d refl)

  -- Put, whether it fails or not, changes no place but the full path.
  put_ne :
      {Metadata : Type 0} (md5 : Str → Str) (now : ℤ) (file : FileInfo Metadata) (reader : Reader)
      (q : Str)
      → q ≢ full_path config file.path
      → (put os config md5 now disk file reader).0 q ≡ disk q
  unfolding put
  put_ne md5 now file reader q n =
      let full = full_path config file.path in
      written_ne md5 now file reader q (created os config full disk) n
        (λ d e. created_keeps os config disk full d e q n)

  removed_ne :
      (full q : Str) (o : Option Str) → q ≢ full → (removed os config full o disk).0 q ≡ disk q
  removed_ne full q none n = refl
  removed_ne full q (some s) n = delete_ne str_discrete full disk q n

  delete_file_ne :
      (path q : Str) → q ≢ full_path config path → (delete_file os config disk path).0 q ≡ disk q
  unfolding delete_file
  delete_file_ne path q n = removed_ne (full_path config path) q (disk (full_path config path)) n

  -- A place of the disk whose elements begin with those of the base directory.
  abbrev pub IsInside : Str → Type 0
  IsInside q =
      (more : List Str) × (q
        ≡ print_path (is_rooted config.base_path)
            (more ++ walk (is_rooted config.base_path) [] (elements config.base_path)))

  full_path-IsInside :
      (path q : Str)
      → config.base_path ≢ []
      → All Plain (elements path)
      → ¬ (q ≢ full_path config path)
      → IsInside q
  unfolding full_path
  full_path-IsInside path q some_base plain hit =
      let (more, same) = join_path_inside config.base_path path some_base plain in
      elim (str_discrete q (full_path config path)) [
        | yes e ↦ (more, e ∙ same)
        | no n ↦ absurd (hit n)
      ]

  -- Where the base directory is not empty, a Put or a Delete with a path of which no element is `..`
  -- changes the disk only at places in the base directory, whether it gives an error or not.
  pub storage-IsInside :
      {Metadata : Type 0} (md5 : Str → Str) (now : ℤ) (file : FileInfo Metadata) (reader : Reader)
      (q : Str)
      → config.base_path ≢ []
      → All Plain (elements file.path)
      → ((put os config md5 now disk file reader).0 q ≢ disk q)
        ⊎ ((delete_file os config disk file.path).0 q ≢ disk q)
      → IsInside q
  storage-IsInside md5 now file reader q some_base plain (inl changed) =
      full_path-IsInside file.path q some_base plain λ n. changed (put_ne md5 now file reader q n)
  storage-IsInside md5 now file reader q some_base plain (inr changed) =
      full_path-IsInside file.path q some_base plain λ n. changed (delete_file_ne file.path q n)
