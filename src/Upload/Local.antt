-- ===== src/Upload/Local.antt =====
-- pkg/upload/local.go: the local storage over a disk, which maps the full path of a file to its bytes.
-- Making directories and creating files may fail, as the argument `Os` says; an open file can be read
-- and written to its end. The MD5 sum is an argument.
pub mod Address
pub mod Paths
pub mod Files
pub mod Inside
pub mod Contained
use dgou_framework.Base.{
  ℕ, Bool, true, false, not, List, [], ◌∷◌, ◌++◌, if◌then◌else◌, Str, codes, trim_left, trim_right,
  Option, none, some, ◌⊎◌, inl, inr, GoMap, insert, delete, str_discrete, length,
}
use dgou_framework.Base.Int.{ℤ, pos}
use dgou_framework.Upload.Manager.{FileInfo}
use dgou_framework.Upload.Local.Paths.{join_path, dir_name}

pub record LocalConfig : Type 0 where
  pub base_path : Str
  pub base_url : Str
  pub cdn_url : Str

abbrev pub is_empty : Str → Bool
is_empty [] = true
is_empty (c ∷ s) = false

unfoldable pub get_url : LocalConfig → Str → Str
get_url config path =
    let base = if is_empty config.cdn_url then config.base_url else config.cdn_url in
    trim_right base b'/' ++ codes "/" ++ trim_left path b'/'

abbrev pub Disk : Type 0
Disk = GoMap Str Str

-- whether a directory can be made, and a file created
pub record Os : Type 0 where
  pub mkdir_all : Str → Bool
  pub create : Str → Bool

pub data LocalError : Type 0 where
  mkdir_failed create_failed copy_failed not_exist : LocalError

-- What an `io.Reader` gives: its bytes, and whether it ends without an error.
pub record Reader : Type 0 where
  pub bytes : Str
  pub ends_well : Bool

unfoldable pub full_path : LocalConfig → Str → Str
unfolding join_path
full_path config path = join_path config.base_path path

abbrev pub contents : Option Str → Str
contents none = []
contents (some s) = s

module _ (os : Os) (config : LocalConfig) where
  abbrev pub created : Str → Disk → LocalError ⊎ Disk
  created full disk =
      if not (os.mkdir_all (dir_name full))
      then inl mkdir_failed
      else if not (os.create full)
      then inl create_failed
      else inr (insert str_discrete full [] disk)

  -- After the copy into the new file, and whether it met no error; a file that did is removed.
  abbrev pub finish :
      {Metadata : Type 0}
      → (Str → Str)
      → ℤ
      → FileInfo Metadata
      → Str
      → Disk
      → Bool
      → Disk × (LocalError ⊎ FileInfo Metadata)
  finish md5 now file bytes disk true = (
    insert str_discrete (full_path config file.path) bytes disk,
    inr (record file {
      size = pos (length bytes);
      md5 = md5 bytes;
      created_at = now;
      url = get_url config file.path;
    }),
  )
  finish md5 now file bytes disk false =
      (delete str_discrete (full_path config file.path) disk, inl copy_failed)

  abbrev pub written :
      {Metadata : Type 0}
      → (Str → Str)
      → ℤ
      → FileInfo Metadata
      → Reader
      → Disk
      → LocalError ⊎ Disk
      → Disk × (LocalError ⊎ FileInfo Metadata)
  written md5 now file reader disk (inl e) = (disk, inl e)
  written md5 now file reader _ (inr disk) = finish md5 now file reader.bytes disk reader.ends_well

  -- `Put`; `PutMultipart` opens the part and calls it.
  unfoldable pub put :
      {Metadata : Type 0}
      → (Str → Str)
      → ℤ
      → Disk
      → FileInfo Metadata
      → Reader
      → Disk × (LocalError ⊎ FileInfo Metadata)
  unfolding full_path get_url dir_name
  put md5 now disk file reader =
      written md5 now file reader disk (created (full_path config file.path) disk)

  -- `Get`, read to its end
  unfoldable pub get : Disk → Str → Option Str
  unfolding full_path
  get disk path = disk (full_path config path)

  abbrev pub removed : Str → Option Str → Disk → Disk × Option LocalError
  removed full none disk = (disk, some not_exist)
  removed full (some s) disk = (delete str_discrete full disk, none)

  unfoldable pub delete_file : Disk → Str → Disk × Option LocalError
  unfolding full_path
  delete_file disk path = let full = full_path config path in removed full (disk full) disk

  unfoldable pub exists : Disk → Str → Bool
  unfolding full_path
  exists disk path = elim (disk (full_path config path)) [ none ↦ false | some s ↦ true ]

  -- `copyFile`: the destination is truncated after the source is opened and before it is read.
  abbrev pub copy_file : Str → Str → Option Str → Disk → Disk × Option LocalError
  copy_file src dst none disk = (disk, some not_exist)
  copy_file src dst (some s) disk =
      if not (os.create dst)
      then (disk, some create_failed)
      else let truncated = insert str_discrete dst [] disk in
        (insert str_discrete dst (contents (truncated src)) truncated, none)

  unfoldable pub copy : Disk → Str → Str → Disk × Option LocalError
  unfolding full_path dir_name
  copy disk src_path dst_path =
      let src = full_path config src_path in
      let dst = full_path config dst_path in
      if not (os.mkdir_all (dir_name dst))
      then (disk, some mkdir_failed)
      else copy_file src dst (disk src) disk

  abbrev pub then_delete : Str → Disk × Option LocalError → Disk × Option LocalError
  then_delete src_path (disk, some e) = (disk, some e)
  then_delete src_path (disk, none) = delete_file disk src_path

  unfoldable pub move : Disk → Str → Str → Disk × Option LocalError
  unfolding copy delete_file
  move disk src_path dst_path = then_delete src_path (copy disk src_path dst_path)
