-- ===== src/Upload/Local/Files.antt =====
-- What the operations of the local storage do to the disk.
use dgou_framework.Base.{
  Bool, not, if◌then◌else◌, ◌≡◌, ◌≢◌, ◌⊎◌, inl, inr, refl, sym, ap, ◌∙◌, Bool, true, false, none,
  some, [], Str, length, str_discrete, insert_self, insert_ne, delete_self, delete_ne, insert,
  delete, subst,
}
use dgou_framework.Base.Int.{ℤ, pos}
use dgou_framework.Upload.Manager.{FileInfo}
use dgou_framework.Upload.Local.Paths.{dir_name}
use dgou_framework.Upload.Local.{
  LocalConfig, Disk, Os, LocalError, mkdir_failed, create_failed, Reader, full_path, put, get,
  get_url, delete_file, copy, copy_file, then_delete, move, contents, finish, written, created,
  removed,
}

abbrev size_of : {Metadata : Type 0} → LocalError ⊎ FileInfo Metadata → ℤ
size_of (inl e) = pos 0
size_of (inr info) = info.size

module _ (os : Os) (config : LocalConfig) (disk : Disk) where
  finish-get :
      {Metadata : Type 0} (md5 : Str → Str) (now : ℤ) (file info : FileInfo Metadata) (bytes : Str)
      (d : Disk) (good : Bool)
      → ((q : Str) → q ≢ full_path config file.path → d q ≡ disk q)
      → (finish os config md5 now file bytes d good).1 ≡ inr info
      → let disk' = (finish os config md5 now file bytes d good).0 in
        (disk' (full_path config file.path) ≡ some bytes)
        × (info.size ≡ pos (length bytes))
        × ((q : Str) → q ≢ full_path config file.path → disk' q ≡ disk q)
  finish-get md5 now file info bytes d true keeps e = (
    insert_self str_discrete (full_path config file.path) bytes d,
    sym (ap size_of e),
    λ q n. insert_ne str_discrete (full_path config file.path) bytes d q n ∙ keeps q n,
  )
  finish-get md5 now file info bytes d false keeps e = cc

  created_path :
      (b c : Bool) (full : Str) (d : Disk)
      → ◌≡◌ {A = LocalError ⊎ Disk}
          (if not b
            then inl mkdir_failed
            else if not c
            then inl create_failed
            else inr (insert str_discrete full [] disk))
          (inr d)
      → d ≡ insert str_discrete full [] disk
  created_path true true full d e = cc
  created_path true false full d e = cc
  created_path false c full d e = cc

  pub created_keeps :
      (full : Str) (d : Disk)
      → created os config full disk ≡ inr d
      → (q : Str) → q ≢ full
      → d q ≡ disk q
  created_keeps full d e q n =
      ap (λ x. x q) (created_path (os.mkdir_all (dir_name full)) (os.create full) full d e)
      ∙ insert_ne str_discrete full [] disk q n

  written-get :
      {Metadata : Type 0} (md5 : Str → Str) (now : ℤ) (file info : FileInfo Metadata)
      (reader : Reader) (x : LocalError ⊎ Disk)
      → ((d : Disk) → x ≡ inr d → (q : Str) → q ≢ full_path config file.path → d q ≡ disk q)
      → (written os config md5 now file reader disk x).1 ≡ inr info
      → let disk' = (written os config md5 now file reader disk x).0 in
        (disk' (full_path config file.path) ≡ some reader.bytes)
        × (info.size ≡ pos (length reader.bytes))
        × ((q : Str) → q ≢ full_path config file.path → disk' q ≡ disk q)
  written-get md5 now file info reader (inl x) keeps e = cc
  written-get md5 now file info reader (inr d) keeps e =
      finish-get md5 now file info reader.bytes d reader.ends_well (keeps d refl) e

  -- A Put that gives no error has stored exactly the bytes that it read: Get gives them, and the file
  -- information has their number; no other file has changed.
  pub put-get :
      {Metadata : Type 0} (md5 : Str → Str) (now : ℤ) (file info : FileInfo Metadata)
      (reader : Reader)
      → (put os config md5 now disk file reader).1 ≡ inr info
      → let disk' = (put os config md5 now disk file reader).0 in
        (get os config disk' file.path ≡ some reader.bytes)
        × (info.size ≡ pos (length reader.bytes))
        × ((q : Str) → q ≢ full_path config file.path → disk' q ≡ disk q)
  unfolding put get
  put-get md5 now file info reader e =
      written-get md5 now file info reader (created os config (full_path config file.path) disk)
        (created_keeps (full_path config file.path)) e

  -- A Put whose directory and file can be made, and whose reader ends well, gives no error.
  pub put_done :
      {Metadata : Type 0} (md5 : Str → Str) (now : ℤ) (file : FileInfo Metadata) (reader : Reader)
      → os.mkdir_all (dir_name (full_path config file.path)) ≡ true
      → os.create (full_path config file.path) ≡ true
      → reader.ends_well ≡ true
      → (info : FileInfo Metadata) × ((put os config md5 now disk file reader).1 ≡ inr info)
  unfolding put
  put_done md5 now file reader dir room ends =
      let full = full_path config file.path in
      let made : created os config full disk ≡ inr (insert str_discrete full [] disk) =
        rw dir (rw room refl) in
      (
        record file {
          size = pos (length reader.bytes);
          md5 = md5 reader.bytes;
          created_at = now;
          url = get_url config file.path;
        },
        ap (λ x. (written os config md5 now file reader disk x).1) made
            ∙ ap
                (λ b.
                  (finish os config md5 now file reader.bytes (insert str_discrete full [] disk)
                    b).1)
                ends,
      )

  module _ (a b : Str) (s : Str) (held : disk (full_path config a) ≡ some s)
      (dir : os.mkdir_all (dir_name (full_path config b)) ≡ true)
      (room : os.create (full_path config b) ≡ true) where
    abbrev src : Str
    src = full_path config a

    abbrev dst : Str
    dst = full_path config b

    abbrev truncated : Disk
    truncated = insert str_discrete dst [] disk

    abbrev filled : Disk
    filled = insert str_discrete dst (contents (truncated src)) truncated

    copied : copy os config disk a b ≡ (filled, none)
    unfolding copy
    copied =
        let step : copy os config disk a b ≡ copy_file os config src dst (disk src) disk =
          rw dir refl in
        let made : copy_file os config src dst (some s) disk ≡ (filled, none) = rw room refl in
        step ∙ ap (λ o. copy_file os config src dst o disk) held ∙ made

    moved :
        (t : Str)
        → filled src ≡ some t
        → move os config disk a b ≡ (delete str_discrete src filled, none)
    unfolding move delete_file
    moved t there =
        ap (then_delete os config a) copied ∙ ap (λ o. removed os config src o filled) there

    -- A Move of a file to another place, where its directory and file can be made, leaves the bytes
    -- there and nothing at the old place, and changes no other file.
    pub move-get :
        src ≢ dst
        → let (disk', error) = move os config disk a b in
          (error ≡ none)
          × (get os config disk' b ≡ some s)
          × (get os config disk' a ≡ none)
          × ((q : Str) → q ≢ src → q ≢ dst → disk' q ≡ disk q)
    unfolding get
    move-get n =
        let kept : truncated src ≡ some s = insert_ne str_discrete dst [] disk src n ∙ held in
        let there = insert_ne str_discrete dst (contents (truncated src)) truncated src n ∙ kept in
        let new =
          insert_self str_discrete dst (contents (truncated src)) truncated
          ∙ ap (λ o. some (contents o)) kept in
        let other = λ (q : Str) (m : q ≢ src) (m' : q ≢ dst).
          delete_ne str_discrete src filled q m
          ∙ insert_ne str_discrete dst (contents (truncated src)) truncated q m'
          ∙ insert_ne str_discrete dst [] disk q m' in
        subst
          (λ r.
            (r.1 ≡ none)
            × (r.0 dst ≡ some s)
            × (r.0 src ≡ none)
            × ((q : Str) → q ≢ src → q ≢ dst → r.0 q ≡ disk q))
          (sym (moved s there))
          (
            refl,
            delete_ne str_discrete src filled dst (λ e. n (sym e)) ∙ new,
            delete_self str_discrete src filled,
            other,
          )

    -- A Move of a file to its own place, which may be written differently, gives no error and deletes
    -- it.
    pub move_onto_itself :
        src ≡ dst
        → let (disk', error) = move os config disk a b in
          (error ≡ none) × (get os config disk' a ≡ none)
    unfolding get
    move_onto_itself same =
        let there =
          ap filled same ∙ insert_self str_discrete dst (contents (truncated src)) truncated in
        subst (λ r. (r.1 ≡ none) × (r.0 src ≡ none)) (sym (moved _ there))
          (refl, delete_self str_discrete src filled)
