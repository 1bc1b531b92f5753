-- ===== src/Tests/Disk.antt =====
-- The local storage at a disk with one file.
use dgou_framework.Base.{
  ℕ, ◌≡◌, ◌≢◌, refl, ◌∙◌, sym, true, false, none, some, [], ◌++◌, Str, codes, str_discrete, insert,
  insert_self, insert_ne, inl, empty_map, inr, arith, All, str_eq, str_eq_iff,
}
use dgou_framework.Base.Int.{pos}
use dgou_framework.Upload.Manager.{local, FileInfo, UploadConfig, Fresh, upload_reader}
use dgou_framework.Upload.Local.{LocalConfig, Disk, Os, Reader, full_path, put, get, move, get_url}
use dgou_framework.Upload.Local.Paths.{
  elements, walk, enter, up, print_path, print_elements, join_path, clean,
}
use dgou_framework.Upload.Local.Files.{put-get, move_onto_itself}
use dgou_framework.Upload.Local.Inside.{Plain, climb}
use dgou_framework.Upload.Local.Contained.{IsInside, storage-IsInside}
use dgou_framework.Upload.Escape.{depth, local_put, upload_reader_escapes}

abbrev os : Os
os = record { mkdir_all = λ path. true; create = λ path. true }

abbrev config : LocalConfig
config = record { base_path = codes "/d"; base_url = codes "/u"; cdn_url = [] }

differ : (s t : Str) → str_eq s t ≡ false → s ≢ t
differ s t h e = cc (sym h ∙ (str_eq_iff s t).1 e)

place_a : full_path config (codes "a") ≡ codes "/d/a"
unfolding full_path join_path clean walk enter up elements print_path print_elements str_eq
place_a = refl

place_b : full_path config (codes "x/../b") ≡ codes "/d/b"
unfolding full_path join_path clean walk enter up elements print_path print_elements str_eq
place_b = refl

place_dot : full_path config (codes "./a") ≡ codes "/d/a"
unfolding full_path join_path clean walk enter up elements print_path print_elements str_eq
place_dot = refl

names_differ : str_eq (codes "/d/a") (codes "/d/b") ≡ false
unfolding str_eq
names_differ = refl

abbrev disk : Disk
disk = insert str_discrete (full_path config (codes "a")) (codes "text") empty_map

held : disk (full_path config (codes "a")) ≡ some (codes "text")
held = insert_self str_discrete (full_path config (codes "a")) (codes "text") empty_map

abbrev photo : FileInfo ℕ
photo = record {
  id = codes "u1";
  name = codes "a.jpg";
  path = codes "a.jpg";
  url = [];
  size = pos 0;
  mime_type = codes "image/jpeg";
  extension = codes "jpg";
  md5 = [];
  storage_type = local;
  uploader_id = [];
  created_at = pos 0;
  is_public = true;
  metadata = none;
}

abbrev stored_photo : FileInfo ℕ
stored_photo = record photo {
  size = pos 2;
  created_at = pos 9;
  url = get_url config (codes "a.jpg");
}

abbrev reader : Reader
reader = record { bytes = codes "ab"; ends_well = true }

put_done : (put os config (λ s. []) (pos 9) disk photo reader).1 ≡ inr stored_photo
unfolding put
put_done = refl

put-get_example :
    let disk' = (put os config (λ s. []) (pos 9) disk photo reader).0 in
    (get os config disk' (codes "a.jpg") ≡ some (codes "ab"))
    × (pos 2 ≡ pos 2)
    × ((q : Str) → q ≢ full_path config (codes "a.jpg") → disk' q ≡ disk q)
put-get_example = put-get os config disk (λ s. []) (pos 9) photo stored_photo reader put_done

move_onto_itself_example :
    let (disk', error) = move os config disk (codes "a") (codes "./a") in
    (error ≡ none) × (get os config disk' (codes "a") ≡ none)
move_onto_itself_example =
    move_onto_itself os config disk (codes "a") (codes "./a") (codes "text") held refl refl
      (place_a ∙ sym place_dot)

Plain-path : All Plain (elements photo.path)
unfolding elements
Plain-path = ((λ e. cc), tt)

photo_differs : str_eq (codes "/d/a.jpg") (codes "/d/a") ≡ false
unfolding str_eq
photo_differs = refl

place_photo : full_path config photo.path ≡ codes "/d/a.jpg"
unfolding full_path join_path clean walk enter up elements print_path print_elements str_eq
place_photo = refl

no_photo : disk (full_path config photo.path) ≡ none
no_photo =
    insert_ne str_discrete (full_path config (codes "a")) (codes "text") empty_map
      (full_path config photo.path)
      (λ e. differ (codes "/d/a.jpg") (codes "/d/a") photo_differs (sym place_photo ∙ e ∙ place_a))

photo_stored :
    (put os config (λ s. []) (pos 9) disk photo reader).0 (full_path config photo.path)
    ≢ disk (full_path config photo.path)
unfolding put
photo_stored e = cc (
    sym (
      insert_self str_discrete (full_path config photo.path) (codes "ab")
        (insert str_discrete (full_path config photo.path) [] disk))
    ∙ e
    ∙ no_photo)

storage-IsInside_example : IsInside os config disk (full_path config photo.path)
storage-IsInside_example =
    storage-IsInside os config disk (λ s. []) (pos 9) photo reader (full_path config photo.path)
      (λ e. cc) Plain-path (inl photo_stored)

abbrev limits : UploadConfig
limits = record { max_file_size = pos 1000; allowed_exts = []; allowed_mimes = [] }

abbrev fresh : Fresh
fresh = record { uuid = codes "u1"; path_uuid = codes "u2"; day = codes "2024/01/02"; now = pos 7 }

abbrev target : Str
target = print_path true (walk true [] (elements (codes "etc/x")))

upload_reader_escapes_example :
    let name =
      codes "/" ++ climb (depth {Metadata = ℕ} local os limits config fresh []) (codes "etc/x") in
    (sent info : FileInfo ℕ) × (upload_reader local
        (local_put local os limits config (λ s. []) (pos 9) disk reader)
        limits
        fresh
        name
        (pos 5)
        []
      ≡ inr info)
    × ((put os config (λ s. []) (pos 9) disk sent reader).1 ≡ inr info)
    × ((put os config (λ s. []) (pos 9) disk sent reader).0 target ≡ some (codes "ab"))
upload_reader_escapes_example =
    upload_reader_escapes local os limits config (λ s. []) (pos 9) disk reader fresh [] (pos 5)
      (codes "etc/x") refl (omega arith) refl refl refl
