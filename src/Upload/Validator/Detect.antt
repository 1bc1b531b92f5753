-- ===== src/Upload/Validator/Detect.antt =====
-- pkg/upload/validator.go, the file types: by the extension, and if that says nothing by the MIME
-- type.
use dgou_framework.Base.{
  ◌≡◌, ◌↔◌, Bool, true, false, ◌||◌, List, [], ◌∷◌, if◌then◌else◌, Str, codes, str_eq, any,
  lower_ext, has_prefix, arith,
}

pub data FileType : Type 0 where
  image document video audio archive other : FileType

-- `==` on file types
unfoldable pub type_eq : FileType → FileType → Bool
type_eq image image = true
type_eq document document = true
type_eq video video = true
type_eq audio audio = true
type_eq archive archive = true
type_eq other other = true
type_eq _ _ = false

pub type_eq_iff : (a b : FileType) → (type_eq a b ≡ true) ↔ (a ≡ b)
unfolding type_eq
type_eq_iff a b = ground arith

abbrev pub image_exts : List Str
image_exts =
    codes "jpg"
    ∷ codes "jpeg"
    ∷ codes "png"
    ∷ codes "gif"
    ∷ codes "bmp"
    ∷ codes "webp"
    ∷ codes "svg"
    ∷ []

abbrev pub video_exts : List Str
video_exts = codes "mp4" ∷ codes "avi" ∷ codes "mov" ∷ codes "wmv" ∷ codes "flv" ∷ codes "mkv" ∷ []

abbrev pub audio_exts : List Str
audio_exts = codes "mp3" ∷ codes "wav" ∷ codes "ogg" ∷ codes "flac" ∷ codes "aac" ∷ []

abbrev pub document_exts : List Str
document_exts =
    codes "pdf"
    ∷ codes "doc"
    ∷ codes "docx"
    ∷ codes "xls"
    ∷ codes "xlsx"
    ∷ codes "ppt"
    ∷ codes "pptx"
    ∷ codes "txt"
    ∷ []

abbrev pub archive_exts : List Str
archive_exts = codes "zip" ∷ codes "rar" ∷ codes "7z" ∷ codes "tar" ∷ codes "gz" ∷ []

listed : Str → List Str → Bool
unfolding any
listed e l = any (λ x. str_eq x e) l

unfoldable pub detect_by_ext : Str → FileType
unfolding listed
detect_by_ext e =
    if listed e image_exts
    then image
    else if listed e video_exts
    then video
    else if listed e audio_exts
    then audio
    else if listed e document_exts
    then document
    else if listed e archive_exts
    then archive
    else other

unfoldable pub detect_by_mime : Str → FileType
detect_by_mime mime =
    if has_prefix mime (codes "image/")
    then image
    else if has_prefix mime (codes "video/")
    then video
    else if has_prefix mime (codes "audio/")
    then audio
    else if str_eq mime (codes "application/pdf")
        || (has_prefix mime (codes "application/msword")
            || (has_prefix mime (codes "application/vnd.ms-excel")
                || (has_prefix mime (codes "application/vnd.ms-powerpoint")
                    || has_prefix mime (codes "application/vnd.openxmlformats"))))
    then document
    else if str_eq mime (codes "application/zip")
        || (str_eq mime (codes "application/x-rar-compressed")
            || (str_eq mime (codes "application/x-tar") || str_eq mime (codes "application/gzip")))
    then archive
    else other

abbrev if_other : FileType → FileType → FileType
if_other other t = t
if_other t _ = t

unfoldable pub detect_file_type : Str → Str → FileType
unfolding lower_ext detect_by_ext detect_by_mime
detect_file_type filename mime = if_other (detect_by_ext (lower_ext filename)) (detect_by_mime mime)
