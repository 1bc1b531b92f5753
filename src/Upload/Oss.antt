-- ===== src/Upload/Oss.antt =====
-- pkg/upload/oss.go: the storage on OSS. The bucket (aliyun-oss-go-sdk) is an argument: its objects,
-- and for each call whether it fails.
use dgou_framework.Base.{
  Bool, true, false, not, Option, none, some, [], ◌∷◌, ◌++◌, if◌then◌else◌, Str, codes, trim_left,
}
use dgou_framework.Base.Int.{ℤ}
use dgou_framework.Upload.Manager.{FileInfo}
use dgou_framework.Bootstrap.Settings.{OssSettings}

-- `Bucket`: what `PutObject`, `DeleteObject` and `CopyObject` leave, `none` for an error, and the
-- signed address of a path.
pub record Bucket : Type 1 where
  pub Objects : Type 0
  pub put_object : Objects → Str → (mime_type bytes : Str) → Option Objects
  pub get_object : Objects → Str → Option Str
  pub delete_object : Objects → Str → Option Objects
  pub copy_object : Objects → (src dst : Str) → Option Objects
  pub sign_url : Str → Option Str

abbrev is_empty : Str → Bool
is_empty [] = true
is_empty (c ∷ s) = false

abbrev first_of : Option Str → Str
first_of none = []
first_of (some s) = s

module _ (b : Bucket) (config : OssSettings) where
  -- A public address is written down; another is signed by the bucket, which may fail.
  unfoldable pub oss_url : Str → Bool → Option Str
  oss_url path is_public =
      if not is_public
      then b.sign_url path
      else let protocol = if config.use_https then codes "https" else codes "http" in
        let domain =
          if is_empty config.cdn_url
          then config.bucket ++ codes "." ++ config.endpoint
          else config.cdn_url in
        some (protocol ++ codes "://" ++ domain ++ codes "/" ++ trim_left path b'/')

  abbrev oss_stored :
      {Metadata : Type 0}
      → ℤ
      → FileInfo Metadata
      → Option b.Objects
      → Option (b.Objects × FileInfo Metadata)
  oss_stored now file none = none
  oss_stored now file (some objects) =
      some (
        objects,
        record file { created_at = now; url = first_of (oss_url file.path file.is_public) },
      )

  -- `Put`: the error of the address is dropped, and the size and the sum stay as they were.
  unfoldable pub oss_put :
      {Metadata : Type 0}
      → ℤ
      → b.Objects
      → FileInfo Metadata
      → Str
      → Option (b.Objects × FileInfo Metadata)
  unfolding oss_url
  oss_put now objects file bytes =
      oss_stored now file (b.put_object objects file.path file.mime_type bytes)

  abbrev oss_then_delete : Str → Option b.Objects → Option b.Objects
  oss_then_delete src none = none
  oss_then_delete src (some objects) = b.delete_object objects src

  -- `Copy` is the bucket's; `Move` deletes the source after it.
  unfoldable pub oss_move : b.Objects → Str → Str → Option b.Objects
  oss_move objects src dst = oss_then_delete src (b.copy_object objects src dst)
