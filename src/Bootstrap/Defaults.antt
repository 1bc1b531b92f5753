-- ===== src/Bootstrap/Defaults.antt =====
-- The program with the defaults of pkg/config/config.go, and what a failed RabbitMQ leaves.
use dgou_framework.Base.{
  Str, List, [], Option, none, some, ◌≡◌, ◌≢◌, ◌⊎◌, inl, inr, refl, sym, ◌∙◌, ap, subst, All,
}
use dgou_framework.Config.Types.{Config}
use dgou_framework.Config.Defaults.{default_config, default_extensions}
use dgou_framework.Config.Load.{IsBare, load_defaults}
use dgou_framework.Upload.Validator.{
  ValidationConfig, FileHeader, ValidationError, validate, validate_header, ◌or_then◌,
  validate_extension, extension_refused,
}
use dgou_framework.Upload.Validator.Dots.{Dotted, Dotted-refused}
use dgou_framework.Upload.Manager.{
  StorageType, FileInfo, UploadConfig, UploadOption, refused, Fresh, validation_config, upload,
}
use dgou_framework.App.Instance.{
  register_default_middleware, register_health_check, register_metrics, register_pprof, new_app,
  StorageInstance,
}
use dgou_framework.Bootstrap.Settings.{upload_config}
use dgou_framework.Bootstrap.{Outside, AppResult, started, init, assemble, build_app}
use dgou_framework.Bootstrap.Origin.{init-Pooled}
use dgou_framework.Async.Pool.{Pool, start, new_pool}

-- A file name that the extension check refuses is refused.
later :
    (a b : Option ValidationError)
    → ((e : ValidationError) × (b ≡ some e))
    → (e : ValidationError) × (a or_then b ≡ some e)
later none b h = h
later (some x) b h = (x, refl)

sooner :
    (a b : Option ValidationError) (x : ValidationError)
    → a ≡ some x
    → (e : ValidationError) × (a or_then b ≡ some e)
sooner none b x h = cc
sooner (some y) b x h = (y, refl)

refused_name :
    (cfg : ValidationConfig) (h : FileHeader)
    → validate_extension cfg h.filename ≡ some extension_refused
    → (e : ValidationError) × (validate cfg (some h) ≡ some e)
unfolding validate validate_header
refused_name cfg h bad = later _ _ (later _ _ (sooner _ _ extension_refused bad))

extensions-Dotted : All Dotted default_config.upload.allowed_extensions
extensions-Dotted =
    subst (All Dotted) (sym default_extensions)
      ((_, refl), ((_, refl), ((_, refl), ((_, refl), ((_, refl), ((_, refl), tt))))))

extensions_some : default_config.upload.allowed_extensions ≢ []
extensions_some e = let h = sym default_extensions ∙ e in cc

pub assemble-manager :
    {File Conn : Type 0} (o : Outside File Conn) (cfg : Config) (pool : Pool)
    (storage : StorageInstance)
    → (assemble o cfg pool storage).app.upload_mgr ≡ some (storage, upload_config cfg)
unfolding assemble build_app register_default_middleware register_health_check register_metrics
    register_pprof new_app
assemble-manager o cfg pool storage = refl

uploads : (cfg : Config) → cfg.upload.allowed_extensions ≡ (upload_config cfg).allowed_exts
unfolding upload_config
uploads cfg = refl

some-path : {A : Type 0} (x y : A) → ◌≡◌ {A = Option A} (some x) (some y) → x ≡ y
some-path x y e = cc

inr-path : {A B : Type 0} (x y : B) → ◌≡◌ {A = A ⊎ B} (inr x) (inr y) → x ≡ y
inr-path x y e = cc

validate_extension-Dotted :
    (cfg : UploadConfig) (name : Str)
    → cfg.allowed_exts ≢ []
    → All Dotted cfg.allowed_exts
    → validate_extension (validation_config cfg) name ≡ some extension_refused
unfolding validation_config
validate_extension-Dotted cfg name some_entry dotted =
    Dotted-refused (validation_config cfg) name some_entry dotted

upload_stops :
    {Metadata : Type 0} (cfg : UploadConfig) (kind : StorageType)
    (put : FileInfo Metadata → Option (FileInfo Metadata)) (fresh : Fresh) (file : FileHeader)
    (opts : List (UploadOption Metadata)) (x : ValidationError)
    → validate (validation_config cfg) (some file) ≡ some x
    → upload kind put cfg fresh file opts ≡ inl (refused x)
unfolding upload
upload_stops cfg kind put fresh file opts x bad = rw (upload, bad) refl

upload-Dotted :
    {Metadata : Type 0} (cfg : UploadConfig) (kind : StorageType)
    (put : FileInfo Metadata → Option (FileInfo Metadata)) (fresh : Fresh) (file : FileHeader)
    (opts : List (UploadOption Metadata))
    → cfg.allowed_exts ≢ []
    → All Dotted cfg.allowed_exts
    → (e : ValidationError) × (upload kind put cfg fresh file opts ≡ inl (refused e))
upload-Dotted cfg kind put fresh file opts some_entry dotted =
    let (x, bad) =
      refused_name (validation_config cfg) file
        (validate_extension-Dotted cfg file.filename some_entry dotted) in
    (x, upload_stops cfg kind put fresh file opts x bad)

-- Where viper finds no file and no environment variables, Upload of the upload manager of an
-- application that Init has started refuses every file, whatever its name, size and type: all default
-- extensions begin with a dot, and the extension that is compared has none. UploadReader, which
-- checks the size only, is not meant.
pub default_upload_refused :
    {File Conn Metadata : Type 0} (o : Outside File Conn) (r : AppResult Conn)
    (storage : StorageInstance) (cfg : UploadConfig) (kind : StorageType)
    (put : FileInfo Metadata → Option (FileInfo Metadata)) (fresh : Fresh) (file : FileHeader)
    (opts : List (UploadOption Metadata))
    → IsBare o.viper
    → init o [] ≡ started r
    → r.app.upload_mgr ≡ some (storage, cfg)
    → (e : ValidationError) × (upload kind put cfg fresh file opts ≡ inl (refused e))
default_upload_refused o r storage cfg kind put fresh file opts bare e manager =
    let (loaded_cfg, loaded, pooled) = init-Pooled o r [] e in
    let (s, made, same) = pooled.made in
    let pool = (start o.heap (new_pool pooled.n loaded_cfg.async.max_queue_size)).0 in
    let default : default_config ≡ loaded_cfg =
      inr-path default_config loaded_cfg (sym (load_defaults o.viper bare) ∙ loaded) in
    let own = some-path _ _ (
      sym (assemble-manager o loaded_cfg pool s)
      ∙ ap (λ x. x.app.upload_mgr) (sym same)
      ∙ manager) in
    let exts : default_config.upload.allowed_extensions ≡ cfg.allowed_exts =
      ap (λ c. c.upload.allowed_extensions) default
      ∙ uploads loaded_cfg
      ∙ ap (λ p. p.1.allowed_exts) own in
    upload-Dotted cfg kind put fresh file opts (subst (λ l. l ≢ []) exts extensions_some)
      (subst (All Dotted) exts extensions-Dotted)
