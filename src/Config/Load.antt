-- ===== src/Config/Load.antt =====
-- `Load` of pkg/config/config.go. Package viper is an argument: what reading the file gives, and what
-- the settings of file, environment and defaults are decoded to.
use dgou_framework.Base.{
  ◌≤◌, ◌≡◌, ◌↔◌, ◌⊎◌, inl, inr, refl, sym, ◌∙◌, Bool, true, false, Option, none, some, List, [],
  ◌∷◌, ◌++◌, arith, Str, codes, length, ap, subst,
}
use dgou_framework.Base.Int.{pos, ◌≤ℤ◌}
use dgou_framework.Config.{ConfigError, validate_config, validate_config_iff}
use dgou_framework.Config.Types.{Config}
use dgou_framework.Config.Decode.{Setting, decode}
use dgou_framework.Config.Defaults.{
  defaults, find_setting, default_config, default_port, default_secret,
}

-- what `Load` tells viper
pub record Viper : Type 0 where
  pub defaults : List (Str × Setting)
  pub config_file : Option Str
  pub config_name : Str
  pub config_type : Str
  pub config_paths : List Str
  pub automatic_env : Bool
  pub env_prefix : Str
  pub env_replacer : Option (Str × Str)

-- `viper.New`
abbrev new_viper : Viper
new_viper = record {
  defaults = [];
  config_file = none;
  config_name = codes "config";
  config_type = [];
  config_paths = [];
  automatic_env = false;
  env_prefix = [];
  env_replacer = none;
}

unfoldable set_defaults : Viper → Viper
set_defaults v = record v { defaults = defaults }

abbrev search_paths : Viper → Viper
search_paths v = record v {
  config_name = codes "config";
  config_type = codes "yaml";
  config_paths = v.config_paths ++ (codes "./config" ∷ codes "." ∷ []);
}

-- The first path, where there is one that is not empty, is the file.
abbrev choose_file : List Str → Viper → Viper
choose_file ((c ∷ path) ∷ paths) v = record v { config_file = some (c ∷ path) }
choose_file _ v = search_paths v

abbrev use_env : Viper → Viper
use_env v = record v {
  automatic_env = true;
  env_prefix = codes "APP";
  env_replacer = some (codes ".", codes "_");
}

unfoldable pub prepare : List Str → Viper
unfolding set_defaults
prepare config_path = use_env (choose_file config_path (set_defaults new_viper))

pub data ReadOutcome (File : Type 0) : Type 0 where
  read_ok : File → ReadOutcome File
  config_file_not_found read_failed : ReadOutcome File

pub record ViperLib (File : Type 0) : Type 0 where
  pub read_in_config : Viper → ReadOutcome File
  pub unmarshal : Viper → Option File → Option Config

-- Viper with no file and no environment variables, as it documents itself: the search finds nothing,
-- and with the defaults of `setDefaults`, each field is decoded from its default.
abbrev pub IsBare : {File : Type 0} → ViperLib File → Type 0
IsBare lib =
    ((v : Viper) → v.config_file ≡ none → lib.read_in_config v ≡ config_file_not_found)
    × ((v : Viper)
        → v.defaults ≡ defaults
        → lib.unmarshal v none ≡ some (decode (find_setting v.defaults)))

pub data LoadError : Type 0 where
  read_error unmarshal_error : LoadError
  invalid : ConfigError → LoadError

-- the file's content, where reading does not fail
abbrev pub content : {File : Type 0} → ReadOutcome File → Option (Option File)
content (read_ok file) = some (some file)
content config_file_not_found = some none
content read_failed = none

abbrev pub validated : Config → Option ConfigError → LoadError ⊎ Config
validated cfg none = inr cfg
validated cfg (some e) = inl (invalid e)

abbrev pub decoded : Option Config → LoadError ⊎ Config
decoded none = inl unmarshal_error
decoded (some cfg) = validated cfg (validate_config cfg)

abbrev pub finish_load :
    {File : Type 0} → ViperLib File → Viper → Option (Option File) → LoadError ⊎ Config
finish_load lib v none = inl read_error
finish_load lib v (some file) = decoded (lib.unmarshal v file)

unfoldable pub load : {File : Type 0} → ViperLib File → List Str → LoadError ⊎ Config
unfolding prepare
load lib config_path =
    let v = prepare config_path in finish_load lib v (content (lib.read_in_config v))

-- The range of the port and the length of the secret.
abbrev pub IsUsable : Config → Type 0
IsUsable cfg =
    (pos 1 ≤ℤ cfg.server.port)
    × (cfg.server.port ≤ℤ pos 65535)
    × ((cfg.jwt.secret ≡ []) ⊎ (32 ≤ length cfg.jwt.secret))

decoded_by :
    (c cfg : Config) (o : Option ConfigError)
    → validate_config c ≡ o
    → (validated c o ≡ inr cfg) ↔ ((◌≡◌ {A = Option Config} (some c) (some cfg)) × IsUsable cfg)
decoded_by c cfg none fine = (
  λ e.
      let same : c ≡ cfg = cc in
      (ap some same, subst IsUsable same ((validate_config_iff c).0 fine)),
  λ (p, u). let same : c ≡ cfg = cc in ap inr same,
)
decoded_by c cfg (some x) bad = (
  λ e. cc,
  λ (p, u).
      let same : c ≡ cfg = cc in
      let fine = (validate_config_iff c).1 (subst IsUsable (sym same) u) in cc (fine, bad),
)

decoded_iff :
    (o : Option Config) (cfg : Config) → (decoded o ≡ inr cfg) ↔ ((o ≡ some cfg) × IsUsable cfg)
decoded_iff none cfg = (λ e. cc, λ (p, u). cc)
decoded_iff (some c) cfg = decoded_by c cfg (validate_config c) refl

finish_load_iff :
    {File : Type 0} (lib : ViperLib File) (v : Viper) (o : Option (Option File)) (cfg : Config)
    → (finish_load lib v o ≡ inr cfg)
      ↔ ((file : Option File) × (o ≡ some file) × (lib.unmarshal v file ≡ some cfg) × IsUsable cfg)
finish_load_iff lib v none cfg = (λ e. cc, λ (file, p, q, u). cc)
finish_load_iff lib v (some file) cfg = (
  λ e.
      let (made, usable) = (decoded_iff (lib.unmarshal v file) cfg).0 e in
      (file, refl, made, usable),
  λ (file', p, q, u).
      let same : file ≡ file' = cc in
      (decoded_iff (lib.unmarshal v file) cfg).1 (ap (lib.unmarshal v) same ∙ q, u),
)

-- Where the file comes from: the first path where it is not empty, or else the search for
-- config.yaml in ./config and in the working directory.
abbrev pub FileOf : List Str → Viper → Type 0
FileOf ((c ∷ path) ∷ paths) v = v.config_file ≡ some (c ∷ path)
FileOf _ v =
    (v.config_file ≡ none)
    × (v.config_name ≡ codes "config")
    × (v.config_type ≡ codes "yaml")
    × (v.config_paths ≡ codes "./config" ∷ codes "." ∷ [])

-- What viper is told: the defaults, the environment variables that begin with APP_, with `_` for
-- each `.`, and the file.
abbrev pub IsPrepared : List Str → Viper → Type 0
IsPrepared config_path v =
    (v.defaults ≡ defaults)
    × (v.automatic_env ≡ true)
    × (v.env_prefix ≡ codes "APP")
    × (v.env_replacer ≡ some (codes ".", codes "_"))
    × FileOf config_path v

prepare-IsPrepared : (config_path : List Str) → IsPrepared config_path (prepare config_path)
unfolding prepare set_defaults
prepare-IsPrepared [] = (refl, refl, refl, refl, (refl, refl, refl, refl))
prepare-IsPrepared ([] ∷ paths) = (refl, refl, refl, refl, (refl, refl, refl, refl))
prepare-IsPrepared ((c ∷ path) ∷ paths) = (refl, refl, refl, refl, refl)

load_iff_lem :
    {File : Type 0} (lib : ViperLib File) (config_path : List Str) (cfg : Config)
    → let v = prepare config_path in
      (load lib config_path ≡ inr cfg) ↔ (
        (file : Option File) × (content (lib.read_in_config v) ≡ some file)
        × (lib.unmarshal v file ≡ some cfg)
        × IsUsable cfg)
unfolding load
load_iff_lem lib config_path cfg =
    let v = prepare config_path in finish_load_iff lib v (content (lib.read_in_config v)) cfg

-- With viper told the defaults, the environment variables of the prefix APP, and the first path, or
-- for no path or an empty one the search for config.yaml in ./config and in the working directory,
-- Load gives a configuration exactly when the file can be read or none is found, the settings
-- decode to the configuration, its port is in 1..65535, and its secret is empty or has at least 32
-- bytes.
pub load_iff :
    {File : Type 0} (lib : ViperLib File) (config_path : List Str) (cfg : Config)
    → (v : Viper) × IsPrepared config_path v
      × ((load lib config_path ≡ inr cfg) ↔ (
          (file : Option File) × (content (lib.read_in_config v) ≡ some file)
          × (lib.unmarshal v file ≡ some cfg)
          × IsUsable cfg))
load_iff lib config_path cfg =
    (prepare config_path, prepare-IsPrepared config_path, load_iff_lem lib config_path cfg)

default_config-IsUsable : IsUsable default_config
default_config-IsUsable = rw (default_port, default_secret) (omega arith, omega arith, inl refl)

-- With no file and no environment variables, Load gives the defaults.
pub load_defaults :
    {File : Type 0} (lib : ViperLib File) → IsBare lib → load lib [] ≡ inr default_config
unfolding set_defaults default_config prepare
load_defaults lib (missing, bare) =
    (load_iff_lem lib [] default_config).1 (
      none,
      ap content (missing (prepare []) refl),
      bare (prepare []) refl,
      default_config-IsUsable,
    )
