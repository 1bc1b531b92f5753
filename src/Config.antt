-- ===== src/Config.antt =====
-- pkg/config/config.go: `validateConfig`. The structures are in Types, the settings that make them in
-- Decode and Defaults, and `Load` in Load.
pub mod Types
pub mod Decode
pub mod Defaults
pub mod Load
use dgou_framework.Base.{
  ◌≤◌, ◌≡◌, ◌↔◌, ◌⊎◌, Bool, true, false, Option, none, some, [], ◌∷◌, arith, ltb, if◌then◌else◌,
  ◌||◌, ◌&&◌, not, Str, length,
}
use dgou_framework.Base.Int.{ℤ, pos, ltb_ℤ, leb_ℤ, ◌≤ℤ◌}
use dgou_framework.Config.Types.{Config}

pub data ConfigError : Type 0 where
  invalid_port short_secret : ConfigError

abbrev is_empty : Str → Bool
is_empty [] = true
is_empty (c ∷ s) = false

unfoldable pub validate_config : Config → Option ConfigError
validate_config cfg =
    if leb_ℤ cfg.server.port (pos 0) || ltb_ℤ (pos 65535) cfg.server.port
    then some invalid_port
    else if not (is_empty cfg.jwt.secret) && ltb (length cfg.jwt.secret) 32
    then some short_secret
    else none

-- A configuration passes exactly when the port is in 1..65535 and the secret is empty or has at
-- least 32 bytes.
pub validate_config_iff :
    (cfg : Config)
    → (validate_config cfg ≡ none) ↔ (
        (pos 1 ≤ℤ cfg.server.port)
        × (cfg.server.port ≤ℤ pos 65535)
        × ((cfg.jwt.secret ≡ []) ⊎ (32 ≤ length cfg.jwt.secret)))
unfolding validate_config
validate_config_iff cfg = (ground arith, ground arith)
