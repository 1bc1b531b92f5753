-- ===== src/Auth/Manager.antt =====
-- pkg/auth/auth.go: the manager of access and refresh tokens. Signing and parsing (golang-jwt) are
-- arguments, with what their documentation promises in `JwtLaws`; the clock, the new UUID and what
-- strconv.ParseUint gives beside an error are arguments as well.
pub mod Tokens
use dgou_framework.Base.{
  ℕ, Bool, true, false, Option, none, some, List, [], ◌∷◌, ◌++◌, Str, codes, ◌≡◌, ◌⊎◌, inl, inr,
  if◌then◌else◌,
}
use dgou_framework.Base.Int.{ℤ, ◌+ℤ◌, ◌<ℤ◌}
use dgou_framework.Base.Strconv.{format_uint, parse_uint}
use dgou_framework.Cache.Memory.{Value, other, Result, ok, err}
use dgou_framework.Auth.TokenCache.{TokenCache}

-- `Config`, and the fields of `Manager` but its cache
pub record AuthConfig : Type 0 where
  pub secret : Str
  pub issuer : Str
  pub access_ttl : ℤ
  pub refresh_ttl : ℤ

-- `jwt.RegisteredClaims`, the fields that are set
pub record RegisteredClaims : Type 0 where
  pub issuer : Str
  pub subject : Str
  pub expires_at : ℤ
  pub issued_at : ℤ
  pub id : Str

pub record UserClaims : Type 0 where
  pub user_id : ℕ
  pub username : Str
  pub roles : List Str
  pub registered : RegisteredClaims

-- What the code uses of golang-jwt. `parse_access` accepts the HMAC methods only, and
-- `parse_refresh` whatever method the token names; both give nothing for an error, and otherwise
-- the token is valid.
pub record Jwt : Type 1 where
  pub Token : Type 0
  pub numeric_date : ℤ → ℤ
  pub sign_access : (secret : Str) → UserClaims → Option Token
  pub sign_refresh : (secret : Str) → RegisteredClaims → Option Token
  pub parse_access : (secret : Str) (now : ℤ) → Token → Option UserClaims
  pub parse_refresh : (secret : Str) (now : ℤ) → Token → Option RegisteredClaims

-- A signed token that has not expired is parsed with the same secret to its claims.
pub record JwtLaws (j : Jwt) : Type 0 where
  pub parse_access-sign :
      (secret : Str) (c : UserClaims) (t : j.Token) (now : ℤ)
      → j.sign_access secret c ≡ some t
      → now <ℤ c.registered.expires_at
      → j.parse_access secret now t ≡ some c
  pub parse_refresh-sign :
      (secret : Str) (c : RegisteredClaims) (t : j.Token) (now : ℤ)
      → j.sign_refresh secret c ≡ some t
      → now <ℤ c.expires_at
      → j.parse_refresh secret now t ≡ some c

pub data AuthError : Type 0 where
  sign_failed invalid_token revoked_or_expired : AuthError

abbrev pub refresh_key : Str → Str
refresh_key id = codes "refresh:" ++ id

abbrev is_empty : Str → Bool
is_empty [] = true
is_empty (c ∷ s) = false

-- the first result of strconv.ParseUint
abbrev value_or : ℕ → Option ℕ → ℕ
value_or d none = d
value_or d (some n) = n

module _ (j : Jwt) (c : TokenCache) (cfg : AuthConfig) where
  -- an answer: the new store, and the access and the refresh token or an error
  abbrev pub Tokens : Type 0
  Tokens = c.Store × (AuthError ⊎ (j.Token × j.Token))

  unfoldable pub access_claims : ℤ → ℕ → Str → List Str → UserClaims
  access_claims now uid username roles = record {
    user_id = uid;
    username = username;
    roles = roles;
    registered = record {
      issuer = cfg.issuer;
      subject = format_uint uid;
      expires_at = j.numeric_date (now +ℤ cfg.access_ttl);
      issued_at = j.numeric_date now;
      id = [];
    };
  }

  unfoldable pub refresh_claims : ℤ → ℕ → Str → RegisteredClaims
  refresh_claims now uid id = record {
    issuer = cfg.issuer;
    subject = format_uint uid;
    expires_at = j.numeric_date (now +ℤ cfg.refresh_ttl);
    issued_at = j.numeric_date now;
    id = id;
  }

  unfoldable pub generate : c.Store → ℤ → (id : Str) → ℕ → Str → List Str → Tokens
  unfolding access_claims refresh_claims
  generate s now id uid username roles =
      elim (j.sign_access cfg.secret (access_claims now uid username roles)) [
        | none ↦ (s, inl sign_failed)
        | some access ↦ elim (j.sign_refresh cfg.secret (refresh_claims now uid id)) [
          | none ↦ (s, inl sign_failed)
          | some refresh ↦ (
            c.set s now (refresh_key id) (other (format_uint uid)) cfg.refresh_ttl,
            inr (access, refresh),
          )
        ]
      ]

  unfoldable pub parse : ℤ → j.Token → Option UserClaims
  parse now t = j.parse_access cfg.secret now t

  -- The rest of `Refresh`, once the cache has answered.
  refresh_found : (Str → ℕ) → ℤ → Str → c.Store × Result Str → Tokens
  unfolding generate
  refresh_found fallback now id (s, err e) = (s, inl revoked_or_expired)
  refresh_found fallback now id (s, ok val) =
      if is_empty val
      then (s, inl revoked_or_expired)
      else generate s now id (value_or (fallback val) (parse_uint val)) [] []

  unfoldable pub refresh : (Str → ℕ) → c.Store → ℤ → (id : Str) → j.Token → Tokens
  unfolding refresh_found
  refresh fallback s now id t = elim (j.parse_refresh cfg.secret now t) [
    | none ↦ (s, inl invalid_token)
    | some claims ↦ refresh_found fallback now id (c.get s now (refresh_key claims.id))
  ]

  -- The error of the cache's Delete, which Revoke passes on, is left out.
  unfoldable pub revoke : c.Store → Str → c.Store
  revoke s token_id = c.delete_key s (refresh_key token_id)
