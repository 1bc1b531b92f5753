-- ===== src/Tests/Support/Tokens.antt =====
-- Tokens that hold their claims and their secret in the open, over the in-memory cache.
use dgou_framework.Base.{
  ◌≡◌, refl, subst, Option, none, some, [], Str, codes, str_eq, str_eq_refl, arith, if◌then◌else◌,
  ◌&&◌, inl, inr,
}
use dgou_framework.Base.Int.{ℤ, pos, ltb_ℤ, ◌<ℤ◌, ◌+ℤ◌, int_laws}
use dgou_framework.Base.Strconv.{format_uint}
use dgou_framework.Cache.Memory.{MemoryCache, new_memory, get, set, other}
use dgou_framework.Auth.TokenCache.{memory_token_cache}
use dgou_framework.Auth.Manager.{
  AuthConfig, RegisteredClaims, UserClaims, Jwt, JwtLaws, access_claims, refresh_claims, generate,
  refresh, revoke, refresh_key, revoked_or_expired,
}
use dgou_framework.Auth.Manager.Tokens.{generate-refresh, revoke-refresh}

data OpenToken : Type 0 where
  access_token : Str → UserClaims → OpenToken
  refresh_token : Str → RegisteredClaims → OpenToken

abbrev parse_access : Str → ℤ → OpenToken → Option UserClaims
parse_access secret now (access_token s c) =
    if str_eq s secret && ltb_ℤ now c.registered.expires_at then some c else none
parse_access secret now (refresh_token s c) = none

abbrev parse_refresh : Str → ℤ → OpenToken → Option RegisteredClaims
parse_refresh secret now (refresh_token s c) =
    if str_eq s secret && ltb_ℤ now c.expires_at then some c else none
parse_refresh secret now (access_token s c) = none

abbrev open_jwt : Jwt
open_jwt = record {
  Token = OpenToken;
  numeric_date = λ t. t;
  sign_access = λ s c. some (access_token s c);
  sign_refresh = λ s c. some (refresh_token s c);
  parse_access = parse_access;
  parse_refresh = parse_refresh;
}

signed_access :
    (s : Str) (c : UserClaims) (t : OpenToken) (now : ℤ)
    → Path (Option OpenToken) (some (access_token s c)) (some t)
    → now <ℤ c.registered.expires_at
    → parse_access s now t ≡ some c
signed_access s c t now h live =
    let same : access_token s c ≡ t = cc in
    subst (λ t. parse_access s now t ≡ some c) same (ground (arith, str_eq_refl s))

signed_refresh :
    (s : Str) (c : RegisteredClaims) (t : OpenToken) (now : ℤ)
    → Path (Option OpenToken) (some (refresh_token s c)) (some t)
    → now <ℤ c.expires_at
    → parse_refresh s now t ≡ some c
signed_refresh s c t now h live =
    let same : refresh_token s c ≡ t = cc in
    subst (λ t. parse_refresh s now t ≡ some c) same (ground (arith, str_eq_refl s))

open_jwt-JwtLaws : JwtLaws open_jwt
open_jwt-JwtLaws = record { parse_access-sign = signed_access; parse_refresh-sign = signed_refresh }

abbrev config : AuthConfig
config = record {
  secret = codes "key";
  issuer = codes "me";
  access_ttl = pos 10;
  refresh_ttl = pos 100;
}

abbrev cache : MemoryCache
cache = new_memory (pos 1) (pos 60)

abbrev after_login : MemoryCache
after_login = set cache (pos 5) (refresh_key (codes "id1")) (other (format_uint 42)) (pos 100)

abbrev claims : RegisteredClaims
claims = refresh_claims open_jwt memory_token_cache config (pos 5) 42 (codes "id1")

abbrev access : OpenToken
access =
    access_token (codes "key")
      (access_claims open_jwt memory_token_cache config (pos 5) 42 (codes "ann") [])

abbrev token : OpenToken
token = refresh_token (codes "key") claims

login :
    generate open_jwt memory_token_cache config cache (pos 5) (codes "id1") 42 (codes "ann") []
    ≡ (after_login, inr (access, token))
unfolding generate
login = refl

generate-refresh_example :
    refresh open_jwt memory_token_cache config (λ s. 0) after_login (pos 50) (codes "id2") token
    ≡ generate open_jwt memory_token_cache config
        (get after_login (pos 50) (refresh_key (codes "id1"))).0
        (pos 50)
        (codes "id2")
        42
        []
        []
generate-refresh_example =
    generate-refresh open_jwt memory_token_cache config open_jwt-JwtLaws (λ s. 0) cache (pos 5)
      (pos 50) (codes "id1") (codes "id2") 42 (codes "ann") [] after_login access token login
      (omega arith) (omega arith) (omega int_laws) (omega int_laws)

token_parsed : parse_refresh (codes "key") (pos 50) token ≡ some claims
unfolding refresh_claims ◌+ℤ◌ str_eq
token_parsed = refl

revoke-refresh_example :
    (refresh open_jwt memory_token_cache config
      (λ s. 0)
      (revoke open_jwt memory_token_cache config after_login claims.id)
      (pos 50)
      (codes "id2")
      token).1
    ≡ inl revoked_or_expired
revoke-refresh_example =
    revoke-refresh open_jwt memory_token_cache config (λ s. 0) after_login (pos 50) (codes "id2")
      token claims token_parsed
