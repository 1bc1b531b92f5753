-- ===== src/Auth/Manager/Tokens.antt =====
-- What the tokens of the manager are good for: parsing, refreshing and revoking.
use dgou_framework.Base.{
  ℕ, ◌<◌, ◌^◌, ◌≡◌, ◌∙◌, refl, false, some, List, [], Str, inl, inr, arith, ap,
}
use dgou_framework.Base.Int.{ℤ, pos, ◌+ℤ◌, ◌<ℤ◌, ◌≤ℤ◌}
use dgou_framework.Base.Strconv.{format_uint, format_uint_head, parse_uint-format_uint}
use dgou_framework.Cache.Memory.{other, Result, ok, err, CacheError}
use dgou_framework.Auth.TokenCache.{TokenCache}
use dgou_framework.Auth.Manager.{
  AuthConfig, RegisteredClaims, Jwt, JwtLaws, revoked_or_expired, refresh_key, is_empty,
  access_claims, refresh_claims, generate, parse, refresh_found, refresh, revoke,
}

module _ (j : Jwt) (c : TokenCache) (cfg : AuthConfig) where
  -- Where `generate` gives tokens, both were signed, and the store has the refresh token's entry.
  generate_inv :
      (s : c.Store) (now : ℤ) (id : Str) (uid : ℕ) (username : Str) (roles : List Str)
      (s' : c.Store) (access token : j.Token)
      → generate j c cfg s now id uid username roles ≡ (s', inr (access, token))
      → (j.sign_access cfg.secret (access_claims j c cfg now uid username roles) ≡ some access)
        × (j.sign_refresh cfg.secret (refresh_claims j c cfg now uid id) ≡ some token)
        × (s' ≡ c.set s now (refresh_key id) (other (format_uint uid)) cfg.refresh_ttl)
  unfolding generate
  generate_inv s now id uid username roles s' access token h = ground arith

  -- The access token of a `Generate` is parsed, until it expires, to the user that it was made for.
  pub generate-parse :
      (laws : JwtLaws j) (s : c.Store) (t now : ℤ) (id : Str) (uid : ℕ) (username : Str)
      (roles : List Str) (s' : c.Store) (access token : j.Token)
      → generate j c cfg s t id uid username roles ≡ (s', inr (access, token))
      → now <ℤ j.numeric_date (t +ℤ cfg.access_ttl)
      → parse j c cfg now access ≡ some (access_claims j c cfg t uid username roles)
  unfolding parse access_claims
  generate-parse laws s t now id uid username roles s' access token h live =
      let (a, b, e) = generate_inv s t id uid username roles s' access token h in
      laws.parse_access-sign cfg.secret _ access now a live

  -- The key of a refresh token that was just made is in the store with the user's number.
  refresh_parsed :
      (fallback : Str → ℕ) (s : c.Store) (now : ℤ) (id : Str) (token : j.Token)
      (claims : RegisteredClaims)
      → j.parse_refresh cfg.secret now token ≡ some claims
      → refresh j c cfg fallback s now id token
        ≡ refresh_found j c cfg fallback now id (c.get s now (refresh_key claims.id))
  unfolding refresh
  refresh_parsed fallback s now id token claims h = rw (h, refresh) refl

  found_ok :
      (fallback : Str → ℕ) (now : ℤ) (id : Str) (uid : ℕ) (r : c.Store × Result Str)
      → uid < 2 ^ 64
      → r.1 ≡ ok (format_uint uid)
      → refresh_found j c cfg fallback now id r ≡ generate j c cfg r.0 now id uid [] []
  unfolding refresh_found
  found_ok fallback now id uid (s, answer) fits h =
      let (d, ds, e, _, _) = format_uint_head uid in
      let some_byte : is_empty (format_uint uid) ≡ false = rw e refl in
      rw h (rw (some_byte, parse_uint-format_uint uid fits) refl)

  found_err :
      (fallback : Str → ℕ) (now : ℤ) (id : Str) (e : CacheError) (r : c.Store × Result Str)
      → r.1 ≡ err e
      → (refresh_found j c cfg fallback now id r).1 ≡ inl revoked_or_expired
  unfolding refresh_found
  found_err fallback now id e (s, answer) h = rw (h, refresh_found) refl

  -- With a positive refresh time and a user number of 64 bits, and the laws of the token library:
  -- until its entry in the cache and the token itself expire, a refresh token gives new tokens
  -- for the user that it was made for, with no name and no roles.
  pub generate-refresh :
      (laws : JwtLaws j) (fallback : Str → ℕ) (s : c.Store) (t now : ℤ) (id id' : Str) (uid : ℕ)
      (username : Str) (roles : List Str) (s' : c.Store) (access token : j.Token)
      → generate j c cfg s t id uid username roles ≡ (s', inr (access, token))
      → uid < 2 ^ 64
      → pos 0 <ℤ cfg.refresh_ttl
      → now ≤ℤ t +ℤ cfg.refresh_ttl
      → now <ℤ j.numeric_date (t +ℤ cfg.refresh_ttl)
      → refresh j c cfg fallback s' now id' token
        ≡ generate j c cfg (c.get s' now (refresh_key id)).0 now id' uid [] []
  unfolding refresh_claims
  generate-refresh laws fallback s t now id id' uid username roles s' access token h fits p kept
        live =
      let (_, signed, e) = generate_inv s t id uid username roles s' access token h in
      let parsed = laws.parse_refresh-sign cfg.secret _ token now signed live in
      refresh_parsed fallback s' now id' token _ parsed
      ∙ found_ok fallback now id' uid _ fits
          (ap (λ s. (c.get s now (refresh_key id)).1) e ∙ c.live_key s t now _ _ _ p kept)

  -- After `Revoke` of a token's identifier, a token with that identifier is refused at any time.
  pub revoke-refresh :
      (fallback : Str → ℕ) (s : c.Store) (now : ℤ) (id : Str) (token : j.Token)
      (claims : RegisteredClaims)
      → j.parse_refresh cfg.secret now token ≡ some claims
      → (refresh j c cfg fallback (revoke j c cfg s claims.id) now id token).1
        ≡ inl revoked_or_expired
  unfolding revoke
  revoke-refresh fallback s now id token claims h =
      let (e, gone) = c.deleted_key s now (refresh_key claims.id) in
      ap (λ r. r.1) (refresh_parsed fallback _ now id token claims h)
      ∙ found_err fallback now id e _ gone
