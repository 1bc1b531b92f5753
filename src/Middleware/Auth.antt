-- ===== src/Middleware/Auth.antt =====
-- pkg/middleware/auth.go: the bearer token of a request. The token's parser, `Parse` of the
-- authentication manager, is an argument: it gives the claims, or nothing for an error.
use dgou_framework.Base.{
  ◌≡◌, ◌↔◌, refl, true, Option, none, some, [], ◌∷◌, ◌++◌, arith, ◌==◌, if◌then◌else◌, Str, codes,
  str_eq, str_eq_iff, Bool-cases, Option-cases, inl, inr,
}

-- strings.SplitN(s, " ", 2): the parts round the first space, or the whole.
unfoldable pub split_space : Str → Str × Option Str
split_space [] = ([], none)
split_space (c ∷ s) =
    let (first, rest) = split_space s in if c == b' ' then ([], some s) else (c ∷ first, rest)

pub data Refusal : Type 0 where
  missing_header bad_format invalid_token : Refusal

-- A refused request is answered with 401; another one goes on with the claims in its context.
pub data Answer {ℓ} (Claims : Type ℓ) : Type ℓ where
  unauthorized : Refusal → Answer Claims
  next : Claims → Answer Claims

module _ {ℓ} {Claims : Type ℓ} (parse : Str → Option Claims) where
  abbrev check_token : Option Claims → Answer Claims
  check_token none = unauthorized invalid_token
  check_token (some claims) = next claims

  abbrev check_parts : Str × Option Str → Answer Claims
  check_parts (scheme, none) = unauthorized bad_format
  check_parts (scheme, some token) =
      if str_eq scheme (codes "Bearer") then check_token (parse token) else unauthorized bad_format

  unfoldable pub auth : Str → Answer Claims
  unfolding split_space
  auth [] = unauthorized missing_header
  auth (c ∷ s) = check_parts (split_space (c ∷ s))

abbrev pub bearer : Str → Str
bearer token = codes "Bearer " ++ token

split_bearer : (token : Str) → split_space (bearer token) ≡ (codes "Bearer", some token)
unfolding split_space
split_bearer token = refl

-- A split at a space gives back the string.
split_space_sound :
    (s first rest : Str) → split_space s ≡ (first, some rest) → s ≡ first ++ b' ' ∷ rest
unfolding split_space
split_space_sound [] first rest h = cc
split_space_sound (c ∷ s) first rest h = elim (Bool-cases (c == b' ')) [
  | inl space ↦ ground arith
  | inr letter ↦
      let tail : split_space s ≡ ((split_space s).0, some rest) = ground arith in
      let ih = split_space_sound s (split_space s).0 rest tail in ground arith
]

str_eq-bearer : (s : Str) → str_eq s (codes "Bearer") ≡ true → s ≡ codes "Bearer"
str_eq-bearer s h = (str_eq_iff s (codes "Bearer")).0 h

module _ {ℓ} {Claims : Type ℓ} (parse : Str → Option Claims) where
  check_parts_next :
      (p : Str × Option Str) (claims : Claims)
      → check_parts parse p ≡ next claims
      → (token : Str) × (p ≡ (codes "Bearer", some token)) × (parse token ≡ some claims)
  check_parts_next (scheme, none) claims h = cc
  check_parts_next (scheme, some token) claims h =
      elim (Bool-cases (str_eq scheme (codes "Bearer"))) [
        | inl same ↦ elim (Option-cases (parse token)) [
          | inl bad ↦ absurd (ground arith)
          | inr (found, good) ↦ (token, ground (arith, str_eq-bearer scheme same), ground arith)
        ]
        | inr other ↦ absurd (ground arith)
      ]

  auth_inversion :
      (header : Str) (claims : Claims)
      → auth parse header ≡ next claims
      → (token : Str) × (header ≡ bearer token) × (parse token ≡ some claims)
  unfolding auth
  auth_inversion [] claims h = cc
  auth_inversion (c ∷ s) claims h =
      let (token, parts, good) = check_parts_next (split_space (c ∷ s)) claims h in
      (token, split_space_sound (c ∷ s) (codes "Bearer") token parts, good)

  auth-bearer :
      (token : Str) (claims : Claims)
      → parse token ≡ some claims
      → auth parse (bearer token) ≡ next claims
  unfolding auth split_space str_eq
  auth-bearer token claims h = rw h

  -- A request goes on with claims exactly when its header is "Bearer", one space and a token from
  -- which the parser gets these claims.
  pub auth-next_iff :
      (header : Str) (claims : Claims)
      → (auth parse header ≡ next claims)
        ↔ ((token : Str) × (header ≡ bearer token) × (parse token ≡ some claims))
  auth-next_iff header claims =
      (auth_inversion header claims, λ (token, here, good). rw here (auth-bearer token claims good))
