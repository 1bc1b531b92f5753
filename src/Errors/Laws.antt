-- ===== src/Errors/Laws.antt =====
-- Statuses, wrapping and comparison of errors.
use dgou_framework.Base.{
  ℕ, ◌≤◌, ◌<◌, ◌≡◌, ◌↔◌, ◌⊎◌, inl, inr, refl, true, Option, none, some, List, ◌++◌, arith, Str,
  codes, ℕ_discrete,
}
use dgou_framework.Errors.{
  GoError, custom, foreign, caused_by, get_http_status_code, wrap, unwrap, is_code, error_text,
  cause_text, code_validation_failed, code_resource_not_found, code_unauthorized, code_forbidden,
  code_too_many_requests,
}

-- The five codes that blame the client.
abbrev pub IsClientCode : ℕ → Type 0
IsClientCode c =
    (c ≡ code_validation_failed)
    ⊎ (c ≡ code_resource_not_found)
    ⊎ (c ≡ code_unauthorized)
    ⊎ (c ≡ code_forbidden)
    ⊎ (c ≡ code_too_many_requests)

client_code : (c : ℕ) → Dec (IsClientCode c)
client_code c = elim (ℕ_discrete c code_validation_failed) [
  | yes p ↦ yes (ground arith)
  | no p ↦ elim (ℕ_discrete c code_resource_not_found) [
    | yes q ↦ yes (ground arith)
    | no q ↦ elim (ℕ_discrete c code_unauthorized) [
      | yes r ↦ yes (ground arith)
      | no r ↦ elim (ℕ_discrete c code_forbidden) [
        | yes s ↦ yes (ground arith)
        | no s ↦ elim (ℕ_discrete c code_too_many_requests) [
          | yes t ↦ yes (ground arith)
          | no t ↦ no (λ h. ground arith)
        ]
      ]
    ]
  ]
]

-- A code has a status of the 4xx class exactly when it is one of the five client codes, and one
-- of the 5xx class otherwise.
pub status_class :
    (code : ℕ)
    → let status = get_http_status_code code in
      (IsClientCode code × (400 ≤ status) × (status < 500))
      ⊎ ((¬ IsClientCode code) × (500 ≤ status) × (status < 600))
unfolding get_http_status_code
status_class code = elim (client_code code) [
  | yes c ↦ inl (c, ground arith, ground arith)
  | no n ↦ inr (n, ground arith, ground arith)
]

-- Wrapping twice is wrapping once: the inner code and message stay.
pub wrap-wrap :
    (e : Option GoError) (c c' : ℕ) (m m' : Str) (s s' : List Str)
    → wrap (wrap e c m s) c' m' s' ≡ wrap e c m s
unfolding wrap
wrap-wrap none c c' m m' s s' = refl
wrap-wrap (some (custom _ _ _ _ _ _ _)) c c' m m' s s' = refl
wrap-wrap (some (foreign text)) c c' m m' s s' = refl

-- A foreign error that is wrapped is the cause of the new error, is recognised by the code given
-- and by no other, and its text follows the message and a colon.
pub wrap_foreign :
    (text : Str) (c target : ℕ) (m : Str) (s : List Str)
    → (e : GoError) × (wrap (some (foreign text)) c m s ≡ some e)
      × (unwrap e ≡ caused_by (foreign text))
      × ((is_code e target ≡ true) ↔ (c ≡ target))
      × (error_text e ≡ m ++ (codes ": " ++ text))
unfolding wrap unwrap is_code error_text cause_text
wrap_foreign text c target m s = (_, refl, refl, ground arith, refl)
