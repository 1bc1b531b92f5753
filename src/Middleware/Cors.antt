-- ===== src/Middleware/Cors.antt =====
-- pkg/middleware/cors.go: which origins get the header that lets a browser read the answer.
use dgou_framework.Base.{
  ◌≡◌, ◌≢◌, ◌↔◌, ◌⊎◌, inl, inr, refl, Bool, true, false, Option, none, some, List, [], ◌∷◌, arith,
  if◌then◌else◌, GoMap, empty_map, insert, Str, codes, str_eq, str_eq_iff, str_discrete, Bool-cases,
  Option-cases, sym, ◌∙◌, subst, insert_ne,
}

-- What the loop over the allowed origins leaves: the flag, and the set as a map.
pub record Origins : Type 0 where
  pub allow_all : Bool
  pub origin_map : GoMap Str (Unit {0})

abbrev pub star : Str
star = codes "*"

-- The loop; `break` at "*" leaves the rest unread.
unfoldable pub collect : List Str → Origins → Origins
collect [] o = o
collect (x ∷ xs) o =
    let rest = collect xs (record o { origin_map = insert str_discrete x tt o.origin_map }) in
    if str_eq x star then record o { allow_all = true } else rest

unfoldable pub allowed_origins : List Str → Origins
unfolding collect
allowed_origins xs = collect xs (record { allow_all = false; origin_map = empty_map })

pub record Headers : Type 0 where
  pub allow_origin : Option Str
  pub others : Bool  -- the four further Access-Control headers

-- The headers that the handler sets for an `Origin` header, empty when there is none.
unfoldable pub cors_headers : Origins → Str → Headers
cors_headers o [] = record { allow_origin = none; others = false }
cors_headers o (c ∷ s) = record {
  allow_origin =
      if o.allow_all
      then some (c ∷ s)
      else elim (o.origin_map (c ∷ s)) [ none ↦ none | some u ↦ some (c ∷ s) ];
  others = true;
}

-- What becomes of the request: OPTIONS is answered with 204 at once.
pub data Disposition : Type 0 where
  no_content go_on : Disposition

unfoldable pub cors : List Str → Str → Str → Headers × Disposition
unfolding allowed_origins cors_headers
cors allowed origin method = (
  cors_headers (allowed_origins allowed) origin,
  if str_eq method (codes "OPTIONS") then no_content else go_on,
)

-- The list holds a string.
abbrev pub Listed : Str → List Str → Type 0
Listed s [] = ⊥
Listed s (x ∷ xs) = (x ≡ s) ⊎ Listed s xs

abbrev Granted : Origins → Str → Type 0
Granted o s = (o.allow_all ≡ true) ⊎ (o.origin_map s ≢ none)

abbrev add_origin : Str → Origins → Origins
add_origin x o = record o { origin_map = insert str_discrete x tt o.origin_map }

collect-star :
    (x : Str) (xs : List Str) (o : Origins)
    → x ≡ star
    → collect (x ∷ xs) o ≡ record o { allow_all = true }
unfolding collect
collect-star x xs o h = ground (arith, str_eq_iff x star)

collect_other :
    (x : Str) (xs : List Str) (o : Origins)
    → x ≢ star
    → collect (x ∷ xs) o ≡ collect xs (add_origin x o)
unfolding collect
collect_other x xs o h = ground (arith, str_eq_iff x star)

Granted-add_origin : (x s : Str) (o : Origins) → Granted (add_origin x o) s → Granted o s ⊎ (x ≡ s)
Granted-add_origin x s o (inl all) = inl (inl all)
Granted-add_origin x s o (inr held) = elim (str_discrete s x) [
  | yes p ↦ inr (sym p)
  | no n ↦ inl (inr (λ e. held (insert_ne str_discrete x tt o.origin_map s n ∙ e)))
]

add_origin-Granted : (x s : Str) (o : Origins) → Granted o s ⊎ (x ≡ s) → Granted (add_origin x o) s
add_origin-Granted x s o (inl (inl all)) = inl all
add_origin-Granted x s o (inl (inr held)) = inr (λ e. held (elim (str_discrete s x) [
  | yes p ↦ ground arith
  | no n ↦ sym (insert_ne str_discrete x tt o.origin_map s n) ∙ e
]))
add_origin-Granted x s o (inr same) = inr (λ e. ground arith)

-- The flag and the set after the loop stand for what the list holds.
collect_sound :
    (xs : List Str) (o : Origins) (s : Str)
    → Granted (collect xs o) s
    → Granted o s ⊎ (Listed star xs ⊎ Listed s xs)
unfolding collect
collect_sound [] o s g = inl g
collect_sound (x ∷ xs) o s g = elim (str_discrete x star) [
  | yes all ↦ inr (inl (inl all))
  | no one ↦
      elim (collect_sound xs (add_origin x o) s
        (subst (λ r. Granted r s) (collect_other x xs o one) g)) [
          | inl now ↦ elim (Granted-add_origin x s o now) [
            | inl before ↦ inl before
            | inr here ↦ inr (inr (inl here))
          ]
          | inr (inl later) ↦ inr (inl (inr later))
          | inr (inr later) ↦ inr (inr (inr later))
        ]
]

collect_complete :
    (xs : List Str) (o : Origins) (s : Str)
    → Granted o s ⊎ (Listed star xs ⊎ Listed s xs)
    → Granted (collect xs o) s
unfolding collect
collect_complete [] o s (inl g) = g
collect_complete [] o s (inr (inl h)) = elim h [ ]
collect_complete [] o s (inr (inr h)) = elim h [ ]
collect_complete (x ∷ xs) o s g = elim (str_discrete x star) [
  | yes all ↦ subst (λ r. Granted r s) (sym (collect-star x xs o all)) (inl refl)
  | no one ↦
      subst (λ r. Granted r s) (sym (collect_other x xs o one))
        (collect_complete xs (add_origin x o) s (elim g [
          | inl before ↦ inl (add_origin-Granted x s o (inl before))
          | inr (inl (inl here)) ↦ absurd (one here)
          | inr (inl (inr later)) ↦ inr (inl later)
          | inr (inr (inl here)) ↦ inl (add_origin-Granted x s o (inr here))
          | inr (inr (inr later)) ↦ inr (inr later)
        ]))
]

nothing_Granted : (s : Str) → ¬ Granted (record { allow_all = false; origin_map = empty_map }) s
nothing_Granted s (inl h) = cc
nothing_Granted s (inr h) = h refl

-- The flag or the set answers for an origin exactly when the list holds "*" or the origin.
allowed_iff :
    (allowed : List Str) (s : Str)
    → Granted (allowed_origins allowed) s ↔ (Listed star allowed ⊎ Listed s allowed)
unfolding allowed_origins
allowed_iff allowed s = (
  λ g. elim (collect_sound allowed _ s g) [ inl h ↦ absurd (nothing_Granted s h) | inr h ↦ h ],
  λ h. collect_complete allowed _ s (inr h),
)

Granted-iff :
    (o : Origins) (s : Str) → s ≢ [] → ((cors_headers o s).allow_origin ≡ some s) ↔ Granted o s
unfolding cors_headers
Granted-iff o [] n = absurd (n refl)
Granted-iff o (c ∷ s) n = (
  λ h. elim (Bool-cases o.allow_all) [
    | inl all ↦ inl all
    | inr some_only ↦ inr (λ e. ground arith)
  ],
  λ g. elim g [
    | inl all ↦ ground arith
    | inr held ↦ elim (Option-cases (o.origin_map (c ∷ s))) [
      | inl e ↦ absurd (held e)
      | inr (u, e) ↦ ground (arith, e)
    ]
  ],
)

-- A request with an origin is granted that origin exactly when the list of allowed origins holds
-- "*" or the origin, whatever the method is.
pub cors-grants :
    (allowed : List Str) (origin method : Str)
    → origin ≢ []
    → ((cors allowed origin method).0.allow_origin ≡ some origin)
      ↔ (Listed star allowed ⊎ Listed origin allowed)
unfolding cors
cors-grants allowed origin method n =
    let (a, b) = Granted-iff (allowed_origins allowed) origin n in
    let (c, d) = allowed_iff allowed origin in (λ h. c (a h), λ h. b (d h))

-- With an empty list no origin is granted, and the request still goes on unless it is an OPTIONS
-- request.
pub cors_empty :
    (origin method : Str)
    → ((cors [] origin method).0.allow_origin ≡ none)
      × (((cors [] origin method).1 ≡ no_content) ↔ (method ≡ codes "OPTIONS"))
unfolding cors
cors_empty [] method = (refl, ground (arith, str_eq_iff method (codes "OPTIONS")))
cors_empty (c ∷ s) method = (refl, ground (arith, str_eq_iff method (codes "OPTIONS")))
