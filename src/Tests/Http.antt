-- ===== src/Tests/Http.antt =====
-- The middleware at concrete requests.
use dgou_framework.Base.{
  ◌*◌, ℕ, ◌+◌, ◌≤◌, ◌<◌, ◌≡◌, ◌↔◌, ◌⊎◌, refl, Option, none, some, [], ◌∷◌, Str, codes, length,
  arith, All,
}
use dgou_framework.Base.Int.{FitsInt64, pos}
use dgou_framework.Middleware.RateLimiter.{RateLimiter, rate_limiter, handle, cleanup, serve}
use dgou_framework.Middleware.RateLimiter.Bounds.{
  rate_limiter-IsValid, window-bound, window_served, handle-IsValid,
}
use dgou_framework.Middleware.RateLimiter.Cleanup.{handle-cleanup}
use dgou_framework.Middleware.Cors.{cors, Listed, star, cors-grants, cors_empty, no_content}
use dgou_framework.Middleware.Auth.{auth, next, bearer, auth-next_iff}

-- two requests in ten nanoseconds
abbrev limiter : RateLimiter
limiter = rate_limiter (pos 2) (pos 10)

no_counter : limiter.counters (codes "1.2.3.4") ≡ none
unfolding rate_limiter
no_counter = refl

in_window : All (λ t. t ≤ 5 + limiter.window) (6 ∷ 9 ∷ 15 ∷ [])
unfolding rate_limiter
in_window = (omega arith, (omega arith, (omega arith, tt)))

within_limit : 1 < limiter.limit
unfolding rate_limiter
within_limit = omega arith

window-bound_example : (serve limiter (codes "1.2.3.4") (5 ∷ 6 ∷ 9 ∷ 15 ∷ [])).1 ≤ limiter.limit
window-bound_example =
    window-bound limiter (codes "1.2.3.4") 5 (6 ∷ 9 ∷ 15 ∷ [])
      (rate_limiter-IsValid (pos 2) (pos 10)) no_counter in_window

window_served_example : (serve limiter (codes "1.2.3.4") (5 ∷ 15 ∷ [])).1 ≡ 2
window_served_example =
    window_served limiter (codes "1.2.3.4") 5 (15 ∷ []) no_counter within_limit (in_window.1.1)

window_fits : FitsInt64 (pos (2 * (handle limiter (codes "a") 5).0.window))
unfolding handle rate_limiter
window_fits = ground arith

handle-cleanup_example :
    ((handle (cleanup (handle limiter (codes "a") 5).0 30) (codes "a") 31).1
      ≡ (handle (handle limiter (codes "a") 5).0 (codes "a") 31).1)
    × ((handle (cleanup (handle limiter (codes "a") 5).0 30) (codes "a") 31).0.counters (codes "a")
        ≡ (handle (handle limiter (codes "a") 5).0 (codes "a") 31).0.counters (codes "a"))
handle-cleanup_example =
    handle-cleanup (handle limiter (codes "a") 5).0 30 31 (codes "a")
      (handle-IsValid limiter (codes "a") 5 (rate_limiter-IsValid (pos 2) (pos 10))) window_fits
      (omega arith)

cors-grants_example :
    ((cors (codes "http://a" ∷ []) (codes "http://a") (codes "GET")).0.allow_origin
      ≡ some (codes "http://a"))
    ↔ (Listed star (codes "http://a" ∷ []) ⊎ Listed (codes "http://a") (codes "http://a" ∷ []))
cors-grants_example = cors-grants (codes "http://a" ∷ []) (codes "http://a") (codes "GET") (λ e. cc)

cors_empty_example :
    ((cors [] (codes "http://a") (codes "GET")).0.allow_origin ≡ none)
    × (((cors [] (codes "http://a") (codes "GET")).1 ≡ no_content)
        ↔ (codes "GET" ≡ codes "OPTIONS"))
cors_empty_example = cors_empty (codes "http://a") (codes "GET")

abbrev parse : Str → Option ℕ
parse token = some (length token)

auth-next_iff_example :
    (auth parse (codes "Bearer abc") ≡ next 3)
    ↔ ((token : Str) × (codes "Bearer abc" ≡ bearer token) × (parse token ≡ some 3))
auth-next_iff_example = auth-next_iff parse (codes "Bearer abc") 3
