-- ===== src/Middleware/RateLimiter/Bounds.antt =====
-- How many requests the limiter lets through.
use dgou_framework.Base.{
  ℕ, suc, ◌+◌, ◌-◌, ◌≤◌, ◌<◌, ◌≡◌, ◌≢◌, refl, none, some, List, [], ◌∷◌, All, arith, Str,
  str_discrete, insert_self, Option-cases, inl, inr, sym, ◌∙◌, subst, dec_lt, insert, length, ap,
}
use dgou_framework.Base.Int.{ℤ}
use dgou_framework.Middleware.RateLimiter.{
  Counter, RateLimiter, too_many, next, rate_limiter, handle, serve, tally,
}

-- Every counter has the limiter's window and stays within the limit.
pub record IsValid (rl : RateLimiter) : Type 0 where
  pub positive : (0 < rl.limit) × (0 < rl.window)
  pub counters :
      (k : Str) (c : Counter)
      → rl.counters k ≡ some c
      → (c.count ≤ rl.limit) × (c.window ≡ rl.window)

pub rate_limiter-IsValid : (limit window : ℤ) → IsValid (rate_limiter limit window)
unfolding rate_limiter
rate_limiter-IsValid limit window = record { positive = ground arith; counters = λ k c e. cc }

-- A request changes nothing for the other clients.
pub handle_ne :
    (rl : RateLimiter) (key : Str) (now : ℕ) (other : Str)
    → other ≢ key
    → (handle rl key now).0.counters other ≡ rl.counters other
unfolding handle
handle_ne rl key now other n = ground arith

handle-fixed :
    (rl : RateLimiter) (key : Str) (now : ℕ)
    → ((handle rl key now).0.limit ≡ rl.limit) × ((handle rl key now).0.window ≡ rl.window)
unfolding handle
handle-fixed rl key now = ground arith

handle_self :
    (rl : RateLimiter) (key : Str) (now : ℕ) (c : Counter)
    → IsValid rl
    → (handle rl key now).0.counters key ≡ some c
    → (c.count ≤ rl.limit) × (c.window ≡ rl.window)
unfolding handle
handle_self rl key now c v e = elim (Option-cases (rl.counters key)) [
  | inl absent ↦ ground (arith, absent, v.positive)
  | inr (d, present) ↦ ground (arith, v.counters key d present)
]

pub handle-IsValid :
    (rl : RateLimiter) (key : Str) (now : ℕ) → IsValid rl → IsValid (handle rl key now).0
handle-IsValid rl key now v =
    let fixed = handle-fixed rl key now in
    record {
      positive = rw (fixed.0, fixed.1) v.positive;
      counters = λ k c e.
          rw (fixed.0, fixed.1)
            (elim (str_discrete k key) [
              | yes here ↦
                  handle_self rl key now c v
                    (subst (λ q. (handle rl key now).0.counters q ≡ some c) here e)
              | no there ↦ v.counters k c (sym (handle_ne rl key now k there) ∙ e)
            ]);
    }

serve-cons :
    (rl : RateLimiter) (key : Str) (now : ℕ) (times : List ℕ)
    → (serve rl key (now ∷ times)).1
      ≡ tally (handle rl key now).1 (serve (handle rl key now).0 key times).1
unfolding serve
serve-cons rl key now times = refl

-- The two ways of a request whose window still lasts.
module _ (rl : RateLimiter) (key : Str) (now : ℕ) (c : Counter) (e : rl.counters key ≡ some c)
    (h : now ≤ c.last_time + c.window) where
  handle_blocked :
      rl.limit ≤ c.count
      → handle rl key now
        ≡ (record rl { counters = insert str_discrete key c rl.counters }, too_many)
  unfolding handle
  handle_blocked le = rw e (ground arith)

  handle_passed :
      c.count < rl.limit
      → handle rl key now ≡ (
        record rl {
          counters = insert str_discrete key (record c { count = c.count + 1 }) rl.counters;
        },
        next (rl.limit - (c.count + 1)),
      )
  unfolding handle
  handle_passed lt = rw e (ground arith)

-- A client that has a counter of its window: while the window lasts, the requests that go on are
-- at most what the counter leaves of the limit, whatever the times.
pub serve-le :
    (rl : RateLimiter) (key : Str) (c : Counter) (times : List ℕ)
    → rl.counters key ≡ some c
    → c.count ≤ rl.limit
    → All (λ t. t ≤ c.last_time + c.window) times
    → (serve rl key times).1 + c.count ≤ rl.limit
unfolding serve
serve-le rl key c [] e le h = omega arith
serve-le rl key c (now ∷ times) e le h = elim (dec_lt c.count rl.limit) [
  | yes lt ↦
      let c' = record c { count = c.count + 1 } in
      rw (serve-cons, handle_passed rl key now c e h.0 lt)
        (omega (
          arith,
          serve-le (record rl { counters = insert str_discrete key c' rl.counters }) key c' times
              (insert_self str_discrete key c' rl.counters) (omega arith) h.1,
        ))
  | no full ↦
      rw (serve-cons, handle_blocked rl key now c e h.0 (omega arith))
        (serve-le (record rl { counters = insert str_discrete key c rl.counters }) key c times
          (insert_self str_discrete key c rl.counters) le h.1)
]

first_request :
    (rl : RateLimiter) (key : Str) (now : ℕ)
    → rl.counters key ≡ none
    → 0 < rl.limit
    → handle rl key now ≡ (
      record rl {
        counters =
            insert str_discrete key
              (record { count = 1; window = rl.window; last_time = now })
              rl.counters;
      },
      next (rl.limit - 1),
    )
unfolding handle
first_request rl key now e pos = rw e (ground arith)

-- With the limiter's invariant, of the requests of a new client that come up to a window's length
-- after the first, at most the limit go on, the first included.
pub window-bound :
    (rl : RateLimiter) (key : Str) (now : ℕ) (times : List ℕ)
    → IsValid rl
    → rl.counters key ≡ none
    → All (λ t. t ≤ now + rl.window) times
    → (serve rl key (now ∷ times)).1 ≤ rl.limit
window-bound rl key now times v e h =
    let c : Counter = record { count = 1; window = rl.window; last_time = now } in
    rw (serve-cons, first_request rl key now e v.positive.0)
      (omega (
        arith,
        serve-le (record rl { counters = insert str_discrete key c rl.counters }) key c times
            (insert_self str_discrete key c rl.counters) v.positive.0 h,
      ))

serve-exact :
    (rl : RateLimiter) (key : Str) (c : Counter) (times : List ℕ)
    → rl.counters key ≡ some c
    → c.count + length times ≤ rl.limit
    → All (λ t. t ≤ c.last_time + c.window) times
    → (serve rl key times).1 ≡ length times
unfolding serve
serve-exact rl key c [] e le h = refl
serve-exact rl key c (now ∷ times) e le h =
    let c' = record c { count = c.count + 1 } in
    rw (serve-cons, handle_passed rl key now c e h.0 (omega arith))
      (ap suc (
        serve-exact (record rl { counters = insert str_discrete key c' rl.counters }) key c' times
          (insert_self str_discrete key c' rl.counters) (omega arith) h.1))

-- A new client whose requests within the window number no more than the limit is never refused.
pub window_served :
    (rl : RateLimiter) (key : Str) (now : ℕ) (times : List ℕ)
    → rl.counters key ≡ none
    → length times < rl.limit
    → All (λ t. t ≤ now + rl.window) times
    → (serve rl key (now ∷ times)).1 ≡ suc (length times)
window_served rl key now times e le h =
    let c : Counter = record { count = 1; window = rl.window; last_time = now } in
    rw (serve-cons, first_request rl key now e (omega arith))
      (ap suc (
        serve-exact (record rl { counters = insert str_discrete key c rl.counters }) key c times
          (insert_self str_discrete key c rl.counters) (omega arith) h))
