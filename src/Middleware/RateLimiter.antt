-- ===== src/Middleware/RateLimiter.antt =====
-- pkg/middleware/rate_limiter.go: a fixed-window counter per client address. A request is one
-- function, since the counter is read and written under the limiter's mutex; the clock is read
-- several times there, and `now` stands for all these reads. Instants and windows are nanoseconds.
pub mod Bounds
pub mod Cleanup
use dgou_framework.Base.{
  ℕ, zero, suc, ◌+◌, ◌-◌, ◌*◌, Bool, true, false, Option, none, some, List, [], ◌∷◌, ltb, leb,
  if◌then◌else◌, GoMap, empty_map, insert, Str, str_discrete,
}
use dgou_framework.Base.Int.{ℤ, pos, negsuc, ltb_ℤ, wrap64}

-- `rateCounter`
pub record Counter : Type 0 where
  pub count : ℕ
  pub window : ℕ
  pub last_time : ℕ

pub record RateLimiter : Type 0 where
  pub counters : GoMap Str Counter
  pub limit : ℕ
  pub window : ℕ

-- `if limit <= 0 { limit = 100 }`, and so for the window
abbrev pub or_default : ℕ → ℤ → ℕ
or_default d (pos zero) = d
or_default d (pos (suc n)) = suc n
or_default d (negsuc n) = d

-- a minute
abbrev minute : ℕ
minute = 60 * 1000000000

unfoldable pub rate_limiter : ℤ → ℤ → RateLimiter
rate_limiter limit window = record {
  counters = empty_map;
  limit = or_default 100 limit;
  window = or_default minute window;
}

-- The request is refused with status 429, or goes on with the number of requests that remain.
pub data Verdict : Type 0 where
  too_many : Verdict
  next : (remaining : ℕ) → Verdict

abbrev find_counter : Option Counter → ℕ → ℕ → Counter
find_counter none window now = record { count = 0; window = window; last_time = now }
find_counter (some c) window now = c

-- the reset of a counter whose window is over
abbrev pub refresh : Counter → ℕ → Counter
refresh c now =
    if ltb c.window (now - c.last_time) then record c { count = 0; last_time = now } else c

unfoldable pub handle : RateLimiter → Str → ℕ → RateLimiter × Verdict
handle rl key now =
    let c = refresh (find_counter (rl.counters key) rl.window now) now in
    if leb rl.limit c.count
    then (record rl { counters = insert str_discrete key c rl.counters }, too_many)
    else (
      record rl {
        counters = insert str_discrete key (record c { count = c.count + 1 }) rl.counters;
      },
      next (rl.limit - (c.count + 1)),
    )

-- `now.Sub(counter.lastTime) > 2*counter.window`, where the product of durations wraps in an int64
abbrev pub is_stale : ℕ → Counter → Bool
is_stale now c = ltb_ℤ (wrap64 (pos (2 * c.window))) (pos (now - c.last_time))

abbrev keep_fresh : ℕ → Option Counter → Option Counter
keep_fresh now none = none
keep_fresh now (some c) = if is_stale now c then none else some c

-- one round of the loop of `cleanup`
unfoldable pub cleanup : RateLimiter → ℕ → RateLimiter
cleanup rl now = record rl { counters = λ k. keep_fresh now (rl.counters k) }

abbrev pub tally : Verdict → ℕ → ℕ
tally too_many n = n
tally (next r) n = suc n

-- The requests of one client at the given times, and how many of them went on.
unfoldable pub serve : RateLimiter → Str → List ℕ → RateLimiter × ℕ
serve rl key [] = (rl, 0)
serve rl key (now ∷ times) =
    let (rl', verdict) = handle rl key now in
    let (rl'', passed) = serve rl' key times in (rl'', tally verdict passed)
