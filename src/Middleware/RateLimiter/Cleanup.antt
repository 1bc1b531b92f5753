-- ===== src/Middleware/RateLimiter/Cleanup.antt =====
-- The cleanup of old counters.
use native.Mathlib.Nat.{add-zero}
use mathlib.Core.Path.{ap₂}
use dgou_framework.Base.{
  ℕ, ◌≤◌, ◌-◌, ◌*◌, ◌≡◌, ◌∙◌, refl, sym, ap, subst, arith, Str, Option-cases, Bool-cases, inl, inr,
  true, none, some, ltb, if◌then◌else◌,
}
use dgou_framework.Base.Int.{pos, FitsInt64, wrap64_of_fits, ltb_ℤ}
use dgou_framework.Middleware.RateLimiter.{RateLimiter, Counter, handle, cleanup, is_stale}
use dgou_framework.Middleware.RateLimiter.Bounds.{IsValid}

cleanup-IsValid : (rl : RateLimiter) (now : ℕ) → IsValid rl → IsValid (cleanup rl now)
unfolding cleanup
cleanup-IsValid rl now v = record {
  positive = v.positive;
  counters = λ k c e. elim (Option-cases (rl.counters k)) [
    | inl absent ↦ ground (arith, absent)
    | inr (d, present) ↦ ground (arith, v.counters k d present)
  ];
}

-- Whether a counter is old, for a window of which the double fits in an int64.
is_stale_of_fits :
    (now : ℕ) (c : Counter)
    → FitsInt64 (pos (2 * c.window))
    → is_stale now c ≡ ltb (2 * c.window) (now - c.last_time)
is_stale_of_fits now c fits =
    let exact = wrap64_of_fits (pos (2 * c.window)) fits in
    ap (λ w. ltb_ℤ w (pos (now - c.last_time))) exact
    ∙ ap₂ ltb (add-zero (2 * c.window)) (add-zero (now - c.last_time))

-- The reading of a request depends on nothing but the client's counter.
same_counter :
    (rl sl : RateLimiter) (now : ℕ) (key : Str) (c : Counter)
    → rl.counters key ≡ some c
    → sl.counters key ≡ some c
    → sl.limit ≡ rl.limit
    → sl.window ≡ rl.window
    → ((handle sl key now).1 ≡ (handle rl key now).1)
      × ((handle sl key now).0.counters key ≡ (handle rl key now).0.counters key)
unfolding handle
same_counter rl sl now key c here there limit window = ground (arith, here, there, limit, window)

same_absent :
    (rl sl : RateLimiter) (now : ℕ) (key : Str)
    → rl.counters key ≡ none
    → sl.counters key ≡ none
    → sl.limit ≡ rl.limit
    → sl.window ≡ rl.window
    → ((handle sl key now).1 ≡ (handle rl key now).1)
      × ((handle sl key now).0.counters key ≡ (handle rl key now).0.counters key)
unfolding handle
same_absent rl sl now key here there limit window = ground (arith, here, there, limit, window)

-- A counter that is old at an earlier time starts again, as a new one does.
forgotten :
    (rl sl : RateLimiter) (swept now : ℕ) (key : Str) (c : Counter)
    → rl.counters key ≡ some c
    → sl.counters key ≡ none
    → sl.limit ≡ rl.limit
    → sl.window ≡ rl.window
    → c.window ≡ rl.window
    → ltb (2 * c.window) (swept - c.last_time) ≡ true
    → swept ≤ now
    → ((handle sl key now).1 ≡ (handle rl key now).1)
      × ((handle sl key now).0.counters key ≡ (handle rl key now).0.counters key)
unfolding handle
forgotten rl sl swept now key c here gone limit window own old le =
    ground (arith, here, gone, limit, window, own, old, le)

-- With the limiter's invariant, and where twice the limiter's window fits in an int64, no client can
-- tell that a cleanup has run: a request at the cleanup's time or later gets the verdict that it
-- would have got, and leaves the same counter behind.
pub handle-cleanup :
    (rl : RateLimiter) (swept now : ℕ) (key : Str)
    → IsValid rl
    → FitsInt64 (pos (2 * rl.window))
    → swept ≤ now
    → ((handle (cleanup rl swept) key now).1 ≡ (handle rl key now).1)
      × ((handle (cleanup rl swept) key now).0.counters key ≡ (handle rl key now).0.counters key)
unfolding cleanup
handle-cleanup rl swept now key v fits le = elim (Option-cases (rl.counters key)) [
  | inl absent ↦
      let gone : (cleanup rl swept).counters key ≡ none = rw absent refl in
      same_absent rl (cleanup rl swept) now key absent gone refl refl
  | inr (c, present) ↦
      let own : c.window ≡ rl.window = (v.counters key c present).1 in
      let small = subst (λ w. FitsInt64 (pos (2 * w))) (sym own) fits in
      let same = is_stale_of_fits swept c small in
      let kept : (cleanup rl swept).counters key ≡ (if is_stale swept c then none else some c) =
        rw present refl in
      elim (Bool-cases (ltb (2 * c.window) (swept - c.last_time))) [
        | inl old ↦
            let gone : (cleanup rl swept).counters key ≡ none =
              kept ∙ ap (λ b. if b then none else some c) (same ∙ old) in
            forgotten rl (cleanup rl swept) swept now key c present gone refl refl own old le
        | inr young ↦
            let there : (cleanup rl swept).counters key ≡ some c =
              kept ∙ ap (λ b. if b then none else some c) (same ∙ young) in
            same_counter rl (cleanup rl swept) now key c present there refl refl
      ]
]
