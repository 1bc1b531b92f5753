-- ===== src/Queue/Rabbit/Reconnect.antt =====
-- pkg/queue/rabbitmq.go: the inner loop of `reconnector`. Before each attempt it waits, and in each
-- wait it may see the queue's `done`; whether the attempt connects is an argument too.
use dgou_framework.Base.{
  ℕ, zero, suc, ◌+◌, ◌≤◌, ◌<◌, ◌≡◌, ◌⊎◌, inl, inr, refl, Bool, true, false, arith, ℕ_discrete,
  Bool-cases, if◌then◌else◌,
}
use dgou_framework.Base.Int.{ℤ, pos, negsuc}

-- How the loop ends; `gave_up` is the call of the logger's `Fatal`, which ends the process.
pub data Reconnected : Type 0 where
  connected : (attempt : ℕ) → Reconnected
  stopped : (attempt : ℕ) → Reconnected
  gave_up : Reconnected

abbrev pub or_ten : ℕ → ℕ
or_ten zero = 10
or_ten (suc n) = suc n

-- `maxRetries`, 10 where the configuration sets none
unfoldable pub retry_limit : ℤ → ℕ
retry_limit (pos n) = or_ten n
retry_limit (negsuc n) = 10

module _ (stops connects : ℕ → Bool) where
  -- `left` is `maxRetries - retries`.
  unfoldable pub reconnect_loop : (left retries : ℕ) → Reconnected
  reconnect_loop zero retries = gave_up
  reconnect_loop (suc left) retries =
      let rest = reconnect_loop left (suc retries) in
      if stops retries
      then stopped retries
      else if connects retries
      then connected retries
      else rest

  unfoldable pub reconnect : ℤ → Reconnected
  unfolding reconnect_loop retry_limit
  reconnect max_retries = reconnect_loop (retry_limit max_retries) 0

  -- No stop was seen and no attempt connected, for the attempts from `i` up to `j`, `j` left out.
  abbrev pub Failing : ℕ → ℕ → Type 0
  Failing i j = (k : ℕ) → i ≤ k → k < j → (stops k ≡ false) × (connects k ≡ false)

  -- the ends of the loop that starts at attempt `i` with `left` attempts, one of which holds
  abbrev pub Ends : ℕ → ℕ → Reconnected → Type 0
  Ends i left r =
      ((r ≡ gave_up) × Failing i (i + left))
      ⊎ ((n : ℕ) × (i ≤ n)
          × (n < i + left)
          × Failing i n
          × (((stops n ≡ true) × (r ≡ stopped n))
              ⊎ ((stops n ≡ false) × (connects n ≡ true) × (r ≡ connected n))))

  Failing-from : (i n : ℕ) → stops i ≡ false → connects i ≡ false → Failing (suc i) n → Failing i n
  Failing-from i n p q f k a b = elim (ℕ_discrete k i) [
    | yes e ↦ rw e (p, q)
    | no d ↦ f k (omega arith) b
  ]

  Ends-later :
      (i left : ℕ) (r : Reconnected)
      → stops i ≡ false
      → connects i ≡ false
      → Ends (suc i) left r
      → Ends i (suc left) r
  Ends-later i left r p q h = elim h [
    | inl (e, f) ↦ inl (e, Failing-from i (i + suc left) p q (λ k a b. f k a (omega arith)))
    | inr (n, a, b, f, end) ↦ inr (n, omega arith, omega arith, Failing-from i n p q f, end)
  ]

  reconnect_loop-Ends : (left i : ℕ) → Ends i left (reconnect_loop left i)
  unfolding reconnect_loop
  reconnect_loop-Ends zero i = inl (refl, λ k a b. absurd (omega arith))
  reconnect_loop-Ends (suc left) i = elim (Bool-cases (stops i)) [
    | inl p ↦ inr (i, omega arith, omega arith, λ k a b. absurd (omega arith), inl (p, rw p refl))
    | inr p ↦ elim (Bool-cases (connects i)) [
      | inl q ↦
          inr
            (i, omega arith, omega arith, λ k a b. absurd (omega arith), inr (p, q, rw (p, q) refl))
      | inr q ↦ rw (p, q) (Ends-later i left _ p q (reconnect_loop-Ends left (suc i)))
    ]
  ]

  -- A lost connection is tried again until the first attempt that connects or that sees the end of
  -- the queue; if there is none up to the limit, 10 where none is configured, it is given up.
  pub reconnect-Ends : (max_retries : ℤ) → Ends 0 (retry_limit max_retries) (reconnect max_retries)
  unfolding reconnect
  reconnect-Ends max_retries = reconnect_loop-Ends (retry_limit max_retries) 0
