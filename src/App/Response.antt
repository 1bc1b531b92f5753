-- ===== src/App/Response.antt =====
-- pkg/app/response.go: pagination, and the answer to an error. The request id, the clock and the
-- writer are left out of the answers.
use dgou_framework.Base.{
  ℕ, zero, suc, ◌+◌, ◌*◌, ◌/◌, ◌^◌, ◌≤◌, ◌<◌, ◌≡◌, ◌↔◌, inl, inr, refl, Bool, true, false, Option,
  none, some, List, [], ◌∷◌, arith, leb, if◌then◌else◌, ◌&&◌, Str, codes,
}
use native.Mathlib.Nat.{mod-lt, div-add-mod}
use dgou_framework.Base.Int.{ℤ, pos, negsuc, ◌+ℤ◌, ◌-ℤ◌, wrap64, wrap64_of_fits, int_laws}
use dgou_framework.Errors.{GoError, custom, foreign, no_cause, new_error}
use dgou_framework.Errors.Laws.{IsClientCode, status_class}

-- Go's `/` on int64: towards zero, and a panic (`none`) for a zero divisor; the quotient wraps.
abbrev quotient : ℤ → ℤ → ℤ
quotient (pos a) (pos b) = pos (a / b)
quotient (pos a) (negsuc b) = wrap64 (pos 0 -ℤ pos (a / suc b))
quotient (negsuc a) (pos b) = pos 0 -ℤ pos (suc a / b)
quotient (negsuc a) (negsuc b) = wrap64 (pos (suc a / suc b))

abbrev go_div : ℤ → ℤ → Option ℤ
go_div a (pos zero) = none
go_div a (pos (suc b)) = some (quotient a (pos (suc b)))
go_div a (negsuc b) = some (quotient a (negsuc b))

-- `totalPage` of `SuccessWithPagination`; `int` has 64 bits
unfoldable pub total_page : ℤ → ℤ → Option ℤ
total_page total page_size = go_div (wrap64 (wrap64 (total +ℤ page_size) -ℤ pos 1)) page_size

-- the status and the body of an answer
pub record Answer : Type 0 where
  pub status : ℕ
  pub code : ℕ
  pub message : Str
  pub shown : Option (List Str × List Str)  -- details and stack, in debug mode

abbrev is_nil : List Str → Bool
is_nil [] = true
is_nil (x ∷ xs) = false

-- `Error`
unfoldable pub answer_error : Bool → GoError → Answer
answer_error debug (custom c h m details stack o e) = record {
  status = h;
  code = c;
  message = m;
  shown =
      if debug
      then (if is_nil details && is_nil stack then none else some (details, stack))
      else none;
}
answer_error debug (foreign text) = record {
  status = 500;
  code = 500;
  message = codes "Internal server error";
  shown = none;
}

-- `isCriticalError`
unfoldable pub is_critical_error : GoError → Bool
is_critical_error (custom c h m d s o e) = leb 500 h
is_critical_error (foreign text) = false

-- `HTTPError`
unfoldable pub http_error : Bool → ℕ → Str → Answer
http_error debug code message = answer_error debug (custom code code message [] [] [] no_cause)

-- The dividend of the code, where nothing wraps.
dividend :
    (total s : ℕ)
    → total + suc s < 2 ^ 63
    → wrap64 (wrap64 (pos total +ℤ pos (suc s)) -ℤ pos 1) ≡ pos (total + s)
dividend total s fits =
    let sum : pos total +ℤ pos (suc s) ≡ pos (total + suc s) = omega int_laws in
    let less : pos (total + suc s) -ℤ pos 1 ≡ pos (total + s) = omega int_laws in
    rw (
      sum,
      wrap64_of_fits (pos (total + suc s)) fits,
      less,
      wrap64_of_fits (pos (total + s)) (omega arith),
    )

ceiling : (n b : ℕ) → 0 < b → (n < n / b * b + b) × (n / b * b ≤ n)
ceiling n b h = omega (arith, mod-lt n h, div-add-mod n b)

-- The number of pages is the least that holds all entries: the last page is reached, and the page
-- before it is not enough. This is where neither the sum nor the sizes pass the range of int64.
pub total_page-ceiling :
    (total size : ℕ)
    → 0 < size
    → total + size < 2 ^ 63
    → (pages : ℕ) × (total_page (pos total) (pos size) ≡ some (pos pages))
      × (total ≤ pages * size)
      × (pages * size < total + size)
unfolding total_page
total_page-ceiling total zero h fits = elim h [ ]
total_page-ceiling total (suc s) h fits =
    let n = total + s in
    let (low, high) = ceiling n (suc s) (omega arith) in
    (n / suc s, rw (dividend total s fits), omega (arith, low), omega (arith, high))

-- A page size of zero panics, whatever the total is.
total_page_zero : (total : ℤ) → total_page total (pos 0) ≡ none
unfolding total_page
total_page_zero total = refl

-- Out of debug mode an answer shows no details and no stack; a foreign error's text is never
-- shown, and a foreign error is answered with status 500.
pub answer_error_closed :
    (debug : Bool) (text : Str) (e : GoError)
    → ((answer_error false e).shown ≡ none)
      × (answer_error debug (foreign text) ≡ answer_error false (foreign []))
      × ((answer_error debug (foreign text)).status ≡ 500)
unfolding answer_error
answer_error_closed debug text e = (ground arith, refl, refl)

-- An error made by `New` is critical exactly when its code is none of the five client codes.
pub is_critical_error-new_error :
    (code : ℕ) (message : Str) (stack : List Str)
    → (is_critical_error (new_error code message stack) ≡ true) ↔ (¬ IsClientCode code)
unfolding is_critical_error new_error
is_critical_error-new_error code message stack = elim (status_class code) [
  | inl (c, low, high) ↦ (λ h. absurd (ground arith), λ n. absurd (n c))
  | inr (n, low, high) ↦ (λ h. n, λ n'. ground arith)
]
