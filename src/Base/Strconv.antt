-- ===== src/Base/Strconv.antt =====
-- What the code uses of package strconv: FormatUint, FormatInt, ParseUint and ParseInt in base 10.
-- A parse gives `none` for any error, syntax or range; the callers here read no more of it.
use dgou_framework.Base.Tests.{ltb, leb, ◌==◌, if◌then◌else◌, Bool-cases}
use dgou_framework.Base.Strings.{Str}
use dgou_framework.Base.Int.{ℤ, pos, negsuc, FitsInt64}
use Prim.Native.Nat.{ℕ, zero, suc, ◌+◌, ◌-◌, ◌*◌, ◌/◌, ◌%◌, ◌^◌, ◌≤◌, ◌<◌}
use mathlib.Core.Path.{◌≡◌, ◌∙◌}
use mathlib.Core.Bool.{Bool, true, false, ◌&&◌}
use mathlib.Core.Logic.{inl, inr}
use mathlib.Core.List.{[], ◌∷◌}
use mathlib.Core.Option.{Option, none, some}
use native.Mathlib.Omega.{arith}

-- The digits of `n` in front of `acc`; each round divides by 10, so `n + 1` rounds are enough.
digits : ℕ → ℕ → Str → Str
digits zero n acc = acc
digits (suc fuel) n acc =
    let d = 48 + n % 10 in
    let rest = digits fuel (n / 10) (d ∷ acc) in if ltb n 10 then d ∷ acc else rest

unfoldable pub format_uint : ℕ → Str
unfolding digits
format_uint n = digits (suc n) n []

abbrev pub is_digit : ℕ → Bool
is_digit c = leb 48 c && leb c 57

parse_digits : Str → ℕ → Option ℕ
parse_digits [] acc = some acc
parse_digits (c ∷ s) acc = elim (is_digit c) [
  | true ↦ parse_digits s (acc * 10 + (c - 48))
  | false ↦ none
]

-- a number of any size
parse_nat : Str → Option ℕ
unfolding parse_digits
parse_nat [] = none
parse_nat (c ∷ s) = parse_digits (c ∷ s) 0

abbrev in_range : ℕ → Option ℕ → Option ℕ
in_range bound none = none
in_range bound (some n) = if ltb n bound then some n else none

unfoldable pub parse_uint : Str → Option ℕ
unfolding parse_nat
parse_uint s = in_range (2 ^ 64) (parse_nat s)

unfoldable pub format_int : ℤ → Str
unfolding format_uint
format_int (pos n) = format_uint n
format_int (negsuc n) = b'-' ∷ format_uint (suc n)

abbrev positive : Option ℕ → Option ℤ
positive none = none
positive (some n) = some (pos n)

abbrev negative : Option ℕ → Option ℤ
negative none = none
negative (some zero) = some (pos 0)
negative (some (suc n)) = some (negsuc n)

unfoldable pub parse_int : Str → Option ℤ
unfolding parse_nat
parse_int [] = none
parse_int (c ∷ s) =
    if c == b'-'
    then negative (in_range (2 ^ 63 + 1) (parse_nat s))
    else if c == b'+'
    then positive (in_range (2 ^ 63) (parse_nat s))
    else positive (in_range (2 ^ 63) (parse_nat (c ∷ s)))

parse_digits-digits :
    (fuel n : ℕ) (acc : Str) → n < fuel → parse_digits (digits fuel n acc) 0 ≡ parse_digits acc n
unfolding digits parse_digits
parse_digits-digits zero n acc h = elim h [ ]
parse_digits-digits (suc fuel) n acc h = elim (Bool-cases (ltb n 10)) [
  | inl small ↦ ground arith
  | inr large ↦
      rw large
        (parse_digits-digits fuel (n / 10) ((48 + n % 10) ∷ acc) (ground arith) ∙ ground arith)
]

-- The first byte is a digit, so it is no sign.
digits_head :
    (fuel n : ℕ) (acc : Str)
    → n < fuel
    → (c : ℕ) × (s : Str) × (digits fuel n acc ≡ c ∷ s) × (48 ≤ c) × (c ≤ 57)
unfolding digits
digits_head zero n acc h = elim h [ ]
digits_head (suc fuel) n acc h = elim (Bool-cases (ltb n 10)) [
  | inl small ↦ (48 + n % 10, acc, rw small, omega arith, omega arith)
  | inr large ↦ rw large (digits_head fuel (n / 10) ((48 + n % 10) ∷ acc) (ground arith))
]

parse_nat-format_uint : (n : ℕ) → parse_nat (format_uint n) ≡ some n
unfolding parse_nat format_uint
parse_nat-format_uint n =
    let (c, s, e, lo, hi) = digits_head (suc n) n [] (omega arith) in
    rw e (rw e at (parse_digits-digits (suc n) n [] (omega arith)))

pub parse_uint-format_uint : (n : ℕ) → n < 2 ^ 64 → parse_uint (format_uint n) ≡ some n
unfolding parse_uint
parse_uint-format_uint n h = rw (parse_nat-format_uint n) (ground arith)

pub format_uint_head : (n : ℕ) → (c : ℕ) × (s : Str) × (format_uint n ≡ c ∷ s) × (48 ≤ c) × (c ≤ 57)
unfolding format_uint
format_uint_head n = digits_head (suc n) n [] (omega arith)

parse_int-format_nat : (n : ℕ) → n < 2 ^ 63 → parse_int (format_uint n) ≡ some (pos n)
unfolding parse_int
parse_int-format_nat n h =
    let (c, s, whole, lo, hi) = format_uint_head n in
    let value : parse_nat (c ∷ s) ≡ some n = rw whole at (parse_nat-format_uint n) in
    rw whole (ground (arith, value))

pub parse_int-format_int : (a : ℤ) → FitsInt64 a → parse_int (format_int a) ≡ some a
unfolding format_int
parse_int-format_int (pos n) h = parse_int-format_nat n h
parse_int-format_int (negsuc n) h =
    unfold parse_int in ground (arith, parse_nat-format_uint (suc n))
