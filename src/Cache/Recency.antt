-- ===== src/Cache/Recency.antt =====
-- A bounded cache as its users see it: the entries in the order of their last use, the latest first,
-- with no list elements, maps or counters. The model of pkg/cache/memory.go is compared with it.
use dgou_framework.Base.{
  ℕ, ◌+◌, Bool, true, false, Option, none, some, List, [], ◌∷◌, Str, str_discrete, ite, length,
  if◌then◌else◌,
}
use dgou_framework.Base.Int.{ℤ, pos, ◌+ℤ◌, ltb_ℤ, wrap64}
use dgou_framework.Base.Strconv.{format_int, parse_int}
use dgou_framework.Cache.Memory.{
  Value, to_text, expire_time, Result, ok, err, key_not_found, key_expired, not_integer,
}

pub record Entry : Type 0 where
  pub key : Str
  pub value : Str
  pub expire : Option ℤ
  pub size : ℕ

pub record Recency : Type 0 where
  pub entries : List Entry
  pub max_bytes : ℤ
  pub ttl : ℤ

unfoldable pub lookup : Str → List Entry → Option Entry
lookup k [] = none
lookup k (e ∷ es) = ite (str_discrete k e.key) (some e) (lookup k es)

unfoldable pub without : Str → List Entry → List Entry
without k [] = []
without k (e ∷ es) = ite (str_discrete k e.key) es (e ∷ without k es)

unfoldable pub sizes : List Entry → ℕ
sizes [] = 0
sizes (e ∷ es) = e.size + sizes es

-- The latest entries that fit next to `used` bytes: the longest such prefix.
unfoldable pub keep : ℤ → ℕ → List Entry → List Entry
keep max used [] = []
keep max used (e ∷ es) =
    let rest = keep max (used + e.size) es in
    if ltb_ℤ max (pos (used + e.size)) then [] else e ∷ rest

-- A limit that is not positive is no limit.
unfoldable pub fit : ℤ → ℕ → List Entry → List Entry
unfolding keep
fit max size es = if ltb_ℤ (pos 0) max then keep max size es else es

unfoldable pub outdated : Option ℤ → ℤ → Bool
outdated none now = false
outdated (some t) now = ltb_ℤ t now

-- A new entry, the latest one, and of the others those that fit.
unfoldable pub put : Recency → Entry → Recency
unfolding fit
put r e = record r { entries = e ∷ fit r.max_bytes e.size r.entries }

pub data Answer : Type 0 where
  done : Answer
  text_answer : Result Str → Answer
  number_answer : Result ℤ → Answer
  flag_answer : Bool → Answer

abbrev pub entry : Str → Str → Option ℤ → Entry
entry key value expire = record {
  key = key;
  value = value;
  expire = expire;
  size = length key + length value;
}

unfoldable pub spec_set : Recency → ℤ → Str → Value → ℤ → Recency
unfolding put without
spec_set r now key value ttl =
    put (record r { entries = without key r.entries })
      (entry key (to_text value) (expire_time now ttl r.ttl))

unfoldable pub spec_delete : Recency → Str → Recency
unfolding without
spec_delete r key = record r { entries = without key r.entries }

abbrev pub read : Recency → ℤ → Str → Option Entry → Recency × Answer
read r now key none = (r, text_answer (err key_not_found))
read r now key (some e) =
    if outdated e.expire now
    then (record r { entries = without key r.entries }, text_answer (err key_expired))
    else (record r { entries = e ∷ without key r.entries }, text_answer (ok e.value))

unfoldable pub spec_get : Recency → ℤ → Str → Recency × Answer
unfolding lookup
spec_get r now key = read r now key (lookup key r.entries)

abbrev pub probe : Recency → ℤ → Str → Option Entry → Recency × Answer
probe r now key none = (r, flag_answer false)
probe r now key (some e) =
    if outdated e.expire now
    then (record r { entries = without key r.entries }, flag_answer false)
    else (r, flag_answer true)

unfoldable pub spec_exists : Recency → ℤ → Str → Recency × Answer
unfolding lookup
spec_exists r now key = probe r now key (lookup key r.entries)

-- a counter that is there: its text changes and it becomes the latest entry
abbrev pub count_on : Recency → Str → ℤ → Entry → Option ℤ → Recency × Answer
count_on r key delta e none = (r, number_answer (err not_integer))
count_on r key delta e (some n) =
    let n' = wrap64 (n +ℤ delta) in
    (
      record r { entries = record e { value = format_int n' } ∷ without key r.entries },
      number_answer (ok n'),
    )

abbrev pub count : Recency → ℤ → Str → ℤ → Option Entry → Recency × Answer
count r now key delta none =
    (put r (entry key (format_int delta) (some (now +ℤ r.ttl))), number_answer (ok delta))
count r now key delta (some e) = count_on r key delta e (parse_int e.value)

unfoldable pub spec_incr : Recency → ℤ → Str → ℤ → Recency × Answer
unfolding put lookup
spec_incr r now key delta = count r now key delta (lookup key r.entries)
