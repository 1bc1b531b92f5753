-- ===== src/Cache/Memory/Agrees.antt =====
-- Get, Exists and Incr, seen through the entries, are those of the bounded cache by recency
-- (Cache/Recency).
use dgou_framework.Base.{
  ◌+◌, ◌≡◌, refl, ap, ◌∙◌, Bool, true, false, Option, none, some, ◌∷◌, Str, str_discrete, insert,
  insert_ne, insert_self, arith, inl, inr, Bool-cases, Option-cases, length,
}
use dgou_framework.Base.Int.{ℤ, ◌+ℤ◌, wrap64}
use dgou_framework.Base.Strconv.{format_int, parse_int}
use dgou_framework.Cache.Memory.{
  MemoryItem, MemoryCache, Result, ok, err, key_not_found, key_expired, not_integer, move_to_front,
  is_expired, make_room, store, delete_key, get, exists, incr,
}
use dgou_framework.Cache.Memory.Invariant.{IsValid}
use dgou_framework.Cache.Memory.Methods.{widen}
use dgou_framework.Cache.Memory.View.{entry_of, view}
use dgou_framework.Cache.Memory.Abstract.{
  abstract, recency_path, not_there, there, moved, delete_key-abstract, store-abstract,
}
use dgou_framework.Cache.Recency.{
  Entry, Recency, lookup, without, outdated, put, Answer, text_answer, number_answer, flag_answer,
  entry, spec_delete, spec_get, spec_exists, spec_incr, read, probe, count,
}

is_expired-outdated : (item : MemoryItem) (now : ℤ) → outdated item.expire now ≡ is_expired item now
unfolding is_expired outdated
is_expired-outdated item now = ground arith

-- The steps of `Get` and `Exists`, by what the map holds.
module _ (m : MemoryCache) (now : ℤ) (k : Str) where
  get_absent : m.items k ≡ none → get m now k ≡ (m, err key_not_found)
  unfolding get
  get_absent h = rw (h, get) refl

  exists_absent : m.items k ≡ none → exists m now k ≡ (m, false)
  unfolding exists
  exists_absent h = rw (h, exists) refl

  module _ (item : MemoryItem) (present : m.items k ≡ some item) where
    get_old : is_expired item now ≡ true → get m now k ≡ (delete_key m k, err key_expired)
    unfolding get
    get_old old = rw (present, get) (rw old refl)

    get_live :
        is_expired item now ≡ false
        → get m now k
          ≡ (record m { lru_list = move_to_front item.element m.lru_list }, ok item.value)
    unfolding get
    get_live live = rw (present, get) (rw live refl)

    exists_old : is_expired item now ≡ true → exists m now k ≡ (delete_key m k, false)
    unfolding exists
    exists_old old = rw (present, exists) (rw old refl)

    exists_live : is_expired item now ≡ false → exists m now k ≡ (m, true)
    unfolding exists
    exists_live live = rw (present, exists) (rw live refl)

-- The same steps of the cache by recency.
module _ (r : Recency) (now : ℤ) (k : Str) where
  spec_get_absent :
      lookup k r.entries ≡ none → spec_get r now k ≡ (r, text_answer (err key_not_found))
  unfolding spec_get
  spec_get_absent h = ap (read r now k) h

  spec_exists_absent : lookup k r.entries ≡ none → spec_exists r now k ≡ (r, flag_answer false)
  unfolding spec_exists
  spec_exists_absent h = ap (probe r now k) h

  module _ (e : Entry) (there : lookup k r.entries ≡ some e) where
    spec_get_old :
        outdated e.expire now ≡ true
        → spec_get r now k ≡ (spec_delete r k, text_answer (err key_expired))
    unfolding spec_get spec_delete
    spec_get_old old = ap (read r now k) there ∙ rw old refl

    spec_get_live :
        outdated e.expire now ≡ false
        → spec_get r now k
          ≡ (record r { entries = e ∷ without k r.entries }, text_answer (ok e.value))
    unfolding spec_get
    spec_get_live live = ap (read r now k) there ∙ rw live refl

    spec_exists_old :
        outdated e.expire now ≡ true → spec_exists r now k ≡ (spec_delete r k, flag_answer false)
    unfolding spec_exists spec_delete
    spec_exists_old old = ap (probe r now k) there ∙ rw old refl

    spec_exists_live : outdated e.expire now ≡ false → spec_exists r now k ≡ (r, flag_answer true)
    unfolding spec_exists
    spec_exists_live live = ap (probe r now k) there ∙ rw live refl

-- The state and the answer of a method, as those of the cache by recency.
abbrev pub Agrees : MemoryCache × Answer → Recency × Answer → Type 0
Agrees (m, a) (r, b) = (abstract m ≡ r) × (a ≡ b)

abbrev pub text_of : MemoryCache × Result Str → MemoryCache × Answer
text_of (m, a) = (m, text_answer a)

abbrev pub flag_of : MemoryCache × Bool → MemoryCache × Answer
flag_of (m, a) = (m, flag_answer a)

abbrev pub number_of : MemoryCache × Result ℤ → MemoryCache × Answer
number_of (m, a) = (m, number_answer a)

module _ (m : MemoryCache) (now : ℤ) (k : Str) (v : IsValid m) where
  look_absent : m.items k ≡ none → lookup k (abstract m).entries ≡ none
  unfolding abstract
  look_absent absent = not_there m k v absent

  look_present :
      (item : MemoryItem)
      → m.items k ≡ some item
      → lookup k (abstract m).entries ≡ some (entry_of k item)
  unfolding abstract
  look_present item present = there m k v item present

  used :
      (item : MemoryItem)
      → m.items k ≡ some item
      → abstract (record m { lru_list = move_to_front item.element m.lru_list })
        ≡ record (abstract m) { entries = entry_of k item ∷ without k (abstract m).entries }
  unfolding abstract
  used item present =
      recency_path (moved m k v item present m.items item present (λ q n. refl)) refl refl

  pub get-Agrees : Agrees (text_of (get m now k)) (spec_get (abstract m) now k)
  get-Agrees = elim (Option-cases (m.items k)) [
    | inl absent ↦
        rw (get_absent m now k absent, spec_get_absent (abstract m) now k (look_absent absent))
          (refl, refl)
    | inr (item, present) ↦
        let there = look_present item present in
        elim (Bool-cases (is_expired item now)) [
          | inl old ↦
              rw
                (
                  get_old m now k item present old,
                  spec_get_old (abstract m) now k (entry_of k item) there
                      (is_expired-outdated item now ∙ old),
                )
                (delete_key-abstract m k v, refl)
          | inr live ↦
              rw
                (
                  get_live m now k item present live,
                  spec_get_live (abstract m) now k (entry_of k item) there
                      (is_expired-outdated item now ∙ live),
                )
                (used item present, refl)
        ]
  ]

  pub exists-Agrees : Agrees (flag_of (exists m now k)) (spec_exists (abstract m) now k)
  exists-Agrees = elim (Option-cases (m.items k)) [
    | inl absent ↦
        rw
          (exists_absent m now k absent, spec_exists_absent (abstract m) now k (look_absent absent))
          (refl, refl)
    | inr (item, present) ↦
        let there = look_present item present in
        elim (Bool-cases (is_expired item now)) [
          | inl old ↦
              rw
                (
                  exists_old m now k item present old,
                  spec_exists_old (abstract m) now k (entry_of k item) there
                      (is_expired-outdated item now ∙ old),
                )
                (delete_key-abstract m k v, refl)
          | inr live ↦
              rw
                (
                  exists_live m now k item present live,
                  spec_exists_live (abstract m) now k (entry_of k item) there
                      (is_expired-outdated item now ∙ live),
                )
                (refl, refl)
        ]
  ]

-- The steps of `Incr`.
module _ (m : MemoryCache) (now : ℤ) (k : Str) (delta : ℤ) where
  incr_absent :
      m.items k ≡ none
      → let size = length k + length (format_int delta) in
        incr m now k delta
        ≡ (store k (format_int delta) (some (now +ℤ m.ttl)) size (make_room size m), ok delta)
  unfolding incr
  incr_absent h = rw (h, incr) refl

  module _ (item : MemoryItem) (present : m.items k ≡ some item) where
    incr_text : parse_int item.value ≡ none → incr m now k delta ≡ (m, err not_integer)
    unfolding incr
    incr_text bad = rw (present, incr) (rw bad refl)

    incr_number :
        (n : ℤ)
        → parse_int item.value ≡ some n
        → let n' = wrap64 (n +ℤ delta) in
          incr m now k delta ≡ (
            record m {
              items = insert str_discrete k (record item { value = format_int n' }) m.items;
              lru_list = move_to_front item.element m.lru_list;
            },
            ok n',
          )
    unfolding incr
    incr_number n good = rw (present, incr) (rw good refl)

module _ (r : Recency) (now : ℤ) (k : Str) (delta : ℤ) where
  spec_incr_step :
      (o : Option Entry) → lookup k r.entries ≡ o → spec_incr r now k delta ≡ count r now k delta o
  unfolding spec_incr
  spec_incr_step o h = ap (count r now k delta) h

module _ (m : MemoryCache) (now : ℤ) (k : Str) (delta : ℤ) (v : IsValid m) where
  fresh_counter :
      m.items k ≡ none
      → let size = length k + length (format_int delta) in
        abstract (store k (format_int delta) (some (now +ℤ m.ttl)) size (make_room size m))
        ≡ put (abstract m) (entry k (format_int delta) (some (now +ℤ (abstract m).ttl)))
  unfolding abstract
  fresh_counter absent =
      store-abstract m k (format_int delta) (some (now +ℤ m.ttl)) (view m.items m.lru_list)
        (widen m k v absent) refl

  counted :
      (item : MemoryItem) (n : ℤ)
      → m.items k ≡ some item
      → let item' = record item { value = format_int n } in
        abstract (record m {
          items = insert str_discrete k item' m.items;
          lru_list = move_to_front item.element m.lru_list;
        })
        ≡ record (abstract m) { entries = entry_of k item' ∷ without k (abstract m).entries }
  unfolding abstract
  counted item n present =
      let item' : MemoryItem = record item { value = format_int n } in
      recency_path
        (moved m k v item present (insert str_discrete k item' m.items) item'
          (insert_self str_discrete k item' m.items) (insert_ne str_discrete k item' m.items))
        refl refl

  pub incr-Agrees : Agrees (number_of (incr m now k delta)) (spec_incr (abstract m) now k delta)
  incr-Agrees = elim (Option-cases (m.items k)) [
    | inl absent ↦
        rw
          (
            incr_absent m now k delta absent,
            spec_incr_step (abstract m) now k delta none (look_absent m now k v absent),
          )
          (fresh_counter absent, refl)
    | inr (item, present) ↦
        let step =
          spec_incr_step (abstract m) now k delta (some (entry_of k item))
            (look_present m now k v item present) in
        elim (Option-cases (parse_int item.value)) [
          | inl bad ↦ rw (incr_text m now k delta item present bad, step) (rw bad (refl, refl))
          | inr (n, good) ↦
              rw (incr_number m now k delta item present n good, step)
                (rw good (counted item (wrap64 (n +ℤ delta)) present, refl))
        ]
  ]
