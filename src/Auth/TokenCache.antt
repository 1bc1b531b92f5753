-- ===== src/Auth/TokenCache.antt =====
-- pkg/cache/cache.go: the part of the interface `Cache` that pkg/auth uses, with what the manager
-- needs of it, and the in-memory cache as an implementation. The code drops the error of `Set`.
use dgou_framework.Base.{◌≡◌, ◌∙◌, Str, arith}
use dgou_framework.Base.Int.{ℤ, pos, ◌+ℤ◌, ◌≤ℤ◌, ◌<ℤ◌}
use dgou_framework.Cache.Memory.{
  MemoryCache, Value, to_text, Result, ok, err, CacheError, key_not_found, key_expired, expire_time,
  set, get, delete_key,
}
use dgou_framework.Cache.Memory.Promises.{read_at, get-set, get-delete_key}

pub record TokenCache : Type 1 where
  pub Store : Type 0
  pub set : Store → ℤ → Str → Value → ℤ → Store
  pub get : Store → ℤ → Str → Store × Result Str
  pub delete_key : Store → Str → Store
  pub live_key :
      (s : Store) (now now' : ℤ) (k : Str) (v : Value) (ttl : ℤ)
      → pos 0 <ℤ ttl
      → now' ≤ℤ now +ℤ ttl
      → (get (set s now k v ttl) now' k).1 ≡ ok (to_text v)
  pub dead_key :
      (s : Store) (now now' : ℤ) (k : Str) (v : Value) (ttl : ℤ)
      → pos 0 <ℤ ttl
      → now +ℤ ttl <ℤ now'
      → (e : CacheError) × ((get (set s now k v ttl) now' k).1 ≡ err e)
  pub deleted_key :
      (s : Store) (now : ℤ) (k : Str) → (e : CacheError) × ((get (delete_key s k) now k).1 ≡ err e)

pub read_live :
    (now now' ttl default_ttl : ℤ) (s : Str)
    → pos 0 <ℤ ttl
    → now' ≤ℤ now +ℤ ttl
    → read_at (expire_time now ttl default_ttl) now' s ≡ ok s
read_live now now' ttl default_ttl s p h = ground arith

pub read_dead :
    (now now' ttl default_ttl : ℤ) (s : Str)
    → pos 0 <ℤ ttl
    → now +ℤ ttl <ℤ now'
    → read_at (expire_time now ttl default_ttl) now' s ≡ err key_expired
read_dead now now' ttl default_ttl s p h = ground arith

-- The in-memory cache keeps the manager's promises.
abbrev pub memory_token_cache : TokenCache
memory_token_cache = record {
  Store = MemoryCache;
  set = set;
  get = get;
  delete_key = delete_key;
  live_key = λ s now now' k v ttl p h.
      get-set s now now' k v ttl ∙ read_live now now' ttl s.ttl (to_text v) p h;
  dead_key = λ s now now' k v ttl p h.
      (key_expired, get-set s now now' k v ttl ∙ read_dead now now' ttl s.ttl (to_text v) p h);
  deleted_key = λ s now k. (key_not_found, get-delete_key s now k);
}
