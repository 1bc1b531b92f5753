-- ===== src/Cache/Redis/Isolation.antt =====
-- What one cache over Redis writes, and what another one with a different prefix sees.
use dgou_framework.Base.{
  ◌≡◌, ◌≢◌, refl, ap, ◌∙◌, Bool, true, false, List, [], ◌∷◌, Str, has_byte, Option, ℕ, codes, ◌++◌,
  if◌then◌else◌,
}
use dgou_framework.Base.Int.{ℤ}
use dgou_framework.Cache.Memory.{Value}
use dgou_framework.Cache.Redis.{
  RedisClient, RedisCache, Reply, key, get, set, delete_key, exists, incr, decr, lock, unlock,
  lock_key, holds, generate_token, found, is_some_key,
}
use dgou_framework.Cache.Redis.Keys.{key-apart}

-- what a client sees of one key
abbrev pub seen : (c : RedisClient) → c.Store → ℤ → Str → Reply (Option Str) × Reply ℕ
seen c s now k = (c.get s now k, c.exists s now k)

-- Each command of Redis that writes a string key leaves the other keys as they were.
pub record FrameLaws (c : RedisClient) : Type 0 where
  pub set_ne :
      (s : c.Store) (now later : ℤ) (k q v : Str) (ttl : ℤ)
      → q ≢ k
      → seen c (c.set s now k v ttl).0 later q ≡ seen c s later q
  pub set_nx_ne :
      (s : c.Store) (now later : ℤ) (k q v : Str) (ttl : ℤ)
      → q ≢ k
      → seen c (c.set_nx s now k v ttl).0 later q ≡ seen c s later q
  pub del_ne :
      (s : c.Store) (later : ℤ) (k q : Str)
      → q ≢ k
      → seen c (c.del s k).0 later q ≡ seen c s later q
  pub incr_by_ne :
      (s : c.Store) (now later : ℤ) (k q : Str) (n : ℤ)
      → q ≢ k
      → seen c (c.incr_by s now k n).0 later q ≡ seen c s later q
  pub decr_by_ne :
      (s : c.Store) (now later : ℤ) (k q : Str) (n : ℤ)
      → q ≢ k
      → seen c (c.decr_by s now k n).0 later q ≡ seen c s later q

-- a call that may write, at a time
pub data Write : Type 0 where
  set_call : (now : ℤ) (k : Str) (v : Value) (ttl : ℤ) → Write
  delete_call : (k : Str) → Write
  incr_call decr_call : (now : ℤ) (k : Str) (delta : ℤ) → Write
  lock_call : (now : ℤ) (k : Str) (ttl : ℤ) → Write
  unlock_call : (now : ℤ) (k token : Str) → Write

module _ (c : RedisClient) where
  unfoldable pub write : RedisCache → c.Store → Write → c.Store
  write t s (set_call now k v ttl) = (set c t s now k v ttl).0
  write t s (delete_call k) = (delete_key c t s k).0
  write t s (incr_call now k delta) = (incr c t s now k delta).0
  write t s (decr_call now k delta) = (decr c t s now k delta).0
  write t s (lock_call now k ttl) = (lock c t s now k ttl).0
  write t s (unlock_call now k token) = unlock c t s now k token

  unfoldable pub writes : RedisCache → c.Store → List Write → c.Store
  unfolding write
  writes t s [] = s
  writes t s (w ∷ ws) = writes t (write t s w) ws

  module _ (laws : FrameLaws c) (r t : RedisCache) (some_r : r.prefix ≢ []) (some_t : t.prefix ≢ [])
      (no_r : has_byte b':' r.prefix ≡ false) (no_t : has_byte b':' t.prefix ≡ false)
      (apart : r.prefix ≢ t.prefix) where
    other_key : (k l : Str) → key r k ≢ key t l
    other_key k l = key-apart r t k l some_r some_t no_r no_t apart

    deleted :
        (b : Bool) (s : c.Store) (now : ℤ) (k l : Str)
        → seen c (if b then (c.del s (key t l)).0 else s) now (key r k) ≡ seen c s now (key r k)
    deleted true s now k l = laws.del_ne s now (key t l) (key r k) (other_key k l)
    deleted false s now k l = refl

    write-seen :
        (s : c.Store) (w : Write) (now : ℤ) (k : Str)
        → seen c (write t s w) now (key r k) ≡ seen c s now (key r k)
    unfolding write set delete_key incr decr lock unlock lock_key
    write-seen s (set_call at l v ttl) now k =
        laws.set_ne s at now (key t l) (key r k) _ ttl (other_key k l)
    write-seen s (delete_call l) now k = laws.del_ne s now (key t l) (key r k) (other_key k l)
    write-seen s (incr_call at l delta) now k =
        laws.incr_by_ne s at now (key t l) (key r k) delta (other_key k l)
    write-seen s (decr_call at l delta) now k =
        laws.decr_by_ne s at now (key t l) (key r k) delta (other_key k l)
    write-seen s (lock_call at l ttl) now k =
        laws.set_nx_ne s at now (lock_key c t l) (key r k) generate_token ttl
          (other_key k (codes "lock:" ++ l))
    write-seen s (unlock_call at l token) now k =
        deleted (holds token (c.get s at (lock_key c t l))) s now k (codes "lock:" ++ l)

    writes-seen :
        (s : c.Store) (ws : List Write) (now : ℤ) (k : Str)
        → seen c (writes t s ws) now (key r k) ≡ seen c s now (key r k)
    unfolding writes
    writes-seen s [] now k = refl
    writes-seen s (w ∷ ws) now k = writes-seen (write t s w) ws now k ∙ write-seen s w now k

    -- Two caches over one Redis whose prefixes differ, are not empty and hold no colon: whatever one
    -- of them does by Set, Delete, Incr, Decr, Lock and Unlock, the other's Get and Exists give
    -- for every key what they gave before, and its Unlock finds the token of its lock as it was.
    pub writes-apart :
        (s : c.Store) (ws : List Write) (now : ℤ) (k token : Str)
        → (get c r (writes t s ws) now k ≡ get c r s now k)
          × (exists c r (writes t s ws) now k ≡ exists c r s now k)
          × (holds token (c.get (writes t s ws) now (lock_key c r k))
              ≡ holds token (c.get s now (lock_key c r k)))
    unfolding get exists lock_key
    writes-apart s ws now k token = (
      ap (λ p. found p.0) (writes-seen s ws now k),
      ap (λ p. is_some_key p.1) (writes-seen s ws now k),
      ap (λ p. holds token p.0) (writes-seen s ws now (codes "lock:" ++ k)),
    )
