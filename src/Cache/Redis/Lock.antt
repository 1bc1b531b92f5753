-- ===== src/Cache/Redis/Lock.antt =====
-- The lock over Redis.
use dgou_framework.Base.{
  Bool, ◌≡◌, ◌≢◌, refl, sym, ◌∙◌, ap, true, false, none, some, Str, str_eq_refl, str_eq_ne, inl,
  inr,
}
use dgou_framework.Base.Int.{ℤ, ◌+ℤ◌, ◌≤ℤ◌, ◌<ℤ◌}
use dgou_framework.Cache.Redis.{
  RedisClient, RedisCache, Reply, reply, failed, lock_taken, lock_key, lock, unlock, generate_token,
  taken,
}

-- What Redis documents of SET with NX and a time, and of GET and DEL, where replies come.
pub record LockLaws (c : RedisClient) : Type 0 where
  pub set_nx-free :
      (s : c.Store) (now : ℤ) (k v : Str) (ttl : ℤ)
      → c.get s now k ≡ reply none
      → (c.set_nx s now k v ttl).1 ≡ reply true
  pub set_nx-kept :
      (s : c.Store) (now now' : ℤ) (k v : Str) (ttl : ℤ)
      → (c.set_nx s now k v ttl).1 ≡ reply true
      → now ≤ℤ now'
      → now' <ℤ now +ℤ ttl
      → c.get (c.set_nx s now k v ttl).0 now' k ≡ reply (some v)
  pub set_nx-held :
      (s : c.Store) (now : ℤ) (k v w : Str) (ttl : ℤ)
      → c.get s now k ≡ reply (some w)
      → c.set_nx s now k v ttl ≡ (s, reply false)
  pub get-del : (s : c.Store) (now : ℤ) (k : Str) → c.get (c.del s k).0 now k ≡ reply none

taken-inr :
    (t token : Str) (o : Reply Bool) → taken t o ≡ inr token → (o ≡ reply true) × (token ≡ t)
taken-inr t token (reply true) e = (refl, cc)
taken-inr t token (reply false) e = cc
taken-inr t token failed e = cc

module _ (c : RedisClient) (laws : LockLaws c) (r : RedisCache) where
  granted :
      (s : c.Store) (now : ℤ) (k : Str) (ttl : ℤ) (token : Str)
      → (lock c r s now k ttl).1 ≡ inr token
      → ((c.set_nx s now (lock_key c r k) generate_token ttl).1 ≡ reply true)
        × (token ≡ generate_token)
  unfolding lock
  granted s now k ttl token e =
      taken-inr generate_token token (c.set_nx s now (lock_key c r k) generate_token ttl).1 e

  locked_value :
      (s : c.Store) (now now' : ℤ) (k : Str) (ttl : ℤ) (token : Str)
      → (lock c r s now k ttl).1 ≡ inr token
      → now ≤ℤ now'
      → now' <ℤ now +ℤ ttl
      → c.get (lock c r s now k ttl).0 now' (lock_key c r k) ≡ reply (some generate_token)
  unfolding lock
  locked_value s now now' k ttl token e h h' =
      let (ok, same) = granted s now k ttl token e in
      laws.set_nx-kept s now now' (lock_key c r k) generate_token ttl ok h h'

  lock_held :
      (s : c.Store) (now : ℤ) (k : Str) (ttl : ℤ) (w : Str)
      → c.get s now (lock_key c r k) ≡ reply (some w)
      → lock c r s now k ttl ≡ (s, inl lock_taken)
  unfolding lock
  lock_held s now k ttl w held =
      ap (λ p. (p.0, taken generate_token p.1))
        (laws.set_nx-held s now (lock_key c r k) generate_token w ttl held)

  lock_free :
      (s : c.Store) (now : ℤ) (k : Str) (ttl : ℤ)
      → c.get s now (lock_key c r k) ≡ reply none
      → (lock c r s now k ttl).1 ≡ inr generate_token
  unfolding lock
  lock_free s now k ttl free =
      ap (taken generate_token) (laws.set_nx-free s now (lock_key c r k) generate_token ttl free)

  unlock_other :
      (s : c.Store) (now : ℤ) (k token w : Str)
      → c.get s now (lock_key c r k) ≡ reply (some w)
      → w ≢ token
      → unlock c r s now k token ≡ s
  unfolding unlock
  unlock_other s now k token w held n = rw held (rw (str_eq_ne w token n) refl)

  unlock_own :
      (s : c.Store) (now : ℤ) (k w : Str)
      → c.get s now (lock_key c r k) ≡ reply (some w)
      → unlock c r s now k w ≡ (c.del s (lock_key c r k)).0
  unfolding unlock
  unlock_own s now k w held = rw held (rw (str_eq_refl w) refl)

  -- After a Lock that succeeds, and before its time is over, another Lock of the key is refused and
  -- changes nothing, and so does an Unlock with another token.
  pub lock-lock :
      (s : c.Store) (now now' : ℤ) (k : Str) (ttl ttl' : ℤ) (token other : Str)
      → (lock c r s now k ttl).1 ≡ inr token
      → now ≤ℤ now'
      → now' <ℤ now +ℤ ttl
      → other ≢ token
      → let s' = (lock c r s now k ttl).0 in
        (lock c r s' now' k ttl' ≡ (s', inl lock_taken)) × (unlock c r s' now' k other ≡ s')
  lock-lock s now now' k ttl ttl' token other e h h' n =
      let s' = (lock c r s now k ttl).0 in
      let held = locked_value s now now' k ttl token e h h' in
      let (ok, same) = granted s now k ttl token e in
      (
        lock_held s' now' k ttl' generate_token held,
        unlock_other s' now' k other generate_token held (λ q. n (sym q ∙ sym same)),
      )

  -- The token of a Lock of any key at any time unlocks every lock of the cache, also one that
  -- another client holds: whoever has had a lock once can take the lock of a key that is held.
  pub lock-unlock_stolen :
      (s t : c.Store) (now now' earlier : ℤ) (k l : Str) (ttl ttl' ttl'' : ℤ) (token own : Str)
      → (lock c r t earlier l ttl'').1 ≡ inr own
      → (lock c r s now k ttl).1 ≡ inr token
      → now ≤ℤ now'
      → now' <ℤ now +ℤ ttl
      → (lock c r (unlock c r (lock c r s now k ttl).0 now' k own) now' k ttl').1 ≡ inr token
  lock-unlock_stolen s t now now' earlier k l ttl ttl' ttl'' token own e' e h h' =
      let s' = (lock c r s now k ttl).0 in
      let held = locked_value s now now' k ttl token e h h' in
      let mine = (granted s now k ttl token e).1 in
      let theirs = (granted t earlier l ttl'' own e').1 in
      let released = unlock_own s' now' k generate_token held in
      let free = laws.get-del s' now' (lock_key c r k) in
      rw (theirs, released, mine) (lock_free _ now' k ttl' free)
