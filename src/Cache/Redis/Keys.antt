-- ===== src/Cache/Redis/Keys.antt =====
-- The prefix of the keys of sets, hashes and lists: caches with different prefixes never send the
-- same key.
use dgou_framework.Base.{
  ◌≡◌, ◌≢◌, refl, sym, ◌∙◌, false, [], ◌∷◌, ◌++◌, Str, codes, has_byte, arith, ℕ, str_eq_ne,
}
use mathlib.Core.Path.{ap₂}
use dgou_framework.Cache.Redis.{
  RedisCache, key, Command, sadd, srem, smembers, sis_member, hset, hget, hget_all, hdel, lpush,
  lpop, lrange, prefixed,
}

abbrev pub key_of : Command → Str
key_of (sadd k members) = k
key_of (srem k members) = k
key_of (smembers k) = k
key_of (sis_member k member) = k
key_of (hset k field value) = k
key_of (hget k field) = k
key_of (hget_all k) = k
key_of (hdel k fields) = k
key_of (lpush k values) = k
key_of (lpop k) = k
key_of (lrange k start stop) = k

key_of-prefixed : (r : RedisCache) (c : Command) → key_of (prefixed r c) ≡ key r (key_of c)
unfolding prefixed
key_of-prefixed r (sadd k members) = refl
key_of-prefixed r (srem k members) = refl
key_of-prefixed r (smembers k) = refl
key_of-prefixed r (sis_member k member) = refl
key_of-prefixed r (hset k field value) = refl
key_of-prefixed r (hget k field) = refl
key_of-prefixed r (hget_all k) = refl
key_of-prefixed r (hdel k fields) = refl
key_of-prefixed r (lpush k values) = refl
key_of-prefixed r (lpop k) = refl
key_of-prefixed r (lrange k start stop) = refl

heads : {x y : ℕ} {s t : Str} → x ∷ s ≡ y ∷ t → x ≡ y
heads e = cc

tails : {x y : ℕ} {s t : Str} → x ∷ s ≡ y ∷ t → s ≡ t
tails e = cc

clash : (y : ℕ) (q : Str) → has_byte b':' (y ∷ q) ≡ false → b':' ≢ y
unfolding has_byte
clash y q h e = ground arith

tail_free : (y : ℕ) (q : Str) → has_byte b':' (y ∷ q) ≡ false → has_byte b':' q ≡ false
unfolding has_byte
tail_free y q h = ground arith

-- What stands before the first colon.
before_colon :
    (p q k l : Str)
    → has_byte b':' p ≡ false
    → has_byte b':' q ≡ false
    → p ++ codes ":" ++ k ≡ q ++ codes ":" ++ l
    → (p ≡ q) × (k ≡ l)
unfolding has_byte
before_colon [] [] k l hp hq e = (refl, cc)
before_colon [] (y ∷ q) k l hp hq e = absurd (clash y q hq (heads e))
before_colon (x ∷ p) [] k l hp hq e = absurd (clash x p hp (sym (heads e)))
before_colon (x ∷ p) (y ∷ q) k l hp hq e =
    let (same, rest) = before_colon p q k l (tail_free x p hp) (tail_free y q hq) (tails e) in
    (ap₂ (λ h t. h ∷ t) (heads e) same, rest)

with_prefix : (r : RedisCache) (k : Str) → r.prefix ≢ [] → key r k ≡ r.prefix ++ codes ":" ++ k
unfolding key
with_prefix r k n = rw (str_eq_ne r.prefix [] n) refl

-- Caches whose prefixes differ, are not empty and hold no colon have no key in common.
pub key-apart :
    (r t : RedisCache) (k l : Str)
    → r.prefix ≢ []
    → t.prefix ≢ []
    → has_byte b':' r.prefix ≡ false
    → has_byte b':' t.prefix ≡ false
    → r.prefix ≢ t.prefix
    → key r k ≢ key t l
key-apart r t k l some_r some_t no_r no_t apart e =
    apart
      (before_colon r.prefix t.prefix k l no_r no_t
        (sym (with_prefix r k some_r) ∙ e ∙ with_prefix t l some_t)).0

-- Where two commands on sets, hashes or lists are sent for the same key, by caches whose prefixes are
-- not empty and hold no colon, the prefixes and the callers' keys are the same.
pub prefixed-apart :
    (r t : RedisCache) (c d : Command)
    → r.prefix ≢ []
    → t.prefix ≢ []
    → has_byte b':' r.prefix ≡ false
    → has_byte b':' t.prefix ≡ false
    → key_of (prefixed r c) ≡ key_of (prefixed t d)
    → (r.prefix ≡ t.prefix) × (key_of c ≡ key_of d)
prefixed-apart r t c d some_r some_t no_r no_t e =
    let keys : key r (key_of c) ≡ key t (key_of d) =
      sym (key_of-prefixed r c) ∙ e ∙ key_of-prefixed t d in
    before_colon r.prefix t.prefix (key_of c) (key_of d) no_r no_t
      (sym (with_prefix r (key_of c) some_r) ∙ keys ∙ with_prefix t (key_of d) some_t)
