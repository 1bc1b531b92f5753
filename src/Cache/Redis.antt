-- ===== src/Cache/Redis.antt =====
-- pkg/cache/redis.go: the cache over Redis. The client (go-redis) is an argument: each command gives
-- a reply or an error, at the time that it is given. Members and values of sets, hashes and lists are
-- passed on as they are.
pub mod Isolation
pub mod Keys
pub mod Lock
use dgou_framework.Base.{
  ℕ, zero, suc, ◌==◌, Bool, true, false, Option, none, some, List, [], ◌∷◌, ◌++◌, Str, codes,
  str_eq, if◌then◌else◌, ltb, ◌⊎◌, inl, inr, ◌+◌, ◌/◌, ◌%◌,
}
use dgou_framework.Base.Int.{ℤ, pos, wrap64, ◌-ℤ◌}
use dgou_framework.Cache.Memory.{Value, to_text}

-- durations in nanoseconds
pub record RedisConfig : Type 0 where
  pub addr : Str
  pub password : Str
  pub db : ℤ
  pub pool_size : ℤ
  pub min_idle_conns : ℤ
  pub max_retries : ℤ
  pub dial_timeout : ℤ
  pub read_timeout : ℤ
  pub write_timeout : ℤ

pub data Reply (A : Type 0) : Type 0 where
  reply : A → Reply A
  failed : Reply A

-- the commands that other operations of the cache only pass on
pub data Command : Type 0 where
  sadd srem lpush hdel : (key : Str) (members : List Str) → Command
  smembers hget_all lpop : (key : Str) → Command
  sis_member hget : (key member : Str) → Command
  hset : (key field value : Str) → Command
  lrange : (key : Str) (start stop : ℤ) → Command

-- The client. A reply of `get` without a value is `redis.Nil`; `del` and `set` say whether a reply
-- came. `incr_by` and `decr_by` give the new number.
pub record RedisClient : Type 1 where
  pub Store : Type 0
  pub get : Store → ℤ → Str → Reply (Option Str)
  pub set : Store → ℤ → Str → Str → ℤ → Store × Bool
  pub set_nx : Store → ℤ → Str → Str → ℤ → Store × Reply Bool
  pub del : Store → Str → Store × Bool
  pub exists : Store → ℤ → Str → Reply ℕ
  pub incr_by : Store → ℤ → Str → ℤ → Store × Reply ℤ
  pub decr_by : Store → ℤ → Str → ℤ → Store × Reply ℤ

pub data RedisError : Type 0 where
  key_missing lock_taken client_error : RedisError

pub record RedisCache : Type 0 where
  pub prefix : Str

-- `NewRedis`: the client must answer a ping.
unfoldable pub new_redis : (RedisConfig → Bool) → RedisConfig → Str → Option RedisCache
new_redis ping cfg prefix = if ping cfg then some (record { prefix = prefix }) else none

unfoldable pub key : RedisCache → Str → Str
key r k = if str_eq r.prefix [] then k else r.prefix ++ codes ":" ++ k

-- `%x` of bytes: two hexadecimal digits for each
abbrev hex_digit : ℕ → ℕ
hex_digit n = if ltb n 10 then 48 + n else 87 + n

unfoldable pub hex : Str → Str
hex [] = []
hex (b ∷ bs) = hex_digit (b / 16) ∷ hex_digit (b % 16) ∷ hex bs

abbrev make_bytes : ℕ → Str
make_bytes zero = []
make_bytes (suc n) = 0 ∷ make_bytes n

unfoldable pub generate_token : Str
unfolding hex
generate_token = hex (make_bytes 16)

abbrev pub found : Reply (Option Str) → RedisError ⊎ Str
found (reply none) = inl key_missing
found (reply (some s)) = inr s
found failed = inl client_error

abbrev pub is_some_key : Reply ℕ → RedisError ⊎ Bool
is_some_key (reply n) = inr (ltb 0 n)
is_some_key failed = inl client_error

abbrev number : Reply ℤ → RedisError ⊎ ℤ
number (reply n) = inr n
number failed = inl client_error

abbrev pub taken : Str → Reply Bool → RedisError ⊎ Str
taken token (reply true) = inr token
taken token (reply false) = inl lock_taken
taken token failed = inl client_error

-- Whether a key's value is the token, as the script of `Unlock` compares it.
abbrev pub holds : Str → Reply (Option Str) → Bool
holds token (reply (some s)) = str_eq s token
holds token _ = false

module _ (c : RedisClient) (r : RedisCache) where
  unfoldable pub get : c.Store → ℤ → Str → RedisError ⊎ Str
  unfolding key
  get s now k = found (c.get s now (key r k))

  unfoldable pub set : c.Store → ℤ → Str → Value → ℤ → c.Store × Bool
  unfolding key
  set s now k v ttl = c.set s now (key r k) (to_text v) ttl

  unfoldable pub delete_key : c.Store → Str → c.Store × Bool
  unfolding key
  delete_key s k = c.del s (key r k)

  unfoldable pub exists : c.Store → ℤ → Str → RedisError ⊎ Bool
  unfolding key
  exists s now k = is_some_key (c.exists s now (key r k))

  unfoldable pub incr : c.Store → ℤ → Str → ℤ → c.Store × (RedisError ⊎ ℤ)
  unfolding key
  incr s now k delta = let (s', n) = c.incr_by s now (key r k) delta in (s', number n)

  unfoldable pub decr : c.Store → ℤ → Str → ℤ → c.Store × (RedisError ⊎ ℤ)
  unfolding key
  decr s now k delta = let (s', n) = c.decr_by s now (key r k) delta in (s', number n)

  unfoldable pub lock_key : Str → Str
  unfolding key
  lock_key k = key r (codes "lock:" ++ k)

  unfoldable pub lock : c.Store → ℤ → Str → ℤ → c.Store × (RedisError ⊎ Str)
  unfolding lock_key generate_token
  lock s now k ttl =
      let (s', ok) = c.set_nx s now (lock_key k) generate_token ttl in (s', taken generate_token ok)

  -- The script, which Redis runs as one step: the key goes if its value is the token. The
  -- error, which is the client's, is left out.
  unfoldable pub unlock : c.Store → ℤ → Str → Str → c.Store
  unfolding lock_key
  unlock s now k token =
      if holds token (c.get s now (lock_key k)) then (c.del s (lock_key k)).0 else s

-- what the operations on sets, hashes and lists send for a caller's command
unfoldable pub prefixed : RedisCache → Command → Command
unfolding key
prefixed r (sadd k members) = sadd (key r k) members
prefixed r (srem k members) = srem (key r k) members
prefixed r (smembers k) = smembers (key r k)
prefixed r (sis_member k member) = sis_member (key r k) member
prefixed r (hset k field value) = hset (key r k) field value
prefixed r (hget k field) = hget (key r k) field
prefixed r (hget_all k) = hget_all (key r k)
prefixed r (hdel k fields) = hdel (key r k) fields
prefixed r (lpush k values) = lpush (key r k) values
prefixed r (lpop k) = lpop (key r k)
prefixed r (lrange k start stop) = lrange (key r k) start stop
