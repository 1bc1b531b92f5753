-- ===== src/Tests/Redis.antt =====
-- A Redis that keeps its strings with the time when they end, and the lock over it.
use dgou_framework.Base.{
  ◌≡◌, ◌≢◌, refl, ◌∙◌, ap, true, false, Bool, Option, none, some, [], Str, codes, str_discrete,
  GoMap, insert, insert_self, delete, delete_self, empty_map, inl, inr, arith, if◌then◌else◌,
  has_byte, ℕ, List, ◌∷◌, insert_ne, delete_ne,
}
use dgou_framework.Base.Strconv.{format_int}
use dgou_framework.Base.Int.{◌-ℤ◌, ℤ, pos, ◌+ℤ◌, ◌<ℤ◌, ltb_ℤ}
use dgou_framework.Cache.Redis.{
  RedisClient, RedisCache, Reply, reply, failed, lock_taken, lock, unlock, generate_token, hex, get,
  exists, holds, lock_key,
}
use dgou_framework.Cache.Memory.{text}
use dgou_framework.Cache.Redis.Isolation.{
  FrameLaws, Write, set_call, delete_call, incr_call, lock_call, unlock_call, writes, writes-apart,
}
use dgou_framework.Cache.Redis.Lock.{LockLaws, lock-lock, lock-unlock_stolen}

abbrev Store : Type 0
Store = GoMap Str (Str × ℤ)

abbrev live : ℤ → Option (Str × ℤ) → Option Str
live now none = none
live now (some (v, end)) = if ltb_ℤ now end then some v else none

abbrev set_absent : Store → ℤ → Str → Str → ℤ → Option Str → Store × Reply Bool
set_absent s now k v ttl none = (insert str_discrete k (v, now +ℤ ttl) s, reply true)
set_absent s now k v ttl (some w) = (s, reply false)

abbrev present : Option Str → ℕ
present none = 0
present (some v) = 1

-- a counter that is made, and kept for a while; one that is there is not counted further here
abbrev count_absent : Store → ℤ → Str → ℤ → Option Str → Store × Reply ℤ
count_absent s now k n none = (insert str_discrete k (format_int n, now +ℤ pos 1000) s, reply n)
count_absent s now k n (some w) = (s, failed)

abbrev client : RedisClient
client = record {
  Store = Store;
  get = λ s now k. reply (live now (s k));
  set = λ s now k v ttl. (insert str_discrete k (v, now +ℤ ttl) s, true);
  set_nx = λ s now k v ttl. set_absent s now k v ttl (live now (s k));
  del = λ s k. (delete str_discrete k s, true);
  exists = λ s now k. reply (present (live now (s k)));
  incr_by = λ s now k n. count_absent s now k n (live now (s k));
  decr_by = λ s now k n. count_absent s now k (pos 0 -ℤ n) (live now (s k));
}

reply-path : (a b : Option Str) → ◌≡◌ {A = Reply (Option Str)} (reply a) (reply b) → a ≡ b
reply-path a b e = cc

live_before : (now end : ℤ) (v : Str) → now <ℤ end → live now (some (v, end)) ≡ some v
live_before now end v h = ground arith

kept :
    (s : Store) (now now' : ℤ) (k v : Str) (ttl : ℤ) (o : Option Str)
    → (set_absent s now k v ttl o).1 ≡ reply true
    → now' <ℤ now +ℤ ttl
    → live now' ((set_absent s now k v ttl o).0 k) ≡ some v
kept s now now' k v ttl none e h =
    ap (live now') (insert_self str_discrete k (v, now +ℤ ttl) s)
    ∙ live_before now' (now +ℤ ttl) v h
kept s now now' k v ttl (some w) e h = cc

client-laws : LockLaws client
client-laws = record {
  set_nx-free = λ s now k v ttl h.
      ap (λ o. (set_absent s now k v ttl o).1) (reply-path (live now (s k)) none h);
  set_nx-kept =
      λ s now now' k v ttl e h h'. ap reply (kept s now now' k v ttl (live now (s k)) e h');
  set_nx-held =
      λ s now k v w ttl h. ap (set_absent s now k v ttl) (reply-path (live now (s k)) (some w) h);
  get-del = λ s now k. ap (λ o. reply (live now o)) (delete_self str_discrete k s);
}

abbrev cache : RedisCache
cache = record { prefix = codes "app" }

locked : (k : Str) (ttl : ℤ) → (lock client cache empty_map (pos 0) k ttl).1 ≡ inr generate_token
unfolding lock
locked k ttl = refl

in_time : pos 3 <ℤ pos 0 +ℤ pos 10
unfolding ◌+ℤ◌
in_time = omega arith

token_differs : codes "mine" ≢ generate_token
unfolding generate_token hex
token_differs e = cc

lock-lock_example :
    let s = (lock client cache empty_map (pos 0) (codes "k") (pos 10)).0 in
    (lock client cache s (pos 3) (codes "k") (pos 5) ≡ (s, inl lock_taken))
    × (unlock client cache s (pos 3) (codes "k") (codes "mine") ≡ s)
lock-lock_example =
    lock-lock client client-laws cache empty_map (pos 0) (pos 3) (codes "k") (pos 10) (pos 5)
      generate_token (codes "mine") (locked (codes "k") (pos 10)) (omega arith) in_time
      token_differs

lock-unlock_stolen_example :
    let s = (lock client cache empty_map (pos 0) (codes "k") (pos 10)).0 in
    (lock client cache
      (unlock client cache s (pos 3) (codes "k") generate_token)
      (pos 3)
      (codes "k")
      (pos 5)).1
    ≡ inr generate_token
lock-unlock_stolen_example =
    lock-unlock_stolen client client-laws cache empty_map empty_map (pos 0) (pos 3) (pos 0)
      (codes "k") (codes "other") (pos 10) (pos 5) (pos 10) generate_token generate_token
      (locked (codes "other") (pos 10)) (locked (codes "k") (pos 10)) (omega arith) in_time

abbrev other_cache : RedisCache
other_cache = record { prefix = codes "shop" }

app_free : has_byte b':' (codes "app") ≡ false
unfolding has_byte
app_free = refl

shop_free : has_byte b':' (codes "shop") ≡ false
unfolding has_byte
shop_free = refl

-- what the client says of an entry
abbrev shown : ℤ → Option (Str × ℤ) → Reply (Option Str) × Reply ℕ
shown now o = (reply (live now o), reply (present (live now o)))

set_absent_ne :
    (s : Store) (now : ℤ) (k q v : Str) (ttl : ℤ) (o : Option Str)
    → q ≢ k
    → (set_absent s now k v ttl o).0 q ≡ s q
set_absent_ne s now k q v ttl none n = insert_ne str_discrete k (v, now +ℤ ttl) s q n
set_absent_ne s now k q v ttl (some w) n = refl

count_absent_ne :
    (s : Store) (now : ℤ) (k q : Str) (d : ℤ) (o : Option Str)
    → q ≢ k
    → (count_absent s now k d o).0 q ≡ s q
count_absent_ne s now k q d none n = insert_ne str_discrete k (format_int d, now +ℤ pos 1000) s q n
count_absent_ne s now k q d (some w) n = refl

client-frame : FrameLaws client
client-frame = record {
  set_ne =
      λ s now later k q v ttl n. ap (shown later) (insert_ne str_discrete k (v, now +ℤ ttl) s q n);
  set_nx_ne = λ s now later k q v ttl n.
      ap (shown later) (set_absent_ne s now k q v ttl (live now (s k)) n);
  del_ne = λ s later k q n. ap (shown later) (delete_ne str_discrete k s q n);
  incr_by_ne =
      λ s now later k q d n. ap (shown later) (count_absent_ne s now k q d (live now (s k)) n);
  decr_by_ne = λ s now later k q d n.
      ap (shown later) (count_absent_ne s now k q (pos 0 -ℤ d) (live now (s k)) n);
}

abbrev calls : List Write
calls =
    set_call (pos 1) (codes "lock:k") (text (codes "v")) (pos 9)
    ∷ incr_call (pos 2) (codes "n") (pos 1)
    ∷ lock_call (pos 3) (codes "k") (pos 9)
    ∷ unlock_call (pos 4) (codes "k") (codes "t")
    ∷ delete_call (codes "n")
    ∷ []

writes-apart_example :
    let s = (lock client cache empty_map (pos 0) (codes "k") (pos 10)).0 in
    (get client cache (writes client other_cache s calls) (pos 5) (codes "k")
      ≡ get client cache s (pos 5) (codes "k"))
    × (exists client cache (writes client other_cache s calls) (pos 5) (codes "k")
        ≡ exists client cache s (pos 5) (codes "k"))
    × (holds generate_token (
          client.get
            (writes client other_cache s calls)
            (pos 5)
            (lock_key client cache (codes "k")))
        ≡ holds generate_token (client.get s (pos 5) (lock_key client cache (codes "k"))))
writes-apart_example =
    writes-apart client client-frame cache other_cache (λ e. cc) (λ e. cc) app_free shop_free
      (λ e. cc) (lock client cache empty_map (pos 0) (codes "k") (pos 10)).0 calls (pos 5)
      (codes "k") generate_token
