-- ===== src/Database/RoundRobin.antt =====
-- The choice of a replica.
use dgou_framework.Base.{
  ℕ, zero, suc, ◌+◌, ◌-◌, ◌%◌, ◌^◌, ◌<◌, ◌≡◌, refl, ap, ◌∙◌, sym, Option, List, [], ◌∷◌, length,
  get_elem?, arith,
}
use native.Mathlib.Nat.{mod-lt, mod-eq_of_lt, mod-add-mod, add-mod-mod, add-mod_right}
use dgou_framework.Database.{Db, slave}

-- The turn of the replica `i`, and that it is the only one.
mod_turn : (c i k : ℕ) → i < k → (c + suc ((i + (k - suc c % k)) % k)) % k ≡ i
mod_turn c i k h =
    let x = i + (k - suc c % k) in
    let whole : suc c % k + x ≡ i + k = omega (arith, mod-lt (suc c) {m = k} (omega arith)) in
    ap (λ (t : ℕ). t % k) (omega arith)
    ∙ add-mod-mod (suc c) x k
    ∙ sym (mod-add-mod (suc c) k x)
    ∙ ap (λ (t : ℕ). t % k) whole
    ∙ add-mod_right i k
    ∙ mod-eq_of_lt h

mod_unique : (c m n k : ℕ) → m < k → n < k → (c + suc m) % k ≡ (c + suc n) % k → m ≡ n
mod_unique c m n k hm hn e = grind arith

module _ {ℓ} {Conn : Type ℓ} where
  -- The `n`-th later call of `Slave`, from 0: what it returns.
  unfoldable pub nth_slave : Db Conn → ℕ → Option Conn
  nth_slave db zero = (slave db).1
  nth_slave db (suc n) = nth_slave (slave db).0 n

  slave_fields :
      (m : Conn) (l : List Conn) (k : ℕ)
      → 0 < length l
      → k + 1 < 2 ^ 64
      → let db : Db Conn = record { master = m; slaves = l; counter = k } in
        ((slave db).0 ≡ record db { counter = k + 1 })
        × ((slave db).1 ≡ get_elem? l ((k + 1) % length l))
  unfolding slave
  slave_fields m [] k h fits = elim h [ ]
  slave_fields m (c ∷ cs) k h fits =
      let small : (k + 1) % 2 ^ 64 ≡ k + 1 = omega arith in rw small (refl, refl)

  slave_step :
      (db : Db Conn)
      → 0 < length db.slaves
      → db.counter + 1 < 2 ^ 64
      → ((slave db).0 ≡ record db { counter = db.counter + 1 })
        × ((slave db).1 ≡ get_elem? db.slaves ((db.counter + 1) % length db.slaves))
  slave_step db h fits = slave_fields db.master db.slaves db.counter h fits

  -- The `n`-th later call picks the replica at the counter plus `n + 1`, modulo their number.
  pub nth_slave-get_elem? :
      (n : ℕ) (db : Db Conn)
      → 0 < length db.slaves
      → db.counter + suc n < 2 ^ 64
      → nth_slave db n ≡ get_elem? db.slaves ((db.counter + suc n) % length db.slaves)
  unfolding nth_slave
  nth_slave-get_elem? zero db h fits = (slave_step db h (omega arith)).1
  nth_slave-get_elem? (suc n) db h fits =
      let (next, picked) = slave_step db h (omega arith) in
      rw next (
        nth_slave-get_elem? n (record db { counter = db.counter + 1 }) h (omega arith)
        ∙ ap (λ (k : ℕ). get_elem? db.slaves (k % length db.slaves)) (omega arith))

  -- Among as many successive calls as there are replicas, each replica has its turn, and only
  -- one, as long as the counter does not wrap.
  pub slave_round :
      (db : Db Conn) (i : ℕ)
      → i < length db.slaves
      → db.counter + length db.slaves < 2 ^ 64
      → (n : ℕ) × (n < length db.slaves)
        × (nth_slave db n ≡ get_elem? db.slaves i)
        × ((m : ℕ) → m < length db.slaves → (db.counter + suc m) % length db.slaves ≡ i → m ≡ n)
  slave_round db i h fits =
      let k = length db.slaves in
      let n = (i + (k - suc db.counter % k)) % k in
      let turn = mod_turn db.counter i k h in
      let small : n < k =
        omega (arith, mod-lt (i + (k - suc db.counter % k)) {m = k} (omega arith)) in
      (
        n,
        small,
        rw turn at (nth_slave-get_elem? n db (omega arith) (omega arith)),
        λ m hm e. mod_unique db.counter m n k hm small (e ∙ sym turn),
      )
