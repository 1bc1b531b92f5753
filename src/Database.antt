-- ===== src/Database.antt =====
-- pkg/database/database.go: the master and its replicas, and the round robin over the replicas.
-- Opening a connection (gorm, MySQL) is an argument: it gives a connection or fails. Closing a
-- connection is one too: it says whether an error came back.
pub mod RoundRobin
pub mod Settings
pub mod Model
use dgou_framework.Base.{
  ℕ, zero, suc, ◌+◌, ◌%◌, ◌^◌, Bool, true, false, Option, none, some, List, [], ◌∷◌, ◌++◌, length,
  get_elem?, if◌then◌else◌,
}

pub record Db {ℓ} (Conn : Type ℓ) : Type ℓ where
  pub master : Conn
  pub slaves : List Conn
  pub counter : ℕ  -- uint64

module _ {ℓ κ} {Conn : Type ℓ} {Dsn : Type κ} (open_db : Dsn → Option Conn) where
  abbrev keep_open : Option Conn → List Conn → List Conn
  keep_open none conns = conns
  keep_open (some c) conns = c ∷ conns

  -- The loop over the replicas: one that does not open is left out.
  unfoldable pub open_slaves : List Dsn → List Conn
  open_slaves [] = []
  open_slaves (d ∷ ds) = keep_open (open_db d) (open_slaves ds)

  abbrev with_master : Option Conn → List Conn → Option (Db Conn)
  with_master none slaves = none
  with_master (some m) slaves = some (record { master = m; slaves = slaves; counter = 0 })

  -- `New` fails only if the master does not open.
  unfoldable pub new_db : Dsn → List Dsn → Option (Db Conn)
  unfolding open_slaves
  new_db master slaves = with_master (open_db master) (open_slaves slaves)

abbrev errors_of : Bool → ℕ → ℕ
errors_of true n = suc n
errors_of false n = n

module _ {ℓ} {Conn : Type ℓ} where
  -- `Slave`: the counter goes up by one, modulo 2 ^ 64, and picks the replica. `none` stands for
  -- an index out of range, which panics.
  unfoldable pub slave : Db Conn → Db Conn × Option Conn
  slave db = elim db.slaves [
    | [] ↦ (db, some db.master)
    | c ∷ cs ↦
        let n = (db.counter + 1) % 2 ^ 64 in
        (record db { counter = n }, get_elem? (c ∷ cs) (n % length (c ∷ cs)))
  ]

  -- `Close`: the errors of the connections, the master's first; it fails if there is one.
  unfoldable pub close_all : (Conn → Bool) → List Conn → ℕ
  close_all close_fails [] = 0
  close_all close_fails (c ∷ cs) = errors_of (close_fails c) (close_all close_fails cs)

  unfoldable pub close_db : (Conn → Bool) → Db Conn → Bool
  unfolding close_all
  close_db close_fails db = elim (close_all close_fails (db.master ∷ db.slaves)) [
    | zero ↦ true
    | suc n ↦ false
  ]
