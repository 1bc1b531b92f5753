-- ===== src/Tests/Support/App.antt =====
-- Replicas, errors, answers and the configuration.
use dgou_framework.Base.{ℕ, suc, ◌+◌, ◌%◌, ◌<◌, ◌≡◌, some, [], ◌∷◌, arith}
use dgou_framework.Database.{Db}
use dgou_framework.Database.RoundRobin.{nth_slave, slave_round}

abbrev replicas : Db ℕ
replicas = record { master = 0; slaves = 11 ∷ 12 ∷ 13 ∷ []; counter = 7 }

slave_round_example :
    (n : ℕ) × (n < 3)
    × (nth_slave replicas n ≡ some 12)
    × ((m : ℕ) → m < 3 → (7 + suc m) % 3 ≡ 1 → m ≡ n)
slave_round_example = slave_round replicas 1 (omega arith) (omega arith)
