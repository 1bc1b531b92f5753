-- ===== src/Async/Pool/Restart.antt =====
-- `Stop` a second time.
use dgou_framework.Base.{◌<◌, ◌≡◌, refl, true, List, [], ◌∷◌, length, arith}
use dgou_framework.Async.Pool.{Worker, Pool, quit_all, quit_twice, stop}

pub quit_twice-quit_all : (ws : List Worker) → 0 < length ws → quit_twice (quit_all ws) ≡ true
unfolding quit_all quit_twice
quit_twice-quit_all [] h = absurd (omega arith)
quit_twice-quit_all (w ∷ ws) h = refl

-- A second `Stop` of a pool that has workers closes their closed channels, which panics.
pub stop_twice : (p : Pool) → 0 < length p.workers → (stop (stop p)).crashed ≡ true
unfolding stop
stop_twice p some_worker = ground (arith, quit_twice-quit_all p.workers some_worker)
