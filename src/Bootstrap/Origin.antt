-- ===== src/Bootstrap/Origin.antt =====
-- pkg/bootstrap/bootstrap.go: when `Init` starts an application, and what it then comes from.
use dgou_framework.Base.{
  Str, ℕ, List, Option, none, some, true, ◌≡◌, ◌≢◌, ◌⊎◌, inl, inr, refl, sym, ◌∙◌, ap,
}
use dgou_framework.Async.Pool.{Pool, start, new_pool, PoolError}
use dgou_framework.App.Instance.{
  StorageInstance, register_default_middleware, register_health_check, register_metrics,
  register_pprof, new_app,
}
use dgou_framework.Config.Types.{Config}
use dgou_framework.Config.Load.{LoadError, load}
use dgou_framework.Base.Int.{ℤ, pos, negsuc}
use dgou_framework.Bootstrap.{
  build_app, Outside, started, init, init_storage, assemble, with_storage, with_start, with_pool,
  with_config, pool_of, AppResult,
}

Sum-cases : {A B : Type 0} (x : A ⊎ B) → ((a : A) × (x ≡ inl a)) ⊎ ((b : B) × (x ≡ inr b))
Sum-cases (inl a) = inl (a, refl)
Sum-cases (inr b) = inr (b, refl)

-- What a started application comes from.
module _ {File Conn : Type 0} (o : Outside File Conn) (r : AppResult Conn) where
  abbrev pub Made : Config → Pool → Type 0
  Made cfg pool =
      (storage : StorageInstance) × (init_storage o cfg ≡ some storage)
      × (r ≡ assemble o cfg pool storage)

  with_storage-Made :
      (cfg : Config) (pool : Pool) (s : Option StorageInstance)
      → init_storage o cfg ≡ s
      → with_storage o cfg pool s ≡ started r
      → Made cfg pool
  unfolding with_storage
  with_storage-Made cfg pool none h e = cc
  with_storage-Made cfg pool (some s) h e = (s, h, cc)

  with_start-Made :
      (cfg : Config) (p : Pool × Option PoolError) → with_start o cfg p ≡ started r → Made cfg p.0
  unfolding with_start
  with_start-Made cfg (pool, none) e = with_storage-Made cfg pool (init_storage o cfg) refl e
  with_start-Made cfg (pool, some x) e = cc

  pub record Pooled (cfg : Config) : Type 0 where
    pub n : ℕ
    pub workers : cfg.async.max_workers ≡ pos n
    pub made : Made cfg (start o.heap (new_pool n cfg.async.max_queue_size)).0

  with_pool-Pooled :
      (cfg : Config) (z : ℤ)
      → cfg.async.max_workers ≡ z
      → with_pool o cfg (pool_of z cfg.async.max_queue_size) ≡ started r
      → Pooled cfg
  unfolding with_pool
  with_pool-Pooled cfg (pos n) h e = record {
    n = n;
    workers = h;
    made = with_start-Made cfg (start o.heap (new_pool n cfg.async.max_queue_size)) e;
  }
  with_pool-Pooled cfg (negsuc n) h e = cc

  with_cfg-Pooled : (cfg : Config) → with_config o (inr cfg) ≡ started r → Pooled cfg
  unfolding with_config
  with_cfg-Pooled cfg e = with_pool-Pooled cfg cfg.async.max_workers refl e

  with_error : (l : LoadError) → with_config o (inl l) ≢ started r
  unfolding with_config
  with_error l e = cc

  pub init-Pooled :
      (path : List Str)
      → init o path ≡ started r
      → (cfg : Config) × (load o.viper path ≡ inr cfg) × Pooled cfg
  unfolding init
  init-Pooled path e = elim (Sum-cases (load o.viper path)) [
    | inl (l, failed) ↦ absurd (with_error l (sym (ap (with_config o) failed) ∙ e))
    | inr (cfg, good) ↦ (cfg, good, with_cfg-Pooled cfg (sym (ap (with_config o) good) ∙ e))
  ]

-- With a configuration and a storage, Init starts the application.
module _ {File Conn : Type 0} (o : Outside File Conn) (cfg : Config) where
  start-none : (n : ℕ) (q : ℤ) → (start o.heap (new_pool n q)).1 ≡ none
  unfolding start new_pool
  start-none n q = refl

  with_start-started :
      (p : Pool × Option PoolError) (s : StorageInstance)
      → p.1 ≡ none
      → init_storage o cfg ≡ some s
      → with_start o cfg p ≡ started (assemble o cfg p.0 s)
  unfolding with_start with_storage
  with_start-started (pool, none) s e h = ap (with_storage o cfg pool) h
  with_start-started (pool, some x) s e h = cc

  with_pool-started :
      (n : ℕ) (q : ℤ) (s : StorageInstance)
      → init_storage o cfg ≡ some s
      → with_pool o cfg (some (new_pool n q))
        ≡ started (assemble o cfg (start o.heap (new_pool n q)).0 s)
  unfolding with_pool
  with_pool-started n q s h = with_start-started (start o.heap (new_pool n q)) s (start-none n q) h

  with_config-pool :
      with_config o (inr cfg)
      ≡ with_pool o cfg (pool_of cfg.async.max_workers cfg.async.max_queue_size)
  unfolding with_config
  with_config-pool = refl

  pub init_starts :
      (path : List Str) (n : ℕ) (s : StorageInstance)
      → load o.viper path ≡ inr cfg
      → cfg.async.max_workers ≡ pos n
      → init_storage o cfg ≡ some s
      → init o path
        ≡ started (assemble o cfg (start o.heap (new_pool n cfg.async.max_queue_size)).0 s)
  unfolding init
  init_starts path n s loaded workers h =
      ap (with_config o) loaded
      ∙ with_config-pool
      ∙ ap (λ z. with_pool o cfg (pool_of z cfg.async.max_queue_size)) workers
      ∙ with_pool-started n cfg.async.max_queue_size s h

module _ {File Conn : Type 0} (o : Outside File Conn) (cfg : Config) (pool : Pool)
    (storage : StorageInstance) where
  pub assemble-app :
      let a = (assemble o cfg pool storage).app in (a.async_pool ≡ true) × (a.cfg ≡ cfg)
  unfolding assemble build_app register_default_middleware register_health_check register_metrics
      register_pprof new_app
  assemble-app = (refl, refl)

  pub assemble-pool : (assemble o cfg pool storage).process.pool ≡ pool
  unfolding assemble
  assemble-pool = refl
