-- ===== src/Database/Settings.antt =====
-- pkg/database/database.go: the configuration of the database, and `New` with it.
use dgou_framework.Base.{Bool, Option, List, Str}
use dgou_framework.Base.Int.{ℤ}
use dgou_framework.Database.{Db, new_db}

pub record DsnConfig : Type 0 where
  pub host : Str
  pub port : ℤ
  pub user : Str
  pub password : Str
  pub db_name : Str
  pub charset : Str
  pub parse_time : Bool
  pub loc : Str
  pub max_open_conns : ℤ
  pub max_idle_conns : ℤ

pub record PoolConfig : Type 0 where
  pub max_open_conns : ℤ
  pub max_idle_conns : ℤ
  pub conn_max_lifetime : ℤ
  pub conn_max_idle_time : ℤ

pub record LogConfig : Type 0 where
  pub slow_threshold : ℤ
  pub enable_logging : Bool
  pub log_level : Str

pub record PerformanceConfig : Type 0 where
  pub prepare_stmt : Bool
  pub disable_foreign_key : Bool

pub record DatabaseConfig : Type 0 where
  pub master : DsnConfig
  pub slaves : List DsnConfig
  pub pool : PoolConfig
  pub log : LogConfig
  pub performance : PerformanceConfig

-- what opening a connection is given
abbrev pub OpenDb : Type 0 → Type 0
OpenDb Conn = DsnConfig → PoolConfig → PerformanceConfig → LogConfig → Option Conn

unfoldable pub new_database : {Conn : Type 0} → OpenDb Conn → DatabaseConfig → Option (Db Conn)
unfolding new_db
new_database open_db cfg =
    new_db (λ dsn. open_db dsn cfg.pool cfg.performance cfg.log) cfg.master cfg.slaves
