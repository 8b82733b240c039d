-- ===== src/Repository/Open.antt =====
-- `NewClickHouseRepository` and `Close` of repository/clickhouse.go, over the driver of ClickHouse.
use peekd.Base.{ℕ, Bool, true, Option, none, some, List, [], ◌∷◌, ◌++◌, Text, codes, if◌then◌else◌}
use peekd.Base.Int.{ℤ, pos}
use peekd.Base.Results.{Result, ok, wrapped, ◌>>=◌}
use peekd.Repository.Options.{ClickhouseConfig}

-- `clickhouse.Options`, as far as it is set.
pub record ClickHouseOptions : Type 0 where
  pub addr : List Text
  pub database : Text
  pub username : Text
  pub password : Text
  pub native_protocol : Bool
  pub max_execution_time : ℕ
  pub dial_timeout : ℤ
  pub lz4 : Bool
  -- `&tls.Config{InsecureSkipVerify: ..}`
  pub tls : Option Bool

-- The driver, and `%d`.
pub record Driver : Type 1 where
  pub Conn : Type 0
  pub open_conn : ClickHouseOptions → Result Conn
  pub ping : Conn → Result (Unit {0})
  pub close : Conn → Result (Unit {0})
  pub decimal : ℕ → Text

module _ (driver : Driver) where
  open driver use {Conn, open_conn, ping, close, decimal}

  pub record ClickHouseRepository : Type 0 where
    pub conn : Conn

  unfoldable pub options_of : ClickhouseConfig → ClickHouseOptions
  options_of cfg = record {
    addr = (cfg.host ++ (codes ":" ++ decimal cfg.port)) ∷ [];
    database = cfg.database;
    username = cfg.username;
    password = cfg.password;
    native_protocol = true;
    max_execution_time = 60;
    dial_timeout = pos 5_000_000_000;
    lz4 = true;
    tls = if cfg.secure then some true else none;
  }

  unfoldable pub new_clickhouse_repository : ClickhouseConfig → Result ClickHouseRepository
  unfolding options_of
  new_clickhouse_repository cfg = do
    conn ← wrapped (codes "failed to connect to ClickHouse") (open_conn (options_of cfg))
    pinged ← wrapped (codes "failed to ping ClickHouse") (ping conn)
    ok (record { conn = conn })

  abbrev pub close_repository : ClickHouseRepository → Result (Unit {0})
  close_repository r = close r.conn
