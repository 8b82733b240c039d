-- ===== src/Repository/Options.antt =====
-- repository/repository.go: the options of a repository, and `NewRepository`. The ClickHouse client is
-- an argument.
use mathlib.Core.List.{foldl, List, [], ◌++◌}
use mathlib.Core.Logic.{ite, if_pos, if_neg}
use peekd.Base.{refl, ◌≡◌, ◌≢◌, ℕ, Bool, false, Text, codes, Text-discrete}
use peekd.Base.Int.{ℤ, pos, to_uint16}
use peekd.Base.Results.{Error, Result, err, wrapped}

pub record RepositoryOption : Type 0 where
  pub db_type : Text
  pub db_name : Text
  pub db_host : Text
  pub db_port : ℤ
  pub db_user : Text
  pub db_password : Text
  pub db_secure : Bool

abbrev pub RepositoryOptionFunc : Type 0
RepositoryOptionFunc = RepositoryOption → RepositoryOption

abbrev pub with_db_type : Text → RepositoryOptionFunc
with_db_type db_type o = record o { db_type = db_type }

abbrev pub with_db_name : Text → RepositoryOptionFunc
with_db_name db_name o = record o { db_name = db_name }

abbrev pub with_db_host : Text → RepositoryOptionFunc
with_db_host db_host o = record o { db_host = db_host }

abbrev pub with_db_port : ℤ → RepositoryOptionFunc
with_db_port db_port o = record o { db_port = db_port }

abbrev pub with_db_user : Text → RepositoryOptionFunc
with_db_user db_user o = record o { db_user = db_user }

abbrev pub with_db_password : Text → RepositoryOptionFunc
with_db_password db_password o = record o { db_password = db_password }

abbrev pub with_db_secure : Bool → RepositoryOptionFunc
with_db_secure db_secure o = record o { db_secure = db_secure }

-- clickhouseConfig of repository/clickhouse.go
pub record ClickhouseConfig : Type 0 where
  pub host : Text
  pub port : ℕ
  pub database : Text
  pub username : Text
  pub password : Text
  pub secure : Bool

abbrev pub default_option : RepositoryOption
default_option = record {
  db_type = codes "clickhouse";
  db_name = codes "peekd";
  db_host = codes "localhost";
  db_port = pos 9000;
  db_user = codes "default";
  db_password = [];
  db_secure = false;
}

unfoldable pub apply_options : List RepositoryOptionFunc → RepositoryOption
apply_options opts =
    foldl (λ (o : RepositoryOption) (opt : RepositoryOptionFunc). opt o) default_option opts

abbrev pub clickhouse_config : RepositoryOption → ClickhouseConfig
clickhouse_config o = record {
  host = o.db_host;
  port = to_uint16 o.db_port;
  database = o.db_name;
  username = o.db_user;
  password = o.db_password;
  secure = o.db_secure;
}

module _ {Repo : Type 0} (new_clickhouse_repository : ClickhouseConfig → Result Repo) where
  -- `switch o.dbType`
  abbrev pub open_repository : RepositoryOption → Result Repo
  open_repository o =
      ite (Text-discrete o.db_type (codes "clickhouse"))
        (wrapped (codes "failed to create ClickHouse repository")
          (new_clickhouse_repository (clickhouse_config o)))
        (err (Error.new (codes "unsupported database type: " ++ o.db_type)))

  unfoldable pub new_repository : List RepositoryOptionFunc → Result Repo
  unfolding apply_options
  new_repository opts = open_repository (apply_options opts)

  pub open_repository-clickhouse :
      (o : RepositoryOption)
      → o.db_type ≡ codes "clickhouse"
      → open_repository o
        ≡ wrapped
            (codes "failed to create ClickHouse repository")
            (new_clickhouse_repository (clickhouse_config o))
  open_repository-clickhouse o e = rw (if_pos (Text-discrete o.db_type (codes "clickhouse")) e) refl

  pub open_repository-other :
      (o : RepositoryOption)
      → o.db_type ≢ codes "clickhouse"
      → open_repository o ≡ err (Error.new (codes "unsupported database type: " ++ o.db_type))
  open_repository-other o other =
      rw (if_neg (Text-discrete o.db_type (codes "clickhouse")) other) refl
