-- ===== src/Watcher.antt =====
-- watcher/watcher.go: the options of a watcher, their defaults, and those it hands to the repository.
-- What Go leaves out of a struct literal is the zero value.
pub mod Launch
pub mod Setup
use mathlib.Core.List.{foldl, List, [], ◌∷◌}
use peekd.Base.{ℕ, Bool, true, false, Text, codes}
use peekd.Base.Int.{ℤ, pos}
use peekd.Base.Results.{Result, wrapped}
use peekd.Repository.Options
use peekd.Repository.Options.{ClickhouseConfig, RepositoryOptionFunc, new_repository}

pub record WatcherOption : Type 0 where
  pub ecdsa_private_key_hex : Text
  pub listen_ip : Text
  pub port_udp : ℤ
  pub port_tcp : ℤ
  pub target_peers : ℤ
  pub eth_network : Text
  pub estimate_active_validators : ℕ
  pub db_type : Text
  pub db_name : Text
  pub db_host : Text
  pub db_port : ℤ
  pub db_user : Text
  pub db_password : Text
  pub db_secure : Bool
  pub node_alias : Text
  pub node_region : Text

abbrev pub WatcherOptionFunc : Type 0
WatcherOptionFunc = WatcherOption → WatcherOption

abbrev pub with_ecdsa_private_key_hex : Text → WatcherOptionFunc
with_ecdsa_private_key_hex ecdsa_private_key_hex o = record o {
  ecdsa_private_key_hex = ecdsa_private_key_hex;
}

abbrev pub with_listen_ip : Text → WatcherOptionFunc
with_listen_ip listen_ip o = record o { listen_ip = listen_ip }

abbrev pub with_port_udp : ℤ → WatcherOptionFunc
with_port_udp port_udp o = record o { port_udp = port_udp }

abbrev pub with_port_tcp : ℤ → WatcherOptionFunc
with_port_tcp port_tcp o = record o { port_tcp = port_tcp }

abbrev pub with_target_peers : ℤ → WatcherOptionFunc
with_target_peers target_peers o = record o { target_peers = target_peers }

abbrev pub with_eth_network : Text → WatcherOptionFunc
with_eth_network eth_network o = record o { eth_network = eth_network }

abbrev pub with_estimate_active_validators : ℕ → WatcherOptionFunc
with_estimate_active_validators estimate_active_validators o = record o {
  estimate_active_validators = estimate_active_validators;
}

abbrev pub with_db_type : Text → WatcherOptionFunc
with_db_type db_type o = record o { db_type = db_type }

abbrev pub with_db_name : Text → WatcherOptionFunc
with_db_name db_name o = record o { db_name = db_name }

abbrev pub with_db_host : Text → WatcherOptionFunc
with_db_host db_host o = record o { db_host = db_host }

abbrev pub with_db_port : ℤ → WatcherOptionFunc
with_db_port db_port o = record o { db_port = db_port }

abbrev pub with_db_user : Text → WatcherOptionFunc
with_db_user db_user o = record o { db_user = db_user }

abbrev pub with_db_password : Text → WatcherOptionFunc
with_db_password db_password o = record o { db_password = db_password }

abbrev pub with_db_secure : Bool → WatcherOptionFunc
with_db_secure db_secure o = record o { db_secure = db_secure }

abbrev pub with_node_alias : Text → WatcherOptionFunc
with_node_alias node_alias o = record o { node_alias = node_alias }

abbrev pub with_node_region : Text → WatcherOptionFunc
with_node_region node_region o = record o { node_region = node_region }

-- `mainnet_name` is params.MainnetName.
abbrev pub default_option : Text → WatcherOption
default_option mainnet_name = record {
  ecdsa_private_key_hex = [];
  listen_ip = codes "127.0.0.1";
  port_udp = pos 9090;
  port_tcp = pos 9090;
  target_peers = pos 80;
  eth_network = mainnet_name;
  estimate_active_validators = 0;
  db_type = [];
  db_name = [];
  db_host = [];
  db_port = pos 0;
  db_user = [];
  db_password = [];
  db_secure = false;
  node_alias = [];
  node_region = [];
}

-- The loop `opt(o)`, from any options on.
unfoldable pub apply : List WatcherOptionFunc → WatcherOption → WatcherOption
apply [] o = o
apply (opt ∷ opts) o = apply opts (opt o)

-- The options of `repository.NewRepository`.
unfoldable pub repository_options : WatcherOption → List RepositoryOptionFunc
repository_options o =
    Options.with_db_type o.db_type
    ∷ Options.with_db_name o.db_name
    ∷ Options.with_db_host o.db_host
    ∷ Options.with_db_port o.db_port
    ∷ Options.with_db_user o.db_user
    ∷ Options.with_db_password o.db_password
    ∷ Options.with_db_secure o.db_secure
    ∷ []

-- The step of `NewWatcher` that opens the repository.
unfoldable pub initialize_repository :
    {Repo : Type 0} → (ClickhouseConfig → Result Repo) → WatcherOption → Result Repo
unfolding repository_options new_repository
initialize_repository new_clickhouse_repository o =
    wrapped (codes "failed to initialize repository")
      (new_repository new_clickhouse_repository (repository_options o))
