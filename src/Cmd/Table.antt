-- ===== src/Cmd/Table.antt =====
-- The table of the flags in cmd/cmd_watcher.go.
use peekd.Base.{List, [], ◌∷◌, ◌++◌, Text, codes}
use peekd.Cmd.Names.{
  flag_log_level, flag_ecdsa_private_key_hex, flag_listen_ip, flag_udp_port, flag_tcp_port,
  flag_target_peers, flag_network, flag_estimate_active_validators, flag_db_type, flag_db_host,
  flag_db_port, flag_db_name, flag_db_user, flag_db_password, flag_db_secure, flag_node_alias,
  flag_node_region,
}

pub data Kind : Type 0 where
  string_flag int_flag uint_flag bool_flag : Kind

pub record Flag : Type 0 where
  pub kind : Kind
  pub name : Text
  pub usage : Text
  pub sources : Text
  pub default_text : Text

-- `fmt.Sprintf("%s_%s", EnvPrefix, name)`
abbrev env_var : Text → Text
env_var name = codes "PEEKD" ++ (codes "_" ++ name)

-- A flag with its name, usage, variable of the environment, and documented default.
abbrev flag : Kind → Text → Text → Text → Text → Flag
flag kind name usage env default_text = record {
  kind = kind;
  name = name;
  usage = usage;
  sources = env_var env;
  default_text = default_text;
}

-- `mainnet_name` is params.MainnetName.
unfoldable pub flags_table : Text → List Flag
flags_table mainnet_name =
    flag string_flag flag_log_level (codes "Log level") (codes "LOG_LEVEL") ([])
    ∷ flag string_flag flag_ecdsa_private_key_hex (codes "ECDSA Private Key Hex")
        (codes "ECDSA_PRIVATE_KEY_HEX") ([])
    ∷ flag string_flag flag_listen_ip (codes "Listen IP for p2p networking") (codes "LISTEN_IP")
        (codes "127.0.0.1")
    ∷ flag int_flag flag_udp_port (codes "UDP port for p2p networking") (codes "UDP_PORT")
        (codes "9090")
    ∷ flag int_flag flag_tcp_port (codes "TCP port for p2p networking") (codes "TCP_PORT")
        (codes "9090")
    ∷ flag int_flag flag_target_peers (codes "Number of target peers") (codes "TARGET_PEERS")
        (codes "100")
    ∷ flag string_flag flag_network (codes "ethereum network") (codes "NETWORK") mainnet_name
    ∷ flag uint_flag flag_estimate_active_validators
        (codes "estimate active validators in ethereum network")
        (codes "ESTIMATE_ACTIVE_VALIDATORS") (codes "0")
    ∷ flag string_flag flag_db_type (codes "Database type (clickhouse)") (codes "DB_TYPE")
        (codes "clickhouse")
    ∷ flag string_flag flag_db_host (codes "Database host") (codes "DB_HOST") (codes "localhost")
    ∷ flag int_flag flag_db_port (codes "Database port") (codes "DB_PORT") (codes "9000")
    ∷ flag string_flag flag_db_name (codes "Database name") (codes "DB_NAME") (codes "peekd")
    ∷ flag string_flag flag_db_user (codes "Database user") (codes "DB_USER") (codes "default")
    ∷ flag string_flag flag_db_password (codes "Database password") (codes "DB_PASSWORD") ([])
    ∷ flag bool_flag flag_db_secure (codes "Database secure") (codes "DB_SECURE") (codes "false")
    ∷ flag string_flag flag_node_alias (codes "Node Alias") (codes "NODE_ALIAS") ([])
    ∷ flag string_flag flag_node_region (codes "Node region") (codes "NODE_REGION") ([])
    ∷ []
