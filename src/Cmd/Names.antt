-- ===== src/Cmd/Names.antt =====
-- The names of the flags of cmd/cmd_watcher.go.
use peekd.Base.{Text, codes}

abbrev pub flag_log_level : Text
flag_log_level = codes "log-level"

abbrev pub flag_ecdsa_private_key_hex : Text
flag_ecdsa_private_key_hex = codes "ecdsa-private-key-hex"

abbrev pub flag_listen_ip : Text
flag_listen_ip = codes "listen-ip"

abbrev pub flag_udp_port : Text
flag_udp_port = codes "udp-port"

abbrev pub flag_tcp_port : Text
flag_tcp_port = codes "tcp-port"

abbrev pub flag_target_peers : Text
flag_target_peers = codes "target-peers"

abbrev pub flag_network : Text
flag_network = codes "network"

abbrev pub flag_estimate_active_validators : Text
flag_estimate_active_validators = codes "estimate-active-validators"

abbrev pub flag_db_type : Text
flag_db_type = codes "db-type"

abbrev pub flag_db_host : Text
flag_db_host = codes "db-host"

abbrev pub flag_db_port : Text
flag_db_port = codes "db-port"

abbrev pub flag_db_name : Text
flag_db_name = codes "db-name"

abbrev pub flag_db_user : Text
flag_db_user = codes "db-user"

abbrev pub flag_db_password : Text
flag_db_password = codes "db-password"

abbrev pub flag_db_secure : Text
flag_db_secure = codes "db-secure"

abbrev pub flag_node_alias : Text
flag_node_alias = codes "node-alias"

abbrev pub flag_node_region : Text
flag_node_region = codes "node-region"
