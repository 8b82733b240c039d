-- ===== src/Cmd/Reads.antt =====
-- What `launchWatcher` of cmd/cmd_watcher.go reads of the flags. The library of the command line is a
-- parameter.
use peekd.Base.{ℕ, Bool, Option, none, some, Text, if◌then◌else◌}
use peekd.Base.Int.{ℤ}
use peekd.Watcher.Launch.{Flags}
use peekd.Cmd.Names.{
  flag_log_level, flag_ecdsa_private_key_hex, flag_listen_ip, flag_udp_port, flag_tcp_port,
  flag_target_peers, flag_network, flag_estimate_active_validators, flag_db_type, flag_db_host,
  flag_db_port, flag_db_name, flag_db_user, flag_db_password, flag_db_secure, flag_node_alias,
  flag_node_region,
}

-- `cmd.IsSet`, and the values of the flags.
pub record Cli : Type 0 where
  pub is_set : Text → Bool
  pub string : Text → Text
  pub int : Text → ℤ
  pub uint : Text → ℕ
  pub bool : Text → Bool

module _ (cli : Cli) where
  open cli use {is_set, string, int, uint, bool}

  abbrev when_set {ℓ} : {A : Type ℓ} → (Text → A) → Text → Option A
  when_set value name = if is_set name then some (value name) else none

  -- The level of the logs, where it is set.
  abbrev pub level_text : Option Text
  level_text = when_set string flag_log_level

  unfoldable pub flags_of : Flags
  flags_of = record {
    ecdsa_private_key_hex = when_set string flag_ecdsa_private_key_hex;
    listen_ip = when_set string flag_listen_ip;
    udp_port = when_set int flag_udp_port;
    tcp_port = when_set int flag_tcp_port;
    target_peers = when_set int flag_target_peers;
    network = when_set string flag_network;
    estimate_active_validators = when_set uint flag_estimate_active_validators;
    db_type = when_set string flag_db_type;
    db_host = when_set string flag_db_host;
    db_port = when_set int flag_db_port;
    db_name = when_set string flag_db_name;
    db_user = when_set string flag_db_user;
    db_password = when_set string flag_db_password;
    db_secure = when_set bool flag_db_secure;
    node_alias = when_set string flag_node_alias;
    node_region = when_set string flag_node_region;
  }
