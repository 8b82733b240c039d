-- ===== src/Watcher/Launch.antt =====
-- `launchWatcher` of cmd/cmd_watcher.go, from the flags to the options of the watcher. A flag that is
-- not set, `!cmd.IsSet(..)`, is `none`. The log level is left out.
use peekd.Repository.Options.{
  open_repository-other, open_repository-clickhouse, apply_options, new_repository,
}
use peekd.Base.{
  arith, false, ◌≢◌, codes, sym, ℕ, Bool, Option, none, some, List, [], ◌∷◌, ◌++◌, ◌≡◌, refl, Text,
  ap, ◌∙◌,
}
use peekd.Base.Int.{pos, to_uint16, ℤ}
use peekd.Base.Results.{wrap, Error, Result, err, wrapped}
use peekd.Repository.Options.{ClickhouseConfig}
use peekd.Watcher.{
  repository_options, initialize_repository, WatcherOption, WatcherOptionFunc, default_option,
  apply, with_ecdsa_private_key_hex, with_listen_ip, with_port_udp, with_port_tcp,
  with_target_peers, with_eth_network, with_estimate_active_validators, with_db_type, with_db_name,
  with_db_host, with_db_port, with_db_user, with_db_password, with_db_secure, with_node_alias,
  with_node_region,
}

pub record Flags : Type 0 where
  pub ecdsa_private_key_hex : Option Text
  pub listen_ip : Option Text
  pub udp_port : Option ℤ
  pub tcp_port : Option ℤ
  pub target_peers : Option ℤ
  pub network : Option Text
  pub estimate_active_validators : Option ℕ
  pub db_type : Option Text
  pub db_host : Option Text
  pub db_port : Option ℤ
  pub db_name : Option Text
  pub db_user : Option Text
  pub db_password : Option Text
  pub db_secure : Option Bool
  pub node_alias : Option Text
  pub node_region : Option Text

-- `if cmd.IsSet(flag) { opts = append(opts, with(value)) }`
abbrev append_if :
    {A : Type 0}
    → Option A
    → (A → WatcherOptionFunc)
    → List WatcherOptionFunc
    → List WatcherOptionFunc
append_if none with_it opts = opts
append_if (some a) with_it opts = opts ++ (with_it a ∷ [])

unfoldable pub launch_options : Flags → List WatcherOptionFunc
launch_options flags = append_if flags.node_region with_node_region (
    append_if flags.node_alias with_node_alias (
      append_if flags.db_secure with_db_secure (
        append_if flags.db_password with_db_password (
          append_if flags.db_user with_db_user (
            append_if flags.db_name with_db_name (
              append_if flags.db_port with_db_port (
                append_if flags.db_host with_db_host (
                  append_if flags.db_type with_db_type (
                    append_if flags.estimate_active_validators with_estimate_active_validators (
                      append_if flags.network with_eth_network (
                        append_if flags.target_peers with_target_peers (
                          append_if flags.tcp_port with_port_tcp (
                            append_if flags.udp_port with_port_udp (
                              append_if flags.listen_ip with_listen_ip (
                                append_if flags.ecdsa_private_key_hex with_ecdsa_private_key_hex
                                  ([]))))))))))))))))

abbrev pub or_default : {A : Type 0} → Option A → A → A
or_default none d = d
or_default (some a) d = a

apply-append :
    (xs ys : List WatcherOptionFunc) (o : WatcherOption)
    → apply (xs ++ ys) o ≡ apply ys (apply xs o)
unfolding apply
apply-append [] ys o = refl
apply-append (x ∷ xs) ys o = apply-append xs ys (x o)

-- One more flag, for an option that replaces the field it reads.
apply-append_if :
    {A : Type 0} (flag : Option A) (with_it : A → WatcherOptionFunc) (field : WatcherOption → A)
    (opts : List WatcherOptionFunc) (o r : WatcherOption)
    → ((s : WatcherOption) → with_it (field s) s ≡ s)
    → apply opts o ≡ r
    → apply (append_if flag with_it opts) o ≡ with_it (or_default flag (field r)) r
unfolding apply
apply-append_if none with_it field opts o r law e = e ∙ sym (law r)
apply-append_if (some a) with_it field opts o r law e =
    apply-append opts (with_it a ∷ []) o ∙ ap (with_it a) e

-- The option of each flag that is set, and the default of the others.
abbrev pub launched : Text → Flags → WatcherOption
launched mainnet_name flags = record {
  ecdsa_private_key_hex =
      or_default flags.ecdsa_private_key_hex (default_option mainnet_name).ecdsa_private_key_hex;
  listen_ip = or_default flags.listen_ip (default_option mainnet_name).listen_ip;
  port_udp = or_default flags.udp_port (default_option mainnet_name).port_udp;
  port_tcp = or_default flags.tcp_port (default_option mainnet_name).port_tcp;
  target_peers = or_default flags.target_peers (default_option mainnet_name).target_peers;
  eth_network = or_default flags.network (default_option mainnet_name).eth_network;
  estimate_active_validators =
      or_default flags.estimate_active_validators
        (default_option mainnet_name).estimate_active_validators;
  db_type = or_default flags.db_type (default_option mainnet_name).db_type;
  db_name = or_default flags.db_name (default_option mainnet_name).db_name;
  db_host = or_default flags.db_host (default_option mainnet_name).db_host;
  db_port = or_default flags.db_port (default_option mainnet_name).db_port;
  db_user = or_default flags.db_user (default_option mainnet_name).db_user;
  db_password = or_default flags.db_password (default_option mainnet_name).db_password;
  db_secure = or_default flags.db_secure (default_option mainnet_name).db_secure;
  node_alias = or_default flags.node_alias (default_option mainnet_name).node_alias;
  node_region = or_default flags.node_region (default_option mainnet_name).node_region;
}

-- A watcher launched with some flags has the option of each flag that is set, and the default of the
-- others.
pub apply-launch_options :
    (mainnet_name : Text) (flags : Flags)
    → apply (launch_options flags) (default_option mainnet_name) ≡ launched mainnet_name flags
unfolding apply launch_options
apply-launch_options mainnet_name flags =
    apply-append_if flags.node_region with_node_region (λ s. s.node_region) _ _ _ (λ s. refl)
      (apply-append_if flags.node_alias with_node_alias (λ s. s.node_alias) _ _ _ (λ s. refl)
        (apply-append_if flags.db_secure with_db_secure (λ s. s.db_secure) _ _ _ (λ s. refl)
          (apply-append_if flags.db_password with_db_password (λ s. s.db_password) _ _ _ (λ s. refl)
            (apply-append_if flags.db_user with_db_user (λ s. s.db_user) _ _ _ (λ s. refl)
              (apply-append_if flags.db_name with_db_name (λ s. s.db_name) _ _ _ (λ s. refl)
                (apply-append_if flags.db_port with_db_port (λ s. s.db_port) _ _ _ (λ s. refl)
                  (apply-append_if flags.db_host with_db_host (λ s. s.db_host) _ _ _ (λ s. refl)
                    (apply-append_if flags.db_type with_db_type (λ s. s.db_type) _ _ _ (λ s. refl)
                      (apply-append_if flags.estimate_active_validators
                        with_estimate_active_validators (λ s. s.estimate_active_validators) _ _ _
                        (λ s. refl)
                        (apply-append_if flags.network with_eth_network (λ s. s.eth_network) _ _ _
                          (λ s. refl)
                          (apply-append_if flags.target_peers with_target_peers
                            (λ s. s.target_peers) _ _ _ (λ s. refl)
                            (apply-append_if flags.tcp_port with_port_tcp (λ s. s.port_tcp) _ _ _
                              (λ s. refl)
                              (apply-append_if flags.udp_port with_port_udp (λ s. s.port_udp) _ _ _
                                (λ s. refl)
                                (apply-append_if flags.listen_ip with_listen_ip (λ s. s.listen_ip) _
                                  _ _ (λ s. refl)
                                  (apply-append_if flags.ecdsa_private_key_hex
                                    with_ecdsa_private_key_hex (λ s. s.ecdsa_private_key_hex) _ _ _
                                    (λ s. refl) (refl))))))))))))))))

is_other : (t : Option Text) → t ≢ some (codes "clickhouse") → or_default t [] ≢ codes "clickhouse"
is_other none other = ground arith
is_other (some a) other = λ e. other (ap some e)

-- A watcher launched with a database type other than "clickhouse", or with none, fails: the repository's
-- own default type is always overridden, by the empty one if the flag is not set.
pub initialize_repository-unsupported :
    {Repo : Type 0} (new_clickhouse_repository : ClickhouseConfig → Result Repo)
    (mainnet_name : Text) (flags : Flags)
    → flags.db_type ≢ some (codes "clickhouse")
    → initialize_repository new_clickhouse_repository
        (apply (launch_options flags) (default_option mainnet_name))
      ≡ err (
          wrap
            (Error.new (codes "unsupported database type: " ++ or_default flags.db_type []))
            (codes "failed to initialize repository"))
unfolding initialize_repository repository_options new_repository apply_options
initialize_repository-unsupported new_clickhouse_repository mainnet_name flags other =
    rw apply-launch_options (
      ap (wrapped (codes "failed to initialize repository")) (
        open_repository-other new_clickhouse_repository
          (apply_options (repository_options (launched mainnet_name flags)))
          (is_other flags.db_type other)))

-- A watcher launched with the database type "clickhouse" opens ClickHouse with the host, the port (16
-- bits of it), the name, the user, the password and the security of the flags, each empty, zero or
-- false where the flag is not set.
initialize_repository-clickhouse :
    {Repo : Type 0} (new_clickhouse_repository : ClickhouseConfig → Result Repo)
    (mainnet_name : Text) (flags : Flags)
    → flags.db_type ≡ some (codes "clickhouse")
    → initialize_repository new_clickhouse_repository
        (apply (launch_options flags) (default_option mainnet_name))
      ≡ wrapped (codes "failed to initialize repository") (
          wrapped (codes "failed to create ClickHouse repository") (
            new_clickhouse_repository (record {
              host = or_default flags.db_host [];
              port = to_uint16 (or_default flags.db_port (pos 0));
              database = or_default flags.db_name [];
              username = or_default flags.db_user [];
              password = or_default flags.db_password [];
              secure = or_default flags.db_secure false;
            })))
unfolding initialize_repository repository_options new_repository apply_options
initialize_repository-clickhouse new_clickhouse_repository mainnet_name flags e =
    rw apply-launch_options (
      ap (wrapped (codes "failed to initialize repository")) (
        open_repository-clickhouse new_clickhouse_repository
          (apply_options (repository_options (launched mainnet_name flags)))
          (ap (λ t. or_default t []) e)))
