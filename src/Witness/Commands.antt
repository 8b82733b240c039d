-- ===== src/Witness/Commands.antt =====
-- The theorems on the command line.
use mathlib.Core.Path.{◌≡◌}
use peekd.Base.{
  map, All, ite, ℕ_discrete, ◌↔◌, true, false, List, [], ◌∷◌, Text, Text-discrete, codes, arith,
}
use peekd.Base.Int.{pos}
use peekd.Base.Results.{Error, Result, ok, err, IsOk, ok_of}
use peekd.Eth.{
  set_network, get_beacon_chain_config, get_genesis_config, by_network, get_network,
  get_current_fork_version, get_fork_version, four_bytes,
}
use peekd.Repository.Open.{new_clickhouse_repository}
use peekd.Host.Create.{new_host}
use peekd.Peering.Create.{new_discovery}
use peekd.Peering.Dialer.{new_dialer}
use peekd.Gossip.Topics.{new_gossip_sub}
use peekd.Gossip.Topics as Topics
use peekd.Reqresp.Serve.{new_req_resp}
use peekd.Watcher.{apply, initialize_repository}
use peekd.Watcher.Setup.{create, retrieve_private_keys}
use peekd.Cmd.Names.{flag_db_type, flag_estimate_active_validators}
use peekd.Cmd.Settings.{option_of, set_string, Sets, settings, kind_and_name, settings-set}
use peekd.Cmd.Table.{string_flag, Flag, flags_table}
use peekd.Cmd.Reads.{Cli, flags_of}
use peekd.Cmd.{status, main, launch_watcher, IsCalm, main-unsupported, main-served}
use peekd.Watcher.Launch.{launch_options}
use peekd.Watcher.Setup.{Watcher, Service, new_watcher}
use peekd.Witness.Starting.{others_of}

-- Nothing is set.
abbrev bare : Cli
bare = record {
  is_set = λ name. false;
  string = λ name. [];
  int = λ name. pos 0;
  uint = λ name. 0;
  bool = λ name. false;
}

-- The supervisor returns the error of its context.
abbrev supervise : Text → List (Service others_of) → Result (Unit {0})
supervise supervisor services = err (Error.wrap Error.canceled (codes "stopped"))

main-unsupported_example :
    (main others_of (λ text. text) supervise bare (codes "mainnet") ≡ status 1)
    × ((launch_watcher others_of (λ text. text) supervise bare (codes "mainnet")).closed ≡ [])
unfolding flags_of
main-unsupported_example =
    main-unsupported others_of (λ text. text) supervise bare (codes "mainnet") (ground arith)

-- A database and an estimate.
abbrev full : Cli
full = record bare {
  is_set = λ name.
      ite (Text-discrete name flag_db_type) true
        (ite (Text-discrete name flag_estimate_active_validators) true false);
  string = λ name. codes "clickhouse";
  uint = λ name. 700_000;
}

comes_up : IsOk (new_watcher others_of (launch_options (flags_of full)) (codes "mainnet")).1
unfolding new_watcher set_network Text-discrete apply launch_options flags_of ℕ_discrete create
    initialize_repository new_clickhouse_repository retrieve_private_keys new_host new_discovery
    get_beacon_chain_config get_genesis_config new_dialer new_gossip_sub Topics.create new_req_resp
    Topics.apply by_network get_network get_current_fork_version get_fork_version four_bytes
comes_up = tt

watcher : Watcher others_of
watcher =
    (ok_of (new_watcher others_of (launch_options (flags_of full)) (codes "mainnet")).1 comes_up).0

is_watcher :
    (new_watcher others_of (launch_options (flags_of full)) (codes "mainnet")).1 ≡ ok watcher
unfolding watcher
is_watcher =
    (ok_of (new_watcher others_of (launch_options (flags_of full)) (codes "mainnet")).1 comes_up).1

main-served_example :
    ((launch_watcher others_of (λ text. text) supervise full (codes "mainnet")).closed
      ≡ watcher.repo ∷ [])
    × ((main others_of (λ text. text) supervise full (codes "mainnet") ≡ status 0)
        ↔ IsCalm (supervise watcher.supervisor watcher.services))
main-served_example =
    main-served others_of (λ text. text) supervise full (codes "mainnet") watcher is_watcher

-- A command line with a network.
abbrev with_network : Cli
with_network = set_string (codes "network") (codes "hoodi") bare

settings-set_example :
    All (Sets (option_of (codes "mainnet")) with_network) settings
    × ((string_flag, codes "log-level") ∷ map kind_and_name settings
        ≡ map (λ (f : Flag). (f.kind, f.name)) (flags_table (codes "mainnet")))
settings-set_example = settings-set (codes "mainnet") with_network
