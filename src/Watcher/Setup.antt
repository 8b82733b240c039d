-- ===== src/Watcher/Setup.antt =====
-- The steps of `NewWatcher` and `retrievePrivateKeys` of watcher/watcher.go. What the constructors of the
-- other packages return enters as functions; the types of what they make are parameters.
pub mod Estimate
use mathlib.Core.List.{foldl}
use peekd.Base.{
  some, ℕ, Bool, true, false, List, [], ◌∷◌, ◌++◌, Text, Text-discrete, codes, ite, length, ◌==◌,
  if◌then◌else◌, ◌*◌, ◌≡◌, ◌≢◌, refl, arith,
}
use peekd.Base.Int.{ℤ, pos, times, quo}
use peekd.Base.Results.{Error, Result, ok, err, panicked, wrapped, ◌>>=◌, IsOk, ok_of, Result-cases}
use peekd.Eth.{
  get_current_fork_version, Params, set_network, GenesisConfig, BeaconChainConfig,
  get_genesis_config, get_beacon_chain_config,
}
use peekd.Repository.Open.{Driver, ClickHouseRepository, new_clickhouse_repository}
use peekd.Host.Create.{Network, NewHost, new_host}
use peekd.Host.Create as Host
use peekd.Peering.Create.{Discv5, Discovery, new_discovery}
use peekd.Peering.Discovery as Discovery
use peekd.Peering.Dialer.{Dialer, new_dialer}
use peekd.Gossip.Topics.{Printing, GossipSub, GossipSubOptionFunc, new_gossip_sub}
use peekd.Gossip.Topics as Topics
use peekd.Reqresp.Serve.{ReqResp, new_req_resp, with_host}
use peekd.Processor.State.{BeaconMessageProcessor, new_beacon_message_processor}
use peekd.Processor.State as State
use peekd.Processor.Topics.{MessageNames}
use peekd.Watcher.{initialize_repository, WatcherOption, WatcherOptionFunc, default_option, apply}

-- The key functions of go-ethereum and libp2p, secp256k1.PrivKeyBytesLen, and `%d`.
pub record Keys : Type 1 where
  pub EcdsaKey : Type 0
  pub SecpKey : Type 0
  pub hex_to_ecdsa : Text → Result EcdsaKey
  pub generate_key : Result EcdsaKey
  pub from_ecdsa : EcdsaKey → Text
  pub priv_key_bytes_len : ℕ
  pub unmarshal_secp256k1_private_key : Text → Result SecpKey
  pub decimal : ℕ → Text

module _ (keys : Keys) where
  open keys use {
    EcdsaKey, SecpKey, hex_to_ecdsa, generate_key, from_ecdsa, priv_key_bytes_len,
    unmarshal_secp256k1_private_key, decimal,
  }

  abbrev pub ecdsa_key_of : Text → Result EcdsaKey
  ecdsa_key_of ecdsa_key_hex =
      ite (Text-discrete ecdsa_key_hex [])
        (wrapped (codes "failed to generate ecdsa private key") generate_key)
        (wrapped (codes "failed to parse ecdsa private key") (hex_to_ecdsa ecdsa_key_hex))

  -- The check of the length, and the key of libp2p.
  abbrev pub secp_key_of : Text → Result SecpKey
  secp_key_of bytes =
      if length bytes == priv_key_bytes_len
      then wrapped (codes "failed to unmarshal secp256k1 private key")
          (unmarshal_secp256k1_private_key bytes)
      else err (
          Error.new (
            codes "expected secp256k1 data size to be "
            ++ (decimal priv_key_bytes_len ++ (codes ", but actual " ++ decimal (length bytes)))))

  unfoldable pub retrieve_private_keys : Text → Result (EcdsaKey × SecpKey)
  retrieve_private_keys ecdsa_key_hex = do
    ecdsa_key ← ecdsa_key_of ecdsa_key_hex
    secp_key ← secp_key_of (from_ecdsa ecdsa_key)
    ok (ecdsa_key, secp_key)

-- The code of others that `NewWatcher` reaches: that of the packages it calls, and its own.
pub record Others : Type 1 where
  pub Supervisor : Type 0
  pub keys : Keys
  pub net : Network
  pub discv5 : Discv5
  pub printing : Printing
  pub params : Params
  pub names : MessageNames
  -- The keys of the two packages are the same.
  pub host_key : keys.SecpKey → net.PrivKey
  pub discovery_key : keys.EcdsaKey → discv5.PrivateKey
  pub driver : Driver
  -- `suture.NewSimple`
  pub new_simple : Text → Supervisor
  -- `cm.NewConnManager`
  pub new_conn_manager : ℤ → ℤ → Result net.ConnManager
  -- `slots.ToEpoch(slots.Since(..))`, which reads the clock
  pub epoch_since : ℤ → ℕ

module _ (others : Others) where
  open others use {Supervisor, driver, keys, net, discv5, printing, params}

  abbrev pub Sub : Type 0
  Sub = GossipSub printing params Supervisor (NewHost net) BeaconMessageProcessor

  -- What the supervisor runs.
  pub data Service : Type 0 where
    host_service : NewHost net → Service
    discovery_service : Discovery discv5 params → Service
    dialer_service : Dialer (NewHost net) (Discovery discv5 params) → Service
    gossip_sub_service : Sub → Service
    req_resp_service : ReqResp (NewHost net) → Service
    message_processor_service : BeaconMessageProcessor → Service

  pub record Watcher : Type 0 where
    pub supervisor : Supervisor
    pub services : List Service
    pub repo : ClickHouseRepository driver

  -- `o.targetPeers*5/4` on int.
  abbrev pub high_water : ℤ → ℤ
  high_water target_peers = quo (times 5 target_peers) 4

  abbrev pub gossip_options :
      WatcherOption
      → Supervisor
      → NewHost net
      → BeaconMessageProcessor
      → List (GossipSubOptionFunc printing params Supervisor (NewHost net) BeaconMessageProcessor)
  gossip_options o supervisor local_host processor =
      Topics.with_estimate_active_validators printing params Supervisor (NewHost net)
        BeaconMessageProcessor o.estimate_active_validators
      ∷ Topics.with_supervisor printing params Supervisor (NewHost net) BeaconMessageProcessor
          supervisor
      ∷ Topics.with_host printing params Supervisor (NewHost net) BeaconMessageProcessor local_host
      ∷ Topics.with_message_processor printing params Supervisor (NewHost net)
          BeaconMessageProcessor processor
      ∷ []

  -- The steps, each with the wrapping of its error. `network` is the package eth's variable.
  abbrev pub found_keys : WatcherOption → Result (keys.EcdsaKey × keys.SecpKey)
  found_keys o =
      wrapped (codes "failed to retrieve private keys")
        (retrieve_private_keys keys o.ecdsa_private_key_hex)

  abbrev pub made_conn_mgr : WatcherOption → Result net.ConnManager
  made_conn_mgr o =
      wrapped (codes "failed to create connection manager")
        (others.new_conn_manager o.target_peers (high_water o.target_peers))

  abbrev pub made_host :
      WatcherOption → keys.EcdsaKey × keys.SecpKey → net.ConnManager → Result (NewHost net)
  made_host o found conn_mgr = wrapped (codes "failed to create host") (
      new_host net (
        Host.with_listen_ip net o.listen_ip
        ∷ Host.with_port net o.port_tcp
        ∷ Host.with_private_key net (others.host_key found.1)
        ∷ Host.with_user_agent net (codes "peekd")
        ∷ Host.with_target_peers net o.target_peers
        ∷ Host.with_conn_mgr net conn_mgr
        ∷ []))

  abbrev pub made_discovery :
      Text → WatcherOption → keys.EcdsaKey × keys.SecpKey → Result (Discovery discv5 params)
  made_discovery network o found = wrapped (codes "failed to create discovery") (
      new_discovery discv5 params network (
        Discovery.with_private_key discv5.PrivateKey (others.discovery_key found.0)
        ∷ Discovery.with_listen_ip discv5.PrivateKey o.listen_ip
        ∷ Discovery.with_port_udp discv5.PrivateKey o.port_udp
        ∷ Discovery.with_port_tcp discv5.PrivateKey o.port_tcp
        ∷ []))

  abbrev pub made_dialer :
      NewHost net
      → Discovery discv5 params
      → Result (Dialer (NewHost net) (Discovery discv5 params))
  made_dialer local_host discovery =
      wrapped (codes "failed to create dialer") (new_dialer (some local_host) (some discovery))

  abbrev pub made_processor :
      WatcherOption → GenesisConfig → BeaconChainConfig → BeaconMessageProcessor
  made_processor o genesis_config config =
      new_beacon_message_processor
        (record {
          genesis_time = genesis_config.genesis_time;
          seconds_per_slot = config.seconds_per_slot;
          names = others.names;
        })
        (State.with_node_alias o.node_alias ∷ State.with_node_region o.node_region ∷ [])

  abbrev pub made_gossip_sub :
      Text → WatcherOption → NewHost net → BeaconMessageProcessor → Result Sub
  made_gossip_sub network o local_host processor = wrapped (codes "failed to create gossipSub") (
      new_gossip_sub printing params Supervisor (NewHost net) BeaconMessageProcessor network
        (get_current_fork_version params others.epoch_since network)
        (others.new_simple (codes "gossipSub"))
        (gossip_options o (others.new_simple (codes "watcher")) local_host processor))

  -- What follows the network.
  unfoldable pub create : Text → WatcherOption → Result Watcher
  create network o = do
    repo ← initialize_repository (new_clickhouse_repository driver) o
    found ← found_keys o
    conn_mgr ← made_conn_mgr o
    local_host ← made_host o found conn_mgr
    discovery ← made_discovery network o found
    dialer ← made_dialer local_host discovery
    config ← get_beacon_chain_config params network
    genesis_config ← get_genesis_config params network
    let processor = made_processor o genesis_config config
    gossip_sub ← made_gossip_sub network o local_host processor
    req_resp ←
        wrapped (codes "failed to create reqresp")
          (new_req_resp (NewHost net) (with_host (NewHost net) local_host ∷ []))
    ok (record {
      supervisor = others.new_simple (codes "watcher");
      services =
          host_service local_host
          ∷ discovery_service discovery
          ∷ dialer_service dialer
          ∷ gossip_sub_service gossip_sub
          ∷ req_resp_service req_resp
          ∷ message_processor_service processor
          ∷ [];
      repo = repo;
    })

  -- The options, and the network: `network` is eth's variable before.
  unfoldable pub new_watcher : List WatcherOptionFunc → Text → Text × Result Watcher
  new_watcher opts network =
      let o = apply opts (default_option params.mainnet_name) in
      let set = set_network params o.eth_network network in
      (set.0, wrapped (codes "failed to set eth network") set.1 >>= λ _. create set.0 o)
