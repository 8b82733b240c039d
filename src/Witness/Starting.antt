-- ===== src/Witness/Starting.antt =====
-- The theorems on what is started: the topics and the watcher.
use mathlib.Core.Path.{◌≡◌, refl}
use peekd.Base.{true, none, some, All, List, [], ◌∷◌, ◌++◌, Text, codes, arith}
use peekd.Base.Results.{ok, IsOk}
use peekd.Eth.{TopicFormats, get_genesis_config, get_beacon_chain_config, by_network, get_network}
use peekd.Gossip.PeerScore.Params.{
  Scoring, blocks, blobs, aggregates, attestations, contributions, sync_committees,
  proposer_slashings, attester_slashings, bls_changes, exits,
}
use peekd.Gossip.Topics.{
  Printing, GossipSub, GossipSubOptionFunc, with_estimate_active_validators, with_host, apply,
  new_gossip_sub,
}
use peekd.Gossip.Topics.Known.{name_of, format_of, kinds, Prints, IsKnown, new_gossip_sub-IsKnown}
use peekd.Host.Create.{Network}
use peekd.Peering.Create.{Discv5, NetworkConfig}
use peekd.Repository.Open.{Driver}
use peekd.Watcher.Launch.{Flags, launch_options}
use peekd.Watcher.Setup.{Keys, Others, new_watcher}
use peekd.Watcher.Setup.Estimate.{new_watcher-not_ok}
use peekd.Witness.Network.{bits, params}
use peekd.Witness.Fixtures.{names}

abbrev formats : TopicFormats
formats = record {
  block = names.block;
  blob = names.blob_sidecar;
  aggregate_and_proof = names.aggregate_and_proof;
  attestation = names.attestation;
  sync_contribution_and_proof = names.contribution_and_proof;
  sync_committee = names.sync_committee;
  proposer_slashing = names.proposer_slashing;
  attester_slashing = names.attester_slashing;
  bls_to_execution_change = names.bls_to_execution_change;
  exit = names.exit;
}

-- The format between a prefix and what is printed into it.
abbrev printing : Printing
printing = record {
  sprintf = λ f digest. codes "/eth2/" ++ (f ++ digest);
  sprintf_subnet = λ f digest i. codes "/eth2/" ++ (f ++ (i ∷ digest));
  suffix = codes "ssz_snappy";
  create_fork_digest = λ time root. ok (codes "6a95a1a9");
  formats = formats;
}

prints : (k : Scoring) → format_of formats k ≡ name_of names k → Prints names printing k
prints k e = (
  λ digest. (codes "/eth2/", digest, rw e refl),
  λ digest i. (codes "/eth2/", i ∷ digest, rw e refl),
)

names_found : All (Prints names printing) kinds
names_found = (
  prints blocks refl,
  (
    prints blobs refl,
    (
      prints aggregates refl,
      (
        prints attestations refl,
        (
          prints contributions refl,
          (
            prints sync_committees refl,
            (
              prints proposer_slashings refl,
              (prints attester_slashings refl, (prints bls_changes refl, (prints exits refl, tt))),
            ),
          ),
        ),
      ),
    ),
  ),
)

abbrev gossip_opts : List (GossipSubOptionFunc printing params Text Text Text)
gossip_opts =
    with_estimate_active_validators printing params Text Text Text 1_000_000
    ∷ with_host printing params Text Text Text (codes "host")
    ∷ []

mainnet_genesis : IsOk (get_genesis_config params (codes "mainnet"))
unfolding get_genesis_config by_network get_network
mainnet_genesis = ground arith

mainnet_config : IsOk (get_beacon_chain_config params (codes "mainnet"))
unfolding get_beacon_chain_config by_network get_network
mainnet_config = ground arith

new_gossip_sub-IsKnown_example :
    (gs : GossipSub printing params Text Text Text) × (new_gossip_sub printing params Text Text Text
        (codes "mainnet")
        (ok (codes "0500"))
        []
        gossip_opts
      ≡ ok gs)
    × All (IsKnown names) gs.topics
    × (gs.peer_score.topics ≡ gs.topics)
unfolding apply
new_gossip_sub-IsKnown_example =
    new_gossip_sub-IsKnown names printing params (codes "mainnet") (ok (codes "0500")) []
      gossip_opts (codes "host") _ refl refl (omega arith) refl mainnet_genesis mainnet_config
      (λ time root. tt) tt names_found

abbrev keys : Keys
keys = record {
  EcdsaKey = Text;
  SecpKey = Text;
  hex_to_ecdsa = λ t. ok t;
  generate_key = ok (7 ∷ []);
  from_ecdsa = λ key. key;
  priv_key_bytes_len = 1;
  unmarshal_secp256k1_private_key = λ t. ok t;
  decimal = λ n. n ∷ [];
}

abbrev net : Network
net = record {
  PrivKey = Text;
  ResourceManager = Text;
  ConnManager = Text;
  Multiaddr = Text;
  Libp2p = Text;
  null_conn_mgr = [];
  generate_secp256k1_key = ok (7 ∷ []);
  new_resource_manager = ok [];
  parses_ip = λ ip. true;
  parses_ip4 = λ ip. true;
  tcp_multiaddr = λ ip port. ok ip;
  new_libp2p = λ addr key user_agent rc_mgr conn_mgr. ok addr;
}

abbrev network_config : NetworkConfig
network_config = record {
  att_subnet_key = codes "attnets";
  sync_comms_subnet_key = codes "syncnets";
  eth2_key = codes "eth2";
  bootstrap_nodes = [];
}

abbrev discv5 : Discv5
discv5 = record {
  PrivateKey = Text;
  Db = Text;
  Node = Text;
  bits64 = bits;
  bits4 = bits;
  bytes64 = λ b. [];
  bytes4 = λ b. [];
  parse_ip = λ ip. ip;
  generate_key = ok (7 ∷ []);
  open_db = ok [];
  create_fork_digest = λ time root. ok (codes "6a95a1a9");
  next_fork_data = λ time. ok ([], 0);
  marshal_ssz = λ id. ok [];
  parse_node = λ enr. ok enr;
  mainnet_network_config = network_config;
  hoodi_network_config = network_config;
}

abbrev driver : Driver
driver = record {
  Conn = Text;
  open_conn = λ options. ok options.database;
  ping = λ conn. ok tt;
  close = λ conn. ok tt;
  decimal = λ n. n ∷ [];
}

abbrev pub others_of : Others
others_of = record {
  Supervisor = Text;
  keys = keys;
  net = net;
  discv5 = discv5;
  printing = printing;
  params = params;
  names = names;
  host_key = λ key. key;
  discovery_key = λ key. key;
  driver = driver;
  new_simple = λ name. name;
  new_conn_manager = λ low high. ok [];
  epoch_since = λ time. 300_000;
}

-- A database and a network are given, but no estimate.
abbrev pub flags : Flags
flags = record {
  ecdsa_private_key_hex = none;
  listen_ip = none;
  udp_port = none;
  tcp_port = none;
  target_peers = none;
  network = some (codes "mainnet");
  estimate_active_validators = none;
  db_type = some (codes "clickhouse");
  db_host = none;
  db_port = none;
  db_name = none;
  db_user = none;
  db_password = none;
  db_secure = none;
  node_alias = none;
  node_region = none;
}

new_watcher-not_ok_example :
    ¬ IsOk (new_watcher others_of (launch_options flags) (codes "mainnet")).1
new_watcher-not_ok_example = new_watcher-not_ok others_of flags (codes "mainnet") refl
