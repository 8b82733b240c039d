-- ===== src/Peering/Create.antt =====
-- `NewDiscovery` of peering/discovery.go. The keys, the node database, the parsers of node records and
-- the fork data of Prysm are parameters.
use peekd.Base.{ℕ, Option, none, some, List, [], ◌∷◌, ◌++◌, Text, codes}
use peekd.Base.Int.{ℤ}
use peekd.Base.Results.{Result, ok, err, panicked, wrapped, ◌>>=◌}
use peekd.Eth.{Params, get_genesis_config, get_beacon_chain_config, by_network}
use peekd.Eth.Subnets.{
  Bitvector, get_attestation_all_subnet_bitvector, get_sync_committee_all_subnet_bitvector,
}
use peekd.Peering.Discovery.{DiscoveryOption, DiscoveryOptionFunc, default_option}

-- `params.NetworkConfig`, as far as it is read.
pub record NetworkConfig : Type 0 where
  pub att_subnet_key : Text
  pub sync_comms_subnet_key : Text
  pub eth2_key : Text
  pub bootstrap_nodes : List Text

-- `pb.ENRForkID`
pub record EnrForkId : Type 0 where
  pub current_fork_digest : Text
  pub next_fork_version : Text
  pub next_fork_epoch : ℕ

-- The code of others.
pub record Discv5 : Type 1 where
  pub PrivateKey : Type 0
  pub Db : Type 0
  pub Node : Type 0
  pub bits64 : Bitvector
  pub bits4 : Bitvector
  pub bytes64 : bits64.Bits → Text
  pub bytes4 : bits4.Bits → Text
  -- `net.ParseIP`, the address as bytes; nil is no bytes
  pub parse_ip : Text → Text
  pub generate_key : Result PrivateKey
  pub open_db : Result Db
  pub create_fork_digest : ℤ → Text → Result Text
  -- `forks.NextForkData` of the epoch that it is since the genesis time
  pub next_fork_data : ℤ → Result (Text × ℕ)
  pub marshal_ssz : EnrForkId → Result Text
  pub parse_node : Text → Result Node
  pub mainnet_network_config : NetworkConfig
  pub hoodi_network_config : NetworkConfig

-- An entry of the local node's record.
pub data Entry : Type 0 where
  ip4 : Text → Entry
  udp tcp : ℤ → Entry
  with_entry : Text → Text → Entry

module _ (discv5 : Discv5) (params : Params) where
  open discv5 use {PrivateKey, Db, Node, bits64, bits4}

  unfoldable pub get_beacon_network_config : Text → Result NetworkConfig
  unfolding by_network
  get_beacon_network_config =
      by_network params discv5.mainnet_network_config discv5.hoodi_network_config

  -- The calls of `localNode.Set`.
  pub record LocalNode : Type 0 where
    pub db : Db
    pub private_key : PrivateKey
    pub entries : List Entry

  pub record Discovery : Type 0 where
    pub private_key : PrivateKey
    pub node : LocalNode
    pub bootstrap_nodes : List Node
    pub fork_digest : Text

  abbrev pub apply :
      List (DiscoveryOptionFunc PrivateKey)
      → DiscoveryOption PrivateKey
      → DiscoveryOption PrivateKey
  apply [] o = o
  apply (opt ∷ opts) o = apply opts (opt o)

  abbrev pub private_key_of : Option PrivateKey → Result PrivateKey
  private_key_of (some key) = ok key
  private_key_of none = wrapped (codes "failed to generate ecdsa private key") discv5.generate_key

  -- `if err != nil { panic(err) }`
  abbrev pub must : Result Text → Result Text
  must (ok bytes) = ok bytes
  must (err e) = panicked
  must panicked = panicked

  unfoldable pub parse_nodes : List Text → Result (List Node)
  parse_nodes [] = ok []
  parse_nodes (enr ∷ enrs) = do
    node ← wrapped (codes "failed to parse bootstrap node enr " ++ enr) (discv5.parse_node enr)
    nodes ← parse_nodes enrs
    ok (node ∷ nodes)

  -- `network` is the package eth's variable.
  unfoldable pub new_discovery : Text → List (DiscoveryOptionFunc PrivateKey) → Result Discovery
  unfolding parse_nodes get_beacon_network_config
  new_discovery network opts =
      let o = apply opts (default_option PrivateKey) in
      do
        private_key ← private_key_of o.private_key
        mem_db ← wrapped (codes "failed to open peer's database") discv5.open_db
        config ← get_beacon_chain_config params network
        let attest_bit_v = get_attestation_all_subnet_bitvector bits64 config
        let sync_bit_v = get_sync_committee_all_subnet_bitvector bits4 config
        genesis_config ← get_genesis_config params network
        network_config ← get_beacon_network_config network
        fork_digest ← wrapped (codes "failed to create fork digest") (
            discv5.create_fork_digest genesis_config.genesis_time
              genesis_config.genesis_validator_root)
        next_fork ←
            wrapped (codes "failed to get next fork data")
              (discv5.next_fork_data genesis_config.genesis_time)
        fork_id_bytes ← must (
            discv5.marshal_ssz (record {
              current_fork_digest = fork_digest;
              next_fork_version = next_fork.0;
              next_fork_epoch = next_fork.1;
            }))
        bootstrap_nodes ← parse_nodes network_config.bootstrap_nodes
        ok (record {
          private_key = private_key;
          node = record {
            db = mem_db;
            private_key = private_key;
            entries =
                ip4 (discv5.parse_ip o.listen_ip)
                ∷ udp o.port_udp
                ∷ tcp o.port_tcp
                ∷ with_entry network_config.att_subnet_key (discv5.bytes64 attest_bit_v)
                ∷ with_entry network_config.sync_comms_subnet_key (discv5.bytes4 sync_bit_v)
                ∷ with_entry network_config.eth2_key fork_id_bytes
                ∷ [];
          };
          bootstrap_nodes = bootstrap_nodes;
          fork_digest = fork_digest;
        })
