-- ===== src/Eth.antt =====
-- eth/network.go. Prysm's configuration (the package params) and its topic formats (the package p2p)
-- are parameters: records of the values that this program reads.
pub mod Forks
pub mod Subnets
use peekd.Base.{
  ℕ, zero, suc, ◌+◌, ◌*◌, Bool, true, false, Option, none, some, List, [], ◌∷◌, Text, codes, ite,
  Text-discrete, ltb, if◌then◌else◌,
}
use peekd.Base.Int.{ℤ, pos, to_int64, pos_part}
use peekd.Base.Results.{Error, Result, ok, err, panicked, ◌>>=◌}

-- `params.BeaconChainConfig`
pub record BeaconChainConfig : Type 0 where
  pub seconds_per_slot : ℕ
  pub slots_per_epoch : ℕ
  pub altair_fork_epoch : ℕ
  pub bellatrix_fork_epoch : ℕ
  pub capella_fork_epoch : ℕ
  pub deneb_fork_epoch : ℕ
  pub electra_fork_epoch : ℕ
  pub fulu_fork_epoch : ℕ
  pub genesis_fork_version : Text
  pub altair_fork_version : Text
  pub bellatrix_fork_version : Text
  pub capella_fork_version : Text
  pub deneb_fork_version : Text
  pub electra_fork_version : Text
  pub blobsidecar_subnet_count : ℕ
  pub attestation_subnet_count : ℕ
  pub sync_committee_subnet_count : ℕ
  pub sync_committee_size : ℕ
  pub target_committee_size : ℕ
  pub max_committees_per_slot : ℕ
  pub target_aggregators_per_committee : ℕ
  pub target_aggregators_per_sync_subcommittee : ℕ
  pub max_payload_size : ℕ

-- `params`: the names of the networks and their configurations, and `hexutil.MustDecode`.
pub record Params : Type 0 where
  pub mainnet_name : Text
  pub hoodi_name : Text
  pub mainnet_config : BeaconChainConfig
  pub hoodi_config : BeaconChainConfig
  pub must_decode : Text → Text

-- p2p.BlockSubnetTopicFormat and its siblings.
pub record TopicFormats : Type 0 where
  pub block : Text
  pub blob : Text
  pub aggregate_and_proof : Text
  pub attestation : Text
  pub sync_contribution_and_proof : Text
  pub sync_committee : Text
  pub proposer_slashing : Text
  pub attester_slashing : Text
  pub bls_to_execution_change : Text
  pub exit : Text

pub record GenesisConfig : Type 0 where
  pub genesis_time : ℤ
  pub genesis_validator_root : Text

-- `[4]byte(slice)`: the first four bytes, and a panic if there are fewer.
unfoldable pub four_bytes : Text → Result Text
four_bytes (a ∷ b ∷ c ∷ d ∷ _) = ok (a ∷ b ∷ c ∷ d ∷ [])
four_bytes _ = panicked

unfoldable pub get_fork_version : BeaconChainConfig → ℕ → Result Text
get_fork_version config epoch =
    if ltb epoch config.altair_fork_epoch
    then four_bytes config.genesis_fork_version
    else if ltb epoch config.bellatrix_fork_epoch
    then four_bytes config.altair_fork_version
    else if ltb epoch config.capella_fork_epoch
    then four_bytes config.bellatrix_fork_version
    else if ltb epoch config.deneb_fork_epoch
    then four_bytes config.capella_fork_version
    else if ltb epoch config.electra_fork_epoch
    then four_bytes config.deneb_fork_version
    else if ltb epoch config.fulu_fork_epoch
    then four_bytes config.electra_fork_version
    else four_bytes config.electra_fork_version

-- `(count, ok)` of the subnets of a topic format.
unfoldable pub has_subnets : BeaconChainConfig → TopicFormats → Text → ℕ × Bool
has_subnets config formats raw_topic =
    ite (Text-discrete raw_topic formats.blob) (config.blobsidecar_subnet_count, true)
      (ite (Text-discrete raw_topic formats.attestation) (config.attestation_subnet_count, true)
        (ite (Text-discrete raw_topic formats.sync_committee)
          (config.sync_committee_subnet_count, true) (0, false)))

abbrev second : ℕ
second = 1_000_000_000

unfoldable pub get_slot_duration : BeaconChainConfig → ℤ
get_slot_duration config = to_int64 (second * config.seconds_per_slot)

unfoldable pub get_epoch_duration : BeaconChainConfig → ℤ
get_epoch_duration config = to_int64 (second * config.seconds_per_slot * config.slots_per_epoch)

-- The package's variable `network` is an argument; `SetNetwork` returns its new value.
module _ (params : Params) where
  unfoldable pub get_network : Text → Result Text
  get_network network =
      ite (Text-discrete network params.mainnet_name) (ok network)
        (ite (Text-discrete network params.hoodi_name) (ok network) panicked)

  unfoldable pub set_network : Text → Text → Text × Result (Unit {0})
  set_network net network =
      ite (Text-discrete net params.mainnet_name) (net, ok tt)
        (ite (Text-discrete net params.hoodi_name) (net, ok tt)
          (network, err (Error.new (codes "network must be set only for supported ethereum"))))

  -- The `switch` over `GetNetwork()` of the getters.
  unfoldable pub by_network {ℓ} : {A : Type ℓ} → A → A → Text → Result A
  unfolding get_network
  by_network mainnet hoodi network = elim (get_network network) [
    | ok net ↦
        ite (Text-discrete net params.mainnet_name) (ok mainnet)
          (ite (Text-discrete net params.hoodi_name) (ok hoodi) panicked)
    | err e ↦ err e
    | panicked ↦ panicked
  ]

  unfoldable pub get_genesis_config : Text → Result GenesisConfig
  unfolding by_network
  get_genesis_config =
      by_network
        (record {
          genesis_time = pos (1606824023 * second);
          genesis_validator_root =
              params.must_decode
                (codes "0x4b363db94e286120d76eb905340fdd4e54bfe9f06bf33ff6cf5ad27f511bfe95");
        })
        (record {
          genesis_time = pos (1742213400 * second);
          genesis_validator_root =
              params.must_decode
                (codes "0x212f13fc4df078b6cb7db228f1c8307566dcecf900867401a92023d7ba99cb5f");
        })

  unfoldable pub get_beacon_chain_config : Text → Result BeaconChainConfig
  unfolding by_network
  get_beacon_chain_config = by_network params.mainnet_config params.hoodi_config

  -- `epoch_since` is `slots.ToEpoch(slots.Since(genesisTime))`, which reads the clock.
  unfoldable pub get_current_fork_version : (ℤ → ℕ) → Text → Result Text
  unfolding get_genesis_config get_beacon_chain_config
  get_current_fork_version epoch_since network = do
    genesis_config ← get_genesis_config network
    config ← get_beacon_chain_config network
    get_fork_version config (epoch_since genesis_config.genesis_time)
