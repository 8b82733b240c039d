-- ===== src/Gossip/Handler/Forks.antt =====
-- The types that the handlers decode into, against the fork in force.
use peekd.Base.{[], ◌∷◌, List, ℕ, ◌≡◌, ◌≢◌, ◌⊎◌, none, some, Text, arith}
use peekd.Base.Results.{ok}
use peekd.Eth.{BeaconChainConfig, four_bytes, get_fork_version}
use peekd.Eth.Forks.{IsOrdered, active}
use peekd.Processor.Messages.{
  MessageType, signed_beacon_block_type, signed_beacon_block_altair_type,
  signed_beacon_block_bellatrix_type, signed_beacon_block_capella_type,
  signed_beacon_block_deneb_type, signed_beacon_block_electra_type, attester_slashing_type,
}
use peekd.Gossip.Destination.{GossipSub, Handler, dst_of}
use peekd.Gossip.Destination.{
  beacon_block_handler, blob_sidecar_handler, beacon_aggregate_and_proof_handler,
  beacon_attestation_handler, sync_committee_contribution_and_proof_handler, sync_committee_handler,
  proposer_slashing_handler, attester_slashing_handler, bls_to_execution_change_handler,
  voluntary_exit_handler, noop_handler,
}

abbrev IsForkVersion : Text → BeaconChainConfig → Type 0
IsForkVersion v c =
    (v ≡ c.genesis_fork_version)
    ⊎ (v ≡ c.altair_fork_version)
    ⊎ (v ≡ c.bellatrix_fork_version)
    ⊎ (v ≡ c.capella_fork_version)
    ⊎ (v ≡ c.deneb_fork_version)
    ⊎ (v ≡ c.electra_fork_version)

-- The fork versions of a configuration are four bytes long.
pub record HasFourByteVersions (c : BeaconChainConfig) : Type 0 where
  pub genesis_four : four_bytes c.genesis_fork_version ≡ ok c.genesis_fork_version
  pub altair_four : four_bytes c.altair_fork_version ≡ ok c.altair_fork_version
  pub bellatrix_four : four_bytes c.bellatrix_fork_version ≡ ok c.bellatrix_fork_version
  pub capella_four : four_bytes c.capella_fork_version ≡ ok c.capella_fork_version
  pub deneb_four : four_bytes c.deneb_fork_version ≡ ok c.deneb_fork_version
  pub electra_four : four_bytes c.electra_fork_version ≡ ok c.electra_fork_version

get_fork_version-IsForkVersion :
    (c : BeaconChainConfig) (epoch : ℕ) (v : Text)
    → HasFourByteVersions c
    → get_fork_version c epoch ≡ ok v
    → IsForkVersion v c
unfolding get_fork_version
get_fork_version-IsForkVersion c epoch v four e = ground arith

dst_of_known :
    (h : Handler) (gs : GossipSub)
    → h ≢ blob_sidecar_handler
    → h ≢ noop_handler
    → IsForkVersion gs.fork_version gs.beacon_config
    → dst_of h gs ≢ none
unfolding dst_of
dst_of_known beacon_block_handler gs blob noop known = ground arith
dst_of_known blob_sidecar_handler gs blob noop known = ground arith
dst_of_known beacon_aggregate_and_proof_handler gs blob noop known = ground arith
dst_of_known beacon_attestation_handler gs blob noop known = ground arith
dst_of_known sync_committee_contribution_and_proof_handler gs blob noop known = ground arith
dst_of_known sync_committee_handler gs blob noop known = ground arith
dst_of_known proposer_slashing_handler gs blob noop known = ground arith
dst_of_known attester_slashing_handler gs blob noop known = ground arith
dst_of_known bls_to_execution_change_handler gs blob noop known = ground arith
dst_of_known voluntary_exit_handler gs blob noop known = ground arith
dst_of_known noop_handler gs blob noop known = ground arith

-- With the fork version of any epoch every handler but that of blobs (which wants Deneb or Electra) has
-- a type to decode into: the error "unknown fork version" is never returned.
dst_of-get_fork_version :
    (h : Handler) (c : BeaconChainConfig) (epoch : ℕ) (v : Text)
    → HasFourByteVersions c
    → get_fork_version c epoch ≡ ok v
    → h ≢ blob_sidecar_handler
    → h ≢ noop_handler
    → dst_of h (record { fork_version = v; beacon_config = c }) ≢ none
dst_of-get_fork_version h c epoch v four e blob noop =
    dst_of_known h _ blob noop (get_fork_version-IsForkVersion c epoch v four e)

attester_slashing_known :
    (gs : GossipSub)
    → IsForkVersion gs.fork_version gs.beacon_config
    → dst_of attester_slashing_handler gs ≡ some attester_slashing_type
unfolding dst_of
attester_slashing_known gs known = ground arith

-- With the fork version of any epoch, that of Electra included, attester slashings are decoded into the
-- type of the forks before Electra: the case of Electra's own type stands behind one that takes Electra
-- too.
pub dst_of-attester_slashing :
    (c : BeaconChainConfig) (epoch : ℕ) (v : Text)
    → HasFourByteVersions c
    → get_fork_version c epoch ≡ ok v
    → dst_of attester_slashing_handler (record { fork_version = v; beacon_config = c })
      ≡ some attester_slashing_type
dst_of-attester_slashing c epoch v four e =
    attester_slashing_known _ (get_fork_version-IsForkVersion c epoch v four e)

-- No two forks have the same version.
pub record HasDistinctVersions (c : BeaconChainConfig) : Type 0 where
  pub genesis_altair : c.genesis_fork_version ≢ c.altair_fork_version
  pub genesis_bellatrix : c.genesis_fork_version ≢ c.bellatrix_fork_version
  pub genesis_capella : c.genesis_fork_version ≢ c.capella_fork_version
  pub genesis_deneb : c.genesis_fork_version ≢ c.deneb_fork_version
  pub genesis_electra : c.genesis_fork_version ≢ c.electra_fork_version
  pub altair_bellatrix : c.altair_fork_version ≢ c.bellatrix_fork_version
  pub altair_capella : c.altair_fork_version ≢ c.capella_fork_version
  pub altair_deneb : c.altair_fork_version ≢ c.deneb_fork_version
  pub altair_electra : c.altair_fork_version ≢ c.electra_fork_version
  pub bellatrix_capella : c.bellatrix_fork_version ≢ c.capella_fork_version
  pub bellatrix_deneb : c.bellatrix_fork_version ≢ c.deneb_fork_version
  pub bellatrix_electra : c.bellatrix_fork_version ≢ c.electra_fork_version
  pub capella_deneb : c.capella_fork_version ≢ c.deneb_fork_version
  pub capella_electra : c.capella_fork_version ≢ c.electra_fork_version
  pub deneb_electra : c.deneb_fork_version ≢ c.electra_fork_version

-- The type of a block in each fork.
abbrev pub block_schedule : BeaconChainConfig → List (ℕ × MessageType)
block_schedule c =
    (c.altair_fork_epoch, signed_beacon_block_altair_type)
    ∷ (c.bellatrix_fork_epoch, signed_beacon_block_bellatrix_type)
    ∷ (c.capella_fork_epoch, signed_beacon_block_capella_type)
    ∷ (c.deneb_fork_epoch, signed_beacon_block_deneb_type)
    ∷ (c.electra_fork_epoch, signed_beacon_block_electra_type)
    ∷ []

-- With the fork version of an epoch, blocks are decoded into the type of the last fork that has begun
-- by that epoch, if the forks begin one after another and differ in their versions.
pub dst_of-block-active :
    (c : BeaconChainConfig) (epoch : ℕ) (v : Text)
    → IsOrdered c
    → HasFourByteVersions c
    → HasDistinctVersions c
    → get_fork_version c epoch ≡ ok v
    → dst_of beacon_block_handler (record { fork_version = v; beacon_config = c })
      ≡ some (active epoch signed_beacon_block_type (block_schedule c))
unfolding dst_of get_fork_version
dst_of-block-active c epoch v o four d e = ground arith
