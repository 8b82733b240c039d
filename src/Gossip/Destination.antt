-- ===== src/Gossip/Destination.antt =====
-- gossip/handler.go, first half of each handler: the Go type that a message is decoded into, which
-- depends on the fork in force.
use peekd.Base.{ite, Bool, ◌||◌, Option, none, some, Text, Text-discrete, if◌then◌else◌}
use mathlib.Core.Bool.{false, true}
use peekd.Eth.{BeaconChainConfig}
use peekd.Processor.Messages.{MessageType}
use peekd.Processor.Messages.{
  attestation_type, attester_slashing_electra_type, attester_slashing_type, blob_sidecar_type,
  bls_to_execution_change_type, proposer_slashing_type,
  signed_aggregate_attestation_and_proof_electra_type, signed_aggregate_attestation_and_proof_type,
  signed_beacon_block_altair_type, signed_beacon_block_bellatrix_type,
  signed_beacon_block_capella_type, signed_beacon_block_deneb_type,
  signed_beacon_block_electra_type, signed_beacon_block_type, signed_contribution_and_proof_type,
  single_attestation_type, sync_committee_message_type, voluntary_exit_type,
}

-- The fields of `GossipSub` that the handlers read.
pub record GossipSub : Type 0 where
  pub fork_version : Text
  pub beacon_config : BeaconChainConfig

-- The handlers, by name.
pub data Handler : Type 0 where
  beacon_block_handler : Handler
  blob_sidecar_handler : Handler
  beacon_aggregate_and_proof_handler : Handler
  beacon_attestation_handler : Handler
  sync_committee_contribution_and_proof_handler : Handler
  sync_committee_handler : Handler
  proposer_slashing_handler : Handler
  attester_slashing_handler : Handler
  bls_to_execution_change_handler : Handler
  voluntary_exit_handler : Handler
  noop_handler : Handler

-- `bytes.Equal`
abbrev pub bytes_equal : Text → Text → Bool
bytes_equal a b = ite (Text-discrete a b) true false

-- The `switch` of `beaconBlockHandler`; `none` is its default.
beacon_block_dst : GossipSub → Option MessageType
beacon_block_dst gs =
    let at = bytes_equal gs.fork_version in
    let c = gs.beacon_config in
    if at c.genesis_fork_version
    then some signed_beacon_block_type
    else if at c.altair_fork_version
    then some signed_beacon_block_altair_type
    else if at c.bellatrix_fork_version
    then some signed_beacon_block_bellatrix_type
    else if at c.capella_fork_version
    then some signed_beacon_block_capella_type
    else if at c.deneb_fork_version
    then some signed_beacon_block_deneb_type
    else if at c.electra_fork_version
    then some signed_beacon_block_electra_type
    else none

-- The `switch` of `blobSidecarHandler`; `none` is its default.
blob_sidecar_dst : GossipSub → Option MessageType
blob_sidecar_dst gs =
    let at = bytes_equal gs.fork_version in
    let c = gs.beacon_config in
    if at c.deneb_fork_version || at c.electra_fork_version then some blob_sidecar_type else none

-- The `switch` of `beaconAggregateAndProofHandler`; `none` is its default.
beacon_aggregate_and_proof_dst : GossipSub → Option MessageType
beacon_aggregate_and_proof_dst gs =
    let at = bytes_equal gs.fork_version in
    let c = gs.beacon_config in
    if at c.genesis_fork_version
      || at c.altair_fork_version
      || at c.bellatrix_fork_version
      || at c.capella_fork_version
      || at c.deneb_fork_version
    then some signed_aggregate_attestation_and_proof_type
    else if at c.electra_fork_version
    then some signed_aggregate_attestation_and_proof_electra_type
    else none

-- The `switch` of `beaconAttestationHandler`; `none` is its default.
beacon_attestation_dst : GossipSub → Option MessageType
beacon_attestation_dst gs =
    let at = bytes_equal gs.fork_version in
    let c = gs.beacon_config in
    if at c.genesis_fork_version
      || at c.altair_fork_version
      || at c.bellatrix_fork_version
      || at c.capella_fork_version
      || at c.deneb_fork_version
    then some attestation_type
    else if at c.electra_fork_version
    then some single_attestation_type
    else none

-- The `switch` of `syncCommitteeContributionAndProofHandler`; `none` is its default.
sync_committee_contribution_and_proof_dst : GossipSub → Option MessageType
sync_committee_contribution_and_proof_dst gs =
    let at = bytes_equal gs.fork_version in
    let c = gs.beacon_config in
    if at c.genesis_fork_version
      || at c.altair_fork_version
      || at c.bellatrix_fork_version
      || at c.capella_fork_version
      || at c.deneb_fork_version
      || at c.electra_fork_version
    then some signed_contribution_and_proof_type
    else none

-- The `switch` of `syncCommitteeHandler`; `none` is its default.
sync_committee_dst : GossipSub → Option MessageType
sync_committee_dst gs =
    let at = bytes_equal gs.fork_version in
    let c = gs.beacon_config in
    if at c.genesis_fork_version
      || at c.altair_fork_version
      || at c.bellatrix_fork_version
      || at c.capella_fork_version
      || at c.deneb_fork_version
      || at c.electra_fork_version
    then some sync_committee_message_type
    else none

-- The `switch` of `proposerSlashingHandler`; `none` is its default.
proposer_slashing_dst : GossipSub → Option MessageType
proposer_slashing_dst gs =
    let at = bytes_equal gs.fork_version in
    let c = gs.beacon_config in
    if at c.genesis_fork_version
      || at c.altair_fork_version
      || at c.bellatrix_fork_version
      || at c.capella_fork_version
      || at c.deneb_fork_version
      || at c.electra_fork_version
    then some proposer_slashing_type
    else none

-- The `switch` of `attesterSlashingHandler`; `none` is its default.
attester_slashing_dst : GossipSub → Option MessageType
attester_slashing_dst gs =
    let at = bytes_equal gs.fork_version in
    let c = gs.beacon_config in
    if at c.genesis_fork_version
      || at c.altair_fork_version
      || at c.bellatrix_fork_version
      || at c.capella_fork_version
      || at c.deneb_fork_version
      || at c.electra_fork_version
    then some attester_slashing_type
    else if at c.electra_fork_version
    then some attester_slashing_electra_type
    else none

-- The `switch` of `blsToExecutionChangeHandler`; `none` is its default.
bls_to_execution_change_dst : GossipSub → Option MessageType
bls_to_execution_change_dst gs =
    let at = bytes_equal gs.fork_version in
    let c = gs.beacon_config in
    if at c.genesis_fork_version
      || at c.altair_fork_version
      || at c.bellatrix_fork_version
      || at c.capella_fork_version
      || at c.deneb_fork_version
      || at c.electra_fork_version
    then some bls_to_execution_change_type
    else none

-- The `switch` of `voluntaryExitHandler`; `none` is its default.
voluntary_exit_dst : GossipSub → Option MessageType
voluntary_exit_dst gs =
    let at = bytes_equal gs.fork_version in
    let c = gs.beacon_config in
    if at c.genesis_fork_version
      || at c.altair_fork_version
      || at c.bellatrix_fork_version
      || at c.capella_fork_version
      || at c.deneb_fork_version
      || at c.electra_fork_version
    then some voluntary_exit_type
    else none

unfoldable pub dst_of : Handler → GossipSub → Option MessageType
unfolding beacon_block_dst blob_sidecar_dst beacon_aggregate_and_proof_dst beacon_attestation_dst
    sync_committee_contribution_and_proof_dst sync_committee_dst proposer_slashing_dst
    attester_slashing_dst bls_to_execution_change_dst voluntary_exit_dst
dst_of beacon_block_handler gs = beacon_block_dst gs
dst_of blob_sidecar_handler gs = blob_sidecar_dst gs
dst_of beacon_aggregate_and_proof_handler gs = beacon_aggregate_and_proof_dst gs
dst_of beacon_attestation_handler gs = beacon_attestation_dst gs
dst_of sync_committee_contribution_and_proof_handler gs =
    sync_committee_contribution_and_proof_dst gs
dst_of sync_committee_handler gs = sync_committee_dst gs
dst_of proposer_slashing_handler gs = proposer_slashing_dst gs
dst_of attester_slashing_handler gs = attester_slashing_dst gs
dst_of bls_to_execution_change_handler gs = bls_to_execution_change_dst gs
dst_of voluntary_exit_handler gs = voluntary_exit_dst gs
dst_of noop_handler gs = none
