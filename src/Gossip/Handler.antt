-- ===== src/Gossip/Handler.antt =====
-- gossip/handler.go: the handler of each topic, and what it does with a message.
pub mod Types
pub mod Forks
pub mod Outcome
use peekd.Base.{
  ◌++◌, [], ℕ, Bool, ◌||◌, Option, none, some, Text, codes, Text-discrete, if◌then◌else◌,
}
use mathlib.Core.Bool.{decide}
use peekd.Base.Int.{ℤ}
use peekd.Base.Results.{Error, Result, ok, err, wrapped}
use peekd.Base.Strings.{contains}
use peekd.Eth.{BeaconChainConfig}
use peekd.Processor.Messages.{Message, MessageType}
use peekd.Processor.Messages.{
  attestation_type, attester_slashing_electra_type, attester_slashing_type, blob_sidecar_type,
  bls_to_execution_change_type, proposer_slashing_type,
  signed_aggregate_attestation_and_proof_electra_type, signed_aggregate_attestation_and_proof_type,
  signed_beacon_block_altair_type, signed_beacon_block_bellatrix_type,
  signed_beacon_block_capella_type, signed_beacon_block_deneb_type,
  signed_beacon_block_electra_type, signed_beacon_block_type, signed_contribution_and_proof_type,
  single_attestation_type, sync_committee_message_type, voluntary_exit_type,
}
use peekd.Processor.Topics.{MessageNames}
use peekd.Processor.State.{BeaconMessageProcessor, PubsubMessage}
use peekd.Processor.Process.{process}
use peekd.Gossip.Destination.{GossipSub, Handler, dst_of}
use peekd.Gossip.Destination.{
  beacon_block_handler, blob_sidecar_handler, beacon_aggregate_and_proof_handler,
  beacon_attestation_handler, sync_committee_contribution_and_proof_handler, sync_committee_handler,
  proposer_slashing_handler, attester_slashing_handler, bls_to_execution_change_handler,
  voluntary_exit_handler, noop_handler,
}

unfoldable pub mapping_topic_to_handler : MessageNames → Text → Handler
mapping_topic_to_handler n topic =
    if contains topic n.block
    then beacon_block_handler
    else if contains topic n.blob_sidecar
    then blob_sidecar_handler
    else if contains topic n.aggregate_and_proof
    then beacon_aggregate_and_proof_handler
    else if contains topic n.attestation
    then beacon_attestation_handler
    else if contains topic n.contribution_and_proof
    then sync_committee_contribution_and_proof_handler
    else if contains topic n.sync_committee
    then sync_committee_handler
    else if contains topic n.proposer_slashing
    then proposer_slashing_handler
    else if contains topic n.attester_slashing
    then attester_slashing_handler
    else if contains topic n.bls_to_execution_change
    then bls_to_execution_change_handler
    else if contains topic n.exit
    then voluntary_exit_handler
    else noop_handler

-- What a handler calls its message in its errors.
abbrev pub subject : Handler → Text
subject beacon_block_handler = codes "block"
subject blob_sidecar_handler = codes "blob"
subject beacon_aggregate_and_proof_handler = codes "aggregate proof"
subject beacon_attestation_handler = codes "attestation"
subject sync_committee_contribution_and_proof_handler = codes "contribution proof"
subject sync_committee_handler = codes "sync committee"
subject proposer_slashing_handler = codes "proposer slashing"
subject attester_slashing_handler = codes "attester slashing"
subject bls_to_execution_change_handler = codes "bls execution change"
subject voluntary_exit_handler = codes "voluntary exit"
subject noop_handler = []

-- A handler: the unknown fork, or the call of `Process`.
unfoldable pub handle_as :
    (MessageType → Text → Result Message)
    → ℤ
    → ℕ
    → Handler
    → Option MessageType
    → PubsubMessage
    → BeaconMessageProcessor
    → BeaconMessageProcessor × Result (Unit {0})
handle_as decode now peer_count h none msg p =
    (p, err (Error.new (codes "unknown fork version for handling " ++ subject h)))
handle_as decode now peer_count h (some dst) msg p =
    let (p', result) = process decode now peer_count msg dst p in
    (p', wrapped (codes "failed to process " ++ (subject h ++ codes " message")) result)

unfoldable pub handle :
    (MessageType → Text → Result Message)
    → ℤ
    → ℕ
    → GossipSub
    → Handler
    → PubsubMessage
    → BeaconMessageProcessor
    → BeaconMessageProcessor × Result (Unit {0})
unfolding handle_as dst_of
handle decode now peer_count gs noop_handler msg p = (p, ok tt)
handle decode now peer_count gs beacon_block_handler msg p =
    handle_as decode now peer_count beacon_block_handler (dst_of beacon_block_handler gs) msg p
handle decode now peer_count gs blob_sidecar_handler msg p =
    handle_as decode now peer_count blob_sidecar_handler (dst_of blob_sidecar_handler gs) msg p
handle decode now peer_count gs beacon_aggregate_and_proof_handler msg p =
    handle_as decode now peer_count beacon_aggregate_and_proof_handler
      (dst_of beacon_aggregate_and_proof_handler gs) msg p
handle decode now peer_count gs beacon_attestation_handler msg p =
    handle_as decode now peer_count beacon_attestation_handler
      (dst_of beacon_attestation_handler gs) msg p
handle decode now peer_count gs sync_committee_contribution_and_proof_handler msg p =
    handle_as decode now peer_count sync_committee_contribution_and_proof_handler
      (dst_of sync_committee_contribution_and_proof_handler gs) msg p
handle decode now peer_count gs sync_committee_handler msg p =
    handle_as decode now peer_count sync_committee_handler (dst_of sync_committee_handler gs) msg p
handle decode now peer_count gs proposer_slashing_handler msg p =
    handle_as decode now peer_count proposer_slashing_handler (dst_of proposer_slashing_handler gs)
      msg p
handle decode now peer_count gs attester_slashing_handler msg p =
    handle_as decode now peer_count attester_slashing_handler (dst_of attester_slashing_handler gs)
      msg p
handle decode now peer_count gs bls_to_execution_change_handler msg p =
    handle_as decode now peer_count bls_to_execution_change_handler
      (dst_of bls_to_execution_change_handler gs) msg p
handle decode now peer_count gs voluntary_exit_handler msg p =
    handle_as decode now peer_count voluntary_exit_handler (dst_of voluntary_exit_handler gs) msg p
