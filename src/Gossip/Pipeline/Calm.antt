-- ===== src/Gossip/Pipeline/Calm.antt =====
-- The calls of `Process` that do not panic.
use peekd.Base.{ℕ, ◌≢◌, refl, none, Text, arith}
use peekd.Base.Int.{ℤ}
use peekd.Base.Results.{Result, ok, err, panicked, wrapped}
use peekd.Processor.Messages.{Message}
use peekd.Processor.Messages.{
  signed_beacon_block, signed_beacon_block_altair, signed_beacon_block_bellatrix,
  signed_beacon_block_capella, signed_beacon_block_deneb, signed_beacon_block_electra,
  signed_aggregate_attestation_and_proof, signed_aggregate_attestation_and_proof_electra,
  signed_contribution_and_proof, attestation, attestation_electra, single_attestation,
  sync_committee_message, sync_committee_contribution, blob_sidecar, proposer_slashing,
  attester_slashing, attester_slashing_electra, voluntary_exit, bls_to_execution_change, other,
}
use peekd.Processor.SlotExtractor.{MessageKind, slot_message, general_message}
use peekd.Processor.SlotExtractor.Total.{extract_result}
use peekd.Processor.State.{BeaconMessageProcessor, PubsubMessage}
use peekd.Processor.Topics.{parse_eth2_topic}
use peekd.Processor.Process.{
  process_kind, process_slot_message_metadata, process_general_message_metadata, new_slot_metadata,
  new_general_metadata,
}

pub extract_calm : (m : Message) → extract_result m ≢ panicked
unfolding extract_result
extract_calm (signed_beacon_block m) = ground arith
extract_calm (signed_beacon_block_altair m) = ground arith
extract_calm (signed_beacon_block_bellatrix m) = ground arith
extract_calm (signed_beacon_block_capella m) = ground arith
extract_calm (signed_beacon_block_deneb m) = ground arith
extract_calm (signed_beacon_block_electra m) = ground arith
extract_calm (signed_aggregate_attestation_and_proof m) = ground arith
extract_calm (signed_aggregate_attestation_and_proof_electra m) = ground arith
extract_calm (signed_contribution_and_proof m) = ground arith
extract_calm (attestation m) = ground arith
extract_calm (attestation_electra m) = ground arith
extract_calm (single_attestation m) = ground arith
extract_calm (sync_committee_message m) = ground arith
extract_calm (sync_committee_contribution m) = ground arith
extract_calm (blob_sidecar m) = ground arith
extract_calm proposer_slashing = ground arith
extract_calm attester_slashing = ground arith
extract_calm attester_slashing_electra = ground arith
extract_calm voluntary_exit = ground arith
extract_calm bls_to_execution_change = ground arith
extract_calm (other k) = ground arith

pub process_kind_calm :
    (now : ℤ) (peer_count : ℕ) (msg : PubsubMessage) (kind : MessageKind) (slot : ℕ)
    (p : BeaconMessageProcessor)
    → parse_eth2_topic msg.topic ≢ none
    → (process_kind now peer_count msg kind slot p).1 ≢ panicked
unfolding process_kind process_slot_message_metadata process_general_message_metadata
    new_slot_metadata new_general_metadata
process_kind_calm now peer_count msg slot_message slot p parses = ground arith
process_kind_calm now peer_count msg general_message slot p parses = ground arith

pub wrapped_calm : (text : Text) (r : Result (Unit {0})) → r ≢ panicked → wrapped text r ≢ panicked
wrapped_calm text (ok _) calm = calm
wrapped_calm text (err e) calm = ground arith
wrapped_calm text panicked calm = absurd (calm refl)
