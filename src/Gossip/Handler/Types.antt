-- ===== src/Gossip/Handler/Types.antt =====
-- The types that the handlers decode into, against the registry of the processor.
use peekd.Base.{ℕ, ◌≡◌, ◌∙◌, Option, none, some, arith}
use peekd.Base.Results.{ok}
use peekd.Processor.Messages.{
  Message, MessageType, type_of, other, other_type, signed_beacon_block, signed_beacon_block_altair,
  signed_beacon_block_bellatrix, signed_beacon_block_capella, signed_beacon_block_deneb,
  signed_beacon_block_electra, signed_aggregate_attestation_and_proof,
  signed_aggregate_attestation_and_proof_electra, signed_contribution_and_proof, attestation,
  attestation_electra, single_attestation, sync_committee_message, sync_committee_contribution,
  blob_sidecar, proposer_slashing, attester_slashing, attester_slashing_electra, voluntary_exit,
  bls_to_execution_change, signed_beacon_block_type, signed_beacon_block_altair_type,
  signed_beacon_block_bellatrix_type, signed_beacon_block_capella_type,
  signed_beacon_block_deneb_type, signed_beacon_block_electra_type,
  signed_aggregate_attestation_and_proof_type, signed_aggregate_attestation_and_proof_electra_type,
  signed_contribution_and_proof_type, attestation_type, attestation_electra_type,
  single_attestation_type, sync_committee_message_type, sync_committee_contribution_type,
  blob_sidecar_type, proposer_slashing_type, attester_slashing_type, attester_slashing_electra_type,
  voluntary_exit_type, bls_to_execution_change_type,
}
use peekd.Processor.SlotExtractor.{
  MessageKind, slot_message, general_message, extract, new_slot_extractor_registry,
}
use peekd.Processor.SlotExtractor.Total.{extract_result, extract_lem}
use peekd.Gossip.Destination.{GossipSub, Handler, dst_of}
use peekd.Gossip.Destination.{
  beacon_block_handler, blob_sidecar_handler, beacon_aggregate_and_proof_handler,
  beacon_attestation_handler, sync_committee_contribution_and_proof_handler, sync_committee_handler,
  proposer_slashing_handler, attester_slashing_handler, bls_to_execution_change_handler,
  voluntary_exit_handler, noop_handler,
}

-- Whether the messages of a handler carry a slot.
abbrev pub kind_of : Handler → MessageKind
kind_of proposer_slashing_handler = general_message
kind_of attester_slashing_handler = general_message
kind_of bls_to_execution_change_handler = general_message
kind_of voluntary_exit_handler = general_message
kind_of _ = slot_message

-- The kind under which the registry files a type, if it knows it.
abbrev pub filed_as : MessageType → Option MessageKind
filed_as signed_beacon_block_type = some slot_message
filed_as signed_beacon_block_altair_type = some slot_message
filed_as signed_beacon_block_bellatrix_type = some slot_message
filed_as signed_beacon_block_capella_type = some slot_message
filed_as signed_beacon_block_deneb_type = some slot_message
filed_as signed_beacon_block_electra_type = some slot_message
filed_as signed_aggregate_attestation_and_proof_type = some slot_message
filed_as signed_aggregate_attestation_and_proof_electra_type = some slot_message
filed_as signed_contribution_and_proof_type = some slot_message
filed_as attestation_type = some slot_message
filed_as attestation_electra_type = some slot_message
filed_as single_attestation_type = some slot_message
filed_as sync_committee_message_type = some slot_message
filed_as sync_committee_contribution_type = some slot_message
filed_as blob_sidecar_type = some slot_message
filed_as proposer_slashing_type = some general_message
filed_as attester_slashing_type = some general_message
filed_as attester_slashing_electra_type = some general_message
filed_as voluntary_exit_type = some general_message
filed_as bls_to_execution_change_type = some general_message
filed_as (other_type _) = none

extract-filed_as :
    (m : Message) (kind : MessageKind)
    → filed_as (type_of m) ≡ some kind
    → (slot : ℕ) × (extract_result m ≡ ok (kind, slot))
unfolding type_of extract_result
extract-filed_as (signed_beacon_block m) kind e = (m.slot, ground arith)
extract-filed_as (signed_beacon_block_altair m) kind e = (m.slot, ground arith)
extract-filed_as (signed_beacon_block_bellatrix m) kind e = (m.slot, ground arith)
extract-filed_as (signed_beacon_block_capella m) kind e = (m.slot, ground arith)
extract-filed_as (signed_beacon_block_deneb m) kind e = (m.slot, ground arith)
extract-filed_as (signed_beacon_block_electra m) kind e = (m.slot, ground arith)
extract-filed_as (signed_aggregate_attestation_and_proof m) kind e =
    (m.aggregate.data_.slot, ground arith)
extract-filed_as (signed_aggregate_attestation_and_proof_electra m) kind e =
    (m.aggregate.data_.slot, ground arith)
extract-filed_as (signed_contribution_and_proof m) kind e = (m.contribution.slot, ground arith)
extract-filed_as (attestation m) kind e = (m.slot, ground arith)
extract-filed_as (attestation_electra m) kind e = (m.slot, ground arith)
extract-filed_as (single_attestation m) kind e = (m.slot, ground arith)
extract-filed_as (sync_committee_message m) kind e = (m, ground arith)
extract-filed_as (sync_committee_contribution m) kind e = (m, ground arith)
extract-filed_as (blob_sidecar m) kind e = (m.header.slot, ground arith)
extract-filed_as proposer_slashing kind e = (0, ground arith)
extract-filed_as attester_slashing kind e = (0, ground arith)
extract-filed_as attester_slashing_electra kind e = (0, ground arith)
extract-filed_as voluntary_exit kind e = (0, ground arith)
extract-filed_as bls_to_execution_change kind e = (0, ground arith)
extract-filed_as (other k) kind e = cc

filed_as-dst_of :
    (h : Handler) (gs : GossipSub) (dst : MessageType)
    → dst_of h gs ≡ some dst
    → filed_as dst ≡ some (kind_of h)
unfolding dst_of
filed_as-dst_of beacon_block_handler gs dst e = ground arith
filed_as-dst_of blob_sidecar_handler gs dst e = ground arith
filed_as-dst_of beacon_aggregate_and_proof_handler gs dst e = ground arith
filed_as-dst_of beacon_attestation_handler gs dst e = ground arith
filed_as-dst_of sync_committee_contribution_and_proof_handler gs dst e = ground arith
filed_as-dst_of sync_committee_handler gs dst e = ground arith
filed_as-dst_of proposer_slashing_handler gs dst e = ground arith
filed_as-dst_of attester_slashing_handler gs dst e = ground arith
filed_as-dst_of bls_to_execution_change_handler gs dst e = ground arith
filed_as-dst_of voluntary_exit_handler gs dst e = ground arith
filed_as-dst_of noop_handler gs dst e = ground arith

-- Whatever the fork, the type that a handler decodes into is known to the default registry: a message
-- of that type is extracted without an error and without a panic, as one with a slot for the handlers
-- of blocks, blobs, attestations and sync committees, as a general one for the other four.
pub extract-dst_of :
    (h : Handler) (gs : GossipSub) (m : Message)
    → dst_of h gs ≡ some (type_of m)
    → (slot : ℕ) × (extract new_slot_extractor_registry m ≡ ok (kind_of h, slot))
extract-dst_of h gs m e =
    let (slot, x) = extract-filed_as m (kind_of h) (filed_as-dst_of h gs (type_of m) e) in
    (slot, extract_lem m ∙ x)
