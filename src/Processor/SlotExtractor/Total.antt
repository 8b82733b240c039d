-- ===== src/Processor/SlotExtractor/Total.antt =====
-- The registry that `newSlotExtractorRegistry` builds.
use peekd.Base.{ℕ, ◌≡◌, refl, codes}
use peekd.Base.Maps.{get, put}
use peekd.Base.Results.{Error, Result, ok, err}
use peekd.Processor.Messages.{Message, type_of}
use peekd.Processor.Messages.{
  signed_beacon_block, signed_beacon_block_altair, signed_beacon_block_bellatrix,
  signed_beacon_block_capella, signed_beacon_block_deneb, signed_beacon_block_electra,
  signed_aggregate_attestation_and_proof, signed_aggregate_attestation_and_proof_electra,
  signed_contribution_and_proof, attestation, attestation_electra, single_attestation,
  sync_committee_message, sync_committee_contribution, blob_sidecar, proposer_slashing,
  attester_slashing, attester_slashing_electra, voluntary_exit, bls_to_execution_change, other,
}
use peekd.Processor.SlotExtractor.{
  MessageKind, slot_message, general_message, MessageType-discrete, register_slot_extractor,
  register_general_message, extract, register_defaults, new_slot_extractor_registry,
}

-- What `extract` should answer.
unfoldable pub extract_result : Message → Result (MessageKind × ℕ)
extract_result (other _) = err (Error.new (codes "unsupported message type"))
extract_result proposer_slashing = ok (general_message, 0)
extract_result attester_slashing = ok (general_message, 0)
extract_result attester_slashing_electra = ok (general_message, 0)
extract_result voluntary_exit = ok (general_message, 0)
extract_result bls_to_execution_change = ok (general_message, 0)
extract_result (signed_beacon_block m) = ok (slot_message, m.slot)
extract_result (signed_beacon_block_altair m) = ok (slot_message, m.slot)
extract_result (signed_beacon_block_bellatrix m) = ok (slot_message, m.slot)
extract_result (signed_beacon_block_capella m) = ok (slot_message, m.slot)
extract_result (signed_beacon_block_deneb m) = ok (slot_message, m.slot)
extract_result (signed_beacon_block_electra m) = ok (slot_message, m.slot)
extract_result (signed_aggregate_attestation_and_proof m) =
    ok (slot_message, m.aggregate.data_.slot)
extract_result (signed_aggregate_attestation_and_proof_electra m) =
    ok (slot_message, m.aggregate.data_.slot)
extract_result (signed_contribution_and_proof m) = ok (slot_message, m.contribution.slot)
extract_result (attestation m) = ok (slot_message, m.slot)
extract_result (attestation_electra m) = ok (slot_message, m.slot)
extract_result (single_attestation m) = ok (slot_message, m.slot)
extract_result (sync_committee_message m) = ok (slot_message, m)
extract_result (sync_committee_contribution m) = ok (slot_message, m)
extract_result (blob_sidecar m) = ok (slot_message, m.header.slot)

-- The default registry knows every message type that the program names and no other: no type
-- assertion fails, each message with a slot yields its own slot, the five slot-less ones are general.
pub extract_lem : (msg : Message) → extract new_slot_extractor_registry msg ≡ extract_result msg
unfolding extract extract_result new_slot_extractor_registry register_defaults
    register_slot_extractor register_general_message get put type_of MessageType-discrete
extract_lem (signed_beacon_block m) = refl
extract_lem (signed_beacon_block_altair m) = refl
extract_lem (signed_beacon_block_bellatrix m) = refl
extract_lem (signed_beacon_block_capella m) = refl
extract_lem (signed_beacon_block_deneb m) = refl
extract_lem (signed_beacon_block_electra m) = refl
extract_lem (signed_aggregate_attestation_and_proof m) = refl
extract_lem (signed_aggregate_attestation_and_proof_electra m) = refl
extract_lem (signed_contribution_and_proof m) = refl
extract_lem (attestation m) = refl
extract_lem (attestation_electra m) = refl
extract_lem (single_attestation m) = refl
extract_lem (sync_committee_message m) = refl
extract_lem (sync_committee_contribution m) = refl
extract_lem (blob_sidecar m) = refl
extract_lem proposer_slashing = refl
extract_lem attester_slashing = refl
extract_lem attester_slashing_electra = refl
extract_lem voluntary_exit = refl
extract_lem bls_to_execution_change = refl
extract_lem (other k) = refl
