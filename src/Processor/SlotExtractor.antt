-- ===== src/Processor/SlotExtractor.antt =====
-- processor/slot_extractor.go: which messages carry a slot, and where it stands.
pub mod Total
use peekd.Base.{ℕ, Option, none, some, List, [], ◌∷◌, Text, codes, ℕ_discrete}
use peekd.Base.Maps.{get, put}
use peekd.Base.Results.{Error, Result, ok, err, panicked}
use peekd.Processor.Messages.{Message, MessageType}
use peekd.Processor.Messages.{
  type_of, signed_beacon_block, signed_beacon_block_altair, signed_beacon_block_bellatrix,
  signed_beacon_block_capella, signed_beacon_block_deneb, signed_beacon_block_electra,
  signed_aggregate_attestation_and_proof, signed_aggregate_attestation_and_proof_electra,
  signed_contribution_and_proof, attestation, attestation_electra, single_attestation,
  sync_committee_message, sync_committee_contribution, blob_sidecar, signed_beacon_block_type,
  signed_beacon_block_altair_type, signed_beacon_block_bellatrix_type,
  signed_beacon_block_capella_type, signed_beacon_block_deneb_type,
  signed_beacon_block_electra_type, signed_aggregate_attestation_and_proof_type,
  signed_aggregate_attestation_and_proof_electra_type, signed_contribution_and_proof_type,
  attestation_type, attestation_electra_type, single_attestation_type, sync_committee_message_type,
  sync_committee_contribution_type, blob_sidecar_type, proposer_slashing_type,
  attester_slashing_type, attester_slashing_electra_type, voluntary_exit_type,
  bls_to_execution_change_type, other_type,
}

pub data MessageKind : Type 0 where
  slot_message general_message : MessageKind

unfoldable pub MessageType-discrete : Discrete MessageType
MessageType-discrete = hlevel ℕ_discrete

-- `func(msg interface{}) primitives.Slot`: `none` is the panic of a failed type assertion.
abbrev pub SlotExtractorFunc : Type 0
SlotExtractorFunc = Message → Option ℕ

pub record SlotExtractorRegistry : Type 0 where
  pub slot_extractors : List (MessageType × SlotExtractorFunc)
  pub general_extractors : List (MessageType × Unit {0})

unfoldable pub register_slot_extractor :
    MessageType → SlotExtractorFunc → SlotExtractorRegistry → SlotExtractorRegistry
register_slot_extractor t fn r = record r {
  slot_extractors = put MessageType-discrete t fn r.slot_extractors;
}

unfoldable pub register_general_message :
    MessageType → SlotExtractorRegistry → SlotExtractorRegistry
register_general_message t r = record r {
  general_extractors = put MessageType-discrete t tt r.general_extractors;
}

unfoldable pub extract : SlotExtractorRegistry → Message → Result (MessageKind × ℕ)
extract r msg = elim (get MessageType-discrete (type_of msg) r.slot_extractors) [
  | some fn ↦ elim (fn msg) [ some slot ↦ ok (slot_message, slot) | none ↦ panicked ]
  | none ↦ elim (get MessageType-discrete (type_of msg) r.general_extractors) [
    | some _ ↦ ok (general_message, 0)
    | none ↦ err (Error.new (codes "unsupported message type"))
  ]
]

signed_beacon_block_slot : SlotExtractorFunc
signed_beacon_block_slot (signed_beacon_block m) = some m.slot
signed_beacon_block_slot _ = none

signed_beacon_block_altair_slot : SlotExtractorFunc
signed_beacon_block_altair_slot (signed_beacon_block_altair m) = some m.slot
signed_beacon_block_altair_slot _ = none

signed_beacon_block_bellatrix_slot : SlotExtractorFunc
signed_beacon_block_bellatrix_slot (signed_beacon_block_bellatrix m) = some m.slot
signed_beacon_block_bellatrix_slot _ = none

signed_beacon_block_capella_slot : SlotExtractorFunc
signed_beacon_block_capella_slot (signed_beacon_block_capella m) = some m.slot
signed_beacon_block_capella_slot _ = none

signed_beacon_block_deneb_slot : SlotExtractorFunc
signed_beacon_block_deneb_slot (signed_beacon_block_deneb m) = some m.slot
signed_beacon_block_deneb_slot _ = none

signed_beacon_block_electra_slot : SlotExtractorFunc
signed_beacon_block_electra_slot (signed_beacon_block_electra m) = some m.slot
signed_beacon_block_electra_slot _ = none

signed_aggregate_attestation_and_proof_slot : SlotExtractorFunc
signed_aggregate_attestation_and_proof_slot (signed_aggregate_attestation_and_proof m) =
    some m.aggregate.data_.slot
signed_aggregate_attestation_and_proof_slot _ = none

signed_aggregate_attestation_and_proof_electra_slot : SlotExtractorFunc
signed_aggregate_attestation_and_proof_electra_slot
      (signed_aggregate_attestation_and_proof_electra m) =
    some m.aggregate.data_.slot
signed_aggregate_attestation_and_proof_electra_slot _ = none

signed_contribution_and_proof_slot : SlotExtractorFunc
signed_contribution_and_proof_slot (signed_contribution_and_proof m) = some m.contribution.slot
signed_contribution_and_proof_slot _ = none

attestation_slot : SlotExtractorFunc
attestation_slot (attestation m) = some m.slot
attestation_slot _ = none

attestation_electra_slot : SlotExtractorFunc
attestation_electra_slot (attestation_electra m) = some m.slot
attestation_electra_slot _ = none

single_attestation_slot : SlotExtractorFunc
single_attestation_slot (single_attestation m) = some m.slot
single_attestation_slot _ = none

sync_committee_message_slot : SlotExtractorFunc
sync_committee_message_slot (sync_committee_message m) = some m
sync_committee_message_slot _ = none

sync_committee_contribution_slot : SlotExtractorFunc
sync_committee_contribution_slot (sync_committee_contribution m) = some m
sync_committee_contribution_slot _ = none

blob_sidecar_slot : SlotExtractorFunc
blob_sidecar_slot (blob_sidecar m) = some m.header.slot
blob_sidecar_slot _ = none

unfoldable pub register_defaults : SlotExtractorRegistry → SlotExtractorRegistry
unfolding signed_beacon_block_slot signed_beacon_block_altair_slot
    signed_beacon_block_bellatrix_slot signed_beacon_block_capella_slot
    signed_beacon_block_deneb_slot signed_beacon_block_electra_slot
    signed_aggregate_attestation_and_proof_slot signed_aggregate_attestation_and_proof_electra_slot
    signed_contribution_and_proof_slot attestation_slot attestation_electra_slot
    single_attestation_slot sync_committee_message_slot sync_committee_contribution_slot
    blob_sidecar_slot
register_defaults r0 =
    let r1 = register_slot_extractor signed_beacon_block_type signed_beacon_block_slot r0 in
    let r2 =
      register_slot_extractor signed_beacon_block_altair_type signed_beacon_block_altair_slot r1 in
    let r3 =
      register_slot_extractor signed_beacon_block_bellatrix_type signed_beacon_block_bellatrix_slot
        r2 in
    let r4 =
      register_slot_extractor signed_beacon_block_capella_type signed_beacon_block_capella_slot
        r3 in
    let r5 =
      register_slot_extractor signed_beacon_block_deneb_type signed_beacon_block_deneb_slot r4 in
    let r6 =
      register_slot_extractor signed_beacon_block_electra_type signed_beacon_block_electra_slot
        r5 in
    let r7 =
      register_slot_extractor signed_aggregate_attestation_and_proof_type
        signed_aggregate_attestation_and_proof_slot r6 in
    let r8 =
      register_slot_extractor signed_aggregate_attestation_and_proof_electra_type
        signed_aggregate_attestation_and_proof_electra_slot r7 in
    let r9 =
      register_slot_extractor signed_contribution_and_proof_type signed_contribution_and_proof_slot
        r8 in
    let r10 = register_slot_extractor attestation_type attestation_slot r9 in
    let r11 = register_slot_extractor attestation_electra_type attestation_electra_slot r10 in
    let r12 = register_slot_extractor single_attestation_type single_attestation_slot r11 in
    let r13 = register_slot_extractor sync_committee_message_type sync_committee_message_slot r12 in
    let r14 =
      register_slot_extractor sync_committee_contribution_type sync_committee_contribution_slot
        r13 in
    let r15 = register_slot_extractor blob_sidecar_type blob_sidecar_slot r14 in
    let r16 = register_general_message proposer_slashing_type r15 in
    let r17 = register_general_message attester_slashing_type r16 in
    let r18 = register_general_message attester_slashing_electra_type r17 in
    let r19 = register_general_message voluntary_exit_type r18 in
    register_general_message bls_to_execution_change_type r19

unfoldable pub new_slot_extractor_registry : SlotExtractorRegistry
new_slot_extractor_registry =
    register_defaults (record { slot_extractors = []; general_extractors = [] })
