-- ===== src/Processor/Messages.antt =====
-- The gossip messages of the package ethtypes of Prysm: their Go types, and the parts of them that
-- this program reads. A pointer inside a decoded message is never nil.
use peekd.Base.{ℕ}

pub record Block : Type 0 where
  pub slot : ℕ

pub record AttestationData : Type 0 where
  pub slot : ℕ

pub record Attestation : Type 0 where
  pub data_ : AttestationData

pub record AggregateAndProof : Type 0 where
  pub aggregate : Attestation

pub record Contribution : Type 0 where
  pub slot : ℕ

pub record ContributionAndProof : Type 0 where
  pub contribution : Contribution

pub record BlockHeader : Type 0 where
  pub slot : ℕ

pub record SignedBlockHeader : Type 0 where
  pub header : BlockHeader

-- `reflect.TypeOf` of a message. `other` stands for the types that this program does not name.
pub data MessageType : Type 0 where
  signed_beacon_block_type : MessageType
  signed_beacon_block_altair_type : MessageType
  signed_beacon_block_bellatrix_type : MessageType
  signed_beacon_block_capella_type : MessageType
  signed_beacon_block_deneb_type : MessageType
  signed_beacon_block_electra_type : MessageType
  signed_aggregate_attestation_and_proof_type : MessageType
  signed_aggregate_attestation_and_proof_electra_type : MessageType
  signed_contribution_and_proof_type : MessageType
  attestation_type : MessageType
  attestation_electra_type : MessageType
  single_attestation_type : MessageType
  sync_committee_message_type : MessageType
  sync_committee_contribution_type : MessageType
  blob_sidecar_type : MessageType
  proposer_slashing_type : MessageType
  attester_slashing_type : MessageType
  attester_slashing_electra_type : MessageType
  voluntary_exit_type : MessageType
  bls_to_execution_change_type : MessageType
  other_type : ℕ → MessageType

-- A message with what its slot is read from.
pub data Message : Type 0 where
  signed_beacon_block : Block → Message
  signed_beacon_block_altair : Block → Message
  signed_beacon_block_bellatrix : Block → Message
  signed_beacon_block_capella : Block → Message
  signed_beacon_block_deneb : Block → Message
  signed_beacon_block_electra : Block → Message
  signed_aggregate_attestation_and_proof : AggregateAndProof → Message
  signed_aggregate_attestation_and_proof_electra : AggregateAndProof → Message
  signed_contribution_and_proof : ContributionAndProof → Message
  attestation : AttestationData → Message
  attestation_electra : AttestationData → Message
  single_attestation : AttestationData → Message
  sync_committee_message : ℕ → Message
  sync_committee_contribution : ℕ → Message
  blob_sidecar : SignedBlockHeader → Message
  proposer_slashing : Message
  attester_slashing : Message
  attester_slashing_electra : Message
  voluntary_exit : Message
  bls_to_execution_change : Message
  other : ℕ → Message

unfoldable pub type_of : Message → MessageType
type_of (signed_beacon_block _) = signed_beacon_block_type
type_of (signed_beacon_block_altair _) = signed_beacon_block_altair_type
type_of (signed_beacon_block_bellatrix _) = signed_beacon_block_bellatrix_type
type_of (signed_beacon_block_capella _) = signed_beacon_block_capella_type
type_of (signed_beacon_block_deneb _) = signed_beacon_block_deneb_type
type_of (signed_beacon_block_electra _) = signed_beacon_block_electra_type
type_of (signed_aggregate_attestation_and_proof _) = signed_aggregate_attestation_and_proof_type
type_of (signed_aggregate_attestation_and_proof_electra _) =
    signed_aggregate_attestation_and_proof_electra_type
type_of (signed_contribution_and_proof _) = signed_contribution_and_proof_type
type_of (attestation _) = attestation_type
type_of (attestation_electra _) = attestation_electra_type
type_of (single_attestation _) = single_attestation_type
type_of (sync_committee_message _) = sync_committee_message_type
type_of (sync_committee_contribution _) = sync_committee_contribution_type
type_of (blob_sidecar _) = blob_sidecar_type
type_of proposer_slashing = proposer_slashing_type
type_of attester_slashing = attester_slashing_type
type_of attester_slashing_electra = attester_slashing_electra_type
type_of voluntary_exit = voluntary_exit_type
type_of bls_to_execution_change = bls_to_execution_change_type
type_of (other k) = other_type k
