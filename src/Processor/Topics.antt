-- ===== src/Processor/Topics.antt =====
-- `TopicToTopicGroup` and `parseEth2Topic` of processor/beacon_message_processor.go. The message
-- names are constants of the package p2p of Prysm, and enter as a parameter.
pub mod Parse
use peekd.Base.{
  ℕ, suc, Bool, Option, none, some, List, [], ◌∷◌, Text, codes, get_elem?, if◌then◌else◌,
}
use peekd.Base.Strings.{contains, split}

-- p2p.GossipBlockMessage and its siblings.
pub record MessageNames : Type 0 where
  pub block : Text
  pub aggregate_and_proof : Text
  pub contribution_and_proof : Text
  pub proposer_slashing : Text
  pub attester_slashing : Text
  pub exit : Text
  pub bls_to_execution_change : Text
  pub attestation : Text
  pub sync_committee : Text
  pub blob_sidecar : Text

unfoldable pub topic_to_topic_group : MessageNames → Text → Text
topic_to_topic_group n topic =
    if contains topic n.block
    then n.block
    else if contains topic n.aggregate_and_proof
    then n.aggregate_and_proof
    else if contains topic n.contribution_and_proof
    then n.contribution_and_proof
    else if contains topic n.proposer_slashing
    then n.proposer_slashing
    else if contains topic n.attester_slashing
    then n.attester_slashing
    else if contains topic n.exit
    then n.exit
    else if contains topic n.bls_to_execution_change
    then n.bls_to_execution_change
    else if contains topic n.attestation
    then n.attestation
    else if contains topic n.sync_committee
    then n.sync_committee
    else if contains topic n.blob_sidecar
    then n.blob_sidecar
    else codes "unknown"

-- `parts[2], parts[3]`; `none` is the panic of an index out of range.
parts_2_3 : List Text → Option (Text × Text)
parts_2_3 parts = elim (get_elem? parts 2) [
  | none ↦ none
  | some fork_version ↦ elim (get_elem? parts 3) [
    | none ↦ none
    | some message_type ↦ some (fork_version, message_type)
  ]
]

unfoldable pub parse_eth2_topic : Text → Option (Text × Text)
unfolding parts_2_3
parse_eth2_topic topic = parts_2_3 (split topic b'/')
