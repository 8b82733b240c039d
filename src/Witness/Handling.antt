-- ===== src/Witness/Handling.antt =====
-- The theorems on the handlers and on a subscription as a whole, at a block before Altair.
use peekd.Base.{◌++◌, [], map, ◌∷◌, Text, List, none, ℕ, ◌≡◌, ◌≢◌, refl, some, codes, arith}
use peekd.Base.Int.{pos}
use peekd.Base.Results.{Error, err, canceled, panicked, ok}
use peekd.Base.Strings.{split}
use peekd.Processor.Messages.{
  other_type, MessageType, Message, type_of, signed_beacon_block, attester_slashing_type,
}
use peekd.Processor.Messages.{
  attestation_electra_type, attestation_type, attester_slashing_electra_type, blob_sidecar_type,
  bls_to_execution_change_type, other_type, proposer_slashing_type,
  signed_aggregate_attestation_and_proof_electra_type, signed_aggregate_attestation_and_proof_type,
  signed_beacon_block_altair_type, signed_beacon_block_bellatrix_type,
  signed_beacon_block_capella_type, signed_beacon_block_deneb_type,
  signed_beacon_block_electra_type, signed_beacon_block_type, signed_contribution_and_proof_type,
  single_attestation_type, sync_committee_contribution_type, sync_committee_message_type,
  voluntary_exit_type,
}
use peekd.Processor.State.{PubsubMessage, BeaconMessageProcessor}
use peekd.Gossip.Subscription.{failed, serve, handle_all, foreign, received}
use peekd.Base.Results.{Result, panicked}
use peekd.Processor.Process.Kept.{IsValid}
use peekd.Gossip.Pipeline.{topic_handler, serve-handle}
use peekd.Processor.Topics.{parse_eth2_topic}
use peekd.Processor.Process.{process, process_kind}
use peekd.Gossip.Destination.{GossipSub, dst_of, beacon_block_handler, attester_slashing_handler}
use peekd.Gossip.Handler.{handle, handle_as}
use peekd.Gossip.Handler.Types.{kind_of}
use peekd.Gossip.Handler.Outcome.{handle_failed, handle-process_kind}
use peekd.Witness.Network.{mainnet, version}
use peekd.Witness.Fixtures.{exit_msg, decode, block_msg, now, start, start-IsValid, held}

abbrev genesis_sub : GossipSub
genesis_sub = record { fork_version = version 0; beacon_config = mainnet }

abbrev block : Message
block = signed_beacon_block (record { slot = 3 })

block_dst : dst_of beacon_block_handler genesis_sub ≡ some (type_of block)
unfolding dst_of type_of
block_dst = ground arith

slashing_dst : dst_of attester_slashing_handler genesis_sub ≡ some attester_slashing_type
unfolding dst_of
slashing_dst = ground arith

block_decodes : decode (type_of block) block_msg.payload ≡ ok block
unfolding type_of
block_decodes = refl

block_topic_reads : parse_eth2_topic block_msg.topic ≡ some (codes "6a95a1a9", codes "beacon_block")
unfolding parse_eth2_topic split
block_topic_reads = refl

handle-process_kind_example :
    (slot : ℕ) × (handle decode (pos now) 5 genesis_sub beacon_block_handler block_msg start
      ≡ process_kind (pos now) 5 block_msg (kind_of beacon_block_handler) slot start)
    × ((process_kind (pos now) 5 block_msg (kind_of beacon_block_handler) slot start).1 ≡ ok tt)
handle-process_kind_example =
    handle-process_kind decode (pos now) 5 genesis_sub block_msg start beacon_block_handler block
      (codes "6a95a1a9") (codes "beacon_block") start-IsValid.registry block_dst block_decodes
      block_topic_reads

slashing_is_refused :
    (handle decode (pos now) 5 genesis_sub attester_slashing_handler block_msg held).1 ≢ ok tt
unfolding handle handle_as process
slashing_is_refused = rw slashing_dst (ground arith)

handle_failed_example :
    (handle decode (pos now) 5 genesis_sub attester_slashing_handler block_msg held).0 ≡ held
handle_failed_example =
    handle_failed decode (pos now) 5 genesis_sub block_msg held attester_slashing_handler
      slashing_is_refused

decode_calm : (dst : MessageType) (payload : Text) → decode dst payload ≢ panicked
decode_calm signed_beacon_block_type payload = ground arith
decode_calm signed_beacon_block_altair_type payload = ground arith
decode_calm signed_beacon_block_bellatrix_type payload = ground arith
decode_calm signed_beacon_block_capella_type payload = ground arith
decode_calm signed_beacon_block_deneb_type payload = ground arith
decode_calm signed_beacon_block_electra_type payload = ground arith
decode_calm signed_aggregate_attestation_and_proof_type payload = ground arith
decode_calm signed_aggregate_attestation_and_proof_electra_type payload = ground arith
decode_calm signed_contribution_and_proof_type payload = ground arith
decode_calm attestation_type payload = ground arith
decode_calm attestation_electra_type payload = ground arith
decode_calm single_attestation_type payload = ground arith
decode_calm sync_committee_message_type payload = ground arith
decode_calm sync_committee_contribution_type payload = ground arith
decode_calm blob_sidecar_type payload = ground arith
decode_calm proposer_slashing_type payload = ground arith
decode_calm attester_slashing_type payload = ground arith
decode_calm attester_slashing_electra_type payload = ground arith
decode_calm voluntary_exit_type payload = ground arith
decode_calm bls_to_execution_change_type payload = ground arith
decode_calm (other_type k) payload = ground arith

exit_topic_reads : parse_eth2_topic exit_msg.topic ≢ none
unfolding parse_eth2_topic split
exit_topic_reads = ground arith

block_topic_is_read : parse_eth2_topic block_msg.topic ≢ none
block_topic_is_read = rw block_topic_reads (ground arith)

-- A block, the host's own exit and an exit, at the handler of blocks.
abbrev mixed : List PubsubMessage
mixed = block_msg ∷ record exit_msg { received_from = codes "16Uiu3" } ∷ exit_msg ∷ []

abbrev block_handler :
    PubsubMessage → BeaconMessageProcessor → BeaconMessageProcessor × Result (Unit {0})
block_handler = topic_handler decode (λ msg. pos now) (λ msg. 5) genesis_sub beacon_block_handler

serve-handle_example :
    (serve (codes "16Uiu3") block_handler (map received mixed ++ (failed canceled ∷ [])) start ≡ (
      handle_all
          (codes "16Uiu3")
          block_handler
          (foreign (codes "16Uiu3") block_handler mixed)
          start,
      some (err (Error.wrap canceled (codes "failed to get next gossip subscription message"))),
    ))
    × IsValid (
        handle_all
          (codes "16Uiu3")
          block_handler
          (foreign (codes "16Uiu3") block_handler mixed)
          start)
serve-handle_example =
    serve-handle decode decode_calm (λ msg. pos now) (λ msg. 5) genesis_sub beacon_block_handler
      (codes "16Uiu3") mixed (failed canceled) []
      (err (Error.wrap canceled (codes "failed to get next gossip subscription message"))) start
      (block_topic_is_read, (exit_topic_reads, (exit_topic_reads, tt))) start-IsValid refl
