-- ===== src/Gossip/Handler/Outcome.antt =====
-- The handlers, down to the processor.
use peekd.Base.{codes, ◌++◌, ℕ, ◌≡◌, ◌≢◌, refl, Option, none, some, Text, arith}
use peekd.Gossip.Handler.Types.{kind_of, extract-dst_of}
use peekd.Base.Int.{ℤ}
use peekd.Base.Results.{Result, ok, err, panicked, wrapped}
use peekd.Processor.Messages.{type_of, Message, MessageType}
use peekd.Processor.Topics.{parse_eth2_topic}
use peekd.Processor.State.{BeaconMessageProcessor, PubsubMessage}
use peekd.Processor.SlotExtractor.Total.{extract_lem}
use peekd.Processor.Process.Recorded.{process_extracted}
use peekd.Processor.Process.{
  process_kind, process_slot_message_metadata, process_general_message_metadata, new_slot_metadata,
  new_general_metadata,
}
use mathlib.Core.Path.{ap, subst, sym, ◌∙◌}
use peekd.Processor.SlotExtractor.{
  MessageKind, new_slot_extractor_registry, slot_message, general_message,
}
use peekd.Processor.Process.Kept.{process_failed}
use peekd.Gossip.Destination.{
  GossipSub, Handler, dst_of, noop_handler, beacon_block_handler, blob_sidecar_handler,
  beacon_aggregate_and_proof_handler, beacon_attestation_handler,
  sync_committee_contribution_and_proof_handler, sync_committee_handler, proposer_slashing_handler,
  attester_slashing_handler, bls_to_execution_change_handler, voluntary_exit_handler,
}
use peekd.Gossip.Handler.{subject, process, handle_as, handle}

pub Handler-discrete : Discrete Handler
Handler-discrete = hlevel

module _ (decode : MessageType → Text → Result Message) (now : ℤ) (peer_count : ℕ) (gs : GossipSub)
    (msg : PubsubMessage) (p : BeaconMessageProcessor) where
  -- Every handler but the one of unknown topics goes by its destination type.
  pub handle-dst_of :
      (h : Handler)
      → h ≢ noop_handler
      → handle decode now peer_count gs h msg p
        ≡ handle_as decode now peer_count h (dst_of h gs) msg p
  unfolding handle
  handle-dst_of beacon_block_handler known = refl
  handle-dst_of blob_sidecar_handler known = refl
  handle-dst_of beacon_aggregate_and_proof_handler known = refl
  handle-dst_of beacon_attestation_handler known = refl
  handle-dst_of sync_committee_contribution_and_proof_handler known = refl
  handle-dst_of sync_committee_handler known = refl
  handle-dst_of proposer_slashing_handler known = refl
  handle-dst_of attester_slashing_handler known = refl
  handle-dst_of bls_to_execution_change_handler known = refl
  handle-dst_of voluntary_exit_handler known = refl
  handle-dst_of noop_handler known = absurd (known refl)

  wrapped_failed : (text : Text) (r : Result (Unit {0})) → wrapped text r ≢ ok tt → r ≢ ok tt
  wrapped_failed text (ok _) failed = failed
  wrapped_failed text (err e) failed = ground arith
  wrapped_failed text panicked failed = ground arith

  wrapped_ok : (text : Text) (r : Result (Unit {0})) → r ≡ ok tt → wrapped text r ≡ r
  wrapped_ok text (ok _) fine = refl
  wrapped_ok text (err e) fine = ground arith
  wrapped_ok text panicked fine = refl

  handle_as_failed :
      (h : Handler) (dst : Option MessageType)
      → (handle_as decode now peer_count h dst msg p).1 ≢ ok tt
      → (handle_as decode now peer_count h dst msg p).0 ≡ p
  unfolding handle_as
  handle_as_failed h none failed = refl
  handle_as_failed h (some dst) failed =
      process_failed decode now peer_count msg dst p (wrapped_failed _ _ failed)

  handle_noop : (handle decode now peer_count gs noop_handler msg p).1 ≡ ok tt
  unfolding handle
  handle_noop = refl

  typed_known : (h : Handler) (dst : MessageType) → dst_of h gs ≡ some dst → h ≢ noop_handler
  unfolding dst_of
  typed_known h dst typed e =
      let untyped : none ≡ some dst = ap (λ g. dst_of g gs) (sym e) ∙ typed in ground arith

  -- A handler that returns an error or panics leaves the processor as it was: no fork type, a payload
  -- that is not decoded, a type that is not known, an unreadable topic.
  pub handle_failed :
      (h : Handler)
      → (handle decode now peer_count gs h msg p).1 ≢ ok tt
      → (handle decode now peer_count gs h msg p).0 ≡ p
  handle_failed h failed = elim (Handler-discrete h noop_handler) [
    | yes e ↦
        absurd (failed (ap (λ g. (handle decode now peer_count gs g msg p).1) e ∙ handle_noop))
    | no known ↦
        subst (λ (r : BeaconMessageProcessor × Result (Unit {0})). r.1 ≢ ok tt → r.0 ≡ p)
          (sym (handle-dst_of h known)) (handle_as_failed h (dst_of h gs)) failed
  ]

  process_kind_ok :
      (kind : MessageKind) (slot : ℕ) (fork_version message_type : Text)
      → parse_eth2_topic msg.topic ≡ some (fork_version, message_type)
      → (process_kind now peer_count msg kind slot p).1 ≡ ok tt
  unfolding process_kind process_slot_message_metadata process_general_message_metadata
      new_slot_metadata new_general_metadata
  process_kind_ok slot_message slot fork_version message_type parsed = ground arith
  process_kind_ok general_message slot fork_version message_type parsed = ground arith

  handle_as_ok :
      (h : Handler) (dst : MessageType) (r : BeaconMessageProcessor × Result (Unit {0}))
      → process decode now peer_count msg dst p ≡ r
      → r.1 ≡ ok tt
      → handle_as decode now peer_count h (some dst) msg p ≡ r
  unfolding handle_as
  handle_as_ok h dst r e fine = rw e (
      ap (λ (q : Result (Unit {0})). (r.0, q))
        (wrapped_ok (codes "failed to process " ++ (subject h ++ codes " message")) r.1 fine))

  -- On a processor with the default registry, a handler whose fork has a type takes a payload that decodes
  -- to a message of this type, on a readable topic, without an error: for blocks, blobs, attestations and
  -- sync committees as a message with a slot, for the other four as a general one.
  pub handle-process_kind :
      (h : Handler) (m : Message) (fork_version message_type : Text)
      → p.extractors ≡ new_slot_extractor_registry
      → dst_of h gs ≡ some (type_of m)
      → decode (type_of m) msg.payload ≡ ok m
      → parse_eth2_topic msg.topic ≡ some (fork_version, message_type)
      → (slot : ℕ) × (handle decode now peer_count gs h msg p
          ≡ process_kind now peer_count msg (kind_of h) slot p)
        × ((process_kind now peer_count msg (kind_of h) slot p).1 ≡ ok tt)
  handle-process_kind h m fork_version message_type registry typed decoded parsed =
      let (slot, extracted) = extract-dst_of h gs m typed in
      let fine = process_kind_ok (kind_of h) slot fork_version message_type parsed in
      let processed =
        process_extracted decode now peer_count msg (type_of m) p m registry decoded (kind_of h)
          slot (sym (extract_lem m) ∙ extracted) in
      (
        slot,
        handle-dst_of h (typed_known h (type_of m) typed)
            ∙ ap (λ d. handle_as decode now peer_count h d msg p) typed
            ∙ handle_as_ok h (type_of m) _ processed fine,
        fine,
      )
