-- ===== src/Gossip/Pipeline.antt =====
-- gossip/subscription.go with handler.go: the loop of a subscription, its handler and the processor
-- behind it.
pub mod Calm
use mathlib.Core.Path.{subst}
use peekd.Base.{
  codes, ℕ, ◌≡◌, ◌≢◌, refl, sym, ap, ◌∙◌, Option, none, some, All, List, [], ◌∷◌, ◌++◌, map, Text,
  Text-discrete, inl, inr, arith,
}
use peekd.Base.Int.{ℤ}
use peekd.Base.Results.{Error, Result, ok, err, panicked, wrapped, Result-cases}
use peekd.Processor.Messages.{Message, MessageType}
use peekd.Processor.Messages.{
  signed_beacon_block, signed_beacon_block_altair, signed_beacon_block_bellatrix,
  signed_beacon_block_capella, signed_beacon_block_deneb, signed_beacon_block_electra,
  signed_aggregate_attestation_and_proof, signed_aggregate_attestation_and_proof_electra,
  signed_contribution_and_proof, attestation, attestation_electra, single_attestation,
  sync_committee_message, sync_committee_contribution, blob_sidecar, proposer_slashing,
  attester_slashing, attester_slashing_electra, voluntary_exit, bls_to_execution_change, other,
}
use peekd.Processor.SlotExtractor.{extract, MessageKind, slot_message, general_message}
use peekd.Processor.SlotExtractor.Total.{extract_lem, extract_result}
use peekd.Processor.State.{BeaconMessageProcessor, PubsubMessage}
use peekd.Processor.Topics.{parse_eth2_topic}
use peekd.Processor.Process.{
  process, process_kind, process_slot_message_metadata, process_general_message_metadata,
  new_slot_metadata, new_general_metadata,
}
use peekd.Processor.Process.Kept.{IsValid, process-IsValid}
use peekd.Gossip.Destination.{GossipSub, Handler, dst_of, noop_handler}
use peekd.Gossip.Handler.{handle, handle_as}
use peekd.Gossip.Handler.Outcome.{handle-dst_of, Handler-discrete}
use peekd.Gossip.Subscription.{
  failed, Round, cancelled, received, serve, serve_own, serve_other, handle_all, foreign,
  foreign_own, foreign_other,
}
use peekd.Gossip.Pipeline.Calm.{extract_calm, process_kind_calm, wrapped_calm}

-- An outcome without a panic, that keeps the invariant.
abbrev Safe : BeaconMessageProcessor × Result (Unit {0}) → Type 0
Safe r = (r.1 ≢ panicked) × IsValid r.0

-- A handler that on this message neither panics nor breaks the invariant.
abbrev IsSafe :
    (PubsubMessage → BeaconMessageProcessor → BeaconMessageProcessor × Result (Unit {0}))
    → PubsubMessage
    → Type 0
IsSafe handler msg = (p : BeaconMessageProcessor) → IsValid p → Safe (handler msg p)

module _ (host_id : Text)
    (handler : PubsubMessage
      → BeaconMessageProcessor
      → BeaconMessageProcessor × Result (Unit {0})) where
  serve_safe :
      (msgs : List PubsubMessage) (rounds : List Round) (p : BeaconMessageProcessor)
      → All (IsSafe handler) msgs
      → IsValid p
      → (serve host_id handler (map received msgs ++ rounds) p
          ≡ serve host_id handler rounds
              (handle_all host_id handler (foreign host_id handler msgs) p))
        × IsValid (handle_all host_id handler (foreign host_id handler msgs) p)
  unfolding handle_all
  serve_safe [] rounds p safe valid = unfold foreign in (refl, valid)
  serve_safe (msg ∷ msgs) rounds p (s, safe) valid =
      elim (Text-discrete msg.received_from host_id) [
        | yes own ↦
            let (e, v) = serve_safe msgs rounds p safe valid in
            rw (foreign_own host_id handler msg msgs own)
              (serve_own host_id handler msg (map received msgs ++ rounds) p own ∙ e, v)
        | no differ ↦
            let (e, v) = serve_safe msgs rounds (handler msg p).0 safe (s p valid).1 in
            rw (foreign_other host_id handler msg msgs differ) (
              serve_other host_id handler msg (map received msgs ++ rounds) p differ (s p valid).0
                  ∙ e,
              v,
            )
      ]

-- What `Serve` returns after a round in which it does not go on.
abbrev pub ending : Round → Option (Result (Unit {0}))
ending cancelled = some (ok tt)
ending (failed e) =
    some (err (Error.wrap e (codes "failed to get next gossip subscription message")))
ending (received msg) = none

serve_ends :
    (host_id : Text)
    (handler : PubsubMessage → BeaconMessageProcessor → BeaconMessageProcessor × Result (Unit {0}))
    (stop : Round) (rest : List Round) (p : BeaconMessageProcessor) (result : Result (Unit {0}))
    → ending stop ≡ some result
    → serve host_id handler (stop ∷ rest) p ≡ (p, some result)
unfolding serve
serve_ends host_id handler cancelled rest p result e = ap (λ r. (p, r)) e
serve_ends host_id handler (failed x) rest p result e = ap (λ r. (p, r)) e
serve_ends host_id handler (received msg) rest p result e = absurd (ground arith)

-- The handler of a topic, with the time and the number of peers at which each message comes.
unfoldable pub topic_handler :
    (MessageType → Text → Result Message)
    → (PubsubMessage → ℤ)
    → (PubsubMessage → ℕ)
    → GossipSub
    → Handler
    → PubsubMessage
    → BeaconMessageProcessor
    → BeaconMessageProcessor × Result (Unit {0})
topic_handler decode clock peers gs h msg p = handle decode (clock msg) (peers msg) gs h msg p

module _ (decode : MessageType → Text → Result Message)
    (decodes : (dst : MessageType) (payload : Text) → decode dst payload ≢ panicked) where
  process_calm :
      (now : ℤ) (peer_count : ℕ) (msg : PubsubMessage) (dst : MessageType)
      (p : BeaconMessageProcessor)
      → IsValid p
      → parse_eth2_topic msg.topic ≢ none
      → (process decode now peer_count msg dst p).1 ≢ panicked
  unfolding process
  process_calm now peer_count msg dst p valid parses =
      elim (Result-cases (decode dst msg.payload)) [
        | inl (m, e) ↦ elim (Result-cases (extract p.extractors m)) [
          | inl ((kind, slot), f) ↦
              rw (process, e, f) (process_kind_calm now peer_count msg kind slot p parses)
          | inr (inl (x, f)) ↦ rw (process, e, f) (ground arith)
          | inr (inr f) ↦
              absurd
                (extract_calm m (sym (ap (λ r. extract r m) valid.registry ∙ extract_lem m) ∙ f))
        ]
        | inr (inl (x, e)) ↦ rw (process, e) (ground arith)
        | inr (inr e) ↦ absurd (decodes dst msg.payload e)
      ]

  handle_as_calm :
      (now : ℤ) (peer_count : ℕ) (h : Handler) (dst : Option MessageType) (msg : PubsubMessage)
      (p : BeaconMessageProcessor)
      → IsValid p
      → parse_eth2_topic msg.topic ≢ none
      → Safe (handle_as decode now peer_count h dst msg p)
  unfolding handle_as
  handle_as_calm now peer_count h none msg p valid parses = (ground arith, valid)
  handle_as_calm now peer_count h (some dst) msg p valid parses = (
    wrapped_calm _ _ (process_calm now peer_count msg dst p valid parses),
    process-IsValid decode now peer_count msg dst p valid,
  )

  handle_calm :
      (now : ℤ) (peer_count : ℕ) (gs : GossipSub) (h : Handler) (msg : PubsubMessage)
      → parse_eth2_topic msg.topic ≢ none
      → (p : BeaconMessageProcessor) → IsValid p
      → Safe (handle decode now peer_count gs h msg p)
  handle_calm now peer_count gs h msg parses p valid = elim (Handler-discrete h noop_handler) [
    | yes e ↦
        subst (λ g. Safe (handle decode now peer_count gs g msg p)) (sym e)
          (unfold handle in (ground arith, valid))
    | no known ↦
        subst Safe (sym (handle-dst_of decode now peer_count gs msg p h known))
          (handle_as_calm now peer_count h (dst_of h gs) msg p valid parses)
  ]

  module _ (clock : PubsubMessage → ℤ) (peers : PubsubMessage → ℕ) (gs : GossipSub)
      (h : Handler) where
    topic_handler-IsSafe :
        (msgs : List PubsubMessage)
        → All (λ msg. parse_eth2_topic msg.topic ≢ none) msgs
        → All (IsSafe (topic_handler decode clock peers gs h)) msgs
    unfolding topic_handler
    topic_handler-IsSafe [] _ = tt
    topic_handler-IsSafe (msg ∷ msgs) (parses, parse) =
        (handle_calm (clock msg) (peers msg) gs h msg parses, topic_handler-IsSafe msgs parse)

    -- A subscription whose messages have topics that parse, with a decoder that never panics and a
    -- processor that satisfies its invariant: until the loop finds its context cancelled at its top, or
    -- `Next` returns an error (as it does if the context is cancelled while it waits), it passes every
    -- message that is not the host's own through the topic's handler down to the processor, in the order
    -- received and each once, whatever errors the handler returns on the way. No call panics, and the
    -- processor satisfies its invariant at the end. In the first case `Serve` returns no error, in the
    -- second the error of `Next`, wrapped.
    pub serve-handle :
        (host_id : Text) (msgs : List PubsubMessage) (stop : Round) (rest : List Round)
        (result : Result (Unit {0})) (p : BeaconMessageProcessor)
        → All (λ msg. parse_eth2_topic msg.topic ≢ none) msgs
        → IsValid p
        → ending stop ≡ some result
        → (serve host_id
              (topic_handler decode clock peers gs h)
              (map received msgs ++ (stop ∷ rest))
              p
            ≡ (
              handle_all host_id
                  (topic_handler decode clock peers gs h)
                  (foreign host_id (topic_handler decode clock peers gs h) msgs)
                  p,
              some result,
            ))
          × IsValid (
              handle_all host_id
                (topic_handler decode clock peers gs h)
                (foreign host_id (topic_handler decode clock peers gs h) msgs)
                p)
    serve-handle host_id msgs stop rest result p parse valid ends =
        let handler = topic_handler decode clock peers gs h in
        let (e, v) =
          serve_safe host_id handler msgs (stop ∷ rest) p (topic_handler-IsSafe msgs parse) valid in
        (e ∙ serve_ends host_id handler stop rest _ result ends, v)
