-- ===== src/Processor/Serve/Config.antt =====
-- The configuration of a processor and the name and region of its node never change.
use peekd.Base.{ap, ℕ, ◌≡◌, refl, ◌∙◌, zero-or-suc, inl, inr, Bool, List, [], ◌∷◌, Text, arith}
use peekd.Base.Int.{ℤ}
use peekd.Base.Results.{Result}
use peekd.Repository.Models.{SlotMessageStats}
use peekd.Processor.Messages.{Message, MessageType}
use peekd.Processor.SlotExtractor.{MessageKind, slot_message, general_message}
use peekd.Processor.State.{BeaconConfig, BeaconMessageProcessor, PubsubMessage}
use peekd.Processor.Process.{
  process_kind, process_slot_message_metadata, process_general_message_metadata,
  increase_seen_count_by_raw_id,
}
use peekd.Processor.Process.Kept.{process-keeps}
use peekd.Processor.Flush.{
  flush_completed_slots, flush_slots, flush_slot, flush_stats, save_to_repository, slot_seconds,
}
use peekd.Processor.Serve.{Event, seen, message, tick, done, notified, flush, step, run}

-- What the options and the configuration fix.
abbrev pub node_of : BeaconMessageProcessor → BeaconConfig × Text × Text
node_of p = (p.beacon_config, p.node_region, p.node_alias)

module _ (accept : List SlotMessageStats → Bool)
    (visit : List SlotMessageStats → List SlotMessageStats) where
  node_of-save :
      (stats : List SlotMessageStats) (p : BeaconMessageProcessor)
      → node_of (save_to_repository accept stats p) ≡ node_of p
  unfolding save_to_repository
  node_of-save [] p = refl
  node_of-save (stat ∷ stats) p = refl

  node_of-flush_stats :
      (stats : List SlotMessageStats) (p : BeaconMessageProcessor)
      → node_of (flush_stats accept stats p) ≡ node_of p
  unfolding flush_stats
  node_of-flush_stats [] p = refl
  node_of-flush_stats (stat ∷ stats) p = node_of-save _ _

  node_of-flush_slots :
      (slots : List ℕ) (p : BeaconMessageProcessor)
      → node_of (flush_slots accept visit slots p) ≡ node_of p
  unfolding flush_slots flush_slot
  node_of-flush_slots [] p = refl
  node_of-flush_slots (slot ∷ slots) p =
      node_of-flush_slots slots (flush_slot accept visit slot p) ∙ node_of-flush_stats _ _

  node_of-flush_completed_slots :
      (slots : List ℕ → List ℕ) (now : ℤ) (p : BeaconMessageProcessor)
      → node_of (flush_completed_slots accept slots visit now p).0 ≡ node_of p
  unfolding flush_completed_slots
  node_of-flush_completed_slots slots now p = elim (zero-or-suc (slot_seconds p.beacon_config)) [
    | inl e ↦ rw (e, flush_completed_slots) refl
    | inr (m, e) ↦ rw (e, flush_completed_slots) (node_of-flush_slots _ p)
  ]

node_of-process_kind :
    (now : ℤ) (peer_count : ℕ) (msg : PubsubMessage) (kind : MessageKind) (slot : ℕ)
    (p : BeaconMessageProcessor)
    → node_of (process_kind now peer_count msg kind slot p).0 ≡ node_of p
unfolding process_kind process_slot_message_metadata process_general_message_metadata
node_of-process_kind now peer_count msg slot_message slot p = ground arith
node_of-process_kind now peer_count msg general_message slot p = ground arith

module _ (decode : MessageType → Text → Result Message) where
  pub node_of-step :
      (event : Event) (p : BeaconMessageProcessor) → node_of (step decode event p) ≡ node_of p
  unfolding step flush increase_seen_count_by_raw_id
  node_of-step (seen raw_id) p = refl
  node_of-step (message now peer_count msg dst) p =
      process-keeps decode now peer_count msg dst p node_of
        (λ kind slot. node_of-process_kind now peer_count msg kind slot p)
  node_of-step (tick f) p = node_of-flush_completed_slots f.accept f.visit f.slots f.now p
  node_of-step (done f) p = node_of-flush_completed_slots f.accept f.visit f.slots f.now p
  node_of-step notified p = refl

  pub node_of-run :
      (events : List Event) (p : BeaconMessageProcessor) → node_of (run decode events p) ≡ node_of p
  unfolding run
  node_of-run [] p = refl
  node_of-run (event ∷ events) p = node_of-run events (step decode event p) ∙ node_of-step event p

  pub config-run :
      (events : List Event) (p : BeaconMessageProcessor)
      → (run decode events p).beacon_config ≡ p.beacon_config
  config-run events p = ap (λ (n : BeaconConfig × Text × Text). n.0) (node_of-run events p)
