-- ===== src/Processor/Serve/General.antt =====
-- The messages without a slot: which rows are on their way to the repository after any events.
use peekd.Base.{
  zero-or-suc, Bool, arith, ℕ, ◌%◌, ◌^◌, ◌≡◌, refl, sym, ap, ◌∙◌, none, some, List, [], ◌∷◌, ◌++◌,
  Text, length, inl, inr, Option-cases,
}
use mathlib.Core.List.{append_assoc, append-nil}
use peekd.Base.Int.{ℤ}
use peekd.Base.Results.{Result, ok, err, panicked, Result-cases}
use peekd.Repository.Models.{GeneralMessageHistory}
use peekd.Processor.Messages.{Message, MessageType}
use peekd.Processor.SeenCounter.{hex_encode}
use peekd.Processor.SlotExtractor.{MessageKind, slot_message, general_message, extract}
use peekd.Processor.SlotExtractor.Total.{extract_result, extract_lem}
use peekd.Processor.Topics.{parse_eth2_topic}
use peekd.Processor.State.{
  BeaconConfig, BeaconMessageProcessor, BeaconMessageProcessorOptionFunc, PubsubMessage,
  new_beacon_message_processor,
}
use peekd.Processor.Process.{
  process, process_kind, process_slot_message_metadata, process_general_message_metadata,
  new_general_metadata, increase_seen_count_by_raw_id,
}
use peekd.Processor.Process.Kept.{IsValid}
use peekd.Processor.Flush.{
  flush_completed_slots, flush_slots, flush_slot, flush_stats, save_to_repository, slot_seconds,
}
use peekd.Processor.Serve.{
  SlotMessageStats, Event, seen, message, tick, done, notified, flush, step, run,
}
use peekd.Processor.Serve.Config.{node_of-step}
use peekd.Processor.Serve.Reach.{new-IsValid, step-IsValid}

-- The row of a message of a kind, at a node with this region and alias: one for a message without a slot
-- on a readable topic.
unfoldable pub general_row :
    Text → Text → ℤ → ℕ → PubsubMessage → MessageKind → List GeneralMessageHistory
general_row region alias now peer_count msg slot_message = []
general_row region alias now peer_count msg general_message = elim (parse_eth2_topic msg.topic) [
  | none ↦ []
  | some (fork_version, message_type) ↦
      record {
        arrival_time = now;
        fork_version = fork_version;
        topic = message_type;
        node_region = region;
        node_alias = alias;
        node_peer_count = peer_count % 2 ^ 32;
        message_id = hex_encode msg.id;
        size_bytes = length msg.payload % 2 ^ 32;
      }
      ∷ []
]

module _ (decode : MessageType → Text → Result Message) where
  -- The row of an event.
  unfoldable pub general_of : Text → Text → Event → List GeneralMessageHistory
  general_of region alias (message now peer_count msg dst) = elim (decode dst msg.payload) [
    | ok m ↦ elim (extract_result m) [
      | ok (kind, slot) ↦ general_row region alias now peer_count msg kind
      | err e ↦ []
      | panicked ↦ []
    ]
    | err e ↦ []
    | panicked ↦ []
  ]
  general_of region alias _ = []

  -- The rows of some events, the latest first.
  unfoldable pub all_general : Text → Text → List Event → List GeneralMessageHistory
  all_general region alias [] = []
  all_general region alias (event ∷ events) =
      all_general region alias events ++ general_of region alias event

general-process_kind :
    (now : ℤ) (peer_count : ℕ) (msg : PubsubMessage) (kind : MessageKind) (slot : ℕ)
    (p : BeaconMessageProcessor)
    → (process_kind now peer_count msg kind slot p).0.general_tasks
      ≡ general_row p.node_region p.node_alias now peer_count msg kind ++ p.general_tasks
unfolding process_kind process_slot_message_metadata process_general_message_metadata general_row
    new_general_metadata
general-process_kind now peer_count msg slot_message slot p = ground arith
general-process_kind now peer_count msg general_message slot p =
    elim (Option-cases (parse_eth2_topic msg.topic)) [
      | inl e ↦ rw (e, process_general_message_metadata, general_row) refl
      | inr (parts, e) ↦ rw (e, process_general_message_metadata, general_row) refl
    ]

module _ (accept : List SlotMessageStats → Bool)
    (visit : List SlotMessageStats → List SlotMessageStats) where
  general-save :
      (stats : List SlotMessageStats) (p : BeaconMessageProcessor)
      → (save_to_repository accept stats p).general_tasks ≡ p.general_tasks
  unfolding save_to_repository
  general-save [] p = refl
  general-save (stat ∷ stats) p = refl

  general-flush_stats :
      (stats : List SlotMessageStats) (p : BeaconMessageProcessor)
      → (flush_stats accept stats p).general_tasks ≡ p.general_tasks
  unfolding flush_stats
  general-flush_stats [] p = refl
  general-flush_stats (stat ∷ stats) p = general-save _ _

  general-flush_slots :
      (slots : List ℕ) (p : BeaconMessageProcessor)
      → (flush_slots accept visit slots p).general_tasks ≡ p.general_tasks
  unfolding flush_slots flush_slot
  general-flush_slots [] p = refl
  general-flush_slots (slot ∷ slots) p =
      general-flush_slots slots (flush_slot accept visit slot p) ∙ general-flush_stats _ _

  general-flush_completed_slots :
      (slots : List ℕ → List ℕ) (now : ℤ) (p : BeaconMessageProcessor)
      → (flush_completed_slots accept slots visit now p).0.general_tasks ≡ p.general_tasks
  unfolding flush_completed_slots
  general-flush_completed_slots slots now p = elim (zero-or-suc (slot_seconds p.beacon_config)) [
    | inl e ↦ rw (e, flush_completed_slots) refl
    | inr (m, e) ↦ rw (e, flush_completed_slots) (general-flush_slots _ p)
  ]

module _ (decode : MessageType → Text → Result Message) where
  general-process :
      (now : ℤ) (peer_count : ℕ) (msg : PubsubMessage) (dst : MessageType)
      (p : BeaconMessageProcessor)
      → IsValid p
      → (process decode now peer_count msg dst p).0.general_tasks
        ≡ general_of decode p.node_region p.node_alias (message now peer_count msg dst)
          ++ p.general_tasks
  unfolding process general_of
  general-process now peer_count msg dst p v = elim (Result-cases (decode dst msg.payload)) [
    | inl (m, e) ↦
        let same : extract p.extractors m ≡ extract_result m =
          ap (λ r. extract r m) v.registry ∙ extract_lem m in
        elim (Result-cases (extract_result m)) [
          | inl ((kind, slot), f) ↦
              rw (process, general_of, e, same, f)
                (general-process_kind now peer_count msg kind slot p)
          | inr (inl (x, f)) ↦ rw (process, general_of, e, same, f) refl
          | inr (inr f) ↦ rw (process, general_of, e, same, f) refl
        ]
    | inr (inl (x, e)) ↦ rw (process, general_of, e) refl
    | inr (inr e) ↦ rw (process, general_of, e) refl
  ]

  general-step :
      (event : Event) (p : BeaconMessageProcessor)
      → IsValid p
      → (step decode event p).general_tasks
        ≡ general_of decode p.node_region p.node_alias event ++ p.general_tasks
  unfolding step flush increase_seen_count_by_raw_id general_of
  general-step (seen raw_id) p v = refl
  general-step (message now peer_count msg dst) p v = general-process now peer_count msg dst p v
  general-step (tick f) p v = general-flush_completed_slots f.accept f.visit f.slots f.now p
  general-step (done f) p v = general-flush_completed_slots f.accept f.visit f.slots f.now p
  general-step notified p v = refl

  general-run :
      (events : List Event) (p : BeaconMessageProcessor)
      → IsValid p
      → (run decode events p).general_tasks
        ≡ all_general decode p.node_region p.node_alias events ++ p.general_tasks
  unfolding run all_general
  general-run [] p v = refl
  general-run (event ∷ events) p v =
      let q = step decode event p in
      let node = node_of-step decode event p in
      general-run events q (step-IsValid decode event p v)
      ∙ ap
          (λ (n : BeaconConfig × Text × Text). all_general decode n.1 n.2 events ++ q.general_tasks)
          node
      ∙ ap (λ rows. all_general decode p.node_region p.node_alias events ++ rows)
          (general-step event p v)
      ∙ sym (append_assoc (all_general decode p.node_region p.node_alias events) _ p.general_tasks)

  -- After any events from a new processor on, the goroutines that were started to save messages without a
  -- slot have exactly these rows, the latest first: one for each message that decodes to a message without
  -- a slot and whose topic parses, with the clock, the node's region and alias, the peer count and the size
  -- modulo 2 ^ 32, and the hexadecimal form of its id. No other message, no flush and no error adds or
  -- removes one.
  pub run-new-general :
      (config : BeaconConfig) (opts : List BeaconMessageProcessorOptionFunc) (events : List Event)
      → let p = new_beacon_message_processor config opts in
        (run decode events p).general_tasks ≡ all_general decode p.node_region p.node_alias events
  unfolding new_beacon_message_processor
  run-new-general config opts events = general-run events _ (new-IsValid config opts) ∙ append-nil _
