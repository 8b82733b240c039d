-- ===== src/Witness/Flushing.antt =====
-- The theorems on the flushes, the counter, the caches and the topics, at a block of slot 3.
use mathlib.Core.Path.{ap, ◌≡◌, refl}
use peekd.Base.{
  ◌/◌, ◌-◌, ℕ, ◌+◌, ◌%◌, ◌^◌, none, some, List, [], ◌∷◌, map, Text, codes, ltb, arith,
  if◌then◌else◌, ◌<◌,
}
use peekd.Base.Strings.{split}
use peekd.Base.Int.{to_int64, pos}
use peekd.Base.Maps.{get, put}
use peekd.Base.Results.{ok}
use peekd.Processor.Messages.{type_of}
use peekd.Processor.SeenCounter.{hex_encode, pop}
use peekd.Processor.SeenCounter.History.{Call, since_pop, pop-run}
use peekd.Processor.SeenCounter.History
use peekd.Processor.SlotCache.{find, before, drain_slot}
use peekd.Processor.SlotExtractor.{
  register_defaults, register_general_message, register_slot_extractor, MessageType-discrete,
  extract, new_slot_extractor_registry,
}
use peekd.Processor.Topics.{parse_eth2_topic}
use peekd.Processor.Topics.Parse.{topic_of, parse_eth2_topic-topic_of}
use peekd.Processor.SeenCounter.Hex.{IsBytes}
use peekd.Processor.State.{BeaconConfig, new_beacon_message_processor}
use peekd.Processor.Process.{
  process_kind, process_slot_message_metadata, process, new_slot_metadata,
}
use peekd.Processor.Process.Latency.{slot_start, latency_at, latency_exact, latency_early}
use peekd.Processor.Flush.{
  get_slot_duration, flush_completed_slots, flush_slot, current_slot_of, slot_seconds,
}
use peekd.Processor.Flush.Seen.{seen_of, with_batch, flush_slot-slot_saves}
use peekd.Processor.Flush.Slots.{find-flush_completed_slots}
use peekd.Processor.Flush.Clock.{flush_takes_current_slot}
use peekd.Witness.Fixtures.{
  genesis, config, block_msg, exit_msg, now, later, start, held, held-IsValid, accept, slots, visit,
  any_slots, any_visit,
}

flush_slot-slot_saves_example :
    (flush_slot accept visit 3 held).slot_saves
    ≡ with_batch accept
        (map (seen_of held.seen_counter) (drain_slot visit 3 held.slot_cache).1)
        held.slot_saves
flush_slot-slot_saves_example =
    flush_slot-slot_saves accept visit 3 held any_visit held-IsValid.cache

held-config : held.beacon_config ≡ config
unfolding process process_kind process_slot_message_metadata extract get
    new_beacon_message_processor new_slot_extractor_registry register_defaults
    register_general_message register_slot_extractor put MessageType-discrete parse_eth2_topic split
    type_of new_slot_metadata
held-config = refl

config_seconds : slot_seconds config ≡ 12
unfolding slot_seconds get_slot_duration to_int64
config_seconds = refl

twelve_seconds : 0 < slot_seconds held.beacon_config
twelve_seconds = rw (held-config, config_seconds) (omega arith)

find-flush_completed_slots_example :
    ((flush_completed_slots accept slots visit later held).1 ≡ ok tt)
    × ((j : ℕ) (k : Text)
        → find j k (flush_completed_slots accept slots visit later held).0.slot_cache ≡ (
            if ltb j (before (current_slot_of held.beacon_config later))
            then none
            else find j k held.slot_cache))
find-flush_completed_slots_example =
    find-flush_completed_slots accept visit slots later held any_slots twelve_seconds

abbrev sightings : List Call
sightings =
    Call.seen block_msg.id
    ∷ Call.seen exit_msg.id
    ∷ Call.seen block_msg.id
    ∷ Call.popped block_msg.id
    ∷ Call.seen block_msg.id
    ∷ []

pop-run_example :
    (pop (hex_encode block_msg.id) (History.run sightings)).1
    ≡ (since_pop block_msg.id sightings % 2 ^ 32, ltb 0 (since_pop block_msg.id sightings))
pop-run_example =
    let block_bytes : IsBytes block_msg.id = (omega arith, (omega arith, tt)) in
    let exit_bytes : IsBytes exit_msg.id = (omega arith, tt) in
    pop-run block_msg.id sightings block_bytes
      (block_bytes, (exit_bytes, (block_bytes, (block_bytes, (block_bytes, tt)))))

latency_exact_example :
    latency_at now 3 block_msg 5 (codes "6a95a1a9") (codes "beacon_block") start
    ≡ (now - slot_start genesis 3 start.beacon_config) / 1_000_000
unfolding new_beacon_message_processor
latency_exact_example =
    latency_exact genesis now 3 5 block_msg (codes "6a95a1a9") (codes "beacon_block") start refl
      (omega arith) (omega arith) (omega arith)

-- A block of slot 4 at the same time.
latency_early_example :
    latency_at now 4 block_msg 5 (codes "6a95a1a9") (codes "beacon_block") start
      + (slot_start genesis 4 start.beacon_config - now) / 1_000_000
    ≡ 2 ^ 32
unfolding new_beacon_message_processor
latency_early_example =
    latency_early genesis now 4 5 block_msg (codes "6a95a1a9") (codes "beacon_block") start refl
      (omega arith) (omega arith) (omega arith)

parse_eth2_topic-topic_of_example :
    parse_eth2_topic (topic_of (codes "6a95a1a9") (codes "voluntary_exit") (codes "ssz_snappy"))
    ≡ some (codes "6a95a1a9", codes "voluntary_exit")
parse_eth2_topic-topic_of_example =
    parse_eth2_topic-topic_of (codes "6a95a1a9") (codes "voluntary_exit") (codes "ssz_snappy")
      (ground arith) (ground arith)

flush_takes_current_slot_example :
    find 3 (codes "abcd") (flush_completed_slots accept slots visit (pos now) held).0.slot_cache
    ≡ none
flush_takes_current_slot_example =
    flush_takes_current_slot accept visit slots genesis now 3 (codes "abcd") held any_slots
      (ap (λ (c : BeaconConfig). c.genesis_time) held-config) (rw held-config (omega arith))
      (rw held-config (omega arith)) (omega arith) (rw held-config (omega arith))
      (rw held-config (omega arith))
