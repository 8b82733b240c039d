-- ===== src/Witness/Interleaving.antt =====
-- A flush that is interrupted by a second block, in single steps.
use mathlib.Core.List.{Mem, mem-cons_self}
use mathlib.Core.Path.{subst}
use peekd.Base.{ℕ_discrete, ◌≡◌, ◌<◌, refl, false, List, [], ◌∷◌, ◌++◌, map, arith}
use peekd.Base.Int.{pos}
use peekd.Repository.Models.{SlotMessageStats}
use peekd.Processor.Messages.{signed_beacon_block_type}
use peekd.Processor.SlotCache.Drain.{records, stats_of}
use peekd.Processor.SlotExtractor.{
  extract, new_slot_extractor_registry, register_defaults, register_general_message,
  register_slot_extractor, MessageType-discrete,
}
use peekd.Processor.Topics.{parse_eth2_topic}
use peekd.Base.Strings.{split}
use peekd.Base.Maps.{get, put, delete}
use peekd.Base.Int.{to_int64}
use peekd.Processor.Messages.{type_of}
use peekd.Processor.SlotCache.{
  add, new_slot_cache_store, add_to_cache, completed_of, completed_slots, drain_slot,
}
use peekd.Processor.State.{BeaconMessageProcessor, new_beacon_message_processor}
use peekd.Processor.Process.{
  process, process_kind, process_slot_message_metadata, slot_record, new_slot_metadata,
}
use peekd.Processor.Flush.{current_slot_of, unix_seconds, get_slot_duration, slot_seconds}
use peekd.Processor.Flush.Conserve.{clear, batches, taken}
use peekd.Processor.Threads.{
  Machine, at, waiting, draining, counting, begun, drained, handled, worked, Reach, here, next,
  Works,
}
use peekd.Processor.Threads.Kept.{held, reach-taken}
use peekd.Processor.Threads.Sent.{sent, reach-sent, works-sent}
use peekd.Processor.Threads.Whole.{Reach-works}
use peekd.Witness.Scheduling.{other_block}
use peekd.Witness.Fixtures.{
  config, decode, block_msg, block_record, now, later, start, accept, slots, visit, any_slots,
  any_visit, flush_later,
}
use peekd.Witness.Fixtures

-- A block has come.
abbrev with_block : BeaconMessageProcessor
with_block = Fixtures.held

-- Its slot is drained.
abbrev with_drained : BeaconMessageProcessor
with_drained = record with_block { slot_cache = (drain_slot visit 3 with_block.slot_cache).0 }

abbrev block_records : List SlotMessageStats
block_records = (drain_slot visit 3 with_block.slot_cache).1

-- Another block comes.
abbrev with_other : BeaconMessageProcessor
with_other = (process decode (pos now) 6 other_block signed_beacon_block_type with_drained).0

abbrev interrupted : Machine
interrupted = at with_other (counting false [] block_records [])

twelve_seconds : 0 < slot_seconds config
unfolding slot_seconds get_slot_duration to_int64
twelve_seconds = omega arith

block_handled : Reach decode (at start waiting) (at with_block waiting)
block_handled = next here (handled (pos now) 5 block_msg signed_beacon_block_type start waiting)

slot_3 :
    completed_slots slots (current_slot_of with_block.beacon_config later) with_block.slot_cache
    ≡ 3 ∷ []
unfolding completed_slots completed_of current_slot_of unix_seconds slot_seconds get_slot_duration
    to_int64 process process_kind process_slot_message_metadata new_beacon_message_processor
    parse_eth2_topic split add new_slot_cache_store add_to_cache get put extract slot_record
    new_slot_extractor_registry register_defaults register_general_message register_slot_extractor
    MessageType-discrete type_of new_slot_metadata ℕ_discrete
slot_3 = refl

slot_begun : Reach decode (at with_block waiting) (at with_block (draining false (3 ∷ [])))
unfolding process process_kind process_slot_message_metadata new_beacon_message_processor
    parse_eth2_topic split add new_slot_cache_store add_to_cache get put extract slot_record
    new_slot_extractor_registry register_defaults register_general_message register_slot_extractor
    MessageType-discrete type_of new_slot_metadata ℕ_discrete
slot_begun =
    subst (λ xs. Reach decode (at with_block waiting) (at with_block (draining false xs))) slot_3
      (next here (worked (begun false slots later with_block any_slots twelve_seconds)))

interruption : Reach decode (at with_block waiting) interrupted
interruption = next (next slot_begun (worked (drained false visit 3 [] with_block any_visit))) (
    handled (pos now) 6 other_block signed_beacon_block_type with_drained
      (counting false [] block_records []))

block_is_held : Mem (clear block_record) (held (at with_block waiting))
unfolding taken records stats_of process process_kind process_slot_message_metadata
    new_beacon_message_processor parse_eth2_topic split add new_slot_cache_store add_to_cache get
    put extract slot_record new_slot_extractor_registry register_defaults register_general_message
    register_slot_extractor MessageType-discrete type_of new_slot_metadata ℕ_discrete
block_is_held = mem-cons_self

block_is_sent : Mem (clear block_record) (sent interrupted)
unfolding drain_slot delete process process_kind process_slot_message_metadata
    new_beacon_message_processor parse_eth2_topic split add new_slot_cache_store add_to_cache get
    put extract slot_record new_slot_extractor_registry register_defaults register_general_message
    register_slot_extractor MessageType-discrete type_of new_slot_metadata ℕ_discrete
block_is_sent = mem-cons_self

-- The loop goes on and saves the first block.
abbrev saved_block : BeaconMessageProcessor
saved_block = (works-sent accept false [] block_records [] with_other).0

saved_work : Works interrupted (at saved_block (draining false []))
saved_work = (works-sent accept false [] block_records [] with_other).1

saved_by : Reach decode interrupted (at saved_block (draining false []))
saved_by = Reach-works decode here saved_work

works-sent_example :
    (q : BeaconMessageProcessor) × Works interrupted (at q (draining false []))
    × (map clear (batches q.slot_saves)
        ≡ map clear ([] ++ block_records) ++ map clear (batches with_other.slot_saves))
works-sent_example = works-sent accept false [] block_records [] with_other

reach-sent_example : Mem (clear block_record) (map clear (batches saved_block.slot_saves))
reach-sent_example =
    reach-sent decode (clear block_record) interrupted saved_block (draining false []) saved_by refl
      block_is_sent

reach-taken_example : Mem (clear block_record) (taken saved_block)
reach-taken_example =
    reach-taken decode config [] (clear block_record) (at with_block waiting) saved_block
      (draining false []) block_handled (Reach-works decode interruption saved_work) refl
      block_is_held
