-- ===== src/Witness/Processor.antt =====
-- The theorems on the processor, at a block of slot 3.
use mathlib.Core.List.{map, Mem, mem-cons_self}
use mathlib.Core.Path.{◌≡◌, refl}
use peekd.Base.{
  ◌∙◌, ◌%◌, ◌^◌, ◌≢◌, some, List, [], ◌∷◌, ◌++◌, codes, ite, ℕ_discrete, Text-discrete, arith,
  length,
}
use mathlib.Core.Option
use peekd.Base.Strings.{split}
use peekd.Base.Int.{pos}
use peekd.Base.Maps.{get, put}
use peekd.Base.Results.{Result, ok}
use peekd.Repository.Models.{GeneralMessageHistory}
use peekd.Processor.Messages.{
  type_of, signed_beacon_block, signed_beacon_block_type, voluntary_exit_type,
  attester_slashing_type,
}
use peekd.Processor.SeenCounter.{hex_encode}
use peekd.Processor.SlotCache.{add_to_cache, add, find, new_slot_cache_store}
use peekd.Processor.SlotCache.Drain.{stats_of, records}
use peekd.Processor.SlotExtractor.{
  register_defaults, register_general_message, register_slot_extractor, MessageType-discrete,
  slot_message, extract, new_slot_extractor_registry,
}
use peekd.Processor.SlotExtractor.Total.{extract_result}
use peekd.Processor.Topics.{parse_eth2_topic}
use peekd.Processor.State.{BeaconMessageProcessor, new_beacon_message_processor}
use peekd.Processor.Process.{
  process_kind, process_slot_message_metadata, increase_seen_count_by_raw_id, process, slot_record,
  new_slot_metadata,
}
use peekd.Processor.Process.Kept.{IsValid}
use peekd.Processor.Process.Recorded.{process_slot_message}
use peekd.Processor.Flush.Conserve.{taken}
use peekd.Processor.Serve.{Event, seen, message, tick, done, notified, run, step}
use peekd.Processor.Serve.Delivered.{run-tick-delivers}
use peekd.Processor.Flush.{current_slot_of, slot_seconds, get_slot_duration, unix_seconds}
use peekd.Processor.Flush.Conserve.{clear, batches}
use peekd.Base.Int.{to_int64}
use peekd.Processor.Serve.General.{all_general, general_of, general_row, run-new-general}
use peekd.Processor.Serve.Reach.{run-new-IsValid}
use peekd.Witness.Fixtures.{
  block_record, config, decode, block_msg, exit_msg, now, later, start, start-IsValid, held,
  any_slots, any_visit, flush_later,
}

abbrev arrivals : List Event
arrivals =
    seen block_msg.id ∷ message (pos now) 5 block_msg signed_beacon_block_type ∷ notified ∷ []

abbrev rounds : List Event
rounds = tick flush_later ∷ message (pos now) 5 exit_msg voluntary_exit_type ∷ done flush_later ∷ []

block_is_taken : Mem block_record (taken (run decode arrivals start))
unfolding taken run step process process_kind process_slot_message_metadata
    new_beacon_message_processor parse_eth2_topic split records stats_of add new_slot_cache_store
    add_to_cache get put increase_seen_count_by_raw_id extract slot_record
    new_slot_extractor_registry register_defaults register_general_message register_slot_extractor
    MessageType-discrete type_of new_slot_metadata ℕ_discrete
block_is_taken = mem-cons_self

run-new-IsValid_example :
    IsValid (run decode (arrivals ++ rounds) (new_beacon_message_processor config []))
run-new-IsValid_example = run-new-IsValid decode config [] (arrivals ++ rounds)

later_slot : current_slot_of config later ≡ 133_902_011
unfolding current_slot_of slot_seconds get_slot_duration to_int64 unix_seconds
later_slot = refl

config_seconds : slot_seconds config ≡ 12
unfolding slot_seconds get_slot_duration to_int64
config_seconds = refl

-- A tick in slot 10, after the block of slot 3 and further rounds.
run-tick-delivers_example : Mem block_record (
    map clear (
      batches
        (step decode (tick flush_later) (
          run decode rounds
            (run decode arrivals (new_beacon_message_processor config [])))).slot_saves))
run-tick-delivers_example =
    run-tick-delivers decode config [] arrivals rounds flush_later block_record
      (rw config_seconds (omega arith)) ((any_slots, any_visit), (tt, ((any_slots, any_visit), tt)))
      (any_slots, any_visit) block_is_taken
      (rw later_slot (unfold slot_record new_slot_metadata in omega arith))

block_topic_parses :
    parse_eth2_topic block_msg.topic ≡ some (codes "6a95a1a9", codes "beacon_block")
unfolding parse_eth2_topic split
block_topic_parses = refl

has_registry : start.extractors ≡ new_slot_extractor_registry
has_registry = start-IsValid.registry

block_has_slot : extract_result (signed_beacon_block (record { slot = 3 })) ≡ ok (slot_message, 3)
unfolding extract_result
block_has_slot = refl

abbrev after_block : BeaconMessageProcessor × Result (Unit {0})
after_block = process decode (pos now) 5 block_msg signed_beacon_block_type start

process_slot_message_example :
    (after_block.1 ≡ ok tt)
    × (find 3 (codes "abcd") after_block.0.slot_cache
        ≡ ite
            (ℕ_discrete 3 3)
            (ite
              (Text-discrete (hex_encode block_msg.id) (codes "abcd"))
              (some
                (Option.get_or (find 3 (hex_encode block_msg.id) start.slot_cache) block_record))
              (find 3 (codes "abcd") start.slot_cache))
            (find 3 (codes "abcd") start.slot_cache))
    × (after_block.0.general_tasks ≡ start.general_tasks)
process_slot_message_example =
    process_slot_message decode (pos now) 5 block_msg signed_beacon_block_type start
      (signed_beacon_block (record { slot = 3 })) has_registry refl (codes "6a95a1a9")
      (codes "beacon_block") block_topic_parses 3 3 (codes "abcd") block_has_slot

abbrev exit_row : GeneralMessageHistory
exit_row = record {
  arrival_time = pos now;
  fork_version = codes "6a95a1a9";
  topic = codes "voluntary_exit";
  node_region = start.node_region;
  node_alias = start.node_alias;
  node_peer_count = 5 % 2 ^ 32;
  message_id = hex_encode exit_msg.id;
  size_bytes = length exit_msg.payload % 2 ^ 32;
}

events_row :
    all_general decode start.node_region start.node_alias (arrivals ++ rounds) ≡ exit_row ∷ []
unfolding all_general general_of general_row extract_result parse_eth2_topic split
events_row = refl

run-new-general_example :
    (run decode (arrivals ++ rounds) (new_beacon_message_processor config [])).general_tasks
    ≡ exit_row ∷ []
run-new-general_example = run-new-general decode config [] (arrivals ++ rounds) ∙ events_row

slashing_fails : (process decode (pos now) 5 block_msg attester_slashing_type held).1 ≢ ok tt
unfolding process
slashing_fails = ground arith
