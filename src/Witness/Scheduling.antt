-- ===== src/Witness/Scheduling.antt =====
-- Two subscriptions and the loop of the processor, whose calls are interleaved.
use peekd.Processor.SlotCache.Drain.{records, stats_of}
use peekd.Processor.Flush.Conserve.{batches}
use peekd.Processor.Serve.{step, flush, notified}
use peekd.Processor.Flush.{
  flush_completed_slots, slot_seconds, get_slot_duration, current_slot_of, unix_seconds,
  flush_slots, flush_slot, flush_stats, count_seen, save_to_repository,
}
use peekd.Base.Int.{to_int64}
use peekd.Base.Maps.{get, put, delete}
use peekd.Processor.Process.{
  process, increase_seen_count_by_raw_id, process_kind, process_slot_message_metadata,
}
use peekd.Processor.SlotExtractor.{
  extract, new_slot_extractor_registry, register_defaults, register_general_message,
  register_slot_extractor, MessageType-discrete,
}
use peekd.Processor.Messages.{voluntary_exit_type, type_of}
use peekd.Processor.SeenCounter.{increase_by_raw_id, new_seen_counter, pop}
use peekd.Processor.SlotCache.{
  add, add_to_cache, new_slot_cache_store, completed_slots, completed_of, drain_slot,
}
use mathlib.Core.Path.{subst}
use mathlib.Core.List.{Mem, Perm, Nodup, Nodup-cons, Nodup-nil, not-mem-nil, eq-or-mem_of_mem-cons}
use mathlib.Core.Logic.Or
use mathlib.Core.HLevel.{⊥_prop}
use peekd.Base.Strings.{split}
use peekd.Processor.Serve.Account.{recorded}
use peekd.Processor.SlotExtractor.Total.{extract_result}
use peekd.Processor.Process.{new_slot_metadata, slot_record}
use peekd.Processor.SeenCounter.{hex_encode}
use peekd.Processor.Topics.{parse_eth2_topic}
use peekd.Processor.Serve.Unpopped.{run-new-unpopped}
use peekd.Processor.Process.{process_general_message_metadata, new_general_metadata}
use peekd.Processor.Serve.Sightings.{seen_count_of, sightings, run-tick-seen_count}
use peekd.Processor.Flush.Seen.{ids}
use mathlib.Core.List.{mem-cons_self}
use peekd.Base.{some, ℕ_discrete, Text-discrete, All, ◌≡◌, refl, List, [], ◌∷◌, map, codes, arith}
use peekd.Base.Int.{pos}
use peekd.Base.Schedules.{Schedule, idle, left, right, no_one, with_one}
use peekd.Processor.Messages.{signed_beacon_block_type}
use peekd.Processor.State.{BeaconMessageProcessor, PubsubMessage, new_beacon_message_processor}
use peekd.Processor.Process.Worth.{key, recorded_kind, recorded_slot}
use peekd.Processor.Flush.Conserve.{batches, taken}
use peekd.Processor.Serve.{step, notified, Event, seen, message, tick, run}
use peekd.Processor.Serve.Schedules.{recorded_by, schedule-taken}
use peekd.Processor.Serve.Stored.{IsStored, saves, run-new-IsStored}
use peekd.Witness.Storing.{driver, driver-IsBatching}
use peekd.Witness.Fixtures.{
  exit_msg, block_record, config, decode, block_msg, now, flush_later, any_slots, any_visit,
}

abbrev pub other_block : PubsubMessage
other_block = record block_msg { id = 7 ∷ [] }

abbrev first_call : Event
first_call = message (pos now) 5 block_msg signed_beacon_block_type

abbrev second_call : Event
second_call = message (pos now) 6 other_block signed_beacon_block_type

-- Each subscription, with the message id function before its handler, and a round of the loop.
abbrev goroutines : List (List Event)
goroutines =
    (seen block_msg.id ∷ first_call ∷ [])
    ∷ (seen other_block.id ∷ second_call ∷ [])
    ∷ (tick flush_later ∷ [])
    ∷ []

-- The second block comes while the first one is on its way, and the flush is between the two.
abbrev events : List Event
events = seen block_msg.id ∷ seen other_block.id ∷ second_call ∷ tick flush_later ∷ first_call ∷ []

schedule : Schedule goroutines events
schedule =
    with_one (left (right (right (right (left idle)))))
      (with_one (left (left (right idle))) (with_one (left idle) no_one))

keys_are :
    map key (recorded_by decode (new_beacon_message_processor config []) goroutines)
    ≡ (3, codes "abcd") ∷ (3, codes "07") ∷ []
unfolding recorded_by recorded extract_result recorded_kind recorded_slot parse_eth2_topic split
    new_slot_metadata slot_record hex_encode
keys_are = refl

differ : Nodup (map key (recorded_by decode (new_beacon_message_processor config []) goroutines))
differ = rw keys_are (
    Nodup-cons.1 (
      λ m. Or.elim ⊥_prop (eq-or-mem_of_mem-cons m) (λ e. absurd (ground arith)) not-mem-nil,
      Nodup-cons.1 (not-mem-nil, Nodup-nil),
    ))

schedule-taken_example :
    Perm
      (taken (run decode events (new_beacon_message_processor config [])))
      (recorded_by decode (new_beacon_message_processor config []) goroutines)
schedule-taken_example =
    schedule-taken decode config [] goroutines events schedule
      (tt, (tt, (tt, ((any_slots, any_visit), (tt, tt))))) differ

-- A block, and a tick in slot 10 with a ClickHouse that takes every batch.
abbrev stored_events : List Event
stored_events = first_call ∷ tick (record flush_later { accept = saves driver }) ∷ []

run-new-IsStored_example :
    All
      (IsStored (λ f. driver) (λ f. driver-IsBatching) stored_events)
      (run decode stored_events (new_beacon_message_processor config [])).slot_saves
run-new-IsStored_example =
    run-new-IsStored (λ f. driver) (λ f. driver-IsBatching) decode config [] stored_events
      (tt, (refl, tt))

-- The block is seen twice before its call, and another id once.
abbrev seen_events : List Event
seen_events =
    seen block_msg.id ∷ seen other_block.id ∷ seen block_msg.id ∷ first_call ∷ notified ∷ []

abbrev waiting : BeaconMessageProcessor
waiting = run decode seen_events (new_beacon_message_processor config [])

waiting_ids : ids (records waiting.slot_cache) ≡ codes "abcd" ∷ []
unfolding records run step process extract get increase_seen_count_by_raw_id
    new_beacon_message_processor new_slot_extractor_registry register_defaults
    register_general_message register_slot_extractor type_of process_kind
    process_slot_message_metadata new_slot_metadata slot_record parse_eth2_topic split hex_encode
    put add add_to_cache new_slot_cache_store MessageType-discrete stats_of ℕ_discrete
waiting_ids = refl

waiting_saved :
    batches (step decode (tick flush_later) waiting).slot_saves
    ≡ record block_record { seen_count = 2 } ∷ []
unfolding batches records step flush run flush_completed_slots slot_seconds get_slot_duration
    to_int64 process extract get increase_seen_count_by_raw_id new_beacon_message_processor
    new_slot_extractor_registry register_defaults register_general_message register_slot_extractor
    type_of process_kind process_slot_message_metadata new_slot_metadata slot_record
    parse_eth2_topic split hex_encode increase_by_raw_id new_seen_counter pop put delete add
    add_to_cache new_slot_cache_store MessageType-discrete current_slot_of unix_seconds
    completed_slots completed_of flush_slots flush_slot flush_stats count_seen save_to_repository
    drain_slot ℕ_discrete Text-discrete
waiting_saved = refl

run-tick-seen_count_example :
    (record block_record { seen_count = 2 }).seen_count
    ≡ seen_count_of (sightings block_record.message_id seen_events)
run-tick-seen_count_example =
    run-tick-seen_count decode config [] seen_events flush_later
      (record block_record { seen_count = 2 }) (tt, (tt, (tt, (tt, (tt, tt)))))
      (any_slots, any_visit) (rw waiting_ids (Nodup-cons.1 (not-mem-nil, Nodup-nil)))
      (rw waiting_saved mem-cons_self)

-- An exit is seen twice, and is no record.
abbrev exit_events : List Event
exit_events =
    seen exit_msg.id
    ∷ message (pos now) 5 exit_msg voluntary_exit_type
    ∷ seen exit_msg.id
    ∷ tick flush_later
    ∷ []

nothing_taken : taken (run decode exit_events (new_beacon_message_processor config [])) ≡ []
unfolding taken batches records stats_of run step flush flush_completed_slots slot_seconds
    get_slot_duration to_int64 increase_seen_count_by_raw_id process extract get
    new_beacon_message_processor new_slot_extractor_registry register_defaults
    register_general_message register_slot_extractor type_of process_kind
    process_general_message_metadata new_general_metadata parse_eth2_topic split hex_encode
    increase_by_raw_id new_seen_counter put new_slot_cache_store MessageType-discrete
    current_slot_of unix_seconds completed_slots completed_of flush_slots
nothing_taken = refl

run-new-unpopped_example :
    get Text-discrete
      (hex_encode exit_msg.id)
      (run decode exit_events (new_beacon_message_processor config [])).seen_counter.counts
    ≡ some 2
unfolding Text-discrete hex_encode ℕ_discrete
run-new-unpopped_example =
    run-new-unpopped decode (hex_encode exit_msg.id) config [] exit_events
      (tt, (tt, (tt, ((any_slots, any_visit), tt))))
      (λ m. not-mem-nil (subst (λ stats. Mem (hex_encode exit_msg.id) (ids stats)) nothing_taken m))
