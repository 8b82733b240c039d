-- ===== src/Processor/Serve/Delivered.antt =====
-- Every record reaches the repository.
use mathlib.Core.List.{Mem}
use peekd.Base.{◌≡◌, ◌<◌, ◌∙◌, List, map, Text, All}
use peekd.Base.Results.{Result}
use peekd.Repository.Models.{SlotMessageStats}
use peekd.Processor.Messages.{Message, MessageType}
use peekd.Processor.SlotCache.{before}
use peekd.Processor.State.{
  BeaconConfig, BeaconMessageProcessorOptionFunc, new_beacon_message_processor,
}
use peekd.Processor.Flush.{current_slot_of, slot_seconds}
use peekd.Processor.Flush.Conserve.{clear, batches, taken}
use peekd.Processor.Flush.Delivered.{mem-batches_of_taken}
use peekd.Processor.Serve.{Flush, Event, tick, flush, step, run}
use peekd.Processor.Serve.Config.{config-run}
use peekd.Processor.Serve.Reach.{
  IsOrder, IsPossible, run-append-taken, run-new-IsValid, run-IsValid,
}

module _ (decode : MessageType → Text → Result Message) where
  config-run-new :
      (config : BeaconConfig) (opts : List BeaconMessageProcessorOptionFunc) (events : List Event)
      → (run decode events (new_beacon_message_processor config opts)).beacon_config ≡ config
  unfolding new_beacon_message_processor
  config-run-new config opts events = config-run decode events _

  -- From a new processor with a slot length of at least a second on: a record that has once been taken
  -- in has been given to the repository, but for its seen count, after any further events and then a tick
  -- at which `currentSlot - 1` (taken on uint64) is above the record's slot. The flushes visit the maps
  -- in any orders.
  pub run-tick-delivers :
      (config : BeaconConfig) (opts : List BeaconMessageProcessorOptionFunc)
      (events more : List Event) (f : Flush) (stat : SlotMessageStats)
      → 0 < slot_seconds config
      → All IsPossible more
      → IsOrder f
      → Mem stat (taken (run decode events (new_beacon_message_processor config opts)))
      → stat.slot < before (current_slot_of config f.now)
      → Mem stat (
          map clear (
            batches
              (step decode (tick f) (
                run decode more
                  (run decode events (new_beacon_message_processor config opts)))).slot_saves))
  unfolding step flush
  run-tick-delivers config opts events more f stat positive possible order held due =
      let first = run decode events (new_beacon_message_processor config opts) in
      let p = run decode more first in
      let same : p.beacon_config ≡ config =
        config-run decode more first ∙ config-run-new config opts events in
      mem-batches_of_taken f.accept f.visit order.1 f.slots f.now p stat order.0 (rw same positive)
        (run-IsValid decode more first (run-new-IsValid decode config opts events))
        (run-append-taken decode config opts events more stat possible held) (rw same due)
