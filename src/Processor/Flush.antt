-- ===== src/Processor/Flush.antt =====
-- Flushing in processor/beacon_message_processor.go: `flushCompletedSlots`, `saveToRepository` and the
-- loop of `Serve`. `accept` is the answer of the repository to each batch of the call, `slots` and
-- `visit` the orders in which Go visits the maps.
pub mod Counts
pub mod Absent
pub mod Seen
pub mod Conserve
pub mod Delivered
pub mod Slots
pub mod Clock
pub mod Valid
use peekd.Base.{ℕ, zero, suc, ◌-◌, ◌*◌, ◌/◌, ◌%◌, ◌^◌, Bool, List, [], ◌∷◌, if◌then◌else◌}
use peekd.Base.Int.{ℤ, pos, negsuc, to_int64, pos_part}
use peekd.Base.Results.{Result, ok, panicked}
use peekd.Repository.Models.{SlotMessageStats}
use peekd.Processor.SeenCounter.{SeenCounter, pop}
use peekd.Processor.SlotCache.{completed_slots, drain_slot}
use peekd.Processor.State.{BeaconConfig, BeaconMessageProcessor}
use peekd.Processor.Process.{second}

-- `uint64(t.Unix())`: whole seconds, rounded down.
unfoldable pub unix_seconds : ℤ → ℕ
unix_seconds (pos n) = n / second % 2 ^ 64
unix_seconds (negsuc n) = 2 ^ 64 - 1 - n / second % 2 ^ 64

unfoldable pub get_slot_duration : BeaconConfig → ℤ
get_slot_duration config = to_int64 (config.seconds_per_slot * second)

-- The divisor `uint64(p.getSlotDuration().Seconds())`, for a duration that is not negative.
unfoldable pub slot_seconds : BeaconConfig → ℕ
slot_seconds config = pos_part (get_slot_duration config) / second

-- The loop over the records of a slot.
unfoldable pub count_seen :
    List SlotMessageStats → SeenCounter → SeenCounter × List SlotMessageStats
count_seen [] sc = (sc, [])
count_seen (stat ∷ stats) sc =
    let (sc', answer) = pop stat.message_id sc in
    let (seen_count, found) = answer in
    let counted = record stat { seen_count = if found then seen_count else 1 } in
    let (last, rest) = count_seen stats sc' in (last, counted ∷ rest)

-- `saveToRepository` of a batch that is not empty, and the report of a failure, which is logged.
unfoldable pub save_to_repository :
    (List SlotMessageStats → Bool)
    → List SlotMessageStats
    → BeaconMessageProcessor
    → BeaconMessageProcessor
save_to_repository accept [] p = p
save_to_repository accept (stat ∷ stats) p = record p {
  slot_saves = (stat ∷ stats, accept (stat ∷ stats)) ∷ p.slot_saves;
}

-- The rest of a round of the loop, for the records that were drained.
unfoldable pub flush_stats :
    (List SlotMessageStats → Bool)
    → List SlotMessageStats
    → BeaconMessageProcessor
    → BeaconMessageProcessor
flush_stats accept [] p = p
flush_stats accept (stat ∷ stats) p =
    let (seen_counter, counted) = count_seen (stat ∷ stats) p.seen_counter in
    save_to_repository accept counted (record p { seen_counter = seen_counter })

-- One round of the loop over the completed slots.
unfoldable pub flush_slot :
    (List SlotMessageStats → Bool)
    → (List SlotMessageStats → List SlotMessageStats)
    → ℕ
    → BeaconMessageProcessor
    → BeaconMessageProcessor
flush_slot accept visit slot p =
    let (slot_cache, stats) = drain_slot visit slot p.slot_cache in
    flush_stats accept stats (record p { slot_cache = slot_cache })

unfoldable pub flush_slots :
    (List SlotMessageStats → Bool)
    → (List SlotMessageStats → List SlotMessageStats)
    → List ℕ
    → BeaconMessageProcessor
    → BeaconMessageProcessor
flush_slots accept visit [] p = p
flush_slots accept visit (slot ∷ slots) p =
    flush_slots accept visit slots (flush_slot accept visit slot p)

unfoldable pub current_slot_of : BeaconConfig → ℤ → ℕ
current_slot_of config now = unix_seconds now / slot_seconds config

-- Division by zero panics.
unfoldable pub flush_completed_slots :
    (List SlotMessageStats → Bool)
    → (List ℕ → List ℕ)
    → (List SlotMessageStats → List SlotMessageStats)
    → ℤ
    → BeaconMessageProcessor
    → BeaconMessageProcessor × Result (Unit {0})
flush_completed_slots accept slots visit now p = elim (slot_seconds p.beacon_config) [
  | zero ↦ (p, panicked)
  | suc _ ↦ (
    flush_slots accept visit
        (completed_slots slots (current_slot_of p.beacon_config now) p.slot_cache) p,
    ok tt,
  )
]
