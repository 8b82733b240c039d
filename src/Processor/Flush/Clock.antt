-- ===== src/Processor/Flush/Clock.antt =====
-- The slot number that a flush computes from the clock leaves the genesis time out.
use mathlib.Core.List.{Perm}
use native.Mathlib.Nat.{le-div_iff_mul-le, div-le_self}
use peekd.Base.{
  ℕ, ◌+◌, ◌*◌, ◌/◌, ◌%◌, ◌^◌, ◌≤◌, ◌<◌, ◌≡◌, ◌∙◌, Bool, none, List, Text, arith, lt→ltb,
}
use peekd.Base.Int.{pos, to_int64}
use peekd.Repository.Models.{SlotMessageStats}
use peekd.Processor.SlotCache.{before, find}
use peekd.Processor.State.{BeaconConfig, BeaconMessageProcessor}
use peekd.Processor.Process.{second}
use peekd.Processor.Flush.{
  unix_seconds, get_slot_duration, slot_seconds, current_slot_of, flush_completed_slots,
}
use peekd.Processor.Flush.Slots.{find-flush_completed_slots}

-- A slot length that fits a `time.Duration` is read back exactly.
pub slot_seconds_lem :
    (config : BeaconConfig)
    → config.seconds_per_slot * second < 2 ^ 63
    → slot_seconds config ≡ config.seconds_per_slot
unfolding slot_seconds get_slot_duration to_int64
slot_seconds_lem config fits = ground arith

-- Arithmetic of the clock: `g` the genesis time, `n` the present, in nanoseconds.
started_slot :
    (g n sps j : ℕ)
    → 0 < sps
    → 2 * sps * second ≤ g
    → g + j * sps * second ≤ n
    → n / second < 2 ^ 64
    → j < before (n / second % 2 ^ 64 / sps)
started_slot g n sps j positive late start fits =
    let enough : (j + 2) * sps ≤ n / second = grind arith in
    let reached : j + 2 ≤ n / second / sps = (le-div_iff_mul-le positive).1 enough in
    let small : n / second / sps ≤ n / second = div-le_self (n / second) sps in
    let same : n / second % 2 ^ 64 ≡ n / second = omega arith in rw same (omega arith)

current_slot_of_lem :
    (config : BeaconConfig) (n : ℕ)
    → config.seconds_per_slot * second < 2 ^ 63
    → current_slot_of config (pos n) ≡ n / second % 2 ^ 64 / config.seconds_per_slot
unfolding current_slot_of unix_seconds
current_slot_of_lem config n fits = rw (slot_seconds_lem config fits)

-- Let the genesis time lie at least two slots after the Unix epoch and slot j have started, at the time
-- `genesis + j * SecondsPerSlot`. Then a flush empties slot j, even if it is the slot in progress: `Unix
-- time / slot length` is compared with slot numbers that are counted from genesis.
pub flush_takes_current_slot :
    (accept : List SlotMessageStats → Bool) (visit : List SlotMessageStats → List SlotMessageStats)
    (slots : List ℕ → List ℕ) (g n j : ℕ) (k : Text) (p : BeaconMessageProcessor)
    → ((xs : List ℕ) → Perm (slots xs) xs)
    → p.beacon_config.genesis_time ≡ pos g
    → 0 < p.beacon_config.seconds_per_slot
    → p.beacon_config.seconds_per_slot * second < 2 ^ 63
    → n / second < 2 ^ 64
    → 2 * p.beacon_config.seconds_per_slot * second ≤ g
    → g + j * p.beacon_config.seconds_per_slot * second ≤ n
    → find j k (flush_completed_slots accept slots visit (pos n) p).0.slot_cache ≡ none
flush_takes_current_slot accept visit slots g n j k p any genesis positive fits now late start =
    let config = p.beacon_config in
    let below : j < before (current_slot_of config (pos n)) =
      rw (current_slot_of_lem config n fits)
        (started_slot g n config.seconds_per_slot j positive late start now) in
    let divisor : 0 < slot_seconds config = rw (slot_seconds_lem config fits) positive in
    (find-flush_completed_slots accept visit slots (pos n) p any divisor).1 j k
    ∙ rw (lt→ltb j (before (current_slot_of config (pos n))) below)
