-- ===== src/Processor/Threads.antt =====
-- Serve and flushCompletedSlots of processor/beacon_message_processor.go in their single steps, between
-- which the goroutines of the subscriptions go on. A step is what holds one lock: a call of the cache, a
-- `Pop`, an append to the repository. The panic of a slot length below one second is left out here.
pub mod Kept
pub mod Whole
pub mod Sent
use mathlib.Core.List.{Perm}
use peekd.Base.{ℕ, ◌-◌, ◌<◌, Bool, true, false, List, [], ◌∷◌, ◌++◌, Text, if◌then◌else◌}
use peekd.Base.Int.{ℤ}
use peekd.Base.Results.{Result}
use peekd.Repository.Models.{SlotMessageStats}
use peekd.Processor.Messages.{Message, MessageType}
use peekd.Processor.SeenCounter.{pop}
use peekd.Processor.SlotCache.{completed_slots, drain_slot}
use peekd.Processor.State.{BeaconMessageProcessor, PubsubMessage}
use peekd.Processor.Process.{process, increase_seen_count_by_raw_id}
use peekd.Processor.Flush.{current_slot_of, slot_seconds, save_to_repository}

-- Where the goroutine of `Serve` stands. `final` is the flush before the return.
pub data Loop : Type 0 where
  -- In the `select`.
  waiting : Loop
  -- In the loop over the completed slots, with those that are left.
  draining : (final : Bool) → List ℕ → Loop
  -- In the loop over the records of a slot: those left, and those that have their count.
  counting : (final : Bool) → List ℕ → List SlotMessageStats → List SlotMessageStats → Loop
  returned : Loop

pub data Machine : Type 0 where
  at : BeaconMessageProcessor → Loop → Machine

-- `stat.SeenCount = ..`, with what `Pop` answers.
abbrev pub with_count : SlotMessageStats → ℕ × Bool → SlotMessageStats
with_count stat (seen_count, found) = record stat { seen_count = if found then seen_count else 1 }

abbrev pub after_slots : Bool → Loop
after_slots true = returned
after_slots false = waiting

-- A step of the goroutine of `Serve`.
pub data Work : Machine → Machine → Type 0 where
  notified :
      (p : BeaconMessageProcessor)
      → Work (at p waiting) (at (record p { message_notify = p.message_notify - 1 }) waiting)
  begun :
      (final : Bool) (slots : List ℕ → List ℕ) (now : ℤ) (p : BeaconMessageProcessor)
      → ((xs : List ℕ) → Perm (slots xs) xs)
      → 0 < slot_seconds p.beacon_config
      → Work (at p waiting) (
          at p (
            draining final
              (completed_slots slots (current_slot_of p.beacon_config now) p.slot_cache)))
  drained :
      (final : Bool) (visit : List SlotMessageStats → List SlotMessageStats) (slot : ℕ)
      (slots : List ℕ) (p : BeaconMessageProcessor)
      → ((xs : List SlotMessageStats) → Perm (visit xs) xs)
      → Work (at p (draining final (slot ∷ slots))) (
          at
            (record p { slot_cache = (drain_slot visit slot p.slot_cache).0 })
            (counting final slots (drain_slot visit slot p.slot_cache).1 []))
  popped :
      (final : Bool) (slots : List ℕ) (stat : SlotMessageStats)
      (left counted : List SlotMessageStats) (p : BeaconMessageProcessor)
      → Work (at p (counting final slots (stat ∷ left) counted)) (
          at
            (record p { seen_counter = (pop stat.message_id p.seen_counter).0 })
            (counting final slots left
              (counted ++ (with_count stat (pop stat.message_id p.seen_counter).1 ∷ []))))
  saved :
      (final : Bool) (slots : List ℕ) (counted : List SlotMessageStats)
      (accept : List SlotMessageStats → Bool) (p : BeaconMessageProcessor)
      → Work
          (at p (counting final slots [] counted))
          (at (save_to_repository accept counted p) (draining final slots))
  flushed :
      (final : Bool) (p : BeaconMessageProcessor)
      → Work (at p (draining final [])) (at p (after_slots final))

module _ (decode : MessageType → Text → Result Message) where
  -- A step of any goroutine: the message id function, a handler, or the loop.
  pub data Step : Machine → Machine → Type 0 where
    seen :
        (raw_id : Text) (p : BeaconMessageProcessor) (loop : Loop)
        → Step (at p loop) (at (increase_seen_count_by_raw_id raw_id p) loop)
    handled :
        (now : ℤ) (peer_count : ℕ) (msg : PubsubMessage) (dst : MessageType)
        (p : BeaconMessageProcessor) (loop : Loop)
        → Step (at p loop) (at (process decode now peer_count msg dst p).0 loop)
    worked : {m n : Machine} → Work m n → Step m n

  pub data Reach (m : Machine) : Machine → Type 0 where
    here : Reach m m
    next : {n o : Machine} → Reach m n → Step n o → Reach m o

-- Steps of the loop alone.
pub data Works : Machine → Machine → Type 0 where
  stay : {m : Machine} → Works m m
  then : {m n o : Machine} → Work m n → Works n o → Works m o
