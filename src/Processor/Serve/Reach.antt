-- ===== src/Processor/Serve/Reach.antt =====
-- What holds of a processor after any events.
use peekd.Processor.Flush.Valid.{flush_completed_slots-IsValid}
use mathlib.Core.List.{Perm, Mem, mem-cons_of_mem}
use mathlib.Core.List.Perm
use peekd.Base.{ℕ, refl, List, [], ◌∷◌, Text, arith, All, inl, inr}
use peekd.Base.Results.{Result}
use peekd.Repository.Models.{SlotMessageStats}
use peekd.Processor.Messages.{Message, MessageType}
use peekd.Processor.State.{
  BeaconConfig, BeaconMessageProcessorOptionFunc, BeaconMessageProcessor,
  new_beacon_message_processor,
}
use peekd.Processor.SlotCache.WellFormed.{new-IsWellFormed}
use peekd.Processor.Process.{increase_seen_count_by_raw_id}
use peekd.Processor.Process.Kept.{IsValid, Grows, process-IsValid, process-Grows}
use peekd.Processor.Flush.Conserve.{clear, taken, taken-flush_completed_slots}
use peekd.Processor.Serve.{Flush, Event, seen, message, tick, done, notified, flush, step, run}

-- The orders of a flush are orders of what is visited.
abbrev pub IsOrder : Flush → Type 0
IsOrder f =
    ((xs : List ℕ) → Perm (f.slots xs) xs) × ((xs : List SlotMessageStats) → Perm (f.visit xs) xs)

abbrev pub IsPossible : Event → Type 0
IsPossible (tick f) = IsOrder f
IsPossible (done f) = IsOrder f
IsPossible _ = Unit

pub new-IsValid :
    (config : BeaconConfig) (opts : List BeaconMessageProcessorOptionFunc)
    → IsValid (new_beacon_message_processor config opts)
unfolding new_beacon_message_processor
new-IsValid config opts = record {
  cache = new-IsWellFormed;
  buffered = omega arith;
  registry = refl;
}

module _ (decode : MessageType → Text → Result Message) where
  -- Every event keeps the invariant.
  pub step-IsValid :
      (event : Event) (p : BeaconMessageProcessor) → IsValid p → IsValid (step decode event p)
  unfolding step flush increase_seen_count_by_raw_id
  step-IsValid (seen raw_id) p v = record {
    cache = v.cache;
    buffered = v.buffered;
    registry = v.registry;
  }
  step-IsValid (message now peer_count msg dst) p v =
      process-IsValid decode now peer_count msg dst p v
  step-IsValid (tick f) p v = flush_completed_slots-IsValid f.accept f.visit f.slots f.now p v
  step-IsValid (done f) p v = flush_completed_slots-IsValid f.accept f.visit f.slots f.now p v
  step-IsValid notified p v = record {
    cache = v.cache;
    buffered = omega arith;
    registry = v.registry;
  }

  mem_of_Grows :
      (p q : BeaconMessageProcessor) (stat : SlotMessageStats)
      → Grows p q
      → Mem stat (taken p)
      → Mem stat (taken q)
  mem_of_Grows p q stat (inl same) m = (Perm.mem_iff same).1 m
  mem_of_Grows p q stat (inr (new, more)) m = (Perm.mem_iff more).1 (mem-cons_of_mem (clear new) m)

  step-taken :
      (event : Event) (p : BeaconMessageProcessor) (stat : SlotMessageStats)
      → IsValid p
      → IsPossible event
      → Mem stat (taken p)
      → Mem stat (taken (step decode event p))
  unfolding step flush
  step-taken (seen raw_id) p stat v o m = unfold taken increase_seen_count_by_raw_id in m
  step-taken (message now peer_count msg dst) p stat v o m =
      mem_of_Grows p _ stat (process-Grows decode now peer_count msg dst p v) m
  step-taken (tick f) p stat v o m =
      (Perm.mem_iff (taken-flush_completed_slots f.accept f.visit o.1 f.slots f.now p v.cache)).1 m
  step-taken (done f) p stat v o m =
      (Perm.mem_iff (taken-flush_completed_slots f.accept f.visit o.1 f.slots f.now p v.cache)).1 m
  step-taken notified p stat v o m = unfold taken in m

  pub run-taken :
      (events : List Event) (p : BeaconMessageProcessor) (stat : SlotMessageStats)
      → IsValid p
      → All IsPossible events
      → Mem stat (taken p)
      → Mem stat (taken (run decode events p))
  unfolding run
  run-taken [] p stat v o m = m
  run-taken (event ∷ events) p stat v o m =
      run-taken events (step decode event p) stat (step-IsValid event p v) o.1
        (step-taken event p stat v o.0 m)

  pub run-IsValid :
      (events : List Event) (p : BeaconMessageProcessor) → IsValid p → IsValid (run decode events p)
  unfolding run
  run-IsValid [] p v = v
  run-IsValid (event ∷ events) p v =
      run-IsValid events (step decode event p) (step-IsValid event p v)

  -- A new processor satisfies the invariant, and any events keep it: the cache holds no slot twice and,
  -- within one slot, no message id twice; each record stands under its own slot and id; at most 100 notices
  -- are buffered; and the registry is the default one. (The same id may stand under two slots.)
  pub run-new-IsValid :
      (config : BeaconConfig) (opts : List BeaconMessageProcessorOptionFunc) (events : List Event)
      → IsValid (run decode events (new_beacon_message_processor config opts))
  run-new-IsValid config opts events = run-IsValid events _ (new-IsValid config opts)

  -- From a new processor on, what has once been taken in stays, through any further events whose
  -- flushes visit the maps in some order: the record is in the cache or was given to the repository.
  pub run-append-taken :
      (config : BeaconConfig) (opts : List BeaconMessageProcessorOptionFunc)
      (events more : List Event) (stat : SlotMessageStats)
      → All IsPossible more
      → Mem stat (taken (run decode events (new_beacon_message_processor config opts)))
      → Mem stat
          (taken (run decode more (run decode events (new_beacon_message_processor config opts))))
  run-append-taken config opts events more stat o m =
      run-taken more _ stat (run-new-IsValid config opts events) o m
