-- ===== src/Processor/Flush/Valid.antt =====
-- A flush keeps the invariant of the processor.
use peekd.Base.{ℕ, Bool, List, [], ◌∷◌, zero-or-suc, inl, inr}
use peekd.Base.Int.{ℤ}
use peekd.Repository.Models.{SlotMessageStats}
use peekd.Processor.SlotCache.WellFormed.{drain_slot-IsWellFormed}
use peekd.Processor.State.{BeaconMessageProcessor}
use peekd.Processor.Process.Kept.{IsValid}
use peekd.Processor.Flush.{
  save_to_repository, flush_stats, flush_slot, flush_slots, flush_completed_slots, slot_seconds,
}

pub save-IsValid :
    (accept : List SlotMessageStats → Bool) (stats : List SlotMessageStats)
    (p : BeaconMessageProcessor)
    → IsValid p
    → IsValid (save_to_repository accept stats p)
unfolding save_to_repository
save-IsValid accept [] p v = v
save-IsValid accept (stat ∷ stats) p v = record {
  cache = v.cache;
  buffered = v.buffered;
  registry = v.registry;
}

module _ (accept : List SlotMessageStats → Bool)
    (visit : List SlotMessageStats → List SlotMessageStats) where
  flush_stats-IsValid :
      (stats : List SlotMessageStats) (p : BeaconMessageProcessor)
      → IsValid p
      → IsValid (flush_stats accept stats p)
  unfolding flush_stats
  flush_stats-IsValid [] p v = v
  flush_stats-IsValid (stat ∷ stats) p v =
      save-IsValid accept _ _
        (record { cache = v.cache; buffered = v.buffered; registry = v.registry })

  flush_slots-IsValid :
      (slots : List ℕ) (p : BeaconMessageProcessor)
      → IsValid p
      → IsValid (flush_slots accept visit slots p)
  unfolding flush_slots flush_slot
  flush_slots-IsValid [] p v = v
  flush_slots-IsValid (slot ∷ slots) p v =
      flush_slots-IsValid slots (flush_slot accept visit slot p) (
        flush_stats-IsValid _ _ (record {
          cache = drain_slot-IsWellFormed visit slot p.slot_cache v.cache;
          buffered = v.buffered;
          registry = v.registry;
        }))

  pub flush_completed_slots-IsValid :
      (slots : List ℕ → List ℕ) (now : ℤ) (p : BeaconMessageProcessor)
      → IsValid p
      → IsValid (flush_completed_slots accept slots visit now p).0
  unfolding flush_completed_slots
  flush_completed_slots-IsValid slots now p v = elim (zero-or-suc (slot_seconds p.beacon_config)) [
    | inl e ↦ rw (e, flush_completed_slots) v
    | inr (m, e) ↦ rw (e, flush_completed_slots) (flush_slots-IsValid _ p v)
  ]
