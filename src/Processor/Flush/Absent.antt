-- ===== src/Processor/Flush/Absent.antt =====
-- The counter of an id that no record of the cache has.
use mathlib.Core.List.{Perm, Mem, map-append, mem-append_left, mem-append_right}
use mathlib.Core.List.Perm
use peekd.Base.{
  ℕ, zero-or-suc, ◌≡◌, refl, ap, ◌∙◌, inl, inr, Bool, List, [], ◌∷◌, ◌++◌, Text, Text-discrete,
}
use peekd.Base.Int.{ℤ}
use peekd.Base.Maps.{get}
use peekd.Repository.Models.{SlotMessageStats}
use peekd.Processor.SeenCounter.{SeenCounter}
use peekd.Processor.SlotCache.{SlotCacheStore, drain_slot}
use peekd.Processor.SlotCache.Drain.{records, records-drain_slot}
use peekd.Processor.SlotCache.WellFormed.{IsWellFormed, drain_slot-IsWellFormed}
use peekd.Processor.State.{BeaconMessageProcessor}
use peekd.Processor.Flush.{flush_completed_slots, slot_seconds, flush_slot, flush_slots}
use peekd.Processor.Flush.Conserve.{slot_cache-flush_slot}
use peekd.Processor.Flush.Seen.{ids}
use peekd.Processor.Flush.Counts.{get-count_seen_absent, counter-flush_stats}

module _ (accept : List SlotMessageStats → Bool)
    (visit : List SlotMessageStats → List SlotMessageStats)
    (any : (xs : List SlotMessageStats) → Perm (visit xs) xs) (id : Text) where
  -- Neither the records that are drained nor those that stay have an id that none of the store has.
  drain_absent :
      (slot : ℕ) (s : SlotCacheStore)
      → IsWellFormed s
      → ¬ Mem id (ids (records s))
      → (¬ Mem id (ids (drain_slot visit slot s).1))
        × (¬ Mem id (ids (records (drain_slot visit slot s).0)))
  drain_absent slot s w absent =
      let drained = drain_slot visit slot s in
      let split : Perm (ids (records s)) (ids drained.1 ++ ids (records drained.0)) =
        rw (← map-append (λ (r : SlotMessageStats). r.message_id) drained.1 (records drained.0)) (
          Perm.map (λ (r : SlotMessageStats). r.message_id)
            (records-drain_slot visit slot s any w.slots_differ)) in
      (
        λ m. absent ((Perm.mem_iff split).1 (mem-append_left (ids (records drained.0)) m)),
        λ m. absent ((Perm.mem_iff split).1 (mem-append_right (ids drained.1) m)),
      )

  get-flush_slot :
      (slot : ℕ) (p : BeaconMessageProcessor)
      → IsWellFormed p.slot_cache
      → ¬ Mem id (ids (records p.slot_cache))
      → get Text-discrete id (flush_slot accept visit slot p).seen_counter.counts
        ≡ get Text-discrete id p.seen_counter.counts
  unfolding flush_slot
  get-flush_slot slot p w absent =
      ap (λ (sc : SeenCounter). get Text-discrete id sc.counts) (counter-flush_stats accept _ _)
      ∙ get-count_seen_absent _ p.seen_counter id (drain_absent slot p.slot_cache w absent).0

  get-flush_slots :
      (slots : List ℕ) (p : BeaconMessageProcessor)
      → IsWellFormed p.slot_cache
      → ¬ Mem id (ids (records p.slot_cache))
      → get Text-discrete id (flush_slots accept visit slots p).seen_counter.counts
        ≡ get Text-discrete id p.seen_counter.counts
  unfolding flush_slots
  get-flush_slots [] p w absent = refl
  get-flush_slots (slot ∷ slots) p w absent =
      let cache = slot_cache-flush_slot accept visit slot p in
      get-flush_slots slots (flush_slot accept visit slot p)
        (rw cache (drain_slot-IsWellFormed visit slot p.slot_cache w))
        (rw cache (drain_absent slot p.slot_cache w absent).1)
      ∙ get-flush_slot slot p w absent

  -- A flush keeps the counter of an id that no record of the cache has.
  pub get-flush_completed_slots :
      (slots : List ℕ → List ℕ) (now : ℤ) (p : BeaconMessageProcessor)
      → IsWellFormed p.slot_cache
      → ¬ Mem id (ids (records p.slot_cache))
      → get Text-discrete id (flush_completed_slots accept slots visit now p).0.seen_counter.counts
        ≡ get Text-discrete id p.seen_counter.counts
  unfolding flush_completed_slots
  get-flush_completed_slots slots now p w absent =
      elim (zero-or-suc (slot_seconds p.beacon_config)) [
        | inl e ↦ rw (e, flush_completed_slots) refl
        | inr (m, e) ↦ rw (e, flush_completed_slots) (get-flush_slots _ p w absent)
      ]
