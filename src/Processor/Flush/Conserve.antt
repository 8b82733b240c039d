-- ===== src/Processor/Flush/Conserve.antt =====
-- A flush moves records from the cache to the repository: none is lost, doubled or invented.
use mathlib.Core.List.{Perm, map-append, append_assoc}
use mathlib.Core.List.Perm
use peekd.Base.{
  zero-or-suc, ℕ, ℕ, ◌≡◌, refl, ap, ◌∙◌, Bool, List, [], ◌∷◌, ◌++◌, map, Text-discrete, arith, inl,
  inr, Option-cases,
}
use peekd.Base.Int.{ℤ}
use peekd.Base.Maps.{get}
use peekd.Repository.Models.{SlotMessageStats}
use peekd.Processor.SeenCounter.{SeenCounter, pop}
use peekd.Processor.SlotCache.{drain_slot}
use peekd.Processor.SlotCache.Drain.{records, records-drain_slot, perm_append_left_comm}
use peekd.Processor.SlotCache.WellFormed.{IsWellFormed, drain_slot-IsWellFormed}
use peekd.Processor.State.{BeaconMessageProcessor}
use peekd.Processor.Flush.{
  flush_completed_slots, slot_seconds, drain_slot, flush_stats, flush_slot, flush_slots,
  save_to_repository, count_seen, save_to_repository,
}

-- A record but for its seen count.
abbrev pub clear : SlotMessageStats → SlotMessageStats
clear stat = record stat { seen_count = 0 }

-- All the records that were given to the repository.
unfoldable pub batches : List (List SlotMessageStats × Bool) → List SlotMessageStats
batches [] = []
batches ((stats, success) ∷ saves) = stats ++ batches saves

-- The records that the processor has taken in, in the repository or in the cache.
unfoldable pub taken : BeaconMessageProcessor → List SlotMessageStats
unfolding batches
taken p = map clear (batches p.slot_saves) ++ map clear (records p.slot_cache)

clear_first :
    (stat : SlotMessageStats) (stats : List SlotMessageStats) (sc : SeenCounter)
    → map clear (count_seen (stat ∷ stats) sc).1
      ≡ clear stat ∷ map clear (count_seen stats (pop stat.message_id sc).0).1
unfolding count_seen pop
clear_first stat stats sc = elim (Option-cases (get Text-discrete stat.message_id sc.counts)) [
  | inl e ↦ ground arith
  | inr (n, e) ↦ ground arith
]

pub map-clear-count_seen :
    (stats : List SlotMessageStats) (sc : SeenCounter)
    → map clear (count_seen stats sc).1 ≡ map clear stats
unfolding count_seen
map-clear-count_seen [] sc = refl
map-clear-count_seen (stat ∷ stats) sc =
    clear_first stat stats sc
    ∙ ap (◌∷◌ (clear stat)) (map-clear-count_seen stats (pop stat.message_id sc).0)

pub taken-save :
    (accept : List SlotMessageStats → Bool) (stats : List SlotMessageStats)
    (p : BeaconMessageProcessor)
    → taken (save_to_repository accept stats p) ≡ map clear stats ++ taken p
unfolding taken save_to_repository
taken-save accept [] p = refl
taken-save accept (stat ∷ stats) p = ap (◌∷◌ (clear stat)) (
    rw (map-append clear stats (batches p.slot_saves))
      (append_assoc (map clear stats) (map clear (batches p.slot_saves)) _))

-- The records that are drained, with those that the processor still has, are what it had.
pub taken-drained :
    (visit : List SlotMessageStats → List SlotMessageStats)
    (any : (xs : List SlotMessageStats) → Perm (visit xs) xs) (slot : ℕ)
    (p : BeaconMessageProcessor)
    → IsWellFormed p.slot_cache
    → Perm
        (map clear (drain_slot visit slot p.slot_cache).1
          ++ taken (record p { slot_cache = (drain_slot visit slot p.slot_cache).0 }))
        (taken p)
unfolding taken
taken-drained visit any slot p w =
    let (slot_cache, stats) = drain_slot visit slot p.slot_cache in
    let saved = map clear (batches p.slot_saves) in
    Perm.trans (perm_append_left_comm (map clear stats) saved (map clear (records slot_cache))) (
      Perm.append_left saved (
        rw (← map-append clear stats (records slot_cache)) (
          Perm.map clear
            (Perm.symm (records-drain_slot visit slot p.slot_cache any w.slots_differ)))))

module _ (accept : List SlotMessageStats → Bool)
    (visit : List SlotMessageStats → List SlotMessageStats) where
  slot_cache-save :
      (stats : List SlotMessageStats) (p : BeaconMessageProcessor)
      → (save_to_repository accept stats p).slot_cache ≡ p.slot_cache
  unfolding save_to_repository
  slot_cache-save [] p = refl
  slot_cache-save (stat ∷ stats) p = refl

  pub slot_cache-flush_stats :
      (stats : List SlotMessageStats) (p : BeaconMessageProcessor)
      → (flush_stats accept stats p).slot_cache ≡ p.slot_cache
  unfolding flush_stats
  slot_cache-flush_stats [] p = refl
  slot_cache-flush_stats (stat ∷ stats) p = slot_cache-save _ _

  taken-flush_stats :
      (stats : List SlotMessageStats) (p : BeaconMessageProcessor)
      → taken (flush_stats accept stats p) ≡ map clear stats ++ taken p
  unfolding flush_stats taken
  taken-flush_stats [] p = refl
  taken-flush_stats (stat ∷ stats) p =
      taken-save accept (count_seen (stat ∷ stats) p.seen_counter).1 _
      ∙ ap (λ given. given ++ taken p) (map-clear-count_seen (stat ∷ stats) p.seen_counter)

  pub slot_cache-flush_slot :
      (slot : ℕ) (p : BeaconMessageProcessor)
      → (flush_slot accept visit slot p).slot_cache ≡ (drain_slot visit slot p.slot_cache).0
  unfolding flush_slot
  slot_cache-flush_slot slot p = slot_cache-flush_stats _ _

  module _ (any : (xs : List SlotMessageStats) → Perm (visit xs) xs) where
    taken-flush_slot :
        (slot : ℕ) (p : BeaconMessageProcessor)
        → IsWellFormed p.slot_cache
        → Perm (taken (flush_slot accept visit slot p)) (taken p)
    unfolding flush_slot
    taken-flush_slot slot p w =
        let (slot_cache, stats) = drain_slot visit slot p.slot_cache in
        rw (taken-flush_stats stats (record p { slot_cache = slot_cache }))
          (taken-drained visit any slot p w)

    taken-flush_slots :
        (slots : List ℕ) (p : BeaconMessageProcessor)
        → IsWellFormed p.slot_cache
        → Perm (taken (flush_slots accept visit slots p)) (taken p)
    unfolding flush_slots
    taken-flush_slots [] p w = Perm.refl (taken p)
    taken-flush_slots (slot ∷ slots) p w =
        let still : IsWellFormed (flush_slot accept visit slot p).slot_cache =
          rw (slot_cache-flush_slot slot p) (drain_slot-IsWellFormed visit slot p.slot_cache w) in
        Perm.trans (taken-flush_slots slots (flush_slot accept visit slot p) still)
          (taken-flush_slot slot p w)

    -- A flush keeps the processor's records: up to order, and with the seen counts aside, those given to
    -- the repository and those in the cache are together what they were before. So a flush loses,
    -- doubles and invents no record, also where the repository refuses a batch.
    pub taken-flush_completed_slots :
        (slots : List ℕ → List ℕ) (now : ℤ) (p : BeaconMessageProcessor)
        → IsWellFormed p.slot_cache
        → Perm (taken (flush_completed_slots accept slots visit now p).0) (taken p)
    unfolding flush_completed_slots
    taken-flush_completed_slots slots now p w = elim (zero-or-suc (slot_seconds p.beacon_config)) [
      | inl e ↦ rw (e, flush_completed_slots) (Perm.refl (taken p))
      | inr (m, e) ↦ rw (e, flush_completed_slots) (taken-flush_slots _ p w)
    ]
