-- ===== src/Processor/Flush/Delivered.antt =====
-- Every record leaves the cache for the repository.
use mathlib.Core.List.{Mem, Mem-prop, Perm, mem-append, exists_of_mem-map}
use mathlib.Core.List.Perm
use mathlib.Core.Logic.Or
use mathlib.Core.HLevel.{⊥_prop}
use mathlib.Core.Logic.{∥∥₁_elim}
use peekd.Base.{ℕ, ◌≡◌, ◌<◌, ap, ◌∙◌, Bool, none, List, map, arith, lt→ltb, if◌then◌else◌}
use peekd.Base.Int.{ℤ}
use peekd.Repository.Models.{SlotMessageStats}
use peekd.Processor.SlotCache.{before, find}
use peekd.Processor.SlotCache.Held.{records_absent}
use peekd.Processor.State.{BeaconMessageProcessor}
use peekd.Processor.Process.Kept.{IsValid}
use peekd.Processor.Flush.{flush_completed_slots, current_slot_of, slot_seconds}
use peekd.Processor.Flush.Conserve.{clear, batches, taken, taken-flush_completed_slots}
use peekd.Processor.Flush.Slots.{find-flush_completed_slots}
use peekd.Processor.Flush.Valid.{flush_completed_slots-IsValid}

module _ (accept : List SlotMessageStats → Bool)
    (visit : List SlotMessageStats → List SlotMessageStats)
    (any : (xs : List SlotMessageStats) → Perm (visit xs) xs) where
  -- A record that was taken in, of a slot below `currentSlot - 1` (taken on uint64), is among those that
  -- were given to the repository, but for its seen count, in whatever orders the flush visits the maps.
  pub mem-batches_of_taken :
      (slots : List ℕ → List ℕ) (now : ℤ) (p : BeaconMessageProcessor) (stat : SlotMessageStats)
      → ((xs : List ℕ) → Perm (slots xs) xs)
      → 0 < slot_seconds p.beacon_config
      → IsValid p
      → Mem stat (taken p)
      → stat.slot < before (current_slot_of p.beacon_config now)
      → Mem stat (map clear (batches (flush_completed_slots accept slots visit now p).0.slot_saves))
  unfolding taken
  mem-batches_of_taken slots now p stat any_slots positive valid taken_in due =
      let after = (flush_completed_slots accept slots visit now p).0 in
      let still = flush_completed_slots-IsValid accept visit slots now p valid in
      let kept : Mem stat (taken after) =
        (Perm.mem_iff (taken-flush_completed_slots accept visit any slots now p valid.cache)).1
          taken_in in
      Or.elim Mem-prop (mem-append.0 kept) (λ m. m)
        (λ m. absurd (
          ∥∥₁_elim (exists_of_mem-map m) ⊥_prop (λ (other, mem, same).
            let slot_eq : other.slot ≡ stat.slot = ap (λ r. r.slot) same in
            let gone : find other.slot other.message_id after.slot_cache ≡ none =
              (find-flush_completed_slots accept visit slots now p any_slots positive).1 other.slot
                other.message_id
              ∙ ap (λ b. if b then none else find other.slot other.message_id p.slot_cache)
                  (lt→ltb other.slot _ (omega (arith, slot_eq, due))) in
            records_absent other after.slot_cache still.cache gone mem)))
