-- ===== src/Processor/Threads/Kept.antt =====
-- What no interleaving of the goroutines loses.
use mathlib.Core.List.{mem-cons_of_mem, append-nil, Perm, Mem, perm_middle}
use mathlib.Core.List.Perm
use mathlib.Core.Path.{subst}
use peekd.Base.{◌≡◌, refl, ap, ◌⊎◌, inl, inr, true, false, List, [], ◌∷◌, ◌++◌, map, Text, arith}
use peekd.Base.Results.{Result}
use peekd.Repository.Models.{SlotMessageStats}
use peekd.Processor.Messages.{Message, MessageType}
use peekd.Processor.SlotCache.WellFormed.{drain_slot-IsWellFormed}
use peekd.Processor.State.{
  BeaconConfig, BeaconMessageProcessor, BeaconMessageProcessorOptionFunc,
  new_beacon_message_processor,
}
use peekd.Processor.Process.{increase_seen_count_by_raw_id}
use peekd.Processor.Process.Kept.{IsValid, process-IsValid, process-Grows}
use peekd.Processor.Flush.Valid.{save-IsValid}
use peekd.Processor.Flush.Conserve.{taken-drained, clear, taken, taken-save}
use peekd.Processor.Serve.Reach.{new-IsValid}
use peekd.Processor.Threads.{
  pop, Loop, waiting, draining, counting, returned, Machine, at, with_count, Work, notified, begun,
  drained, popped, saved, flushed, Step, seen, handled, worked, Reach, here, next,
}

-- The records that are on their way from the cache to the repository.
abbrev pub in_flight : Loop → List SlotMessageStats
in_flight waiting = []
in_flight (draining final slots) = []
in_flight (counting final slots left counted) = counted ++ left
in_flight returned = []

-- All the records that were taken in, but for their seen counts.
abbrev pub held : Machine → List SlotMessageStats
held (at p loop) = map clear (in_flight loop) ++ taken p

abbrev pub processor : Machine → BeaconMessageProcessor
processor (at p loop) = p

held-idle :
    (p : BeaconMessageProcessor) (loop : Loop) (stat : SlotMessageStats)
    → in_flight loop ≡ []
    → Mem stat (held (at p loop))
    → Mem stat (taken p)
held-idle p loop stat e there = subst (λ xs. Mem stat (map clear xs ++ taken p)) e there

-- `m` turned into `n` by taking in at most one record.
abbrev Gains : Machine → Machine → Type 0
Gains m n =
    Perm (held n) (held m) ⊎ ((stat : SlotMessageStats) × Perm (held n) (clear stat ∷ held m))

pub clear_one :
    (s t : SlotMessageStats) (xs ys : List SlotMessageStats)
    → clear s ≡ clear t
    → map clear ((xs ++ (s ∷ [])) ++ ys) ≡ map clear (xs ++ (t ∷ ys))
clear_one s t [] ys same = ap (λ u. u ∷ map clear ys) same
clear_one s t (x ∷ xs) ys same = ap (◌∷◌ (clear x)) (clear_one s t xs ys same)

Work-IsValid : {m n : Machine} → Work m n → IsValid (processor m) → IsValid (processor n)
Work-IsValid (notified p) v = record {
  cache = v.cache;
  buffered = omega (arith, v.buffered);
  registry = v.registry;
}
Work-IsValid (begun final slots now p any positive) v = v
Work-IsValid (drained final visit slot slots p any) v = record {
  cache = drain_slot-IsWellFormed visit slot p.slot_cache v.cache;
  buffered = v.buffered;
  registry = v.registry;
}
Work-IsValid (popped final slots stat left counted p) v = record {
  cache = v.cache;
  buffered = v.buffered;
  registry = v.registry;
}
Work-IsValid (saved final slots counted accept p) v = save-IsValid accept counted p v
Work-IsValid (flushed final p) v = v

Work-held : {m n : Machine} → Work m n → IsValid (processor m) → Perm (held n) (held m)
Work-held (notified p) v = unfold taken in Perm.refl _
Work-held (begun final slots now p any positive) v = Perm.refl (taken p)
Work-held (drained final visit slot slots p any) v = taken-drained visit any slot p v.cache
Work-held (popped final slots stat left counted p) v =
    let answer = (pop stat.message_id p.seen_counter).1 in
    rw (clear_one (with_count stat answer) stat counted left refl) (unfold taken in Perm.refl _)
Work-held (saved final slots counted accept p) v =
    rw (append-nil counted, taken-save accept counted p) (Perm.refl _)
Work-held (flushed true p) v = Perm.refl (taken p)
Work-held (flushed false p) v = Perm.refl (taken p)

module _ (decode : MessageType → Text → Result Message) where
  Step-IsValid : {m n : Machine} → Step decode m n → IsValid (processor m) → IsValid (processor n)
  unfolding increase_seen_count_by_raw_id
  Step-IsValid (seen raw_id p loop) v = record {
    cache = v.cache;
    buffered = v.buffered;
    registry = v.registry;
  }
  Step-IsValid (handled now peer_count msg dst p loop) v =
      process-IsValid decode now peer_count msg dst p v
  Step-IsValid (worked w) v = Work-IsValid w v

  Step-Gains : {m n : Machine} → Step decode m n → IsValid (processor m) → Gains m n
  unfolding increase_seen_count_by_raw_id
  Step-Gains (seen raw_id p loop) v = unfold taken in inl (Perm.refl _)
  Step-Gains (handled now peer_count msg dst p loop) v =
      elim (process-Grows decode now peer_count msg dst p v) [
        | inl same ↦ inl (Perm.append_left _ same)
        | inr (stat, more) ↦ inr (stat, Perm.trans (Perm.append_left _ more) (perm_middle _ _))
      ]
  Step-Gains (worked w) v = inl (Work-held w v)

  Reach-IsValid : {m n : Machine} → Reach decode m n → IsValid (processor m) → IsValid (processor n)
  Reach-IsValid here v = v
  Reach-IsValid (next r s) v = Step-IsValid s (Reach-IsValid r v)

  mem_of_Gains :
      (m n : Machine) (stat : SlotMessageStats) → Gains m n → Mem stat (held m) → Mem stat (held n)
  mem_of_Gains m n stat (inl same) there = (Perm.mem_iff same).1 there
  mem_of_Gains m n stat (inr (new, more)) there =
      (Perm.mem_iff more).1 (mem-cons_of_mem (clear new) there)

  Reach-held :
      (stat : SlotMessageStats) {m n : Machine}
      → Reach decode m n
      → IsValid (processor m)
      → Mem stat (held m)
      → Mem stat (held n)
  Reach-held stat here v there = there
  Reach-held stat (next {n} {o} r s) v there =
      mem_of_Gains n o stat (Step-Gains s (Reach-IsValid r v)) (Reach-held stat r v there)

  -- The goroutines of the message id function, of the handlers and of the loop start with a new processor
  -- and take their steps in any order, so that a flush is interrupted anywhere. A record that was taken
  -- in and that is in the cache, on its way in the loop or given to the repository is not lost by any
  -- further steps: whenever the loop is not between draining a slot and saving it, the record is, but for
  -- its seen count, in the cache or among those given to the repository.
  pub reach-taken :
      (config : BeaconConfig) (opts : List BeaconMessageProcessorOptionFunc)
      (stat : SlotMessageStats) (m : Machine) (p : BeaconMessageProcessor) (loop : Loop)
      → Reach decode (at (new_beacon_message_processor config opts) waiting) m
      → Reach decode m (at p loop)
      → in_flight loop ≡ []
      → Mem stat (held m)
      → Mem stat (taken p)
  reach-taken config opts stat m p loop first more idle there =
      held-idle p loop stat idle
        (Reach-held stat more (Reach-IsValid first (new-IsValid config opts)) there)
