-- ===== src/Processor/Threads/Sent.antt =====
-- What was drained goes to the repository.
use mathlib.Core.List.{Mem, append-nil, map-append, mem-append_right}
use mathlib.Core.Path.{subst}
use peekd.Base.{ℕ, ◌≡◌, refl, sym, ap, ◌∙◌, Bool, true, false, List, [], ◌∷◌, ◌++◌, map, Text}
use peekd.Base.Results.{Result}
use peekd.Repository.Models.{SlotMessageStats}
use peekd.Processor.Messages.{Message, MessageType}
use peekd.Processor.SeenCounter.{pop}
use peekd.Processor.State.{BeaconMessageProcessor}
use peekd.Processor.Process.{increase_seen_count_by_raw_id}
use peekd.Processor.Process.Kept.{process-keeps}
use peekd.Processor.Flush.{count_seen, save_to_repository}
use peekd.Processor.Flush.Conserve.{clear, batches, map-clear-count_seen}
use peekd.Processor.Serve.Stored.{slot_saves-process_kind}
use peekd.Processor.Threads.{
  Loop, draining, counting, Machine, at, with_count, Work, notified, begun, drained, popped, saved,
  flushed, Step, seen, handled, worked, Reach, here, next, Works, stay, then,
}
use peekd.Processor.Threads.Kept.{in_flight, clear_one}
use peekd.Processor.Threads.Whole.{counted, Works-append}

-- The records that were drained, on their way or given to the repository, but for their seen counts.
abbrev pub sent : Machine → List SlotMessageStats
sent (at p loop) = map clear (in_flight loop) ++ map clear (batches p.slot_saves)

batches-save :
    (accept : List SlotMessageStats → Bool) (stats : List SlotMessageStats)
    (p : BeaconMessageProcessor)
    → batches (save_to_repository accept stats p).slot_saves ≡ stats ++ batches p.slot_saves
unfolding save_to_repository batches
batches-save accept [] p = refl
batches-save accept (stat ∷ stats) p = refl

clear-save :
    (accept : List SlotMessageStats → Bool) (stats : List SlotMessageStats)
    (p : BeaconMessageProcessor)
    → map clear (batches (save_to_repository accept stats p).slot_saves)
      ≡ map clear stats ++ map clear (batches p.slot_saves)
clear-save accept stats p = ap (map clear) (batches-save accept stats p) ∙ map-append clear stats _

Work-sent :
    {m n : Machine} → Work m n → (stat : SlotMessageStats) → Mem stat (sent m) → Mem stat (sent n)
Work-sent (notified p) stat there = there
Work-sent (begun final slots now p any positive) stat there = there
Work-sent (drained final visit slot slots p any) stat there = mem-append_right _ there
Work-sent (popped final slots one left before p) stat there =
    rw (clear_one (with_count one (pop one.message_id p.seen_counter).1) one before left refl) there
Work-sent (saved final slots stats accept p) stat there =
    subst (Mem stat)
      (sym (
        clear-save accept stats p
        ∙ ap (λ xs. map clear xs ++ map clear (batches p.slot_saves)) (sym (append-nil stats))))
      there
Work-sent (flushed true p) stat there = there
Work-sent (flushed false p) stat there = there

module _ (decode : MessageType → Text → Result Message) where
  Step-sent :
      {m n : Machine}
      → Step decode m n
      → (stat : SlotMessageStats) → Mem stat (sent m)
      → Mem stat (sent n)
  unfolding increase_seen_count_by_raw_id
  Step-sent (seen raw_id p loop) stat there = there
  Step-sent (handled now peer_count msg dst p loop) stat there =
      subst (λ saves. Mem stat (map clear (in_flight loop) ++ map clear (batches saves)))
        (sym (
          process-keeps decode now peer_count msg dst p (λ q. q.slot_saves)
            (λ kind slot. slot_saves-process_kind now peer_count msg kind slot p)))
        there
  Step-sent (worked w) stat there = Work-sent w stat there

  Reach-sent :
      {m n : Machine}
      → Reach decode m n
      → (stat : SlotMessageStats) → Mem stat (sent m)
      → Mem stat (sent n)
  Reach-sent here stat there = there
  Reach-sent (next r s) stat there = Step-sent s stat (Reach-sent r stat there)

  -- In any interleaving of the goroutines: a record that was drained from the cache, on its way in the
  -- loop or given to the repository, is, but for its seen count, among those given to the repository
  -- whenever the loop is not between draining a slot and saving it.
  pub reach-sent :
      (stat : SlotMessageStats) (m : Machine) (p : BeaconMessageProcessor) (loop : Loop)
      → Reach decode m (at p loop)
      → in_flight loop ≡ []
      → Mem stat (sent m)
      → Mem stat (map clear (batches p.slot_saves))
  reach-sent stat m p loop r idle there =
      subst (λ xs. Mem stat (map clear xs ++ map clear (batches p.slot_saves))) idle
        (Reach-sent r stat there)

-- From any point at which the loop has drained a slot, the loop alone comes to the next slot, whatever the
-- repository answers; and then the records of the slot, but for their seen counts and in order, were given
-- to the repository last, after all that had been given to it (the state lists what was given the latest
-- first).
pub works-sent :
    (accept : List SlotMessageStats → Bool) (final : Bool) (slots : List ℕ)
    (left before : List SlotMessageStats) (p : BeaconMessageProcessor)
    → (q : BeaconMessageProcessor) × Works
        (at p (counting final slots left before))
        (at q (draining final slots))
      × (map clear (batches q.slot_saves)
          ≡ map clear (before ++ left) ++ map clear (batches p.slot_saves))
works-sent accept final slots left before p =
    let rest = count_seen left p.seen_counter in
    let after = record p { seen_counter = rest.0 } in
    let same : map clear (before ++ rest.1) ≡ map clear (before ++ left) =
      map-append clear before rest.1
      ∙ ap (λ xs. map clear before ++ xs) (map-clear-count_seen left p.seen_counter)
      ∙ sym (map-append clear before left) in
    (
      save_to_repository accept (before ++ rest.1) after,
      Works-append (counted final slots left before p)
          (then (saved final slots (before ++ rest.1) accept after) stay),
      clear-save accept (before ++ rest.1) after
          ∙ ap (λ xs. xs ++ map clear (batches p.slot_saves)) same,
    )
