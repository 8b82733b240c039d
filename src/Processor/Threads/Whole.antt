-- ===== src/Processor/Threads/Whole.antt =====
-- A run of whole events is one of the interleavings of the single steps.
use mathlib.Core.List.{Perm, append_assoc, append-nil}
use mathlib.Core.Path.{subst}
use peekd.Base.{
  zero-or-suc, ℕ, ◌<◌, sym, ap, inl, inr, Bool, false, List, [], ◌∷◌, ◌++◌, Text, All, arith,
}
use peekd.Base.Int.{ℤ}
use peekd.Base.Results.{Result}
use peekd.Repository.Models.{SlotMessageStats}
use peekd.Processor.Messages.{Message, MessageType}
use peekd.Processor.SeenCounter.{pop}
use peekd.Processor.State.{
  BeaconConfig, BeaconMessageProcessor, BeaconMessageProcessorOptionFunc,
  new_beacon_message_processor,
}
use peekd.Processor.Flush.{
  count_seen, flush_stats, flush_slot, flush_slots, flush_completed_slots, slot_seconds,
  save_to_repository,
}
use peekd.Processor.Serve.{Event, tick, done, notified, flush, step, run}
use peekd.Processor.Serve.Config.{node_of-step}
use peekd.Processor.Serve.Reach.{IsOrder}
use peekd.Processor.Threads.{
  waiting, draining, counting, Machine, at, with_count, after_slots, Work, begun, drained, popped,
  saved, flushed, Step, worked, Reach, here, next, Works, stay, then,
}

pub Works-append : {m n o : Machine} → Works m n → Works n o → Works m o
Works-append stay more = more
Works-append (then w ws) more = then w (Works-append ws more)

pub counted :
    (final : Bool) (slots : List ℕ) (left before : List SlotMessageStats)
    (p : BeaconMessageProcessor)
    → Works (at p (counting final slots left before)) (
        at
          (record p { seen_counter = (count_seen left p.seen_counter).0 })
          (counting final slots [] (before ++ (count_seen left p.seen_counter).1)))
unfolding count_seen
counted final slots [] before p =
    subst (λ xs. Works (at p (counting final slots [] before)) (at p (counting final slots [] xs)))
      (sym (append-nil before)) stay
counted final slots (stat ∷ left) before p =
    let answer = pop stat.message_id p.seen_counter in
    let one = with_count stat answer.1 ∷ [] in
    let after = record p { seen_counter = answer.0 } in
    then (popped final slots stat left before p) (
      subst
        (λ xs. Works (at after (counting final slots left (before ++ one))) (
          at (record p { seen_counter = (count_seen left answer.0).0 })
            (counting final slots [] xs)))
        (append_assoc before one (count_seen left answer.0).1)
        (counted final slots left (before ++ one) after))

module _ (accept : List SlotMessageStats → Bool)
    (visit : List SlotMessageStats → List SlotMessageStats)
    (any : (xs : List SlotMessageStats) → Perm (visit xs) xs) (final : Bool) where
  stats_flushed :
      (slots : List ℕ) (stats : List SlotMessageStats) (p : BeaconMessageProcessor)
      → Works
          (at p (counting final slots stats []))
          (at (flush_stats accept stats p) (draining final slots))
  unfolding flush_stats save_to_repository
  stats_flushed slots [] p = then (saved final slots [] accept p) stay
  stats_flushed slots (stat ∷ stats) p =
      Works-append (counted final slots (stat ∷ stats) [] p)
        (then (saved final slots _ accept _) stay)

  slots_flushed :
      (slots : List ℕ) (p : BeaconMessageProcessor)
      → Works
          (at p (draining final slots))
          (at (flush_slots accept visit slots p) (draining final []))
  unfolding flush_slots flush_slot
  slots_flushed [] p = stay
  slots_flushed (slot ∷ slots) p =
      then (drained final visit slot slots p any)
        (Works-append (stats_flushed slots _ _) (slots_flushed slots _))

  -- Left alone, the loop goes through a flush to its end, and comes to what `flush_completed_slots` says.
  pub completed_flushed :
      (slots : List ℕ → List ℕ) (now : ℤ) (p : BeaconMessageProcessor)
      → ((xs : List ℕ) → Perm (slots xs) xs)
      → 0 < slot_seconds p.beacon_config
      → Works
          (at p waiting)
          (at (flush_completed_slots accept slots visit now p).0 (after_slots final))
  unfolding flush_completed_slots
  completed_flushed slots now p order positive = elim (zero-or-suc (slot_seconds p.beacon_config)) [
    | inl e ↦ absurd (ground arith)
    | inr (n, e) ↦
        rw (e, flush_completed_slots)
          (then (begun final slots now p order positive)
            (Works-append (slots_flushed _ p) (then (flushed final _) stay)))
  ]

-- The events of a loop that goes on, with orders in which the maps can be visited.
abbrev pub IsGoing : Event → Type 0
IsGoing (tick f) = IsOrder f
IsGoing (done f) = ⊥
IsGoing (Event.seen raw_id) = Unit
IsGoing (Event.message now peer_count msg dst) = Unit
IsGoing notified = Unit

module _ (decode : MessageType → Text → Result Message) where
  pub Reach-works : {m n o : Machine} → Reach decode m n → Works n o → Reach decode m o
  Reach-works r stay = r
  Reach-works r (then w ws) = Reach-works (next r (worked w)) ws

  step-Reach :
      (event : Event) (m : Machine) (p : BeaconMessageProcessor)
      → IsGoing event
      → 0 < slot_seconds p.beacon_config
      → Reach decode m (at p waiting)
      → Reach decode m (at (step decode event p) waiting)
  unfolding step flush
  step-Reach (Event.seen raw_id) m p going positive r = next r (Step.seen raw_id p waiting)
  step-Reach (Event.message now peer_count msg dst) m p going positive r =
      next r (Step.handled now peer_count msg dst p waiting)
  step-Reach (tick f) m p (slots, visit) positive r =
      Reach-works r (completed_flushed f.accept f.visit visit false f.slots f.now p slots positive)
  step-Reach (done f) m p going positive r = absurd going
  step-Reach notified m p going positive r = next r (worked (Work.notified p))

  run-Reach :
      (events : List Event) (m : Machine) (p : BeaconMessageProcessor)
      → All IsGoing events
      → 0 < slot_seconds p.beacon_config
      → Reach decode m (at p waiting)
      → Reach decode m (at (run decode events p) waiting)
  unfolding run
  run-Reach [] m p going positive r = r
  run-Reach (event ∷ events) m p going positive r =
      run-Reach events m (step decode event p) going.1
        (rw (ap (λ (n : BeaconConfig × Text × Text). n.0) (node_of-step decode event p)) positive)
        (step-Reach event m p going.0 positive r)

  -- So the runs of whole events are among the interleavings.
  run-new-Reach :
      (config : BeaconConfig) (opts : List BeaconMessageProcessorOptionFunc) (events : List Event)
      → All IsGoing events
      → 0 < slot_seconds config
      → Reach decode
          (at (new_beacon_message_processor config opts) waiting)
          (at (run decode events (new_beacon_message_processor config opts)) waiting)
  unfolding new_beacon_message_processor
  run-new-Reach config opts events going positive = run-Reach events _ _ going positive here
