-- ===== src/Processor/Serve/Schedules.antt =====
-- The goroutines that share a processor: the subscriptions' loops, the message id function and the
-- processor's own loop. What is taken in does not depend on the scheduler.
use mathlib.Core.List.{Perm, Nodup, append_assoc}
use mathlib.Core.List.Perm
use peekd.Base.{List, [], ◌∷◌, ◌++◌, map, Text, All}
use peekd.Base.Schedules.{Merge, idle, left, right, Schedule, no_one, with_one}
use peekd.Base.Results.{Result}
use peekd.Repository.Models.{SlotMessageStats}
use peekd.Processor.Messages.{Message, MessageType}
use peekd.Processor.State.{
  BeaconConfig, BeaconMessageProcessor, BeaconMessageProcessorOptionFunc,
  new_beacon_message_processor,
}
use peekd.Processor.SlotCache.Drain.{perm_append_left_comm}
use peekd.Processor.Flush.Conserve.{taken}
use peekd.Processor.Process.Worth.{key}
use peekd.Processor.Serve.{Event, run}
use peekd.Processor.Serve.Reach.{IsPossible}
use peekd.Processor.Serve.Account.{recorded, all_recorded, run-new-taken}

module _ (decode : MessageType → Text → Result Message) where
  -- The records that the calls of all the goroutines are worth.
  unfoldable pub recorded_by : BeaconMessageProcessor → List (List Event) → List SlotMessageStats
  unfolding all_recorded
  recorded_by p [] = []
  recorded_by p (events ∷ others) = all_recorded decode p events ++ recorded_by p others

  merge-all_recorded :
      (p : BeaconMessageProcessor) {xs ys zs : List Event}
      → Merge xs ys zs
      → Perm (all_recorded decode p zs) (all_recorded decode p xs ++ all_recorded decode p ys)
  unfolding all_recorded
  merge-all_recorded p idle = Perm.refl []
  merge-all_recorded p (left {x} {xs} {ys} {zs} merge) =
      rw (append_assoc (recorded decode p x) (all_recorded decode p xs) (all_recorded decode p ys))
        (Perm.append_left (recorded decode p x) (merge-all_recorded p merge))
  merge-all_recorded p (right {y} {xs} {ys} {zs} merge) =
      Perm.trans (Perm.append_left (recorded decode p y) (merge-all_recorded p merge)) (
        perm_append_left_comm (recorded decode p y) (all_recorded decode p xs)
          (all_recorded decode p ys))

  schedule-all_recorded :
      (p : BeaconMessageProcessor) {goroutines : List (List Event)} {events : List Event}
      → Schedule goroutines events
      → Perm (all_recorded decode p events) (recorded_by p goroutines)
  unfolding all_recorded recorded_by
  schedule-all_recorded p no_one = Perm.refl []
  schedule-all_recorded p (with_one {xs} {ys} {zs} {others} merge schedule) =
      Perm.trans (merge-all_recorded p merge)
        (Perm.append_left (all_recorded decode p xs) (schedule-all_recorded p schedule))

  -- Any number of goroutines whose calls on one new processor are scheduled in any order, with flushes
  -- that visit the maps in any order among them: if no two of the messages that are worth a record have
  -- the same slot and message id, then what was taken in, in the cache and at the repository together, is
  -- exactly one record for each of these messages of each goroutine, up to order and with the seen counts
  -- aside. So it does not depend on the schedule.
  pub schedule-taken :
      (config : BeaconConfig) (opts : List BeaconMessageProcessorOptionFunc)
      (goroutines : List (List Event)) (events : List Event)
      → Schedule goroutines events
      → All IsPossible events
      → Nodup (map key (recorded_by (new_beacon_message_processor config opts) goroutines))
      → Perm
          (taken (run decode events (new_beacon_message_processor config opts)))
          (recorded_by (new_beacon_message_processor config opts) goroutines)
  schedule-taken config opts goroutines events schedule possible differ =
      let same = schedule-all_recorded (new_beacon_message_processor config opts) schedule in
      Perm.trans
        (run-new-taken decode config opts events possible
          (Perm.nodup (Perm.map key (Perm.symm same)) differ))
        same
