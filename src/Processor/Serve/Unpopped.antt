-- ===== src/Processor/Serve/Unpopped.antt =====
-- The counters of ids that no record is kept for.
use mathlib.Core.List.{map-append, Mem, mem-append_right, mem-map_of_mem, exists_of_mem-map}
use mathlib.Core.Logic.{ite, ∥∥₁_elim}
use mathlib.Core.HLevel.{⊥_prop}
use mathlib.Core.Path.{subst}
use peekd.Base.{
  ℕ, zero, suc, ◌%◌, ◌^◌, ◌≡◌, refl, sym, ap, ◌∙◌, Option, none, some, List, [], ◌∷◌, map, Text,
  Text-discrete, All, arith,
}
use peekd.Base.Results.{Result}
use peekd.Base.Maps.{get}
use peekd.Repository.Models.{SlotMessageStats}
use peekd.Processor.Messages.{Message, MessageType}
use peekd.Processor.SeenCounter.{hex_encode, SeenCounter, new_seen_counter}
use peekd.Processor.SlotCache.Drain.{records}
use peekd.Processor.State.{
  BeaconConfig, BeaconMessageProcessor, BeaconMessageProcessorOptionFunc,
  new_beacon_message_processor,
}
use peekd.Processor.Process.{increase_seen_count_by_raw_id}
use peekd.Processor.Process.Kept.{IsValid, process-keeps}
use peekd.Processor.Flush.Conserve.{clear, batches, taken}
use peekd.Processor.Flush.Seen.{ids}
use peekd.Processor.Flush.Absent.{get-flush_completed_slots}
use peekd.Processor.Serve.{Event, seen, message, tick, done, notified, flush, step, run, Flush}
use peekd.Processor.Serve.Reach.{IsPossible, IsOrder, new-IsValid, step-IsValid, run-taken}
use peekd.Processor.Serve.Sightings.{
  sightings, bumps, bumps-some, bumps-increase, counter-process_kind,
}

-- The counter after some sightings of an id.
abbrev pub counter_of : ℕ → Option ℕ
counter_of zero = none
counter_of (suc n) = some (suc n % 2 ^ 32)

bumps-counter_of : (n : ℕ) → bumps n none ≡ counter_of n
bumps-counter_of zero = refl
bumps-counter_of (suc n) = bumps-some n 1 ∙ ap (λ j. some (j % 2 ^ 32)) (omega arith)

ids-clear : (stats : List SlotMessageStats) → ids (map clear stats) ≡ ids stats
ids-clear [] = refl
ids-clear (stat ∷ stats) = ap (◌∷◌ stat.message_id) (ids-clear stats)

-- The id of a record in the cache is that of a record taken in.
mem-taken :
    (id : Text) (p : BeaconMessageProcessor)
    → Mem id (ids (records p.slot_cache))
    → Mem id (ids (taken p))
unfolding taken
mem-taken id p there =
    let kept = map clear (records p.slot_cache) in
    subst (Mem id)
      (sym (
        map-append (λ (r : SlotMessageStats). r.message_id) (map clear (batches p.slot_saves))
          kept))
      (mem-append_right (ids (map clear (batches p.slot_saves)))
        (subst (Mem id) (sym (ids-clear (records p.slot_cache))) there))

module _ (decode : MessageType → Text → Result Message) (id : Text) where
  absent_now :
      (events : List Event) (p : BeaconMessageProcessor)
      → IsValid p
      → All IsPossible events
      → ¬ Mem id (ids (taken (run decode events p)))
      → ¬ Mem id (ids (records p.slot_cache))
  absent_now events p v o absent there =
      ∥∥₁_elim (exists_of_mem-map (mem-taken id p there)) ⊥_prop (λ (stat, held, same). absent (
        subst (λ i. Mem i (ids (taken (run decode events p)))) same
          (mem-map_of_mem (λ r. r.message_id) (run-taken decode events p stat v o held))))

  flush-counter :
      (f : Flush) (p : BeaconMessageProcessor)
      → IsValid p
      → IsOrder f
      → ¬ Mem id (ids (records p.slot_cache))
      → get Text-discrete id (flush f p).seen_counter.counts
        ≡ get Text-discrete id p.seen_counter.counts
  unfolding flush
  flush-counter f p v o absent =
      get-flush_completed_slots f.accept f.visit o.1 id f.slots f.now p v.cache absent

  -- One more if the event is a sighting of the id.
  sighting : Event → ℕ → ℕ
  sighting (seen raw_id) n = ite (Text-discrete (hex_encode raw_id) id) (suc n) n
  sighting _ n = n

  sightings-cons :
      (event : Event) (events : List Event)
      → sighting event (sightings id events) ≡ sightings id (event ∷ events)
  unfolding sighting
  sightings-cons (seen raw_id) events = refl
  sightings-cons (message now peer_count msg dst) events = refl
  sightings-cons (tick f) events = refl
  sightings-cons (done f) events = refl
  sightings-cons notified events = refl

  bumps-step :
      (event : Event) (p : BeaconMessageProcessor) (n : ℕ)
      → IsValid p
      → IsPossible event
      → ¬ Mem id (ids (records p.slot_cache))
      → bumps n (get Text-discrete id (step decode event p).seen_counter.counts)
        ≡ bumps (sighting event n) (get Text-discrete id p.seen_counter.counts)
  unfolding step increase_seen_count_by_raw_id sighting
  bumps-step (seen raw_id) p n v o absent = bumps-increase raw_id id n p.seen_counter
  bumps-step (message now peer_count msg dst) p n v o absent =
      ap (λ (sc : SeenCounter). bumps n (get Text-discrete id sc.counts))
        (process-keeps decode now peer_count msg dst p (λ q. q.seen_counter)
          (λ kind slot. counter-process_kind now peer_count msg kind slot p))
  bumps-step (tick f) p n v o absent = ap (bumps n) (flush-counter f p v o absent)
  bumps-step (done f) p n v o absent = ap (bumps n) (flush-counter f p v o absent)
  bumps-step notified p n v o absent = refl

  get-run :
      (events : List Event) (p : BeaconMessageProcessor)
      → IsValid p
      → All IsPossible events
      → ¬ Mem id (ids (taken (run decode events p)))
      → get Text-discrete id (run decode events p).seen_counter.counts
        ≡ bumps (sightings id events) (get Text-discrete id p.seen_counter.counts)
  unfolding run
  get-run [] p v o absent = refl
  get-run (event ∷ events) p v o absent =
      get-run events (step decode event p) (step-IsValid decode event p v) o.1 absent
      ∙ bumps-step event p (sightings id events) v o.0 (absent_now (event ∷ events) p v o absent)
      ∙ ap (λ n. bumps n (get Text-discrete id p.seen_counter.counts)) (sightings-cons event events)

  -- From a new processor on, after any events whose flushes visit the maps in some order: if no record
  -- with the message id was ever taken in (as for a message without a slot), then the counter of the id
  -- holds the number of all its sightings, modulo 2 ^ 32, and there is none if it was never seen. So no
  -- flush removes it.
  pub run-new-unpopped :
      (config : BeaconConfig) (opts : List BeaconMessageProcessorOptionFunc) (events : List Event)
      → All IsPossible events
      → ¬ Mem id (ids (taken (run decode events (new_beacon_message_processor config opts))))
      → get Text-discrete id
          (run decode events (new_beacon_message_processor config opts)).seen_counter.counts
        ≡ counter_of (sightings id events)
  unfolding new_beacon_message_processor new_seen_counter get
  run-new-unpopped config opts events possible absent =
      get-run events _ (new-IsValid config opts) possible absent
      ∙ bumps-counter_of (sightings id events)
