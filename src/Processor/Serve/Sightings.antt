-- ===== src/Processor/Serve/Sightings.antt =====
-- From the sightings of message ids to the seen counts of the records that a flush saves.
use mathlib.Core.List.{Mem, Nodup, not-mem-nil}
use mathlib.Core.Path.{subst}
use mathlib.Core.Option
use peekd.Base.{
  ℕ, zero, suc, ◌+◌, ◌%◌, ◌^◌, ◌≡◌, refl, ap, ◌∙◌, Option, none, some, List, [], ◌∷◌, Text,
  Text-discrete, All, ite, arith,
}
use peekd.Base.Int.{ℤ}
use peekd.Base.Results.{Result}
use peekd.Base.Maps.{get, get-put}
use peekd.Repository.Models.{SlotMessageStats}
use peekd.Processor.Messages.{Message, MessageType}
use peekd.Processor.SeenCounter.{SeenCounter, hex_encode, increase_by_raw_id, new_seen_counter}
use peekd.Processor.SlotExtractor.{MessageKind, slot_message, general_message}
use peekd.Processor.SlotCache.Drain.{records}
use peekd.Processor.State.{
  BeaconConfig, BeaconMessageProcessor, BeaconMessageProcessorOptionFunc, PubsubMessage,
  new_beacon_message_processor,
}
use peekd.Processor.Process.{
  process_kind, process_slot_message_metadata, process_general_message_metadata,
  increase_seen_count_by_raw_id,
}
use peekd.Processor.Process.Kept.{process-keeps}
use peekd.Processor.Flush.Conserve.{batches}
use peekd.Processor.Flush.Seen.{ids}
use peekd.Processor.Flush.Counts.{seen_value, IsCounted, flush_completed_slots-IsCounted}
use peekd.Processor.Serve.{Event, seen, message, tick, done, notified, flush, step, run, Flush}
use peekd.Processor.Serve.Reach.{IsOrder, run-new-IsValid}
use peekd.Processor.Serve.Stored.{slot_saves-process_kind}

-- No flush among the events.
abbrev pub IsQuiet : Event → Type 0
IsQuiet (tick f) = ⊥
IsQuiet (done f) = ⊥
IsQuiet (seen raw_id) = Unit
IsQuiet (message now peer_count msg dst) = Unit
IsQuiet notified = Unit

-- How often the id whose hexadecimal digits are `msg_id` was seen.
abbrev pub sightings : Text → List Event → ℕ
sightings msg_id [] = 0
sightings msg_id (seen raw_id ∷ events) =
    let rest = sightings msg_id events in
    ite (Text-discrete (hex_encode raw_id) msg_id) (suc rest) rest
sightings msg_id (message now peer_count msg dst ∷ events) = sightings msg_id events
sightings msg_id (tick f ∷ events) = sightings msg_id events
sightings msg_id (done f ∷ events) = sightings msg_id events
sightings msg_id (notified ∷ events) = sightings msg_id events

-- The count on uint32; an id that was never seen counts once.
abbrev pub seen_count_of : ℕ → ℕ
seen_count_of zero = 1
seen_count_of (suc n) = suc n % 2 ^ 32

abbrev bump : Option ℕ → Option ℕ
bump o = some ((Option.get_or o 0 + 1) % 2 ^ 32)

abbrev pub bumps : ℕ → Option ℕ → Option ℕ
bumps zero o = o
bumps (suc n) o = bumps n (bump o)

pub bumps-some : (n k : ℕ) → bumps n (some (k % 2 ^ 32)) ≡ some ((k + n) % 2 ^ 32)
bumps-some zero k = ground arith
bumps-some (suc n) k =
    ap (λ j. bumps n (some j)) (omega arith)
    ∙ bumps-some n (k + 1)
    ∙ ap (λ j. some (j % 2 ^ 32)) (omega arith)

seen_value-bumps : (n : ℕ) → seen_value (bumps n none) ≡ seen_count_of n
seen_value-bumps zero = refl
seen_value-bumps (suc n) = ap seen_value (bumps-some n 1) ∙ ap (λ j. j % 2 ^ 32) (omega arith)

bump-same :
    (sc : SeenCounter) (j k : Text) (same : Dec (j ≡ k))
    → ite same (bump (get Text-discrete j sc.counts)) (get Text-discrete k sc.counts)
      ≡ ite same (bump (get Text-discrete k sc.counts)) (get Text-discrete k sc.counts)
bump-same sc j k (yes q) = ap (λ i. bump (get Text-discrete i sc.counts)) q
bump-same sc j k (no q) = refl

bumps-ite :
    (j k : Text) (same : Dec (j ≡ k)) (n : ℕ) (o : Option ℕ)
    → bumps n (ite same (bump o) o) ≡ bumps (ite same (suc n) n) o
bumps-ite j k (yes q) n o = refl
bumps-ite j k (no q) n o = refl

get-increase :
    (raw_id msg_id : Text) (sc : SeenCounter)
    → get Text-discrete msg_id (increase_by_raw_id raw_id sc).counts
      ≡ ite
          (Text-discrete (hex_encode raw_id) msg_id)
          (bump (get Text-discrete msg_id sc.counts))
          (get Text-discrete msg_id sc.counts)
unfolding increase_by_raw_id
get-increase raw_id msg_id sc =
    get-put Text-discrete (hex_encode raw_id) msg_id _ sc.counts
    ∙ bump-same sc (hex_encode raw_id) msg_id (Text-discrete (hex_encode raw_id) msg_id)

-- One more sighting before others.
pub bumps-increase :
    (raw_id msg_id : Text) (n : ℕ) (sc : SeenCounter)
    → bumps n (get Text-discrete msg_id (increase_by_raw_id raw_id sc).counts)
      ≡ bumps
          (ite (Text-discrete (hex_encode raw_id) msg_id) (suc n) n)
          (get Text-discrete msg_id sc.counts)
bumps-increase raw_id msg_id n sc =
    ap (bumps n) (get-increase raw_id msg_id sc)
    ∙ bumps-ite (hex_encode raw_id) msg_id (Text-discrete (hex_encode raw_id) msg_id) n
        (get Text-discrete msg_id sc.counts)

pub counter-process_kind :
    (now : ℤ) (peer_count : ℕ) (msg : PubsubMessage) (kind : MessageKind) (slot : ℕ)
    (p : BeaconMessageProcessor)
    → (process_kind now peer_count msg kind slot p).0.seen_counter ≡ p.seen_counter
unfolding process_kind process_slot_message_metadata process_general_message_metadata
counter-process_kind now peer_count msg slot_message slot p = ground arith
counter-process_kind now peer_count msg general_message slot p = ground arith

module _ (decode : MessageType → Text → Result Message) where
  slot_saves-step :
      (event : Event) (p : BeaconMessageProcessor)
      → IsQuiet event
      → (step decode event p).slot_saves ≡ p.slot_saves
  unfolding step increase_seen_count_by_raw_id
  slot_saves-step (seen raw_id) p quiet = refl
  slot_saves-step (message now peer_count msg dst) p quiet =
      process-keeps decode now peer_count msg dst p (λ q. q.slot_saves)
        (λ kind slot. slot_saves-process_kind now peer_count msg kind slot p)
  slot_saves-step (tick f) p quiet = absurd quiet
  slot_saves-step (done f) p quiet = absurd quiet
  slot_saves-step notified p quiet = refl

  slot_saves-run :
      (events : List Event) (p : BeaconMessageProcessor)
      → All IsQuiet events
      → (run decode events p).slot_saves ≡ p.slot_saves
  unfolding run
  slot_saves-run [] p quiet = refl
  slot_saves-run (event ∷ events) p quiet =
      slot_saves-run events (step decode event p) quiet.1 ∙ slot_saves-step event p quiet.0

  -- The counter holds one more for each sighting.
  get-run :
      (msg_id : Text) (events : List Event) (p : BeaconMessageProcessor)
      → All IsQuiet events
      → get Text-discrete msg_id (run decode events p).seen_counter.counts
        ≡ bumps (sightings msg_id events) (get Text-discrete msg_id p.seen_counter.counts)
  unfolding run step increase_seen_count_by_raw_id
  get-run msg_id [] p quiet = refl
  get-run msg_id (seen raw_id ∷ events) p quiet =
      get-run msg_id events _ quiet.1
      ∙ bumps-increase raw_id msg_id (sightings msg_id events) p.seen_counter
  get-run msg_id (message now peer_count msg dst ∷ events) p quiet =
      get-run msg_id events _ quiet.1
      ∙ ap
          (λ (sc : SeenCounter).
            bumps (sightings msg_id events) (get Text-discrete msg_id sc.counts))
          (process-keeps decode now peer_count msg dst p (λ q. q.seen_counter)
            (λ kind slot. counter-process_kind now peer_count msg kind slot p))
  get-run msg_id (tick f ∷ events) p quiet = absurd quiet.0
  get-run msg_id (done f ∷ events) p quiet = absurd quiet.0
  get-run msg_id (notified ∷ events) p quiet = get-run msg_id events _ quiet.1

  get-run-new :
      (config : BeaconConfig) (opts : List BeaconMessageProcessorOptionFunc) (events : List Event)
      (msg_id : Text)
      → All IsQuiet events
      → get Text-discrete msg_id
          (run decode events (new_beacon_message_processor config opts)).seen_counter.counts
        ≡ bumps (sightings msg_id events) none
  unfolding new_beacon_message_processor new_seen_counter get
  get-run-new config opts events msg_id quiet = get-run msg_id events _ quiet

  unsaved :
      (config : BeaconConfig) (opts : List BeaconMessageProcessorOptionFunc) (events : List Event)
      → All IsQuiet events
      → (run decode events (new_beacon_message_processor config opts)).slot_saves ≡ []
  unfolding new_beacon_message_processor
  unsaved config opts events quiet = slot_saves-run events _ quiet

  -- From a new processor on, after any events without a flush and then a tick whose flush visits the maps in
  -- any orders, provided that no message id stands twice in the cache before it: each record that was given
  -- to the repository has as its seen count the number of sightings of its own id, modulo 2 ^ 32, or 1 if
  -- there was none.
  pub run-tick-seen_count :
      (config : BeaconConfig) (opts : List BeaconMessageProcessorOptionFunc) (events : List Event)
      (f : Flush) (stat : SlotMessageStats)
      → All IsQuiet events
      → IsOrder f
      → Nodup
          (ids (records (run decode events (new_beacon_message_processor config opts)).slot_cache))
      → Mem stat (
          batches
            (step decode
              (tick f)
              (run decode events (new_beacon_message_processor config opts))).slot_saves)
      → stat.seen_count ≡ seen_count_of (sightings stat.message_id events)
  unfolding step flush batches
  run-tick-seen_count config opts events f stat quiet order differ given =
      let p = run decode events (new_beacon_message_processor config opts) in
      let expected : Text → Option ℕ = λ msg_id. bumps (sightings msg_id events) none in
      let before : IsCounted expected p = record {
        differ = differ;
        held = λ r m. get-run-new config opts events r.message_id quiet;
        saved = λ r m. absurd (
            not-mem-nil
              (subst (λ saves. Mem r (batches saves)) (unsaved config opts events quiet) m));
      } in
      (flush_completed_slots-IsCounted f.accept f.visit order.1 expected f.slots f.now p
          (run-new-IsValid decode config opts events).cache before).saved
        stat given
      ∙ seen_value-bumps (sightings stat.message_id events)
