-- ===== src/Processor/Serve/Stored.antt =====
-- The processor with the ClickHouse repository behind it: what `saveToRepository` reports as saved has been
-- sent.
use mathlib.Core.Path.{subst}
use mathlib.Core.List.{Mem, mem-cons_self, mem-cons_of_mem}
use peekd.Base.{
  ◌⊎◌, sym, ◌↔◌, codes, ℕ, zero-or-suc, ◌≡◌, refl, inl, inr, Bool, true, false, List, [], ◌∷◌, Text,
  All, arith,
}
use peekd.Base.Int.{ℤ}
use peekd.Base.Results.{wrapped, Result, ok, err, panicked}
use peekd.Repository.Models.{SlotMessageStats}
use peekd.Repository.ClickHouse.{
  Conn, IsBatching, save_slot_message_stats_multi, save_slot_message_stats_multi-rows,
}
use peekd.Processor.Messages.{Message, MessageType}
use peekd.Processor.SlotExtractor.{MessageKind, slot_message, general_message}
use peekd.Processor.State.{
  BeaconConfig, BeaconMessageProcessor, BeaconMessageProcessorOptionFunc, PubsubMessage,
  new_beacon_message_processor,
}
use peekd.Processor.Process.{
  process_kind, process_slot_message_metadata, process_general_message_metadata,
  increase_seen_count_by_raw_id,
}
use peekd.Processor.Process.Kept.{process-keeps}
use peekd.Processor.Flush.{
  flush_completed_slots, flush_slots, flush_slot, flush_stats, save_to_repository, slot_seconds,
}
use peekd.Processor.Serve.{Event, seen, message, tick, done, notified, flush, step, run, Flush}

abbrev is_saved : Result (Unit {0}) → Bool
is_saved (ok _) = true
is_saved (err e) = false
is_saved panicked = false

-- `p.repo.SaveSlotMessageStatsMulti(..)` without an error.
abbrev pub saves : Conn → List SlotMessageStats → Bool
saves conn stats = is_saved (save_slot_message_stats_multi conn stats)

is_saved-wrapped :
    (text : Text) (r : Result (Unit {0})) → (is_saved (wrapped text r) ≡ true) ↔ (r ≡ ok tt)
is_saved-wrapped text (ok _) = (λ h. refl, λ h. refl)
is_saved-wrapped text (err e) = (λ h. ground arith, λ h. ground arith)
is_saved-wrapped text panicked = (λ h. ground arith, λ h. ground arith)

saves_sent :
    (conn : Conn) (driver : IsBatching conn) (stat : SlotMessageStats)
    (stats : List SlotMessageStats)
    → (b : conn.Batch) × (driver.rows b ≡ stat ∷ stats)
      × ((saves conn (stat ∷ stats) ≡ true) ↔ (conn.send b ≡ ok tt))
saves_sent conn driver stat stats =
    elim (save_slot_message_stats_multi-rows conn driver (stat ∷ stats)) [
      | inl (empty, _) ↦ absurd (ground arith)
      | inr (b, rows, saved) ↦ (
        b,
        rows,
        subst (λ r. (is_saved r ≡ true) ↔ (conn.send b ≡ ok tt)) (sym saved)
            (is_saved-wrapped (codes "failed to send batch") (conn.send b)),
      )
    ]

-- What holds of every batch that is not empty, together with the answer to it.
abbrev HoldsOf {ℓ} :
    (List SlotMessageStats × Bool → Type ℓ) → (List SlotMessageStats → Bool) → Type ℓ
HoldsOf P accept =
    (stat : SlotMessageStats) (stats : List SlotMessageStats)
    → P (stat ∷ stats, accept (stat ∷ stats))

module _ {ℓ} (P : List SlotMessageStats × Bool → Type ℓ) (accept : List SlotMessageStats → Bool)
    (visit : List SlotMessageStats → List SlotMessageStats) (holds : HoldsOf P accept) where
  All-save :
      (stats : List SlotMessageStats) (p : BeaconMessageProcessor)
      → All P p.slot_saves
      → All P (save_to_repository accept stats p).slot_saves
  unfolding save_to_repository
  All-save [] p all = all
  All-save (stat ∷ stats) p all = (holds stat stats, all)

  All-flush_stats :
      (stats : List SlotMessageStats) (p : BeaconMessageProcessor)
      → All P p.slot_saves
      → All P (flush_stats accept stats p).slot_saves
  unfolding flush_stats
  All-flush_stats [] p all = all
  All-flush_stats (stat ∷ stats) p all = All-save _ _ all

  All-flush_slots :
      (slots : List ℕ) (p : BeaconMessageProcessor)
      → All P p.slot_saves
      → All P (flush_slots accept visit slots p).slot_saves
  unfolding flush_slots flush_slot
  All-flush_slots [] p all = all
  All-flush_slots (slot ∷ slots) p all =
      All-flush_slots slots (flush_slot accept visit slot p) (All-flush_stats _ _ all)

  All-flush_completed_slots :
      (slots : List ℕ → List ℕ) (now : ℤ) (p : BeaconMessageProcessor)
      → All P p.slot_saves
      → All P (flush_completed_slots accept slots visit now p).0.slot_saves
  unfolding flush_completed_slots
  All-flush_completed_slots slots now p all = elim (zero-or-suc (slot_seconds p.beacon_config)) [
    | inl e ↦ rw (e, flush_completed_slots) all
    | inr (m, e) ↦ rw (e, flush_completed_slots) (All-flush_slots _ p all)
  ]

pub slot_saves-process_kind :
    (now : ℤ) (peer_count : ℕ) (msg : PubsubMessage) (kind : MessageKind) (slot : ℕ)
    (p : BeaconMessageProcessor)
    → (process_kind now peer_count msg kind slot p).0.slot_saves ≡ p.slot_saves
unfolding process_kind process_slot_message_metadata process_general_message_metadata
slot_saves-process_kind now peer_count msg slot_message slot p = ground arith
slot_saves-process_kind now peer_count msg general_message slot p = ground arith

-- What holds of the batches of the flush, if the event is one.
abbrev HoldsAt {ℓ} : (List SlotMessageStats × Bool → Type ℓ) → Event → Type ℓ
HoldsAt P (tick f) = HoldsOf P f.accept
HoldsAt P (done f) = HoldsOf P f.accept
HoldsAt P (seen raw_id) = Unit
HoldsAt P (message now peer_count msg dst) = Unit
HoldsAt P notified = Unit

module _ (decode : MessageType → Text → Result Message) where
  module _ {ℓ} (P : List SlotMessageStats × Bool → Type ℓ) where
    All-step :
        (event : Event) (p : BeaconMessageProcessor)
        → HoldsAt P event
        → All P p.slot_saves
        → All P (step decode event p).slot_saves
    unfolding step flush increase_seen_count_by_raw_id
    All-step (seen raw_id) p holds all = all
    All-step (message now peer_count msg dst) p holds all =
        subst (All P)
          (sym (
            process-keeps decode now peer_count msg dst p (λ q. q.slot_saves)
              (λ kind slot. slot_saves-process_kind now peer_count msg kind slot p)))
          all
    All-step (tick f) p holds all =
        All-flush_completed_slots P f.accept f.visit holds f.slots f.now p all
    All-step (done f) p holds all =
        All-flush_completed_slots P f.accept f.visit holds f.slots f.now p all
    All-step notified p holds all = all

    All-run :
        (events : List Event) (p : BeaconMessageProcessor)
        → All (HoldsAt P) events
        → All P p.slot_saves
        → All P (run decode events p).slot_saves
    unfolding run
    All-run [] p holds all = all
    All-run (event ∷ events) p holds all =
        All-run events (step decode event p) holds.1 (All-step event p holds.0 all)

-- The repository of a flush is ClickHouse: `conn` has the connection at the time of the flush.
module _ (conn : Flush → Conn) (driver : (f : Flush) → IsBatching (conn f)) where
  abbrev pub IsStoring : Event → Type 0
  IsStoring (tick f) = f.accept ≡ saves (conn f)
  IsStoring (done f) = f.accept ≡ saves (conn f)
  IsStoring (seen raw_id) = Unit
  IsStoring (message now peer_count msg dst) = Unit
  IsStoring notified = Unit

  -- A flush of the events gave these records, and they count as saved exactly if its connection has sent
  -- a batch with exactly them.
  abbrev pub IsStored : List Event → List SlotMessageStats × Bool → Type 0
  IsStored events (stats, success) =
      (f : Flush) × (Mem (tick f) events ⊎ Mem (done f) events)
      × (b : (conn f).Batch) × ((driver f).rows b ≡ stats)
      × ((success ≡ true) ↔ ((conn f).send b ≡ ok tt))

  holds_at :
      (event : Event) (events : List Event)
      → Mem event events
      → IsStoring event
      → HoldsAt (IsStored events) event
  holds_at (tick f) events among same = λ stat stats.
      let (b, rows, sent) = saves_sent (conn f) (driver f) stat stats in
      rw same (f, inl among, b, rows, sent)
  holds_at (done f) events among same = λ stat stats.
      let (b, rows, sent) = saves_sent (conn f) (driver f) stat stats in
      rw same (f, inr among, b, rows, sent)
  holds_at (seen raw_id) events among same = tt
  holds_at (message now peer_count msg dst) events among same = tt
  holds_at notified events among same = tt

  storing_holds :
      (rest events : List Event)
      → ((event : Event) → Mem event rest → Mem event events)
      → All IsStoring rest
      → All (HoldsAt (IsStored events)) rest
  storing_holds [] events within storing = tt
  storing_holds (event ∷ rest) events within storing = (
    holds_at event events (within event mem-cons_self) storing.0,
    storing_holds rest events (λ e m. within e (mem-cons_of_mem event m)) storing.1,
  )

  -- From a new processor on, after any events in which the repository of each flush is ClickHouse with a
  -- driver whose batches take every row: the records that were given to the repository together come from
  -- one of the flushes. They are, in order, the rows of one batch of the connection that this flush has,
  -- and they count as saved exactly if the connection sends this batch without an error.
  pub run-new-IsStored :
      (decode : MessageType → Text → Result Message) (config : BeaconConfig)
      (opts : List BeaconMessageProcessorOptionFunc) (events : List Event)
      → All IsStoring events
      → All
          (IsStored events)
          (run decode events (new_beacon_message_processor config opts)).slot_saves
  unfolding new_beacon_message_processor
  run-new-IsStored decode config opts events storing =
      All-run decode (IsStored events) events _ (storing_holds events events (λ e m. m) storing) tt
