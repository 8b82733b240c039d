-- ===== src/Processor/Serve/Account.antt =====
-- The account of a processor: what it should take in for each event, and that it does.
use mathlib.Core.List.Perm
use peekd.Processor.Process.Recorded.{process_extracted}
use peekd.Processor.Serve.Reach.{new-IsValid, step-IsValid, IsPossible}
use mathlib.Core.List.{Perm, Nodup, append_assoc, append-nil}
use peekd.Processor.SlotCache.Drain.{stats_of, perm_append_left_comm, records}
use mathlib.Core.Path.{subst}
use peekd.Base.{ℕ, ◌≡◌, refl, sym, ap, ◌∙◌, List, [], ◌∷◌, ◌++◌, map, Text, All, inl, inr}
use peekd.Base.Int.{ℤ}
use peekd.Base.Results.{Result, ok, err, panicked, Result-cases}
use peekd.Repository.Models.{SlotMessageStats}
use peekd.Processor.Messages.{Message, MessageType}
use peekd.Processor.SlotCache.{new_slot_cache_store}
use peekd.Processor.SlotExtractor.{MessageKind, extract}
use peekd.Processor.SlotExtractor.Total.{extract_result, extract_lem}
use peekd.Processor.State.{
  BeaconMessageProcessorOptionFunc, new_beacon_message_processor, BeaconConfig,
  BeaconMessageProcessor, PubsubMessage,
}
use peekd.Processor.Process.{increase_seen_count_by_raw_id, process, slot_record, new_slot_metadata}
use peekd.Processor.Process.Kept.{IsValid}
use peekd.Processor.Flush.Conserve.{taken-flush_completed_slots, batches, taken}
use peekd.Processor.Serve.{flush, Event, seen, message, tick, done, notified, step, run}
use peekd.Processor.Serve.Config.{node_of-step, node_of}
use peekd.Processor.Process.Worth.{
  key, at, recorded_slot, recorded_kind, IsNew, account_kind, keys-IsNew,
}

module _ (decode : MessageType → Text → Result Message) where
  -- The record that an event is worth: that of a message which decodes to one with a slot, on a topic that
  -- parses. It depends on the configuration and the node of `p` alone.
  unfoldable pub recorded : BeaconMessageProcessor → Event → List SlotMessageStats
  recorded p (message now peer_count msg dst) = elim (decode dst msg.payload) [
    | ok m ↦ elim (extract_result m) [
      | ok (kind, slot) ↦ recorded_kind p now peer_count msg kind slot
      | err e ↦ []
      | panicked ↦ []
    ]
    | err e ↦ []
    | panicked ↦ []
  ]
  recorded p _ = []

  unfoldable pub all_recorded : BeaconMessageProcessor → List Event → List SlotMessageStats
  all_recorded p [] = []
  all_recorded p (event ∷ events) = recorded p event ++ all_recorded p events

  recorded-node_of :
      (p q : BeaconMessageProcessor) (event : Event)
      → node_of p ≡ node_of q
      → recorded p event ≡ recorded q event
  unfolding recorded recorded_kind recorded_slot slot_record new_slot_metadata
  recorded-node_of p q (message now peer_count msg dst) e =
      ap (λ n. recorded (at p n) (message now peer_count msg dst)) e
  recorded-node_of p q (seen raw_id) e = refl
  recorded-node_of p q (tick f) e = refl
  recorded-node_of p q (done f) e = refl
  recorded-node_of p q notified e = refl

  recorded_decoded :
      (now : ℤ) (peer_count : ℕ) (msg : PubsubMessage) (dst : MessageType)
      (p : BeaconMessageProcessor) (m : Message) (kind : MessageKind) (slot : ℕ)
      → decode dst msg.payload ≡ ok m
      → extract_result m ≡ ok (kind, slot)
      → recorded p (message now peer_count msg dst) ≡ recorded_kind p now peer_count msg kind slot
  unfolding recorded
  recorded_decoded now peer_count msg dst p m kind slot e f = rw (recorded, e, f) refl

  account_process :
      (now : ℤ) (peer_count : ℕ) (msg : PubsubMessage) (dst : MessageType)
      (p : BeaconMessageProcessor)
      → IsValid p
      → All (IsNew p) (recorded p (message now peer_count msg dst))
      → Perm
          (taken (process decode now peer_count msg dst p).0)
          (recorded p (message now peer_count msg dst) ++ taken p)
  unfolding process recorded
  account_process now peer_count msg dst p v new = elim (Result-cases (decode dst msg.payload)) [
    | inl (m, e) ↦
        let same : extract p.extractors m ≡ extract_result m =
          ap (λ r. extract r m) v.registry ∙ extract_lem m in
        elim (Result-cases (extract_result m)) [
          | inl ((kind, slot), f) ↦
              let worth = recorded_decoded now peer_count msg dst p m kind slot e f in
              rw
                (
                  worth,
                  process_extracted decode now peer_count msg dst p m v.registry e kind slot f,
                )
                (account_kind now peer_count msg kind slot p v (subst (All (IsNew p)) worth new))
          | inr (inl (x, f)) ↦ rw (process, recorded, e, same, f) (Perm.refl _)
          | inr (inr f) ↦ rw (process, recorded, e, same, f) (Perm.refl _)
        ]
    | inr (inl (x, e)) ↦ rw (process, recorded, e) (Perm.refl _)
    | inr (inr e) ↦ rw (process, recorded, e) (Perm.refl _)
  ]

  account_step :
      (event : Event) (p : BeaconMessageProcessor)
      → IsValid p
      → IsPossible event
      → All (IsNew p) (recorded p event)
      → Perm (taken (step decode event p)) (recorded p event ++ taken p)
  unfolding step flush recorded
  account_step (seen raw_id) p v o new = unfold taken increase_seen_count_by_raw_id in Perm.refl _
  account_step (message now peer_count msg dst) p v o new =
      account_process now peer_count msg dst p v new
  account_step (tick f) p v o new =
      taken-flush_completed_slots f.accept f.visit o.1 f.slots f.now p v.cache
  account_step (done f) p v o new =
      taken-flush_completed_slots f.accept f.visit o.1 f.slots f.now p v.cache
  account_step notified p v o new = unfold taken in Perm.refl _

  all_recorded-node_of :
      (p q : BeaconMessageProcessor) (events : List Event)
      → node_of p ≡ node_of q
      → all_recorded p events ≡ all_recorded q events
  unfolding all_recorded
  all_recorded-node_of p q [] e = refl
  all_recorded-node_of p q (event ∷ events) e =
      rw (recorded-node_of p q event e, all_recorded-node_of p q events e) refl

  account_run :
      (events : List Event) (p : BeaconMessageProcessor)
      → IsValid p
      → All IsPossible events
      → Nodup (map key (all_recorded p events ++ taken p))
      → Perm (taken (run decode events p)) (all_recorded p events ++ taken p)
  unfolding run all_recorded
  account_run [] p v o differ = Perm.refl (taken p)
  account_run (event ∷ events) p v o differ =
      let now = recorded p event in
      let later = all_recorded p events in
      let q = step decode event p in
      let regrouped : Nodup (map key (now ++ (later ++ taken p))) = rw (← append_assoc) differ in
      let stepped = account_step event p v o.0 (keys-IsNew p now later v regrouped) in
      let same : all_recorded q events ≡ later =
        all_recorded-node_of q p events (node_of-step decode event p) in
      let moved : Perm (all_recorded q events ++ taken q) ((now ++ later) ++ taken p) =
        rw (same, append_assoc now later (taken p))
          (Perm.trans (Perm.append_left later stepped)
            (perm_append_left_comm later now (taken p))) in
      Perm.trans
        (account_run events q (step-IsValid decode event p v) o.1
          (Perm.nodup (Perm.map key (Perm.symm moved)) differ))
        moved

  taken-new :
      (config : BeaconConfig) (opts : List BeaconMessageProcessorOptionFunc)
      → taken (new_beacon_message_processor config opts) ≡ []
  unfolding taken new_beacon_message_processor new_slot_cache_store records stats_of batches
  taken-new config opts = refl

  -- From a new processor on, after any events whose flushes visit the maps in some order: if no two of the
  -- messages that are worth a record (they decode to a message with a slot, and their topic parses) have
  -- the same slot and message id, then what was taken in, in the cache and at the repository together, is
  -- exactly one record for each of these messages, up to order and with the seen counts aside.
  pub run-new-taken :
      (config : BeaconConfig) (opts : List BeaconMessageProcessorOptionFunc) (events : List Event)
      → All IsPossible events
      → Nodup (map key (all_recorded (new_beacon_message_processor config opts) events))
      → Perm
          (taken (run decode events (new_beacon_message_processor config opts)))
          (all_recorded (new_beacon_message_processor config opts) events)
  run-new-taken config opts events possible differ =
      let p = new_beacon_message_processor config opts in
      let all = all_recorded p events in
      let nothing : all ++ taken p ≡ all =
        ap (λ l. all ++ l) (taken-new config opts) ∙ append-nil all in
      subst (Perm (taken (run decode events p))) nothing (
        account_run events p (new-IsValid config opts) possible
          (subst (λ l. Nodup (map key l)) (sym nothing) differ))
