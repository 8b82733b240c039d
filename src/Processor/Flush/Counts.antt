-- ===== src/Processor/Flush/Counts.antt =====
-- The seen counts of all the records that one flush saves, slot after slot.
use mathlib.Core.List.{
  Perm, Mem, Nodup, Nodup-append, mem-append, mem-append_left, mem-append_right, map-append,
  mem-map_of_mem, exists_of_mem-map, mem-cons_self, mem-cons_of_mem,
}
use mathlib.Core.List.Perm
use mathlib.Core.Logic.Or
use mathlib.Core.Logic.{∥∥₁_elim}
use mathlib.Core.Path.{subst}
use peekd.Base.{
  ℕ, zero-or-suc, ◌≡◌, refl, sym, ap, ◌∙◌, inl, inr, Bool, Option, none, some, List, [], ◌∷◌, ◌++◌,
  map, Text, Text-discrete, Option-cases,
}
use peekd.Base.Int.{ℤ}
use peekd.Base.Maps.{get}
use peekd.Repository.Models.{SlotMessageStats}
use peekd.Processor.SeenCounter.{SeenCounter, pop}
use peekd.Processor.SlotCache.{drain_slot}
use peekd.Processor.SlotCache.Drain.{records, records-drain_slot}
use peekd.Processor.SlotCache.WellFormed.{IsWellFormed, drain_slot-IsWellFormed}
use peekd.Processor.State.{BeaconMessageProcessor}
use peekd.Processor.Flush.{
  flush_completed_slots, slot_seconds, flush_stats, flush_slot, flush_slots, save_to_repository,
  count_seen,
}
use peekd.Processor.Flush.Conserve.{batches, slot_cache-flush_slot}
use peekd.Processor.Flush.Seen.{ids, seen_of, with_batch, flush_slot-slot_saves, get-pop_ne}

-- What is saved for what the counter holds.
abbrev pub seen_value : Option ℕ → ℕ
seen_value none = 1
seen_value (some n) = n

-- No id stands twice in the cache, the counter holds what is expected for the ids there, and what was saved
-- has the counts expected.
pub record IsCounted (expected : Text → Option ℕ) (p : BeaconMessageProcessor) : Type 0 where
  pub differ : Nodup (ids (records p.slot_cache))
  pub held :
      (r : SlotMessageStats)
      → Mem r (records p.slot_cache)
      → get Text-discrete r.message_id p.seen_counter.counts ≡ expected r.message_id
  pub saved :
      (r : SlotMessageStats)
      → Mem r (batches p.slot_saves)
      → r.seen_count ≡ seen_value (expected r.message_id)

ℕ-eq_prop : (a b : ℕ) → IsProp (a ≡ b)
ℕ-eq_prop a b = hlevel

seen_of-value :
    (sc : SeenCounter) (stat : SlotMessageStats)
    → ((seen_of sc stat).seen_count ≡ seen_value (get Text-discrete stat.message_id sc.counts))
      × ((seen_of sc stat).message_id ≡ stat.message_id)
unfolding seen_of
seen_of-value sc stat = elim (Option-cases (get Text-discrete stat.message_id sc.counts)) [
  | inl e ↦ rw (e, seen_of) (refl, refl)
  | inr (n, e) ↦ rw (e, seen_of) (refl, refl)
]

pub get-count_seen_absent :
    (stats : List SlotMessageStats) (sc : SeenCounter) (id : Text)
    → ¬ Mem id (ids stats)
    → get Text-discrete id (count_seen stats sc).0.counts ≡ get Text-discrete id sc.counts
unfolding count_seen
get-count_seen_absent [] sc id out = refl
get-count_seen_absent (stat ∷ stats) sc id out =
    get-count_seen_absent stats (pop stat.message_id sc).0 id
      (λ m. out (mem-cons_of_mem stat.message_id m))
    ∙ get-pop_ne stat.message_id id sc (λ e. out (rw e mem-cons_self))

batches-with_batch :
    (accept : List SlotMessageStats → Bool) (stats : List SlotMessageStats)
    (saves : List (List SlotMessageStats × Bool))
    → batches (with_batch accept stats saves) ≡ stats ++ batches saves
unfolding batches
batches-with_batch accept [] saves = refl
batches-with_batch accept (stat ∷ stats) saves = refl

counter-save :
    (accept : List SlotMessageStats → Bool) (stats : List SlotMessageStats)
    (p : BeaconMessageProcessor)
    → (save_to_repository accept stats p).seen_counter ≡ p.seen_counter
unfolding save_to_repository
counter-save accept [] p = refl
counter-save accept (stat ∷ stats) p = refl

pub counter-flush_stats :
    (accept : List SlotMessageStats → Bool) (stats : List SlotMessageStats)
    (p : BeaconMessageProcessor)
    → (flush_stats accept stats p).seen_counter ≡ (count_seen stats p.seen_counter).0
unfolding flush_stats
counter-flush_stats accept [] p = unfold count_seen in refl
counter-flush_stats accept (stat ∷ stats) p = counter-save accept _ _

module _ (accept : List SlotMessageStats → Bool)
    (visit : List SlotMessageStats → List SlotMessageStats)
    (any : (xs : List SlotMessageStats) → Perm (visit xs) xs) (expected : Text → Option ℕ) where
  counter-flush_slot :
      (slot : ℕ) (p : BeaconMessageProcessor)
      → (flush_slot accept visit slot p).seen_counter
        ≡ (count_seen (drain_slot visit slot p.slot_cache).1 p.seen_counter).0
  unfolding flush_slot
  counter-flush_slot slot p = counter-flush_stats accept _ _

  saved_now :
      (p : BeaconMessageProcessor) (r q : SlotMessageStats)
      → ((t : SlotMessageStats)
          → Mem t (records p.slot_cache)
          → get Text-discrete t.message_id p.seen_counter.counts ≡ expected t.message_id)
      → seen_of p.seen_counter q ≡ r
      → Mem q (records p.slot_cache)
      → r.seen_count ≡ seen_value (expected r.message_id)
  saved_now p r q held same there =
      let (value, id) = seen_of-value p.seen_counter q in
      ap (λ (t : SlotMessageStats). t.seen_count) (sym same)
      ∙ value
      ∙ ap seen_value (held q there)
      ∙ ap (λ i. seen_value (expected i))
          (sym id ∙ ap (λ (t : SlotMessageStats). t.message_id) same)

  flush_slot-IsCounted :
      (slot : ℕ) (p : BeaconMessageProcessor)
      → IsWellFormed p.slot_cache
      → IsCounted expected p
      → IsCounted expected (flush_slot accept visit slot p)
  flush_slot-IsCounted slot p w c =
      let drained = drain_slot visit slot p.slot_cache in
      let split = records-drain_slot visit slot p.slot_cache any w.slots_differ in
      let apart : Nodup (ids drained.1 ++ ids (records drained.0)) =
        rw (← map-append (λ (r : SlotMessageStats). r.message_id) drained.1 (records drained.0))
          (Perm.nodup (Perm.map (λ (r : SlotMessageStats). r.message_id) split) c.differ) in
      let (_, rest, disjoint) = Nodup-append.0 apart in
      let cache = slot_cache-flush_slot accept visit slot p in
      record {
        differ = rw cache rest;
        held = λ r m.
            let here : Mem r (records drained.0) = subst (λ t. Mem r (records t)) cache m in
            ap (λ (sc : SeenCounter). get Text-discrete r.message_id sc.counts)
              (counter-flush_slot slot p)
            ∙ get-count_seen_absent drained.1 p.seen_counter r.message_id
                (λ i. disjoint r.message_id i (mem-map_of_mem (λ q. q.message_id) here))
            ∙ c.held r ((Perm.mem_iff split).1 (mem-append_right drained.1 here));
        saved = λ r m.
            let given : Mem r (map (seen_of p.seen_counter) drained.1 ++ batches p.slot_saves) =
              subst (Mem r)
                (ap batches (flush_slot-slot_saves accept visit slot p any w)
                  ∙ batches-with_batch accept _ _)
                m in
            Or.elim (ℕ-eq_prop _ _) (mem-append.0 given)
              (λ new. ∥∥₁_elim (exists_of_mem-map new) (ℕ-eq_prop _ _) (λ (q, there, same).
                saved_now p r q c.held same
                  ((Perm.mem_iff split).1 (mem-append_left (records drained.0) there))))
              (c.saved r);
      }

  flush_slots-IsCounted :
      (slots : List ℕ) (p : BeaconMessageProcessor)
      → IsWellFormed p.slot_cache
      → IsCounted expected p
      → IsCounted expected (flush_slots accept visit slots p)
  unfolding flush_slots
  flush_slots-IsCounted [] p w c = c
  flush_slots-IsCounted (slot ∷ slots) p w c =
      flush_slots-IsCounted slots (flush_slot accept visit slot p)
        (rw (slot_cache-flush_slot accept visit slot p)
          (drain_slot-IsWellFormed visit slot p.slot_cache w))
        (flush_slot-IsCounted slot p w c)

  -- If the counter holds what is expected for each id of the cache, and no id stands there twice, then a
  -- flush saves each record with the count expected for its own id, whatever slots it takes.
  pub flush_completed_slots-IsCounted :
      (slots : List ℕ → List ℕ) (now : ℤ) (p : BeaconMessageProcessor)
      → IsWellFormed p.slot_cache
      → IsCounted expected p
      → IsCounted expected (flush_completed_slots accept slots visit now p).0
  unfolding flush_completed_slots
  flush_completed_slots-IsCounted slots now p w c =
      elim (zero-or-suc (slot_seconds p.beacon_config)) [
        | inl e ↦ rw (e, flush_completed_slots) c
        | inr (m, e) ↦ rw (e, flush_completed_slots) (flush_slots-IsCounted _ p w c)
      ]
