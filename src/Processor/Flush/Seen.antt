-- ===== src/Processor/Flush/Seen.antt =====
-- The seen counts of a batch: each record gets the count of its own message id.
use mathlib.Core.List.{Mem, Nodup, Nodup-cons, mem-cons_self, mem-cons_of_mem}
use peekd.Base.Maps.{keys, values, keys-Nodup, All-get}
use mathlib.Core.List.{Perm, Nodup-nil}
use mathlib.Core.List.Perm
use peekd.Base.{
  All, ℕ, Bool, ℕ_discrete, ◌≡◌, ◌≢◌, refl, ap, ◌∙◌, none, some, List, [], ◌∷◌, map, Text,
  Text-discrete, arith, Option-cases, inl, inr,
}
use peekd.Base.Maps.{get, get-delete}
use peekd.Repository.Models.{SlotMessageStats}
use peekd.Processor.SeenCounter.{SeenCounter, pop}
use peekd.Processor.State.{BeaconMessageProcessor}
use peekd.Processor.SlotCache.{SlotCacheStore, drain_slot}
use peekd.Processor.SlotCache.WellFormed.{IsOwnRecord, IsOwnCache, IsWellFormed}
use peekd.Processor.Flush.{save_to_repository, flush_stats, flush_slot, count_seen}

abbrev pub ids : List SlotMessageStats → List Text
ids = map (λ stat. stat.message_id)

-- The seen count that the counter gives a record: 1 if its id was not counted.
unfoldable pub seen_of : SeenCounter → SlotMessageStats → SlotMessageStats
seen_of sc stat = elim (get Text-discrete stat.message_id sc.counts) [
  | some seen_count ↦ record stat { seen_count = seen_count }
  | none ↦ record stat { seen_count = 1 }
]

-- Popping an id changes the count of no other.
pub get-pop_ne :
    (id other : Text) (sc : SeenCounter)
    → id ≢ other
    → get Text-discrete other (pop id sc).0.counts ≡ get Text-discrete other sc.counts
unfolding pop
get-pop_ne id other sc ne = ground (arith, get-delete Text-discrete id other sc.counts)

seen_of-pop :
    (id : Text) (sc : SeenCounter) (stat : SlotMessageStats)
    → id ≢ stat.message_id
    → seen_of (pop id sc).0 stat ≡ seen_of sc stat
unfolding seen_of
seen_of-pop id sc stat ne = ground (arith, get-pop_ne id stat.message_id sc ne)

map-seen_of-pop :
    (id : Text) (sc : SeenCounter) (stats : List SlotMessageStats)
    → ¬ Mem id (ids stats)
    → map (seen_of (pop id sc).0) stats ≡ map (seen_of sc) stats
map-seen_of-pop id sc [] new = refl
map-seen_of-pop id sc (stat ∷ stats) new =
    let here : id ≢ stat.message_id = λ e. new (rw e mem-cons_self) in
    cc (
      seen_of-pop id sc stat here,
      map-seen_of-pop id sc stats (λ m. new (mem-cons_of_mem stat.message_id m)),
    )

count_first :
    (stat : SlotMessageStats) (stats : List SlotMessageStats) (sc : SeenCounter)
    → (count_seen (stat ∷ stats) sc).1
      ≡ seen_of sc stat ∷ (count_seen stats (pop stat.message_id sc).0).1
unfolding count_seen seen_of pop
count_first stat stats sc = elim (Option-cases (get Text-discrete stat.message_id sc.counts)) [
  | inl e ↦ ground arith
  | inr (n, e) ↦ ground arith
]

-- Popping the ids one after another gives every record the count that its id had at first.
pub count_seen-map :
    (stats : List SlotMessageStats) (sc : SeenCounter)
    → Nodup (ids stats)
    → (count_seen stats sc).1 ≡ map (seen_of sc) stats
unfolding count_seen
count_seen-map [] sc d = refl
count_seen-map (stat ∷ stats) sc d =
    count_first stat stats sc
    ∙ ap (◌∷◌ (seen_of sc stat)) (
        count_seen-map stats (pop stat.message_id sc).0 (Nodup-cons.0 d).1
        ∙ map-seen_of-pop stat.message_id sc stats (Nodup-cons.0 d).0)

ids-values :
    (slot : ℕ) (entries : List (Text × SlotMessageStats))
    → All (IsOwnRecord slot) entries
    → ids (values entries) ≡ keys entries
ids-values slot [] own = refl
ids-values slot ((msg_id, stat) ∷ entries) own = cc (own.0.0, ids-values slot entries own.1)

-- The records that are drained have different ids, in any order.
drained-Nodup :
    (visit : List SlotMessageStats → List SlotMessageStats) (slot : ℕ) (s : SlotCacheStore)
    → ((xs : List SlotMessageStats) → Perm (visit xs) xs)
    → IsWellFormed s
    → Nodup (ids (drain_slot visit slot s).1)
unfolding drain_slot
drained-Nodup visit slot s any w = elim (Option-cases (get ℕ_discrete slot s.caches)) [
  | inl e ↦ rw (e, drain_slot) Nodup-nil
  | inr (cache, e) ↦
      let own : IsOwnCache (slot, cache) =
        All-get ℕ_discrete IsOwnCache slot cache s.caches e w.own_caches in
      rw (e, drain_slot)
        ((Perm.Nodup-iff (
            Perm.map (λ (stat : SlotMessageStats). stat.message_id)
              (any (values cache.message_stats)))).1
          (rw (ids-values slot cache.message_stats own.2)
            (keys-Nodup Text-discrete cache.message_stats own.1)))
]

-- The calls of `SaveSlotMessageStatsMulti` after one more batch: an empty batch is not saved.
abbrev pub with_batch :
    (List SlotMessageStats → Bool)
    → List SlotMessageStats
    → List (List SlotMessageStats × Bool)
    → List (List SlotMessageStats × Bool)
with_batch accept [] saves = saves
with_batch accept (stat ∷ stats) saves = (stat ∷ stats, accept (stat ∷ stats)) ∷ saves

save-with_batch :
    (accept : List SlotMessageStats → Bool) (stats : List SlotMessageStats)
    (p : BeaconMessageProcessor)
    → (save_to_repository accept stats p).slot_saves ≡ with_batch accept stats p.slot_saves
unfolding save_to_repository
save-with_batch accept [] p = refl
save-with_batch accept (stat ∷ stats) p = refl

flush_stats-slot_saves :
    (accept : List SlotMessageStats → Bool) (stats : List SlotMessageStats)
    (p : BeaconMessageProcessor)
    → Nodup (ids stats)
    → (flush_stats accept stats p).slot_saves
      ≡ with_batch accept (map (seen_of p.seen_counter) stats) p.slot_saves
unfolding flush_stats
flush_stats-slot_saves accept [] p d = refl
flush_stats-slot_saves accept (stat ∷ stats) p d =
    save-with_batch accept _ _
    ∙ ap (λ batch. with_batch accept batch p.slot_saves)
        (count_seen-map (stat ∷ stats) p.seen_counter d)

-- Flushing a slot saves, in one batch, exactly the records that the slot held, each with the number of
-- sightings that the counter holds for its own message id, or 1 if it holds none; a slot with no record
-- saves nothing.
pub flush_slot-slot_saves :
    (accept : List SlotMessageStats → Bool) (visit : List SlotMessageStats → List SlotMessageStats)
    (slot : ℕ) (p : BeaconMessageProcessor)
    → ((xs : List SlotMessageStats) → Perm (visit xs) xs)
    → IsWellFormed p.slot_cache
    → (flush_slot accept visit slot p).slot_saves
      ≡ with_batch accept
          (map (seen_of p.seen_counter) (drain_slot visit slot p.slot_cache).1)
          p.slot_saves
unfolding flush_slot
flush_slot-slot_saves accept visit slot p any w =
    flush_stats-slot_saves accept (drain_slot visit slot p.slot_cache).1 _
      (drained-Nodup visit slot p.slot_cache any w)
