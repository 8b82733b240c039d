-- ===== src/Processor/SlotCache/Held.antt =====
-- What `find` does not find under its own slot and message id is no record of the store.
use mathlib.Core.List.{
  mem-cons_of_mem, mem-append_right, mem-append_left, mem-cons_self, Mem, not-mem-nil,
  eq-or-mem_of_mem-cons, mem-append,
}
use mathlib.Core.Logic.Or
use mathlib.Core.HLevel.{⊥_prop}
use peekd.Base.{
  inr, inl, Option-cases, some, ℕ, ◌≡◌, ◌≢◌, sym, ◌∙◌, ap, none, List, [], ◌∷◌, Text, Text-discrete,
  ℕ_discrete, arith, All,
}
use peekd.Base.Maps.{All-get, get, values, HasUniqueKeys}
use peekd.Repository.Models.{SlotMessageStats}
use peekd.Processor.SlotCache.{SlotCache, SlotCacheStore, find}
use peekd.Processor.SlotCache.Drain.{stats_of, records}
use peekd.Processor.SlotCache.WellFormed.{IsOwnRecord, IsOwnCache, IsWellFormed}

-- A record is not among those of a slot's cache if its id is not there, or if its slot is another one.
values_absent :
    (slot : ℕ) (stat : SlotMessageStats) (m : List (Text × SlotMessageStats))
    → All (IsOwnRecord slot) m
    → get Text-discrete stat.message_id m ≡ none
    → ¬ Mem stat (values m)
unfolding get
values_absent slot stat [] own e h = not-mem-nil h
values_absent slot stat ((i, w) ∷ m) own e h = elim (Text-discrete i stat.message_id) [
  | yes q ↦ absurd (ground arith)
  | no q ↦
      Or.elim ⊥_prop (eq-or-mem_of_mem-cons h)
        (λ f. q (sym own.0.0 ∙ ap (λ r. r.message_id) (sym f)))
        (values_absent slot stat m own.1 (ground arith))
]

values_other :
    (slot : ℕ) (stat : SlotMessageStats) (m : List (Text × SlotMessageStats))
    → All (IsOwnRecord slot) m
    → slot ≢ stat.slot
    → ¬ Mem stat (values m)
values_other slot stat [] own ne h = not-mem-nil h
values_other slot stat ((i, w) ∷ m) own ne h =
    Or.elim ⊥_prop (eq-or-mem_of_mem-cons h) (λ f. ne (sym own.0.1 ∙ ap (λ r. r.slot) (sym f)))
      (values_other slot stat m own.1 ne)

find_absent :
    (stat : SlotMessageStats) (caches : List (ℕ × SlotCache))
    → HasUniqueKeys ℕ_discrete caches
    → All IsOwnCache caches
    → find stat.slot stat.message_id (record { caches = caches }) ≡ none
    → ¬ Mem stat (stats_of caches)
unfolding find get stats_of
find_absent stat [] u own e h = not-mem-nil h
find_absent stat ((i, c) ∷ caches) u own e h = elim (ℕ_discrete i stat.slot) [
  | yes q ↦
      let gone : get ℕ_discrete stat.slot caches ≡ none = rw (← q) u.0 in
      Or.elim ⊥_prop (mem-append.0 h) (values_absent i stat c.message_stats own.0.2 (ground arith))
        (find_absent stat caches u.1 own.1 (ground arith))
  | no q ↦
      Or.elim ⊥_prop (mem-append.0 h) (values_other i stat c.message_stats own.0.2 q)
        (find_absent stat caches u.1 own.1 (ground arith))
]

-- What is not found under its slot and message id is no record of the store.
pub records_absent :
    (stat : SlotMessageStats) (s : SlotCacheStore)
    → IsWellFormed s
    → find stat.slot stat.message_id s ≡ none
    → ¬ Mem stat (records s)
unfolding records
records_absent stat s w e = find_absent stat s.caches w.slots_differ w.own_caches e

mem-values {ℓ} :
    {K V : Type ℓ} (dec : Discrete K) (k : K) (v : V) (m : List (K × V))
    → get dec k m ≡ some v
    → Mem v (values m)
unfolding get
mem-values dec k v [] e = absurd (ground arith)
mem-values dec k v ((i, w) ∷ m) e = elim (dec i k) [
  | yes q ↦ let same : w ≡ v = ground arith in rw same mem-cons_self
  | no q ↦ mem-cons_of_mem w (mem-values dec k v m (ground arith))
]

mem-stats_of :
    (slot : ℕ) (stat : SlotMessageStats) (cache : SlotCache) (caches : List (ℕ × SlotCache))
    → get ℕ_discrete slot caches ≡ some cache
    → Mem stat (values cache.message_stats)
    → Mem stat (stats_of caches)
unfolding get stats_of
mem-stats_of slot stat cache [] e m = absurd (ground arith)
mem-stats_of slot stat cache ((i, c) ∷ caches) e m = elim (ℕ_discrete i slot) [
  | yes q ↦ let same : c ≡ cache = ground arith in mem-append_left (stats_of caches) (rw same m)
  | no q ↦
      mem-append_right (values c.message_stats)
        (mem-stats_of slot stat cache caches (ground arith) m)
]

-- What is found under a slot and a message id is a record of the store, of that slot and with that id.
pub mem-records :
    (slot : ℕ) (msg_id : Text) (stat : SlotMessageStats) (s : SlotCacheStore)
    → IsWellFormed s
    → find slot msg_id s ≡ some stat
    → Mem stat (records s) × (stat.slot ≡ slot) × (stat.message_id ≡ msg_id)
unfolding find records
mem-records slot msg_id stat s w e = elim (Option-cases (get ℕ_discrete slot s.caches)) [
  | inl none_there ↦ absurd (ground arith)
  | inr (cache, there) ↦
      let found : get Text-discrete msg_id cache.message_stats ≡ some stat = ground arith in
      let own = All-get ℕ_discrete IsOwnCache slot cache s.caches there w.own_caches in
      let own_record =
        All-get Text-discrete (IsOwnRecord slot) msg_id stat cache.message_stats found own.2 in
      (
        mem-stats_of slot stat cache s.caches there
            (mem-values Text-discrete msg_id stat cache.message_stats found),
        own_record.1,
        own_record.0,
      )
]
