-- ===== src/Processor/Flush/Slots.antt =====
-- Which slots a flush takes: exactly those below `currentSlot - 1`, all of them, and whole.
use mathlib.Core.List.{
  filter, mem-filter, Mem, Perm, not-mem-nil, mem-cons_self, mem-cons_of_mem, eq-or-mem_of_mem-cons,
}
use mathlib.Core.List.Perm
use mathlib.Core.Logic.Or
use peekd.Base.{
  zero-or-suc, ltb→lt, inr, Option-cases, inl, Bool-cases, ltb, if◌then◌else◌, dec_lt, ℕ, ite, ◌<◌,
  ◌≡◌, ◌≢◌, ◌↔◌, refl, ◌∙◌, ap, Bool, Option, none, some, List, [], ◌∷◌, Text, ℕ_discrete, arith,
}
use peekd.Base.Maps.{get, keys}
use peekd.Repository.Models.{SlotMessageStats}
use peekd.Processor.SlotCache.{
  SlotCache, SlotCacheStore, before, completed_of, completed_slots, find,
}
use peekd.Processor.SlotCache.Find.{find-drain_slot}
use peekd.Processor.State.{BeaconMessageProcessor}
use peekd.Processor.Flush.{
  current_slot_of, ok, slot_seconds, ℤ, flush_completed_slots, flush_slot, flush_slots,
}
use peekd.Processor.Flush.Conserve.{slot_cache-flush_slot}

completed_of-filter :
    (current_slot : ℕ) (slots : List ℕ)
    → completed_of current_slot slots ≡ filter (λ slot. dec_lt slot (before current_slot)) slots
unfolding completed_of
completed_of-filter current_slot [] = refl
completed_of-filter current_slot (slot ∷ slots) =
    ground (arith, completed_of-filter current_slot slots)

-- `CompletedSlots` lists the slots of the store below the threshold, in any visiting order.
pub mem-completed_slots :
    (visit : List ℕ → List ℕ) (current_slot j : ℕ) (s : SlotCacheStore)
    → ((xs : List ℕ) → Perm (visit xs) xs)
    → Mem j (completed_slots visit current_slot s)
      ↔ (Mem j (keys s.caches) × (j < before current_slot))
unfolding completed_slots
mem-completed_slots visit current_slot j s any =
    let visited = Perm.mem_iff (any (keys s.caches)) in
    let kept = mem-filter (λ slot. dec_lt slot (before current_slot)) in
    rw (completed_of-filter current_slot (visit (keys s.caches)))
      (λ m. (visited.0 (kept.0 m).0, (kept.0 m).1), λ m. kept.1 (visited.1 m.0, m.1))

mem-keys :
    (j : ℕ) (cache : SlotCache) (caches : List (ℕ × SlotCache))
    → get ℕ_discrete j caches ≡ some cache
    → Mem j (keys caches)
unfolding get
mem-keys j cache [] e = absurd (ground arith)
mem-keys j cache ((i, c) ∷ caches) e = elim (ℕ_discrete i j) [
  | yes p ↦ rw p mem-cons_self
  | no p ↦ mem-cons_of_mem i (mem-keys j cache caches (ground arith))
]

module _ (accept : List SlotMessageStats → Bool)
    (visit : List SlotMessageStats → List SlotMessageStats) where
  find-flush_slot :
      (slot j : ℕ) (k : Text) (p : BeaconMessageProcessor)
      → find j k (flush_slot accept visit slot p).slot_cache
        ≡ ite (ℕ_discrete slot j) none (find j k p.slot_cache)
  find-flush_slot slot j k p =
      ap (find j k) (slot_cache-flush_slot accept visit slot p)
      ∙ find-drain_slot visit slot j k p.slot_cache

  find-flush_slots_absent :
      (slots : List ℕ) (j : ℕ) (k : Text) (p : BeaconMessageProcessor)
      → ¬ Mem j slots
      → find j k (flush_slots accept visit slots p).slot_cache ≡ find j k p.slot_cache
  unfolding flush_slots
  find-flush_slots_absent [] j k p out = refl
  find-flush_slots_absent (slot ∷ slots) j k p out =
      let other : slot ≢ j = λ e. out (rw e mem-cons_self) in
      ground (
        arith,
        find-flush_slot slot j k p,
        find-flush_slots_absent slots j k (flush_slot accept visit slot p)
            (λ m. out (mem-cons_of_mem slot m)),
      )

  find-flush_slots-none :
      (slots : List ℕ) (j : ℕ) (k : Text) (p : BeaconMessageProcessor)
      → find j k p.slot_cache ≡ none
      → find j k (flush_slots accept visit slots p).slot_cache ≡ none
  unfolding flush_slots
  find-flush_slots-none [] j k p e = e
  find-flush_slots-none (slot ∷ slots) j k p e =
      find-flush_slots-none slots j k (flush_slot accept visit slot p)
        (ground (arith, find-flush_slot slot j k p))

  Option-none-prop : (o : Option SlotMessageStats) → IsProp (o ≡ none)
  Option-none-prop o = hlevel

  find-flush_slots_mem :
      (slots : List ℕ) (j : ℕ) (k : Text) (p : BeaconMessageProcessor)
      → Mem j slots
      → find j k (flush_slots accept visit slots p).slot_cache ≡ none
  unfolding flush_slots
  find-flush_slots_mem [] j k p m = absurd (not-mem-nil m)
  find-flush_slots_mem (slot ∷ slots) j k p m =
      Or.elim (Option-none-prop _) (eq-or-mem_of_mem-cons m)
        (λ e.
          find-flush_slots-none slots j k (flush_slot accept visit slot p)
            (ground (arith, find-flush_slot slot j k p)))
        (find-flush_slots_mem slots j k (flush_slot accept visit slot p))

  -- With the orders of both maps left open, `completed_slots` is what is drained.
  find-flush_completed :
      (slots : List ℕ → List ℕ) (current_slot j : ℕ) (k : Text) (p : BeaconMessageProcessor)
      → ((xs : List ℕ) → Perm (slots xs) xs)
      → find j k
          (flush_slots accept visit (completed_slots slots current_slot p.slot_cache) p).slot_cache
        ≡ (if ltb j (before current_slot) then none else find j k p.slot_cache)
  find-flush_completed slots current_slot j k p any =
      let listed = mem-completed_slots slots current_slot j p.slot_cache any in
      let chosen = completed_slots slots current_slot p.slot_cache in
      elim (Bool-cases (ltb j (before current_slot))) [
        | inl lt ↦ rw lt (elim (Option-cases (get ℕ_discrete j p.slot_cache.caches)) [
          | inl e ↦ find-flush_slots-none chosen j k p (unfold find in ground arith)
          | inr (cache, e) ↦
              find-flush_slots_mem chosen j k p
                (listed.1 (mem-keys j cache p.slot_cache.caches e, ltb→lt _ _ lt))
        ])
        | inr ge ↦
            rw ge
              (find-flush_slots_absent chosen j k p (λ m. absurd (ground (arith, (listed.0 m).1))))
      ]

  -- A flush with a slot length of at least a second returns, whatever the orders in which it visits the
  -- maps. Afterwards the cache has no record of a slot below `currentSlot - 1` (taken on uint64), and of
  -- every other slot what it had.
  pub find-flush_completed_slots :
      (slots : List ℕ → List ℕ) (now : ℤ) (p : BeaconMessageProcessor)
      → ((xs : List ℕ) → Perm (slots xs) xs)
      → 0 < slot_seconds p.beacon_config
      → ((flush_completed_slots accept slots visit now p).1 ≡ ok tt)
        × ((j : ℕ) (k : Text)
            → find j k (flush_completed_slots accept slots visit now p).0.slot_cache ≡ (
                if ltb j (before (current_slot_of p.beacon_config now))
                then none
                else find j k p.slot_cache))
  unfolding flush_completed_slots
  find-flush_completed_slots slots now p any positive =
      elim (zero-or-suc (slot_seconds p.beacon_config)) [
        | inl e ↦ absurd (omega arith)
        | inr (m, e) ↦
            rw (e, flush_completed_slots)
              (
                refl,
                λ j k. find-flush_completed slots (current_slot_of p.beacon_config now) j k p any,
              )
      ]
