-- ===== src/Processor/SlotCache/Find.antt =====
-- What a lookup finds after `Add` and after `DrainSlot`.
use mathlib.Core.Option
use peekd.Base.{
  ℕ, ite, ◌≡◌, Bool, true, false, Option, none, some, List, Text, Text-discrete, ℕ_discrete, arith,
  Option-cases, inl, inr,
}
use peekd.Base.Maps.{get, put, get-put, get-delete}
use peekd.Repository.Models.{SlotMessageStats}
use peekd.Processor.SlotCache.{
  fresh_cache, SlotCache, SlotCacheStore, add_to_cache, add, drain_slot, find,
}

abbrev pub is_none {ℓ} : {A : Type ℓ} → Option A → Bool
is_none none = true
is_none (some _) = false

-- What the store holds for a slot, or would create.
abbrev cache_of : ℕ → SlotCacheStore → SlotCache
cache_of slot s = Option.get_or (get ℕ_discrete slot s.caches) (fresh_cache slot)

abbrev grown : ℕ → Text → SlotMessageStats → SlotCacheStore → SlotCache
grown slot msg_id stat s = record (cache_of slot s) {
  message_stats = put Text-discrete msg_id stat (cache_of slot s).message_stats;
}

-- A second record of the same message id is refused, and nothing changes.
pub add_old :
    (slot : ℕ) (msg_id : Text) (stat old : SlotMessageStats) (s : SlotCacheStore)
    → find slot msg_id s ≡ some old
    → add slot msg_id stat s ≡ (s, false)
unfolding add add_to_cache find
add_old slot msg_id stat old s h = elim (Option-cases (get ℕ_discrete slot s.caches)) [
  | inl e ↦ ground arith
  | inr (cache, e) ↦ ground arith
]

-- A new message id is accepted, and only the cache of its slot changes.
pub add_new :
    (slot : ℕ) (msg_id : Text) (stat : SlotMessageStats) (s : SlotCacheStore)
    → find slot msg_id s ≡ none
    → ((add slot msg_id stat s).1 ≡ true)
      × ((j : ℕ)
          → get ℕ_discrete j (add slot msg_id stat s).0.caches
            ≡ ite (ℕ_discrete slot j) (some (grown slot msg_id stat s)) (get ℕ_discrete j s.caches))
unfolding add add_to_cache find get
add_new slot msg_id stat s h = elim (Option-cases (get ℕ_discrete slot s.caches)) [
  | inl e ↦
      let fresh = fresh_cache slot in
      let made = put ℕ_discrete slot fresh s.caches in
      (
        ground arith,
        λ j. ground (
          arith,
          get-put ℕ_discrete slot j (grown slot msg_id stat s) made,
          get-put ℕ_discrete slot j fresh s.caches,
        ),
      )
  | inr (cache, e) ↦ (
    ground arith,
    λ j. ground (arith, get-put ℕ_discrete slot j (grown slot msg_id stat s) s.caches),
  )
]

find-add_new :
    (slot j : ℕ) (msg_id k : Text) (stat : SlotMessageStats) (s : SlotCacheStore)
    → find slot msg_id s ≡ none
    → ((add slot msg_id stat s).1 ≡ is_none (find slot msg_id s))
      × (find j k (add slot msg_id stat s).0
          ≡ ite
              (ℕ_discrete slot j)
              (ite
                (Text-discrete msg_id k)
                (some (Option.get_or (find slot msg_id s) stat))
                (find j k s))
              (find j k s))
unfolding find get
find-add_new slot j msg_id k stat s e = ground (
  arith,
  (add_new slot msg_id stat s e).0,
  (add_new slot msg_id stat s e).1 j,
  get-put Text-discrete msg_id k stat (cache_of slot s).message_stats,
)

find-add_old :
    (slot j : ℕ) (msg_id k : Text) (stat old : SlotMessageStats) (s : SlotCacheStore)
    → find slot msg_id s ≡ some old
    → ((add slot msg_id stat s).1 ≡ is_none (find slot msg_id s))
      × (find j k (add slot msg_id stat s).0
          ≡ ite
              (ℕ_discrete slot j)
              (ite
                (Text-discrete msg_id k)
                (some (Option.get_or (find slot msg_id s) stat))
                (find j k s))
              (find j k s))
find-add_old slot j msg_id k stat old s e = ground (arith, add_old slot msg_id stat old s e)

-- `Add` answers whether the message id was new to the slot. Afterwards the slot holds for that id the
-- earlier record if there was one and the given one otherwise, and every other entry is as before.
pub find-add :
    (slot j : ℕ) (msg_id k : Text) (stat : SlotMessageStats) (s : SlotCacheStore)
    → ((add slot msg_id stat s).1 ≡ is_none (find slot msg_id s))
      × (find j k (add slot msg_id stat s).0
          ≡ ite
              (ℕ_discrete slot j)
              (ite
                (Text-discrete msg_id k)
                (some (Option.get_or (find slot msg_id s) stat))
                (find j k s))
              (find j k s))
find-add slot j msg_id k stat s = elim (Option-cases (find slot msg_id s)) [
  | inl e ↦ find-add_new slot j msg_id k stat s e
  | inr (old, e) ↦ find-add_old slot j msg_id k stat old s e
]

-- `DrainSlot` removes the records of its slot and no others.
pub find-drain_slot :
    (visit : List SlotMessageStats → List SlotMessageStats) (slot j : ℕ) (k : Text)
    (s : SlotCacheStore)
    → find j k (drain_slot visit slot s).0 ≡ ite (ℕ_discrete slot j) none (find j k s)
unfolding drain_slot find
find-drain_slot visit slot j k s = ground (arith, get-delete ℕ_discrete slot j s.caches)
