-- ===== src/Processor/SlotCache/WellFormed.antt =====
-- The invariant of the store: no slot and no message id is held twice, a cache stands under its own
-- slot, and a record under its own slot and message id.
use peekd.Base.{ℕ, ◌≡◌, refl, inl, inr, List, Text, Text-discrete, ℕ_discrete, Option-cases, All}
use peekd.Base.Maps.{
  get, HasUniqueKeys, All-put, All-delete, All-get, put-HasUniqueKeys, delete-HasUniqueKeys,
}
use peekd.Repository.Models.{SlotMessageStats}
use peekd.Processor.SlotCache.{
  SlotCache, SlotCacheStore, new_slot_cache_store, fresh_cache, add_to_cache, add, drain_slot,
}

abbrev pub IsOwnRecord : ℕ → Text × SlotMessageStats → Type 0
IsOwnRecord slot (msg_id, stat) = (stat.message_id ≡ msg_id) × (stat.slot ≡ slot)

abbrev pub IsOwnCache : ℕ × SlotCache → Type 0
IsOwnCache (slot, cache) =
    (cache.slot ≡ slot)
    × HasUniqueKeys Text-discrete cache.message_stats
    × All (IsOwnRecord slot) cache.message_stats

pub record IsWellFormed (s : SlotCacheStore) : Type 0 where
  pub slots_differ : HasUniqueKeys ℕ_discrete s.caches
  pub own_caches : All IsOwnCache s.caches

pub new-IsWellFormed : IsWellFormed new_slot_cache_store
unfolding new_slot_cache_store
new-IsWellFormed = record { slots_differ = tt; own_caches = tt }

add_to_cache-IsWellFormed :
    (slot : ℕ) (msg_id : Text) (stat : SlotMessageStats) (cache : SlotCache) (s : SlotCacheStore)
    → IsOwnRecord slot (msg_id, stat)
    → IsOwnCache (slot, cache)
    → IsWellFormed s
    → IsWellFormed (add_to_cache slot msg_id stat cache s).0
unfolding add_to_cache
add_to_cache-IsWellFormed slot msg_id stat cache s own c w =
    elim (Option-cases (get Text-discrete msg_id cache.message_stats)) [
      | inl e ↦
          rw (e, add_to_cache)
            (record {
              slots_differ = put-HasUniqueKeys ℕ_discrete slot _ s.caches w.slots_differ;
              own_caches =
                  All-put ℕ_discrete IsOwnCache slot _ s.caches
                    (
                      c.0,
                      put-HasUniqueKeys Text-discrete msg_id stat cache.message_stats c.1,
                      All-put Text-discrete (IsOwnRecord slot) msg_id stat cache.message_stats own
                          c.2,
                    )
                    w.own_caches;
            })
      | inr (old, e) ↦ rw (e, add_to_cache) w
    ]

-- `Add` keeps the invariant, given a record of that slot and message id.
pub add-IsWellFormed :
    (slot : ℕ) (msg_id : Text) (stat : SlotMessageStats) (s : SlotCacheStore)
    → IsOwnRecord slot (msg_id, stat)
    → IsWellFormed s
    → IsWellFormed (add slot msg_id stat s).0
unfolding add
add-IsWellFormed slot msg_id stat s own w = elim (Option-cases (get ℕ_discrete slot s.caches)) [
  | inl e ↦
      let empty : IsOwnCache (slot, fresh_cache slot) = (refl, tt, tt) in
      rw (e, add)
        (add_to_cache-IsWellFormed slot msg_id stat (fresh_cache slot) _ own empty (record {
          slots_differ =
              put-HasUniqueKeys ℕ_discrete slot (fresh_cache slot) s.caches w.slots_differ;
          own_caches =
              All-put ℕ_discrete IsOwnCache slot (fresh_cache slot) s.caches empty w.own_caches;
        }))
  | inr (cache, e) ↦
      rw (e, add)
        (add_to_cache-IsWellFormed slot msg_id stat cache s own
          (All-get ℕ_discrete IsOwnCache slot cache s.caches e w.own_caches) w)
]

-- `DrainSlot` keeps the invariant.
pub drain_slot-IsWellFormed :
    (visit : List SlotMessageStats → List SlotMessageStats) (slot : ℕ) (s : SlotCacheStore)
    → IsWellFormed s
    → IsWellFormed (drain_slot visit slot s).0
unfolding drain_slot
drain_slot-IsWellFormed visit slot s w = elim (Option-cases (get ℕ_discrete slot s.caches)) [
  | inl e ↦ rw (e, drain_slot) w
  | inr (cache, e) ↦
      rw (e, drain_slot)
        (record {
          slots_differ = delete-HasUniqueKeys ℕ_discrete slot s.caches w.slots_differ;
          own_caches = All-delete ℕ_discrete IsOwnCache slot s.caches w.own_caches;
        })
]
