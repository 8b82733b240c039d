-- ===== src/Processor/SlotCache.antt =====
-- processor/slot_cache.go, and `SlotCache` of processor/beacon_message_processor.go: the records of
-- each slot, by message id. Go visits a map in an order that it does not fix, so the operations
-- that range over a map take the visiting order of that call as an argument.
pub mod Drain
pub mod Find
pub mod Held
pub mod WellFormed
use peekd.Base.{
  ℕ, ◌+◌, ◌-◌, ◌%◌, ◌^◌, ite, Bool, true, false, Option, none, some, List, [], ◌∷◌, Text,
  Text-discrete, ltb, if◌then◌else◌, ℕ_discrete,
}
use peekd.Base.Maps.{get, put, delete, keys, values}
use peekd.Repository.Models.{SlotMessageStats}

pub record SlotCache : Type 0 where
  pub slot : ℕ  -- uint64
  pub message_stats : List (Text × SlotMessageStats)  -- map[string]*SlotMessageStats

pub record SlotCacheStore : Type 0 where
  pub caches : List (ℕ × SlotCache)  -- map[uint64]*SlotCache

unfoldable pub new_slot_cache_store : SlotCacheStore
new_slot_cache_store = record { caches = [] }

abbrev fresh_cache : ℕ → SlotCache
fresh_cache slot = record { slot = slot; message_stats = [] }

-- The second half of `Add`: `cache` is what the store holds for the slot.
unfoldable pub add_to_cache :
    ℕ → Text → SlotMessageStats → SlotCache → SlotCacheStore → SlotCacheStore × Bool
add_to_cache slot msg_id stat cache s = elim (get Text-discrete msg_id cache.message_stats) [
  | some _ ↦ (s, false)
  | none ↦
      let grown = record cache {
        message_stats = put Text-discrete msg_id stat cache.message_stats;
      } in
      (record s { caches = put ℕ_discrete slot grown s.caches }, true)
]

unfoldable pub add : ℕ → Text → SlotMessageStats → SlotCacheStore → SlotCacheStore × Bool
add slot msg_id stat s = elim (get ℕ_discrete slot s.caches) [
  | some cache ↦ add_to_cache slot msg_id stat cache s
  | none ↦
      let cache = fresh_cache slot in
      add_to_cache slot msg_id stat cache (record s { caches = put ℕ_discrete slot cache s.caches })
]

-- `currentSlot - 1` on uint64: 0 wraps to the largest value.
abbrev pub before : ℕ → ℕ
before current_slot = (current_slot + 2 ^ 64 - 1) % 2 ^ 64

-- The loop of `CompletedSlots` over the keys, in the order visited.
unfoldable pub completed_of : ℕ → List ℕ → List ℕ
completed_of current_slot [] = []
completed_of current_slot (slot ∷ slots) =
    let rest = completed_of current_slot slots in
    if ltb slot (before current_slot) then slot ∷ rest else rest

unfoldable pub completed_slots : (List ℕ → List ℕ) → ℕ → SlotCacheStore → List ℕ
completed_slots visit current_slot s = completed_of current_slot (visit (keys s.caches))

-- The loop of `DrainSlot` lists the records in the order visited.
unfoldable pub drain_slot :
    (List SlotMessageStats → List SlotMessageStats)
    → ℕ
    → SlotCacheStore
    → SlotCacheStore × List SlotMessageStats
drain_slot visit slot s = elim (get ℕ_discrete slot s.caches) [
  | none ↦ (s, [])
  | some cache ↦
      (record s { caches = delete ℕ_discrete slot s.caches }, visit (values cache.message_stats))
]

-- The record that is kept for a message id of a slot.
unfoldable pub find : ℕ → Text → SlotCacheStore → Option SlotMessageStats
find slot msg_id s = elim (get ℕ_discrete slot s.caches) [
  | none ↦ none
  | some cache ↦ get Text-discrete msg_id cache.message_stats
]
