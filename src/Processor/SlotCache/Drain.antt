-- ===== src/Processor/SlotCache/Drain.antt =====
-- No record is lost or doubled: the records of the whole store across `Add` and `DrainSlot`.
use mathlib.Core.List.{Perm, append_assoc, perm_append_comm}
use mathlib.Core.List.Perm
use peekd.Base.{
  ℕ, if_pos, if_neg, ◌≡◌, refl, inl, inr, none, some, List, [], ◌∷◌, ◌++◌, Text, Text-discrete,
  ℕ_discrete, arith, Option-cases,
}
use peekd.Base.Maps.{
  get, put, delete, values, HasUniqueKeys, delete_absent, delete-put, put-HasUniqueKeys,
  get-put_self,
}
use peekd.Repository.Models.{SlotMessageStats}
use peekd.Processor.SlotCache.{
  SlotCache, SlotCacheStore, fresh_cache, add_to_cache, add, drain_slot, find,
}

-- The records of the caches, one after another.
unfoldable pub stats_of : List (ℕ × SlotCache) → List SlotMessageStats
stats_of [] = []
stats_of ((slot, cache) ∷ caches) = values cache.message_stats ++ stats_of caches

unfoldable pub records : SlotCacheStore → List SlotMessageStats
records s = stats_of s.caches

pub perm_append_left_comm {ℓ} :
    {A : Type ℓ} (xs ys zs : List A) → Perm (xs ++ (ys ++ zs)) (ys ++ (xs ++ zs))
perm_append_left_comm xs ys zs =
    rw (← append_assoc, ← append_assoc) (Perm.append_right zs (perm_append_comm xs ys))

values-put {ℓ} :
    {K V : Type ℓ} (dec : Discrete K) (k : K) (v : V) (m : List (K × V))
    → get dec k m ≡ none
    → Perm (values (put dec k v m)) (v ∷ values m)
unfolding get put
values-put dec k v [] h = Perm.refl (v ∷ [])
values-put dec k v ((i, w) ∷ m) h = elim (dec i k) [
  | yes e ↦ absurd (ground arith)
  | no e ↦
      rw (if_neg _ e)
        (Perm.trans (Perm.cons w (values-put dec k v m (ground arith))) (Perm.swap v w (values m)))
]

stats_of-delete :
    (slot : ℕ) (cache : SlotCache) (caches : List (ℕ × SlotCache))
    → HasUniqueKeys ℕ_discrete caches
    → get ℕ_discrete slot caches ≡ some cache
    → Perm
        (stats_of caches)
        (values cache.message_stats ++ stats_of (delete ℕ_discrete slot caches))
unfolding stats_of get delete
stats_of-delete slot cache [] u h = absurd (ground arith)
stats_of-delete slot cache ((i, c) ∷ caches) u h = elim (ℕ_discrete i slot) [
  | yes e ↦
      let found : c ≡ cache = ground arith in
      let gone : get ℕ_discrete slot caches ≡ none = ground arith in
      rw (if_pos _ e, delete_absent ℕ_discrete slot caches gone, found) (Perm.refl _)
  | no e ↦ rw (if_neg _ e) (
      Perm.trans
        (Perm.append_left (values c.message_stats)
          (stats_of-delete slot cache caches u.1 (ground arith)))
        (perm_append_left_comm (values c.message_stats) (values cache.message_stats)
          (stats_of (delete ℕ_discrete slot caches))))
]

stats_of-put :
    (slot : ℕ) (cache : SlotCache) (caches : List (ℕ × SlotCache))
    → HasUniqueKeys ℕ_discrete caches
    → Perm
        (stats_of (put ℕ_discrete slot cache caches))
        (values cache.message_stats ++ stats_of (delete ℕ_discrete slot caches))
unfolding get
stats_of-put slot cache caches u = rw (← delete-put ℕ_discrete slot cache caches) (
    stats_of-delete slot cache (put ℕ_discrete slot cache caches)
      (put-HasUniqueKeys ℕ_discrete slot cache caches u)
      (get-put_self ℕ_discrete slot cache caches))

-- `DrainSlot` hands over records of the store, each once, and keeps the rest, whatever the order in
-- which it visits them.
pub records-drain_slot :
    (visit : List SlotMessageStats → List SlotMessageStats) (slot : ℕ) (s : SlotCacheStore)
    → ((xs : List SlotMessageStats) → Perm (visit xs) xs)
    → HasUniqueKeys ℕ_discrete s.caches
    → Perm (records s) ((drain_slot visit slot s).1 ++ records (drain_slot visit slot s).0)
unfolding drain_slot records
records-drain_slot visit slot s any u = elim (Option-cases (get ℕ_discrete slot s.caches)) [
  | inl e ↦ rw (e, drain_slot) (Perm.refl (stats_of s.caches))
  | inr (cache, e) ↦
      rw (e, drain_slot)
        (Perm.trans (stats_of-delete slot cache s.caches u e) (
          Perm.append_right (stats_of (delete ℕ_discrete slot s.caches))
            (Perm.symm (any (values cache.message_stats)))))
]

grown_cache :
    (slot : ℕ) (msg_id : Text) (stat : SlotMessageStats) (cache : SlotCache)
    (caches : List (ℕ × SlotCache))
    → HasUniqueKeys ℕ_discrete caches
    → get Text-discrete msg_id cache.message_stats ≡ none
    → Perm
        (stats_of (
          put ℕ_discrete slot
            (record cache { message_stats = put Text-discrete msg_id stat cache.message_stats })
            caches))
        (stat ∷ (values cache.message_stats ++ stats_of (delete ℕ_discrete slot caches)))
grown_cache slot msg_id stat cache caches u fresh = Perm.trans (stats_of-put slot _ caches u) (
    Perm.append_right (stats_of (delete ℕ_discrete slot caches))
      (values-put Text-discrete msg_id stat cache.message_stats fresh))

-- An accepted record joins the records of the store.
pub records-add :
    (slot : ℕ) (msg_id : Text) (stat : SlotMessageStats) (s : SlotCacheStore)
    → HasUniqueKeys ℕ_discrete s.caches
    → find slot msg_id s ≡ none
    → Perm (records (add slot msg_id stat s).0) (stat ∷ records s)
unfolding add add_to_cache records find get
records-add slot msg_id stat s u h = elim (Option-cases (get ℕ_discrete slot s.caches)) [
  | inl e ↦
      let caches = put ℕ_discrete slot (fresh_cache slot) s.caches in
      rw (e, add)
        (Perm.trans
          (grown_cache slot msg_id stat (fresh_cache slot) caches
            (put-HasUniqueKeys ℕ_discrete slot (fresh_cache slot) s.caches u) refl)
          (rw
            (
              delete-put ℕ_discrete slot (fresh_cache slot) s.caches,
              delete_absent ℕ_discrete slot s.caches e,
            )
            (Perm.refl (stat ∷ stats_of s.caches))))
  | inr (cache, e) ↦
      let fresh : get Text-discrete msg_id cache.message_stats ≡ none = ground arith in
      rw (e, add, fresh, add_to_cache)
        (Perm.trans (grown_cache slot msg_id stat cache s.caches u fresh)
          (Perm.cons stat (Perm.symm (stats_of-delete slot cache s.caches u e))))
]
