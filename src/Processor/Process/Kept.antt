-- ===== src/Processor/Process/Kept.antt =====
-- What a call of `Process` keeps and what it adds.
use mathlib.Core.List.{Perm, perm_middle}
use mathlib.Core.List.Perm
use peekd.Base.{ℕ, ◌≤◌, ◌≡◌, ◌≢◌, refl, ◌∙◌, ap, ◌⊎◌, inl, inr, ◌∷◌, map, Text, arith, Option-cases}
use peekd.Base.Int.{ℤ}
use peekd.Base.Results.{Result-cases, Result, ok}
use peekd.Processor.Messages.{Message, MessageType}
use peekd.Processor.SlotCache.{SlotCacheStore, find}
use peekd.Processor.SlotCache.Find.{add_old}
use peekd.Processor.SlotCache.Drain.{records, records-add}
use peekd.Processor.SlotCache.WellFormed.{IsWellFormed, add-IsWellFormed}
use peekd.Processor.SlotExtractor.{
  MessageKind, slot_message, general_message, extract, new_slot_extractor_registry,
}
use peekd.Processor.Topics.{parse_eth2_topic}
use peekd.Processor.State.{
  BeaconMessageProcessor, PubsubMessage, SlotMessageMetadata, GeneralMessageMetadata,
  notify_capacity,
}
use peekd.Processor.Process.{
  SlotMessageStats, slot_record, notify, process_kind, process_slot_message_metadata,
  process_general_message_metadata, process,
}
use peekd.Processor.Flush.Conserve.{clear, taken}

-- The invariant of the processor.
pub record IsValid (p : BeaconMessageProcessor) : Type 0 where
  pub cache : IsWellFormed p.slot_cache
  pub buffered : p.message_notify ≤ notify_capacity
  pub registry : p.extractors ≡ new_slot_extractor_registry

-- `p` turned into `q` by taking in at most one record.
abbrev pub Grows : BeaconMessageProcessor → BeaconMessageProcessor → Type 0
Grows p q =
    Perm (taken q) (taken p) ⊎ ((stat : SlotMessageStats) × Perm (taken q) (clear stat ∷ taken p))

slot_message-IsValid :
    (peer_count : ℕ) (metadata : SlotMessageMetadata) (p : BeaconMessageProcessor)
    → IsValid p
    → IsValid (process_slot_message_metadata peer_count metadata p).0
unfolding process_slot_message_metadata
slot_message-IsValid peer_count metadata p v =
    elim (Option-cases (parse_eth2_topic metadata.topic)) [
      | inl e ↦ rw (e, process_slot_message_metadata) v
      | inr ((fork_version, message_type), e) ↦
          rw (e, process_slot_message_metadata)
            (record {
              cache =
                  add-IsWellFormed metadata.slot metadata.msg_id
                    (slot_record peer_count metadata fork_version message_type p) p.slot_cache
                    (unfold slot_record in (refl, refl)) v.cache;
              buffered = ground arith;
              registry = v.registry;
            })
    ]

general_message-IsValid :
    (peer_count : ℕ) (metadata : GeneralMessageMetadata) (p : BeaconMessageProcessor)
    → IsValid p
    → IsValid (process_general_message_metadata peer_count metadata p).0
unfolding process_general_message_metadata
general_message-IsValid peer_count metadata p v =
    elim (Option-cases (parse_eth2_topic metadata.topic)) [
      | inl e ↦ rw (e, process_general_message_metadata) v
      | inr (parts, e) ↦
          rw (e, process_general_message_metadata)
            (record { cache = v.cache; buffered = v.buffered; registry = v.registry })
    ]

process_kind-IsValid :
    (now : ℤ) (peer_count : ℕ) (msg : PubsubMessage) (kind : MessageKind) (slot : ℕ)
    (p : BeaconMessageProcessor)
    → IsValid p
    → IsValid (process_kind now peer_count msg kind slot p).0
unfolding process_kind
process_kind-IsValid now peer_count msg slot_message slot p v = slot_message-IsValid _ _ p v
process_kind-IsValid now peer_count msg general_message slot p v = general_message-IsValid _ _ p v

-- The records taken in, across a change of the cache alone.
pub taken_of_cache :
    (p : BeaconMessageProcessor) (cache : SlotCacheStore) (stat : SlotMessageStats) (buffered : ℕ)
    → Perm (records cache) (stat ∷ records p.slot_cache)
    → Perm
        (taken (record p { slot_cache = cache; message_notify = buffered }))
        (clear stat ∷ taken p)
unfolding taken
taken_of_cache p cache stat buffered grown =
    Perm.trans (Perm.append_left _ (Perm.map clear grown))
      (perm_middle _ (map clear (records p.slot_cache)))

slot_message-Grows :
    (peer_count : ℕ) (metadata : SlotMessageMetadata) (p : BeaconMessageProcessor)
    → IsValid p
    → Grows p (process_slot_message_metadata peer_count metadata p).0
unfolding process_slot_message_metadata taken
slot_message-Grows peer_count metadata p v = elim (Option-cases (parse_eth2_topic metadata.topic)) [
  | inl e ↦ rw (e, process_slot_message_metadata) (inl (Perm.refl _))
  | inr ((fork_version, message_type), e) ↦
      let stat = slot_record peer_count metadata fork_version message_type p in
      elim (Option-cases (find metadata.slot metadata.msg_id p.slot_cache)) [
        | inl new ↦
            rw (e, process_slot_message_metadata)
              (inr (
                stat,
                taken_of_cache p _ stat (notify p.message_notify) (
                    records-add metadata.slot metadata.msg_id stat p.slot_cache v.cache.slots_differ
                      new),
              ))
        | inr (old, known) ↦
            rw
              (
                e,
                process_slot_message_metadata,
                add_old metadata.slot metadata.msg_id stat old p.slot_cache known,
              )
              (inl (Perm.refl _))
      ]
]

general_message-Grows :
    (peer_count : ℕ) (metadata : GeneralMessageMetadata) (p : BeaconMessageProcessor)
    → Grows p (process_general_message_metadata peer_count metadata p).0
unfolding process_general_message_metadata taken
general_message-Grows peer_count metadata p =
    elim (Option-cases (parse_eth2_topic metadata.topic)) [
      | inl e ↦ rw (e, process_general_message_metadata) (inl (Perm.refl _))
      | inr (parts, e) ↦ rw (e, process_general_message_metadata) (inl (Perm.refl _))
    ]

process_kind-Grows :
    (now : ℤ) (peer_count : ℕ) (msg : PubsubMessage) (kind : MessageKind) (slot : ℕ)
    (p : BeaconMessageProcessor)
    → IsValid p
    → Grows p (process_kind now peer_count msg kind slot p).0
unfolding process_kind
process_kind-Grows now peer_count msg slot_message slot p v = slot_message-Grows _ _ p v
process_kind-Grows now peer_count msg general_message slot p v = general_message-Grows _ _ p

process_kind_failed :
    (now : ℤ) (peer_count : ℕ) (msg : PubsubMessage) (kind : MessageKind) (slot : ℕ)
    (p : BeaconMessageProcessor)
    → (process_kind now peer_count msg kind slot p).1 ≢ ok tt
    → (process_kind now peer_count msg kind slot p).0 ≡ p
unfolding process_kind process_slot_message_metadata process_general_message_metadata
process_kind_failed now peer_count msg slot_message slot p failed = ground arith
process_kind_failed now peer_count msg general_message slot p failed = ground arith

module _ (decode : MessageType → Text → Result Message) (now : ℤ) (peer_count : ℕ)
    (msg : PubsubMessage) (dst : MessageType) (p : BeaconMessageProcessor) where
  -- A call stops before the `switch`, or goes through it.
  process-cases :
      ((process decode now peer_count msg dst p).0 ≡ p)
      ⊎ ((kind : MessageKind) × (slot : ℕ) × (process decode now peer_count msg dst p
            ≡ process_kind now peer_count msg kind slot p))
  unfolding process
  process-cases = elim (Result-cases (decode dst msg.payload)) [
    | inr (inl (e, h)) ↦ inl (rw (h, process))
    | inr (inr h) ↦ inl (rw (h, process))
    | inl (m, h) ↦ elim (Result-cases (extract p.extractors m)) [
      | inr (inl (e, x)) ↦ inl (ground arith)
      | inr (inr x) ↦ inl (ground arith)
      | inl ((kind, slot), x) ↦ inr (kind, slot, ground arith)
    ]
  ]

  -- What the `switch` keeps, a call keeps.
  pub process-keeps {ℓ} :
      {A : Type ℓ} (view : BeaconMessageProcessor → A)
      → ((kind : MessageKind) (slot : ℕ)
          → view (process_kind now peer_count msg kind slot p).0 ≡ view p)
      → view (process decode now peer_count msg dst p).0 ≡ view p
  process-keeps view keeps = elim process-cases [
    | inl same ↦ ap view same
    | inr (kind, slot, e) ↦ ap (λ r. view r.0) e ∙ keeps kind slot
  ]

  -- A call that returns an error or panics leaves the processor as it was.
  pub process_failed :
      (process decode now peer_count msg dst p).1 ≢ ok tt
      → (process decode now peer_count msg dst p).0 ≡ p
  process_failed failed = elim process-cases [
    | inl same ↦ same
    | inr (kind, slot, e) ↦
        ap (λ r. r.0) e ∙ process_kind_failed now peer_count msg kind slot p (λ h. failed (rw e h))
  ]

  -- A call keeps the invariant.
  pub process-IsValid : IsValid p → IsValid (process decode now peer_count msg dst p).0
  process-IsValid v = elim process-cases [
    | inl same ↦ rw same v
    | inr (kind, slot, e) ↦ rw e (process_kind-IsValid now peer_count msg kind slot p v)
  ]

  -- A call adds at most one record to those taken in, and drops none.
  pub process-Grows : IsValid p → Grows p (process decode now peer_count msg dst p).0
  process-Grows v = elim process-cases [
    | inl same ↦ rw same (inl (Perm.refl (taken p)))
    | inr (kind, slot, e) ↦ rw e (process_kind-Grows now peer_count msg kind slot p v)
  ]
