-- ===== src/Processor/Process/Worth.antt =====
-- The record that a call of `Process` is worth, and that a record which is new is taken in.
use mathlib.Core.List.Perm
use peekd.Processor.SlotCache.Held.{mem-records}
use mathlib.Core.List.{mem-append_right, Nodup-cons, Perm, Mem, Nodup, map-append, mem-map_of_mem}
use peekd.Processor.SlotCache.Drain.{records-add}
use mathlib.Core.Path.{subst}
use peekd.Base.{
  ℕ, ◌≡◌, refl, none, some, List, [], ◌∷◌, ◌++◌, map, Text, All, Option-cases, inl, inr,
}
use peekd.Base.Int.{ℤ}
use peekd.Repository.Models.{SlotMessageStats}
use peekd.Processor.SlotCache.{find}
use peekd.Processor.SlotExtractor.{MessageKind, slot_message, general_message}
use peekd.Processor.Topics.{parse_eth2_topic}
use peekd.Processor.State.{
  SlotMessageMetadata, GeneralMessageMetadata, BeaconConfig, BeaconMessageProcessor, PubsubMessage,
}
use peekd.Processor.Process.{
  notify, process_general_message_metadata, process_kind, process_slot_message_metadata,
  slot_record, new_slot_metadata,
}
use peekd.Processor.Process.Kept.{taken_of_cache, IsValid}
use peekd.Processor.Flush.Conserve.{batches, clear, taken}

-- What makes two records the same message.
abbrev pub key : SlotMessageStats → ℕ × Text
key stat = (stat.slot, stat.message_id)

-- A processor like `p` at another node.
abbrev pub at : BeaconMessageProcessor → BeaconConfig × Text × Text → BeaconMessageProcessor
at p (config, region, alias) = record p {
  beacon_config = config;
  node_region = region;
  node_alias = alias;
}

-- The record of a message on a readable topic, at a node like `p`'s.
unfoldable pub recorded_slot :
    BeaconMessageProcessor → ℕ → SlotMessageMetadata → List SlotMessageStats
recorded_slot p peer_count metadata = elim (parse_eth2_topic metadata.topic) [
  | none ↦ []
  | some (fork_version, message_type) ↦
      slot_record peer_count metadata fork_version message_type p ∷ []
]

unfoldable pub recorded_kind :
    BeaconMessageProcessor → ℤ → ℕ → PubsubMessage → MessageKind → ℕ → List SlotMessageStats
recorded_kind p now peer_count msg general_message slot = []
recorded_kind p now peer_count msg slot_message slot =
    recorded_slot p peer_count (new_slot_metadata p.beacon_config now msg slot)

-- The store has no record of this slot and message id.
abbrev pub IsNew : BeaconMessageProcessor → SlotMessageStats → Type 0
IsNew p stat = find stat.slot stat.message_id p.slot_cache ≡ none

recorded_slot-some :
    (peer_count : ℕ) (metadata : SlotMessageMetadata) (p : BeaconMessageProcessor)
    (fork_version message_type : Text)
    → parse_eth2_topic metadata.topic ≡ some (fork_version, message_type)
    → recorded_slot p peer_count metadata
      ≡ slot_record peer_count metadata fork_version message_type p ∷ []
unfolding recorded_slot
recorded_slot-some peer_count metadata p fork_version message_type e = rw (e, recorded_slot) refl

find_of_IsNew :
    (peer_count : ℕ) (metadata : SlotMessageMetadata) (p : BeaconMessageProcessor)
    (fork_version message_type : Text)
    → IsNew p (slot_record peer_count metadata fork_version message_type p)
    → find metadata.slot metadata.msg_id p.slot_cache ≡ none
unfolding slot_record
find_of_IsNew peer_count metadata p fork_version message_type new = new

account_slot :
    (peer_count : ℕ) (metadata : SlotMessageMetadata) (p : BeaconMessageProcessor)
    → IsValid p
    → All (IsNew p) (recorded_slot p peer_count metadata)
    → Perm
        (taken (process_slot_message_metadata peer_count metadata p).0)
        (recorded_slot p peer_count metadata ++ taken p)
unfolding process_slot_message_metadata recorded_slot
account_slot peer_count metadata p v new = elim (Option-cases (parse_eth2_topic metadata.topic)) [
  | inl e ↦ rw (e, process_slot_message_metadata, recorded_slot) (Perm.refl (taken p))
  | inr ((fork_version, message_type), e) ↦
      let stat = slot_record peer_count metadata fork_version message_type p in
      let absent : find metadata.slot metadata.msg_id p.slot_cache ≡ none =
        find_of_IsNew peer_count metadata p fork_version message_type
          (subst (All (IsNew p)) (recorded_slot-some peer_count metadata p _ _ e) new).0 in
      rw (e, process_slot_message_metadata, recorded_slot)
        (Perm.trans
          (taken_of_cache p _ stat (notify p.message_notify) (
            records-add metadata.slot metadata.msg_id stat p.slot_cache v.cache.slots_differ
              absent))
          (unfold slot_record in Perm.refl _))
]

account_general :
    (peer_count : ℕ) (metadata : GeneralMessageMetadata) (p : BeaconMessageProcessor)
    → Perm (taken (process_general_message_metadata peer_count metadata p).0) (taken p)
unfolding process_general_message_metadata taken
account_general peer_count metadata p = elim (Option-cases (parse_eth2_topic metadata.topic)) [
  | inl e ↦ rw (e, process_general_message_metadata) (Perm.refl _)
  | inr (parts, e) ↦ rw (e, process_general_message_metadata) (Perm.refl _)
]

pub account_kind :
    (now : ℤ) (peer_count : ℕ) (msg : PubsubMessage) (kind : MessageKind) (slot : ℕ)
    (p : BeaconMessageProcessor)
    → IsValid p
    → All (IsNew p) (recorded_kind p now peer_count msg kind slot)
    → Perm
        (taken (process_kind now peer_count msg kind slot p).0)
        (recorded_kind p now peer_count msg kind slot ++ taken p)
unfolding process_kind recorded_kind
account_kind now peer_count msg slot_message slot p v new = account_slot peer_count _ p v new
account_kind now peer_count msg general_message slot p v new = account_general peer_count _ p

-- A record with no other of its slot and message id among those taken in is new to the store.
key-IsNew :
    (p : BeaconMessageProcessor) (stat : SlotMessageStats)
    → IsValid p
    → ¬ Mem (key stat) (map key (taken p))
    → IsNew p stat
unfolding taken
key-IsNew p stat v out = elim (Option-cases (find stat.slot stat.message_id p.slot_cache)) [
  | inl e ↦ e
  | inr (old, e) ↦
      let (held, slot_eq, id_eq) =
        mem-records stat.slot stat.message_id old p.slot_cache v.cache e in
      let same : key old ≡ key stat = λ i. (slot_eq i, id_eq i) in
      absurd (
        out (
          subst (λ k. Mem k (map key (taken p))) same
            (mem-map_of_mem key
              (mem-append_right (map clear (batches p.slot_saves)) (mem-map_of_mem clear held)))))
]

pub keys-IsNew :
    (p : BeaconMessageProcessor) (stats rest : List SlotMessageStats)
    → IsValid p
    → Nodup (map key (stats ++ (rest ++ taken p)))
    → All (IsNew p) stats
keys-IsNew p [] rest v differ = tt
keys-IsNew p (stat ∷ stats) rest v differ =
    let (first, others) = Nodup-cons.0 differ in
    (
      key-IsNew p stat v (λ m. first (
          rw (map-append key stats _, map-append key rest _)
            (mem-append_right (map key stats) (mem-append_right (map key rest) m)))),
      keys-IsNew p stats rest v others,
    )
