-- ===== src/Processor/Process/Recorded.antt =====
-- What is recorded for a message that decodes, by its type: `Process` composed of the decoder, the
-- registry, the topic and the cache.
use mathlib.Core.Option
use peekd.Base.{ℕ, ite, ◌≡◌, refl, ◌∙◌, ap, some, Text, Text-discrete, ℕ_discrete, arith}
use peekd.Base.Int.{ℤ}
use peekd.Base.Results.{Result, ok}
use peekd.Processor.Messages.{Message, MessageType}
use peekd.Processor.SeenCounter.{hex_encode}
use peekd.Processor.SlotCache.{find}
use peekd.Processor.SlotCache.Find.{find-add}
use peekd.Processor.SlotExtractor.{MessageKind, slot_message, extract, new_slot_extractor_registry}
use peekd.Processor.SlotExtractor.Total.{extract_result, extract_lem}
use peekd.Processor.Topics.{parse_eth2_topic}
use peekd.Processor.State.{BeaconMessageProcessor, PubsubMessage}
use peekd.Processor.Process.{
  slot_record, process_kind, process_slot_message_metadata, new_slot_metadata, process,
}

module _ (decode : MessageType → Text → Result Message) (now : ℤ) (peer_count : ℕ)
    (msg : PubsubMessage) (dst : MessageType) (p : BeaconMessageProcessor) (m : Message)
    (registry : p.extractors ≡ new_slot_extractor_registry)
    (decoded : decode dst msg.payload ≡ ok m) where
  pub process_extracted :
      (kind : MessageKind) (slot : ℕ)
      → extract_result m ≡ ok (kind, slot)
      → process decode now peer_count msg dst p ≡ process_kind now peer_count msg kind slot p
  unfolding process
  process_extracted kind slot e =
      let known : extract p.extractors m ≡ ok (kind, slot) =
        ap (λ r. extract r m) registry ∙ extract_lem m ∙ e in
      ground arith

  module _ (fork_version message_type : Text)
      (parsed : parse_eth2_topic msg.topic ≡ some (fork_version, message_type)) where
    -- A decoded message with a slot, on a readable topic, is recorded under its own slot and the
    -- hexadecimal form of its id, unless that entry is taken already; nothing else of the cache changes,
    -- and the call succeeds.
    pub process_slot_message :
        (slot j : ℕ) (k : Text)
        → extract_result m ≡ ok (slot_message, slot)
        → let stat =
            slot_record peer_count
              (new_slot_metadata p.beacon_config now msg slot)
              fork_version
              message_type
              p in
          let after = process decode now peer_count msg dst p in
          (after.1 ≡ ok tt)
          × (find j k after.0.slot_cache
              ≡ ite
                  (ℕ_discrete slot j)
                  (ite
                    (Text-discrete (hex_encode msg.id) k)
                    (some (Option.get_or (find slot (hex_encode msg.id) p.slot_cache) stat))
                    (find j k p.slot_cache))
                  (find j k p.slot_cache))
          × (after.0.general_tasks ≡ p.general_tasks)
    unfolding process_kind process_slot_message_metadata new_slot_metadata
    process_slot_message slot j k e =
        let metadata = new_slot_metadata p.beacon_config now msg slot in
        let stat = slot_record peer_count metadata fork_version message_type p in
        rw (process_extracted slot_message slot e, parsed, process_slot_message_metadata)
          (refl, (find-add slot j (hex_encode msg.id) k stat p.slot_cache).1, refl)
