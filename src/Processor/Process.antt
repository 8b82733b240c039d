-- ===== src/Processor/Process.antt =====
-- processor/beacon_message_processor.go, all but flushing. One call of `Process` sees one clock
-- reading and one peer count; what it reads and writes of the processor is explicit.
pub mod Latency
pub mod Recorded
pub mod Kept
pub mod Worth
use peekd.Base.{
  ◌-◌, ℕ, ◌+◌, ◌*◌, ◌%◌, ◌^◌, none, some, ◌∷◌, Text, codes, length, ltb, if◌then◌else◌,
}
use peekd.Base.Int.{ℤ, pos, negsuc, ◌+ℤ◌, ◌-ℤ◌, to_int64, quo, to_uint32, pos_part, neg_part}
use peekd.Base.Results.{Error, Result, ok, err, panicked}
use peekd.Repository.Models.{GeneralMessageHistory, SlotMessageStats}
use peekd.Processor.Messages.{Message, MessageType}
use peekd.Processor.SeenCounter.{hex_encode, increase_by_raw_id}
use peekd.Processor.SlotCache.{add}
use peekd.Processor.SlotExtractor.{MessageKind, slot_message, general_message, extract}
use peekd.Processor.Topics.{topic_to_topic_group, parse_eth2_topic}
use peekd.Processor.State.{
  PubsubMessage, GeneralMessageMetadata, SlotMessageMetadata, BeaconConfig, BeaconMessageProcessor,
  notify_capacity,
}

abbrev pub second : ℕ
second = 1_000_000_000

-- `time.Duration(slot) * time.Second * time.Duration(SecondsPerSlot)`, a product of int64.
abbrev pub slot_offset : BeaconConfig → ℕ → ℤ
slot_offset config slot = to_int64 (slot * second * config.seconds_per_slot)

-- `t.Sub(u)`, which saturates at the ends of int64.
unfoldable pub time_sub : ℤ → ℤ → ℤ
time_sub t u =
    let d = t -ℤ u in
    if ltb (2 ^ 63 - 1) (pos_part d)
    then pos (2 ^ 63 - 1)
    else if ltb (2 ^ 63) (neg_part d)
    then negsuc (2 ^ 63 - 1)
    else d

unfoldable pub get_delay_in_slot : BeaconConfig → ℤ → ℕ → ℤ
get_delay_in_slot config arrival_time slot =
    let slot_time = config.genesis_time +ℤ slot_offset config slot in
    time_sub arrival_time slot_time

-- `Duration.Milliseconds`
abbrev pub milliseconds : ℤ → ℤ
milliseconds d = quo d 1_000_000

unfoldable pub new_general_metadata : ℤ → PubsubMessage → GeneralMessageMetadata
new_general_metadata now msg = record {
  peer_id = msg.received_from;
  topic = msg.topic;
  msg_id = hex_encode msg.id;
  msg_size = length msg.payload;
  msg_arrival = now;
}

unfoldable pub new_slot_metadata : BeaconConfig → ℤ → PubsubMessage → ℕ → SlotMessageMetadata
new_slot_metadata config now msg slot = record {
  peer_id = msg.received_from;
  topic = msg.topic;
  msg_id = hex_encode msg.id;
  msg_size = length msg.payload;
  msg_arrival = now;
  msg_delay_in_slot = get_delay_in_slot config now slot;
  slot = slot;
}

-- The row of a message with no slot, and the start of the goroutine that saves it; the panic is that of
-- the topic.
unfoldable pub process_general_message_metadata :
    ℕ → GeneralMessageMetadata → BeaconMessageProcessor → BeaconMessageProcessor × Result (Unit {0})
process_general_message_metadata peer_count metadata p = elim (parse_eth2_topic metadata.topic) [
  | none ↦ (p, panicked)
  | some (fork_version, message_type) ↦
      let row : GeneralMessageHistory = record {
        arrival_time = metadata.msg_arrival;
        fork_version = fork_version;
        topic = message_type;
        node_region = p.node_region;
        node_alias = p.node_alias;
        node_peer_count = peer_count % 2 ^ 32;
        message_id = metadata.msg_id;
        size_bytes = metadata.msg_size % 2 ^ 32;
      } in
      (record p { general_tasks = row ∷ p.general_tasks }, ok tt)
]

-- The record that is kept for a message with a slot.
unfoldable pub slot_record :
    ℕ → SlotMessageMetadata → Text → Text → BeaconMessageProcessor → SlotMessageStats
slot_record peer_count metadata fork_version message_type p = record {
  slot = metadata.slot;
  topic_group = topic_to_topic_group p.beacon_config.names metadata.topic;
  fork_version = fork_version;
  topic = message_type;
  node_region = p.node_region;
  node_alias = p.node_alias;
  node_peer_count = peer_count % 2 ^ 32;
  message_id = metadata.msg_id;
  slot_start_time = p.beacon_config.genesis_time +ℤ slot_offset p.beacon_config metadata.slot;
  first_arrival_time = metadata.msg_arrival;
  latency_ms = to_uint32 (milliseconds metadata.msg_delay_in_slot);
  size_bytes = metadata.msg_size % 2 ^ 32;
  seen_count = 0;
}

-- A send that is dropped when the buffer is full.
abbrev pub notify : ℕ → ℕ
notify buffered = if ltb buffered notify_capacity then buffered + 1 else buffered

unfoldable pub process_slot_message_metadata :
    ℕ → SlotMessageMetadata → BeaconMessageProcessor → BeaconMessageProcessor × Result (Unit {0})
process_slot_message_metadata peer_count metadata p = elim (parse_eth2_topic metadata.topic) [
  | none ↦ (p, panicked)
  | some (fork_version, message_type) ↦
      let stat = slot_record peer_count metadata fork_version message_type p in
      (
        record p {
          slot_cache = (add metadata.slot metadata.msg_id stat p.slot_cache).0;
          message_notify = notify p.message_notify;
        },
        ok tt,
      )
]

-- The `switch kind` of `Process`.
unfoldable pub process_kind :
    ℤ
    → ℕ
    → PubsubMessage
    → MessageKind
    → ℕ
    → BeaconMessageProcessor
    → BeaconMessageProcessor × Result (Unit {0})
process_kind now peer_count msg slot_message slot p =
    process_slot_message_metadata peer_count (new_slot_metadata p.beacon_config now msg slot) p
process_kind now peer_count msg general_message slot p =
    process_general_message_metadata peer_count (new_general_metadata now msg) p

-- `decode` is `enc.DecodeGossip` into a destination of the given type.
module _ (decode : MessageType → Text → Result Message) where
  unfoldable pub process :
      ℤ
      → ℕ
      → PubsubMessage
      → MessageType
      → BeaconMessageProcessor
      → BeaconMessageProcessor × Result (Unit {0})
  process now peer_count msg dst p = elim (decode dst msg.payload) [
    | err e ↦ (p, err (Error.wrap e (codes "failed to decode gossip message")))
    | panicked ↦ (p, panicked)
    | ok m ↦ elim (extract p.extractors m) [
      | err e ↦ (p, err e)
      | panicked ↦ (p, panicked)
      | ok (kind, slot) ↦ process_kind now peer_count msg kind slot p
    ]
  ]

unfoldable pub increase_seen_count_by_raw_id :
    Text → BeaconMessageProcessor → BeaconMessageProcessor
increase_seen_count_by_raw_id msg_id_raw p = record p {
  seen_counter = increase_by_raw_id msg_id_raw p.seen_counter;
}
