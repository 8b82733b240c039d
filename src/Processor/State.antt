-- ===== src/Processor/State.antt =====
-- The state of processor/beacon_message_processor.go and the metadata of
-- processor/beacon_messages.go. Times are nanoseconds since the Unix epoch. The repository and the
-- peer counter are other components: what is given to the one is kept in the state, what the other
-- answers is an argument of the calls.
use mathlib.Core.List.{foldl}
use peekd.Base.{ℕ, Bool, List, [], Text}
use peekd.Base.Int.{ℤ}
use peekd.Repository.Models.{GeneralMessageHistory, SlotMessageStats}
use peekd.Processor.SeenCounter.{SeenCounter, new_seen_counter}
use peekd.Processor.SlotCache.{SlotCacheStore, new_slot_cache_store}
use peekd.Processor.SlotExtractor.{SlotExtractorRegistry, new_slot_extractor_registry}
use peekd.Processor.Topics.{MessageNames}

-- `pubsub.Message`, as far as it is read.
pub record PubsubMessage : Type 0 where
  pub received_from : Text
  pub topic : Text
  pub id : Text
  pub payload : Text

pub record GeneralMessageMetadata : Type 0 where
  pub peer_id : Text
  pub topic : Text
  pub msg_id : Text
  pub msg_size : ℕ
  pub msg_arrival : ℤ

pub record SlotMessageMetadata : Type 0 where
  pub peer_id : Text
  pub topic : Text
  pub msg_id : Text
  pub msg_size : ℕ
  pub msg_arrival : ℤ
  pub msg_delay_in_slot : ℤ
  pub slot : ℕ  -- uint64

pub record BeaconMessageProcessorOption : Type 0 where
  pub node_alias : Text
  pub node_region : Text

abbrev pub BeaconMessageProcessorOptionFunc : Type 0
BeaconMessageProcessorOptionFunc = BeaconMessageProcessorOption → BeaconMessageProcessorOption

unfoldable pub with_node_alias : Text → BeaconMessageProcessorOptionFunc
with_node_alias node_alias o = record o { node_alias = node_alias }

unfoldable pub with_node_region : Text → BeaconMessageProcessorOptionFunc
with_node_region node_region o = record o { node_region = node_region }

-- What the beacon configuration and Prysm's constants give.
pub record BeaconConfig : Type 0 where
  pub genesis_time : ℤ
  pub seconds_per_slot : ℕ  -- uint64
  pub names : MessageNames

pub record BeaconMessageProcessor : Type 0 where
  pub node_alias : Text
  pub node_region : Text
  pub beacon_config : BeaconConfig
  pub slot_cache : SlotCacheStore
  pub seen_counter : SeenCounter
  pub extractors : SlotExtractorRegistry
  -- How many notices are buffered in the channel.
  pub message_notify : ℕ
  -- The rows for each of which a goroutine was started that gives it to `SaveGeneralMessageHistory`, the
  -- latest first. When it runs, and whether it succeeds, is not part of the state: a failure is only logged.
  pub general_tasks : List GeneralMessageHistory
  -- The batches given to `SaveSlotMessageStatsMulti`, the latest first, with its success.
  pub slot_saves : List (List SlotMessageStats × Bool)

abbrev pub notify_capacity : ℕ
notify_capacity = 100

unfoldable pub new_beacon_message_processor :
    BeaconConfig → List BeaconMessageProcessorOptionFunc → BeaconMessageProcessor
new_beacon_message_processor config opts =
    let o =
      foldl (λ (o : BeaconMessageProcessorOption) (opt : BeaconMessageProcessorOptionFunc). opt o)
        (record { node_alias = []; node_region = [] }) opts in
    record {
      node_alias = o.node_alias;
      node_region = o.node_region;
      beacon_config = config;
      slot_cache = new_slot_cache_store;
      seen_counter = new_seen_counter;
      extractors = new_slot_extractor_registry;
      message_notify = 0;
      general_tasks = [];
      slot_saves = [];
    }
