-- ===== src/Processor/Serve.antt =====
-- The life of a processor as a sequence of events: the calls that gossipSub makes, and the rounds of
-- the loop of `Serve`. Each event is atomic; Threads has a flush in its single steps.
pub mod Reach
pub mod Config
pub mod Account
pub mod Stored
pub mod Schedules
pub mod Delivered
pub mod Sightings
pub mod Unpopped
pub mod General
use peekd.Base.{ℕ, suc, zero, ◌-◌, Bool, List, [], ◌∷◌, Text}
use peekd.Base.Int.{ℤ}
use peekd.Base.Results.{Result}
use peekd.Repository.Models.{SlotMessageStats}
use peekd.Processor.Messages.{Message, MessageType}
use peekd.Processor.State.{BeaconMessageProcessor, PubsubMessage}
use peekd.Processor.Process.{process, increase_seen_count_by_raw_id}
use peekd.Processor.Flush.{flush_completed_slots}

-- What the environment decides about one flush: the clock, the visiting orders, the repository.
pub record Flush : Type 0 where
  pub now : ℤ
  pub accept : List SlotMessageStats → Bool
  pub slots : List ℕ → List ℕ
  pub visit : List SlotMessageStats → List SlotMessageStats

pub data Event : Type 0 where
  -- The message id function of gossipSub.
  seen : Text → Event
  -- A topic handler, with the clock, the peer count and the destination's type.
  message : ℤ → ℕ → PubsubMessage → MessageType → Event
  -- `<-ticker.C`, and `<-ctx.Done()`, which flushes once more before `Serve` returns.
  tick : Flush → Event
  done : Flush → Event
  -- `<-p.messageNotify`
  notified : Event

unfoldable pub flush : Flush → BeaconMessageProcessor → BeaconMessageProcessor
flush f p = (flush_completed_slots f.accept f.slots f.visit f.now p).0

module _ (decode : MessageType → Text → Result Message) where
  unfoldable pub step : Event → BeaconMessageProcessor → BeaconMessageProcessor
  step (seen raw_id) p = increase_seen_count_by_raw_id raw_id p
  step (message now peer_count msg dst) p = (process decode now peer_count msg dst p).0
  step (tick f) p = flush f p
  step (done f) p = flush f p
  step notified p = record p { message_notify = p.message_notify - 1 }

  unfoldable pub run : List Event → BeaconMessageProcessor → BeaconMessageProcessor
  run [] p = p
  run (event ∷ events) p = run events (step event p)
