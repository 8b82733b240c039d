-- ===== src/Repository/Models.antt =====
-- repository/models.go: the two rows that are stored. A time is a number of nanoseconds since the
-- Unix epoch.
use peekd.Base.{ℕ, Text}
use peekd.Base.Int.{ℤ}

pub record GeneralMessageHistory : Type 0 where
  pub arrival_time : ℤ
  pub fork_version : Text
  pub topic : Text
  pub node_region : Text
  pub node_alias : Text
  pub node_peer_count : ℕ  -- uint32
  pub message_id : Text
  pub size_bytes : ℕ  -- uint32

pub record SlotMessageStats : Type 0 where
  pub slot : ℕ  -- uint64
  pub topic_group : Text
  pub fork_version : Text
  pub topic : Text
  pub node_region : Text
  pub node_alias : Text
  pub node_peer_count : ℕ  -- uint32
  pub message_id : Text
  pub slot_start_time : ℤ
  pub first_arrival_time : ℤ
  pub latency_ms : ℕ  -- uint32
  pub size_bytes : ℕ  -- uint32
  pub seen_count : ℕ  -- uint32
