-- ===== src/Repository/Adapter.antt =====
-- The interface of repository/repository.go, and the adapter that fills it by ClickHouse.
use peekd.Base.{Option, List}
use peekd.Base.Results.{Result}
use peekd.Repository.Models.{GeneralMessageHistory, SlotMessageStats}
use peekd.Repository.ClickHouse.{Conn, save_general_message_history, save_slot_message_stats_multi}

pub record Repository : Type 0 where
  pub save_general : Option GeneralMessageHistory → Result (Unit {0})
  pub save_slot_stats : List SlotMessageStats → Result (Unit {0})
  pub close : Result (Unit {0})

-- `closed` is what closing the connection returns.
unfoldable pub adapter : Conn → Result (Unit {0}) → Repository
adapter conn closed = record {
  save_general = save_general_message_history conn;
  save_slot_stats = save_slot_message_stats_multi conn;
  close = closed;
}
