-- ===== src/Processor/SeenCounter.antt =====
-- processor/seen_counter.go: how often each message id was seen. A Go string is its bytes.
pub mod Hex
pub mod History
use mathlib.Core.Option
use peekd.Base.{
  ℕ, ◌+◌, ◌-◌, ◌/◌, ◌%◌, ◌^◌, Bool, true, false, Option, none, some, List, [], ◌∷◌, Text,
  Text-discrete, ltb, if◌then◌else◌,
}
use peekd.Base.Maps.{get, put, delete}

hex_digit : ℕ → ℕ
hex_digit d = if ltb d 10 then b'0' + d else b'a' + (d - 10)

-- `hex.EncodeToString`
unfoldable pub hex_encode : Text → Text
unfolding hex_digit
hex_encode [] = []
hex_encode (b ∷ bs) = hex_digit (b / 16) ∷ hex_digit (b % 16) ∷ hex_encode bs

pub record SeenCounter : Type 0 where
  pub counts : List (Text × ℕ)  -- map[string]uint32

unfoldable pub new_seen_counter : SeenCounter
new_seen_counter = record { counts = [] }

-- `sc.counts[msgID]++` on a uint32; a missing key reads as 0.
unfoldable pub increase_by_raw_id : Text → SeenCounter → SeenCounter
increase_by_raw_id raw_id sc =
    let msg_id = hex_encode raw_id in
    let seen = Option.get_or (get Text-discrete msg_id sc.counts) 0 in
    record sc { counts = put Text-discrete msg_id ((seen + 1) % 2 ^ 32) sc.counts }

-- The new counter, and `(value, ok)`.
unfoldable pub pop : Text → SeenCounter → SeenCounter × (ℕ × Bool)
pop msg_id sc = elim (get Text-discrete msg_id sc.counts) [
  | some value ↦ (record sc { counts = delete Text-discrete msg_id sc.counts }, (value, true))
  | none ↦ (sc, (0, false))
]
