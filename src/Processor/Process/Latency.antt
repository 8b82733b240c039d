-- ===== src/Processor/Process/Latency.antt =====
-- The latency that is recorded: exact for a message that arrives in or after its slot, within the range
-- of the machine words, and wrapped round for one that arrives early.
use peekd.Base.{◌∙◌, ◌*◌, Text, ℕ, ◌+◌, ◌-◌, ◌/◌, ◌%◌, ◌^◌, ◌≤◌, ◌<◌, ◌≡◌, arith}
use peekd.Base.Int.{pos-add, pos, ◌-ℤ◌, to_int64, quo, to_uint32}
use peekd.Processor.Process.{
  get_delay_in_slot, second, BeaconConfig, new_slot_metadata, slot_record, BeaconMessageProcessor,
  PubsubMessage, time_sub, milliseconds,
}

to_int64_small : (n : ℕ) → n < 2 ^ 63 → to_int64 n ≡ pos n
unfolding to_int64
to_int64_small n h = ground arith

latency_of_late :
    (n m : ℕ)
    → n - m < 2 ^ 63
    → m ≤ n
    → to_uint32 (milliseconds (time_sub (pos n) (pos m))) ≡ (n - m) / 1_000_000 % 2 ^ 32
unfolding to_uint32 quo time_sub ◌-ℤ◌
latency_of_late n m fits late = ground arith

latency_of_early :
    (n m : ℕ)
    → m - n < 2 ^ 63
    → n + 1_000_000 ≤ m
    → to_uint32 (milliseconds (time_sub (pos n) (pos m)))
      ≡ 2 ^ 32 - 1 - ((m - n) / 1_000_000 - 1) % 2 ^ 32
unfolding to_uint32 quo time_sub ◌-ℤ◌
latency_of_early n m fits early = ground arith

-- The start of a slot, with genesis at `g`.
abbrev pub slot_start : ℕ → ℕ → BeaconConfig → ℕ
slot_start g slot config = g + slot * second * config.seconds_per_slot

-- The latency in the record of a message that arrives at time `n`, in nanoseconds.
abbrev pub latency_at : ℕ → ℕ → PubsubMessage → ℕ → Text → Text → BeaconMessageProcessor → ℕ
latency_at n slot msg peer_count fork_version message_type p =
    (slot_record peer_count (new_slot_metadata p.beacon_config (pos n) msg slot) fork_version
      message_type p).latency_ms

module _ (g n slot peer_count : ℕ) (msg : PubsubMessage) (fork_version message_type : Text)
    (p : BeaconMessageProcessor) (genesis : p.beacon_config.genesis_time ≡ pos g)
    (fits : slot * second * p.beacon_config.seconds_per_slot < 2 ^ 63) where
  latency_of_delay :
      latency_at n slot msg peer_count fork_version message_type p
      ≡ to_uint32 (milliseconds (time_sub (pos n) (pos (slot_start g slot p.beacon_config))))
  unfolding slot_record new_slot_metadata get_delay_in_slot
  latency_of_delay =
      rw (to_int64_small (slot * second * p.beacon_config.seconds_per_slot) fits, genesis, pos-add)

  -- With a genesis time after the epoch and a slot offset below 2^63 ns, a message that arrives in its
  -- slot or later, by less than 2^32 ms, is recorded with the whole milliseconds since the start of its
  -- slot.
  pub latency_exact :
      slot_start g slot p.beacon_config ≤ n
      → n - slot_start g slot p.beacon_config < 2 ^ 32 * 1_000_000
      → latency_at n slot msg peer_count fork_version message_type p
        ≡ (n - slot_start g slot p.beacon_config) / 1_000_000
  latency_exact late near =
      latency_of_delay
      ∙ latency_of_late n (slot_start g slot p.beacon_config) (omega arith) late
      ∙ omega arith

  -- With a genesis time after the epoch and a slot offset below 2^63 ns, a message that arrives before
  -- its slot, by at least 1 ms and less than 2^32 ms, is recorded with 2^32 less the milliseconds by
  -- which it is early, as if it were some 49 days late.
  pub latency_early :
      n + 1_000_000 ≤ slot_start g slot p.beacon_config
      → slot_start g slot p.beacon_config - n < 2 ^ 32 * 1_000_000
      → latency_at n slot msg peer_count fork_version message_type p
          + (slot_start g slot p.beacon_config - n) / 1_000_000
        ≡ 2 ^ 32
  latency_early early near = omega (
    arith,
    latency_of_delay,
    latency_of_early n (slot_start g slot p.beacon_config) (omega arith) early,
  )
