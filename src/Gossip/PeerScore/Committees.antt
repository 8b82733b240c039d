-- ===== src/Gossip/PeerScore/Committees.antt =====
-- The number of committees that the estimate of validators stands for.
use peekd.Base.{ℕ, zero, suc, ◌/◌, ◌≤◌, ◌<◌, ◌≡◌, refl, arith}
use peekd.Base.Floats.{Floats}
use peekd.Base.Results.{ok}
use peekd.Eth.{BeaconChainConfig}
use peekd.Gossip.PeerScore.{quo_uint}
use peekd.Gossip.PeerScore.Defaults.{committees, default_aggregate_topic_params}

pub quo_uint-pos : (a b : ℕ) → 0 < b → quo_uint a b ≡ ok (a / b)
quo_uint-pos a zero p = absurd (omega arith)
quo_uint-pos a (suc b) p = refl

module _ (floats : Floats) (c : BeaconChainConfig) where
  -- Up to the greatest number of committees, the computed one is replaced by 1.
  committees_one :
      (estimate : ℕ)
      → 0 < c.slots_per_epoch
      → 0 < c.target_committee_size
      → estimate / c.slots_per_epoch / c.target_committee_size ≤ c.max_committees_per_slot
      → committees floats c estimate ≡ ok 1
  unfolding committees
  committees_one estimate slots size few =
      rw
        (
          quo_uint-pos estimate c.slots_per_epoch slots,
          quo_uint-pos (estimate / c.slots_per_epoch) c.target_committee_size size,
        )
        (ground arith)

  -- Any two estimates of validators that stand for at most the greatest number of committees per slot
  -- give aggregate topics the same parameters: the number computed from the estimate is dropped.
  pub default_aggregate_topic_params-eq :
      (few some_more : ℕ)
      → 0 < c.slots_per_epoch
      → 0 < c.target_committee_size
      → few / c.slots_per_epoch / c.target_committee_size ≤ c.max_committees_per_slot
      → some_more / c.slots_per_epoch / c.target_committee_size ≤ c.max_committees_per_slot
      → default_aggregate_topic_params floats c few
        ≡ default_aggregate_topic_params floats c some_more
  unfolding default_aggregate_topic_params
  default_aggregate_topic_params-eq few some_more slots size one other =
      rw (committees_one few slots size one, committees_one some_more slots size other) refl
