-- ===== src/Gossip/PeerScore.antt =====
-- gossip/peer_score.go: the constants, the state and the helpers of the parameters for scoring. Each
-- division is that of Go, a panic at zero. `c` is what eth.GetBeaconChainConfig returns.
pub mod Defaults
pub mod Params
pub mod Order
pub mod Again
pub mod Total
pub mod Committees
use peekd.Base.{ℕ, zero, suc, ◌+◌, ◌*◌, ◌/◌, Option, none, some, List, Text, if◌then◌else◌}
use peekd.Base.Int.{ℤ, pos, times, quo_duration}
use peekd.Base.Floats.{Floats}
use peekd.Base.Results.{Result, ok, panicked, ◌>>=◌}
use peekd.Eth.{BeaconChainConfig, get_slot_duration, get_epoch_duration}

-- The weights in hundredths, as they are added up in `maxScore`.
abbrev pub block_weight : ℕ
block_weight = 80

abbrev pub aggregate_weight : ℕ
aggregate_weight = 50

abbrev pub sync_contribution_weight : ℕ
sync_contribution_weight = 20

abbrev pub attestation_total_weight : ℕ
attestation_total_weight = 100

abbrev pub sync_committees_total_weight : ℕ
sync_committees_total_weight = 40

abbrev pub attester_slashing_weight : ℕ
attester_slashing_weight = 5

abbrev pub proposer_slashing_weight : ℕ
proposer_slashing_weight = 5

abbrev pub voluntary_exit_weight : ℕ
voluntary_exit_weight = 5

abbrev pub bls_to_execution_change_weight : ℕ
bls_to_execution_change_weight = 5

abbrev pub max_in_mesh_score : ℕ
max_in_mesh_score = 10

abbrev pub max_first_delivery_score : ℕ
max_first_delivery_score = 40

abbrev pub dampening_factor : ℕ
dampening_factor = 90

-- `gossipSubD` of gossip/gossipsub.go
abbrev pub gossip_sub_d : ℕ
gossip_sub_d = 6

-- `maxScore`, in hundredths. The constants are added exactly before they are rounded.
abbrev pub max_score : ℕ
max_score =
    (max_in_mesh_score + max_first_delivery_score)
    * (block_weight + aggregate_weight + sync_contribution_weight + attestation_total_weight
        + sync_contribution_weight + attester_slashing_weight + proposer_slashing_weight
        + voluntary_exit_weight + bls_to_execution_change_weight)

-- `peerScore` without its snapshots, which Gossip/Prune has.
pub record PeerScore : Type 0 where
  pub estimate_active_validators : ℕ  -- uint64
  pub topics : List Text
  pub inspect_period : ℤ

unfoldable pub new_peer_score : ℕ → List Text → ℤ → PeerScore
new_peer_score estimate_active_validators topics inspect_period = record {
  estimate_active_validators = estimate_active_validators;
  topics = topics;
  inspect_period = inspect_period;
}

-- `a / b` on uint64.
abbrev pub quo_uint : ℕ → ℕ → Result ℕ
quo_uint a zero = panicked
quo_uint a (suc b) = ok (a / suc b)

abbrev pub or_panic {ℓ} : {A : Type ℓ} → Option A → Result A
or_panic none = panicked
or_panic (some a) = ok a

module _ (floats : Floats) (c : BeaconChainConfig) where
  open floats use {Float, decimal, of_int, sub, mul, div, pow, ge}

  -- A weight in hundredths.
  abbrev pub weight : ℕ → Float
  weight n = decimal (pos n) 2

  abbrev pub whole : ℕ → Float
  whole n = decimal (pos n) 0

  abbrev pub of_uint : ℕ → Float
  of_uint n = of_int (pos n)

  unfoldable pub in_mesh_unit_time : ℤ
  in_mesh_unit_time = get_slot_duration c

  unfoldable pub in_mesh_cap_time : Result Float
  unfolding in_mesh_unit_time
  in_mesh_cap_time = do
    cnt ← or_panic (quo_duration (pos 3_600_000_000_000) in_mesh_unit_time)
    ok (of_int cnt)

  unfoldable pub invalid_decay_period : ℤ
  invalid_decay_period = times 50 (get_epoch_duration c)

  unfoldable pub score_decay : ℤ → Result Float
  score_decay total_decay = do
    cnt ← or_panic (quo_duration total_decay (get_slot_duration c))
    ok (pow (decimal (pos 1) 2) (div (whole 1) (of_int cnt)))

  unfoldable pub decay_limit : Float → Float → Result Float
  decay_limit decay_rate rate =
      if ge decay_rate (whole 1) then panicked else ok (div rate (sub (whole 1) decay_rate))

  unfoldable pub decay_threshold : Float → Float → Result Float
  unfolding decay_limit
  decay_threshold decay_rate rate = do
    limit ← decay_limit decay_rate rate
    ok (mul limit decay_rate)

  unfoldable pub score_by_weight : Float → Float → Float
  score_by_weight w threshold = div (weight max_score) (mul (mul w threshold) threshold)
