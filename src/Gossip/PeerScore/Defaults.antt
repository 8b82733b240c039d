-- ===== src/Gossip/PeerScore/Defaults.antt =====
-- gossip/peer_score.go: the default parameters of each kind of topic.
use peekd.Base.{ℕ, zero, suc, ◌*◌, ◌/◌, ◌%◌, ◌^◌, ltb, leb, if◌then◌else◌}
use peekd.Base.Int.{ℤ, pos, negsuc, times}
use peekd.Base.Floats.{Floats}
use peekd.Base.Results.{Result, ok, panicked, ◌>>=◌}
use peekd.Eth.{BeaconChainConfig, get_epoch_duration}
use peekd.Gossip.PeerScore.{
  aggregate_weight, attestation_total_weight, attester_slashing_weight, block_weight,
  bls_to_execution_change_weight, dampening_factor, decay_limit, decay_threshold, gossip_sub_d,
  in_mesh_cap_time, in_mesh_unit_time, invalid_decay_period, max_first_delivery_score,
  max_in_mesh_score, max_score, of_uint, proposer_slashing_weight, quo_uint, score_by_weight,
  score_decay, sync_committees_total_weight, sync_contribution_weight, voluntary_exit_weight,
  weight, whole,
}

module _ (floats : Floats) where
  open floats use {Float, decimal, neg, mul, div}

  -- `pubsub.TopicScoreParams`
  pub record TopicScoreParams : Type 0 where
    pub topic_weight : Float
    pub time_in_mesh_weight : Float
    pub time_in_mesh_quantum : ℤ
    pub time_in_mesh_cap : Float
    pub first_message_deliveries_weight : Float
    pub first_message_deliveries_decay : Float
    pub first_message_deliveries_cap : Float
    pub mesh_message_deliveries_weight : Float
    pub mesh_message_deliveries_decay : Float
    pub mesh_message_deliveries_cap : Float
    pub mesh_message_deliveries_threshold : Float
    pub mesh_message_deliveries_window : ℤ
    pub mesh_message_deliveries_activation : ℤ
    pub mesh_failure_penalty_weight : Float
    pub mesh_failure_penalty_decay : Float
    pub invalid_message_deliveries_weight : Float
    pub invalid_message_deliveries_decay : Float

  module _ (c : BeaconChainConfig) where
    unfoldable pub default_topic_params : Result TopicScoreParams
    default_topic_params = do
      let epoch = get_epoch_duration c
      let decay_epoch : ℕ = 5
      let blocks = c.slots_per_epoch * decay_epoch % 2 ^ 64
      let mesh_weight = decimal (negsuc 716) 3
      cap ← in_mesh_cap_time floats c
      first_decay ← score_decay floats c (times 20 epoch)
      mesh_decay ← score_decay floats c (times decay_epoch epoch)
      invalid_decay ← score_decay floats c (invalid_decay_period floats c)
      ok (record {
        topic_weight = weight floats c block_weight;
        time_in_mesh_weight = div (whole floats c max_in_mesh_score) cap;
        time_in_mesh_quantum = in_mesh_unit_time floats c;
        time_in_mesh_cap = cap;
        first_message_deliveries_weight = whole floats c 1;
        first_message_deliveries_decay = first_decay;
        first_message_deliveries_cap = whole floats c 23;
        mesh_message_deliveries_weight = mesh_weight;
        mesh_message_deliveries_decay = mesh_decay;
        mesh_message_deliveries_cap = of_uint floats c blocks;
        mesh_message_deliveries_threshold = div (of_uint floats c blocks) (whole floats c 10);
        mesh_message_deliveries_window = pos 2_000_000_000;
        mesh_message_deliveries_activation = times 4 epoch;
        mesh_failure_penalty_weight = mesh_weight;
        mesh_failure_penalty_decay = mesh_decay;
        invalid_message_deliveries_weight = decimal (negsuc 1_404_474) 4;
        invalid_message_deliveries_decay = invalid_decay;
      })

    -- The end that the functions of aggregates, attestations, contributions and sync committees share:
    -- the cap and the threshold from the rates of the first deliveries and of the mesh, with their
    -- decay times.
    unfoldable pub mesh_topic_params : Float → ℤ → Float → ℤ → Float → Result TopicScoreParams
    mesh_topic_params topic_weight first_period first_rate mesh_period mesh_rate = do
      first_decay ← score_decay floats c first_period
      mesh_decay ← score_decay floats c mesh_period
      first_cap ← decay_limit floats c first_decay first_rate
      threshold ← decay_threshold floats c mesh_decay mesh_rate
      let mesh_weight = neg (score_by_weight floats c topic_weight threshold)
      cap ← in_mesh_cap_time floats c
      invalid_decay ← score_decay floats c (invalid_decay_period floats c)
      ok (record {
        topic_weight = topic_weight;
        time_in_mesh_weight = div (whole floats c max_in_mesh_score) cap;
        time_in_mesh_quantum = in_mesh_unit_time floats c;
        time_in_mesh_cap = cap;
        first_message_deliveries_weight = div (whole floats c max_first_delivery_score) first_cap;
        first_message_deliveries_decay = first_decay;
        first_message_deliveries_cap = first_cap;
        mesh_message_deliveries_weight = mesh_weight;
        mesh_message_deliveries_decay = mesh_decay;
        mesh_message_deliveries_cap = mul (whole floats c 4) threshold;
        mesh_message_deliveries_threshold = threshold;
        mesh_message_deliveries_window = pos 2_000_000_000;
        mesh_message_deliveries_activation = get_epoch_duration c;
        mesh_failure_penalty_weight = mesh_weight;
        mesh_failure_penalty_decay = mesh_decay;
        invalid_message_deliveries_weight = div (neg (weight floats c max_score)) topic_weight;
        invalid_message_deliveries_decay = invalid_decay;
      })

    -- `comms`: the `default` case of the `switch` sets 1.
    unfoldable pub committees : ℕ → Result ℕ
    committees estimate = do
      per_slot ← quo_uint estimate c.slots_per_epoch
      comms ← quo_uint per_slot c.target_committee_size
      ok (if ltb c.max_committees_per_slot comms then c.max_committees_per_slot else 1)

    unfoldable pub default_aggregate_topic_params : ℕ → Result TopicScoreParams
    default_aggregate_topic_params estimate = do
      comms ← committees estimate
      let agg_per_slot = comms * c.target_aggregators_per_committee % 2 ^ 64
      let epoch = get_epoch_duration c
      mesh_topic_params (weight floats c aggregate_weight) epoch
          (of_uint floats c (agg_per_slot * 2 % 2 ^ 64 / gossip_sub_d)) epoch
          (div (of_uint floats c agg_per_slot) (whole floats c dampening_factor))

    -- `if n == 0 { panic(..) }`
    abbrev pub positive : ℕ → Result (Unit {0})
    positive zero = panicked
    positive (suc n) = ok tt

    unfoldable pub default_attestation_topic_params : ℕ → Result TopicScoreParams
    default_attestation_topic_params estimate = do
      let subnet_cnt = c.attestation_subnet_count
      let topic_weight =
          div (weight floats c attestation_total_weight) (of_uint floats c subnet_cnt)
      subnet_weight ← quo_uint estimate subnet_cnt
      _ ← positive subnet_weight
      vals_per_slot ← quo_uint subnet_weight c.slots_per_epoch
      _ ← positive vals_per_slot
      comms ← committees estimate
      bound ← quo_uint (2 * subnet_cnt % 2 ^ 64) c.slots_per_epoch
      let first_decay : ℕ = if leb bound comms then 4 else 1
      let mesh_decay : ℕ = if leb bound comms then 16 else 4
      let rate = vals_per_slot * 2 % 2 ^ 64 / gossip_sub_d
      _ ← positive rate
      mesh_topic_params topic_weight (times first_decay (get_epoch_duration c))
          (of_uint floats c rate) (times mesh_decay (get_epoch_duration c))
          (of_uint floats c (vals_per_slot / dampening_factor))

    unfoldable pub default_sync_contribution_topic_params : Result TopicScoreParams
    default_sync_contribution_topic_params = do
      let agg_per_slot =
          c.sync_committee_subnet_count * c.target_aggregators_per_sync_subcommittee % 2 ^ 64
      let epoch = get_epoch_duration c
      mesh_topic_params (weight floats c sync_contribution_weight) epoch
          (of_uint floats c (agg_per_slot * 2 % 2 ^ 64 / gossip_sub_d)) epoch
          (div (of_uint floats c agg_per_slot) (whole floats c dampening_factor))

    -- `ps.estimateActiveValidators` is cut down first, and stays so.
    abbrev pub cut_estimate : ℕ → ℕ
    cut_estimate estimate =
        if ltb c.sync_committee_size estimate then c.sync_committee_size else estimate

    -- The new estimate and the parameters.
    unfoldable pub default_sync_subnet_topic_params : ℕ → Result (ℕ × TopicScoreParams)
    default_sync_subnet_topic_params estimate = do
      let cut = cut_estimate estimate
      let subnet_cnt = c.sync_committee_subnet_count
      let topic_weight =
          div (weight floats c sync_committees_total_weight) (of_uint floats c subnet_cnt)
      subnet_weight ← quo_uint cut subnet_cnt
      _ ← positive subnet_weight
      let rate = subnet_weight * 2 % 2 ^ 64 / gossip_sub_d
      _ ← positive rate
      found ←
          mesh_topic_params topic_weight (times 1 (get_epoch_duration c)) (of_uint floats c rate)
            (times 4 (get_epoch_duration c)) (of_uint floats c (subnet_weight / dampening_factor))
      ok (cut, found)

    -- What the functions of slashings, changes and exits have in common.
    unfoldable pub rare_topic_params : ℕ → ℕ → ℕ → Result TopicScoreParams
    rare_topic_params topic_weight first_weight first_cap = do
      cap ← in_mesh_cap_time floats c
      first_decay ← score_decay floats c (times 100 (get_epoch_duration c))
      invalid_decay ← score_decay floats c (invalid_decay_period floats c)
      ok (record {
        topic_weight = weight floats c topic_weight;
        time_in_mesh_weight = div (whole floats c max_in_mesh_score) cap;
        time_in_mesh_quantum = in_mesh_unit_time floats c;
        time_in_mesh_cap = cap;
        first_message_deliveries_weight = whole floats c first_weight;
        first_message_deliveries_decay = first_decay;
        first_message_deliveries_cap = whole floats c first_cap;
        mesh_message_deliveries_weight = whole floats c 0;
        mesh_message_deliveries_decay = whole floats c 0;
        mesh_message_deliveries_cap = whole floats c 0;
        mesh_message_deliveries_threshold = whole floats c 0;
        mesh_message_deliveries_window = pos 0;
        mesh_message_deliveries_activation = pos 0;
        mesh_failure_penalty_weight = whole floats c 0;
        mesh_failure_penalty_decay = whole floats c 0;
        invalid_message_deliveries_weight = decimal (negsuc 1999) 0;
        invalid_message_deliveries_decay = invalid_decay;
      })

    unfoldable pub default_proposer_slashing_topic_params : Result TopicScoreParams
    unfolding rare_topic_params
    default_proposer_slashing_topic_params = rare_topic_params proposer_slashing_weight 36 1

    unfoldable pub default_attester_slashing_topic_params : Result TopicScoreParams
    unfolding rare_topic_params
    default_attester_slashing_topic_params = rare_topic_params attester_slashing_weight 36 1

    unfoldable pub default_bls_to_execution_change_topic_params : Result TopicScoreParams
    unfolding rare_topic_params
    default_bls_to_execution_change_topic_params =
        rare_topic_params bls_to_execution_change_weight 2 5

    unfoldable pub default_voluntary_exit_topic_params : Result TopicScoreParams
    unfolding rare_topic_params
    default_voluntary_exit_topic_params = rare_topic_params voluntary_exit_weight 2 5
