-- ===== src/Gossip/PeerScore/Params.antt =====
-- `params` of gossip/peer_score.go: which default each topic gets, and the loop over the topics, which
-- changes the estimate of validators on its way.
use peekd.Base.{ℕ, List, [], ◌∷◌, Text, Text-discrete, if◌then◌else◌}
use peekd.Base.Int.{ℤ, pos, negsuc, times}
use peekd.Base.Floats.{Floats}
use peekd.Base.Maps.{put}
use peekd.Base.Strings.{contains}
use peekd.Base.Results.{Result, ok, ◌>>=◌}
use peekd.Eth.{BeaconChainConfig, get_epoch_duration}
use peekd.Processor.Topics.{MessageNames}
use peekd.Gossip.PeerScore.{PeerScore, score_decay, whole}
use peekd.Gossip.PeerScore.Defaults.{
  TopicScoreParams, default_topic_params, default_aggregate_topic_params,
  default_attestation_topic_params, default_sync_contribution_topic_params,
  default_sync_subnet_topic_params, default_proposer_slashing_topic_params,
  default_attester_slashing_topic_params, default_bls_to_execution_change_topic_params,
  default_voluntary_exit_topic_params,
}

-- The cases of the `switch` over a topic.
pub data Scoring : Type 0 where
  blocks blobs aggregates attestations contributions sync_committees : Scoring
  proposer_slashings attester_slashings bls_changes exits unknown_topic : Scoring

unfoldable pub scoring_of : MessageNames → Text → Scoring
scoring_of n topic =
    if contains topic n.block
    then blocks
    else if contains topic n.blob_sidecar
    then blobs
    else if contains topic n.aggregate_and_proof
    then aggregates
    else if contains topic n.attestation
    then attestations
    else if contains topic n.contribution_and_proof
    then contributions
    else if contains topic n.sync_committee
    then sync_committees
    else if contains topic n.proposer_slashing
    then proposer_slashings
    else if contains topic n.attester_slashing
    then attester_slashings
    else if contains topic n.bls_to_execution_change
    then bls_changes
    else if contains topic n.exit
    then exits
    else unknown_topic

module _ (floats : Floats) (c : BeaconChainConfig) where
  open floats use {Float, decimal}

  -- The zero value of `pubsub.TopicScoreParams`.
  abbrev pub no_topic_params : TopicScoreParams floats
  no_topic_params = record {
    topic_weight = whole floats c 0;
    time_in_mesh_weight = whole floats c 0;
    time_in_mesh_quantum = pos 0;
    time_in_mesh_cap = whole floats c 0;
    first_message_deliveries_weight = whole floats c 0;
    first_message_deliveries_decay = whole floats c 0;
    first_message_deliveries_cap = whole floats c 0;
    mesh_message_deliveries_weight = whole floats c 0;
    mesh_message_deliveries_decay = whole floats c 0;
    mesh_message_deliveries_cap = whole floats c 0;
    mesh_message_deliveries_threshold = whole floats c 0;
    mesh_message_deliveries_window = pos 0;
    mesh_message_deliveries_activation = pos 0;
    mesh_failure_penalty_weight = whole floats c 0;
    mesh_failure_penalty_decay = whole floats c 0;
    invalid_message_deliveries_weight = whole floats c 0;
    invalid_message_deliveries_decay = whole floats c 0;
  }

  abbrev pub keeping : ℕ → Result (TopicScoreParams floats) → Result (ℕ × TopicScoreParams floats)
  keeping estimate found = found >>= λ params. ok (estimate, params)

  -- One case: the estimate after it, and the parameters.
  unfoldable pub score_topic : Scoring → ℕ → Result (ℕ × TopicScoreParams floats)
  score_topic blocks estimate = keeping estimate (default_topic_params floats c)
  score_topic blobs estimate = keeping estimate (default_topic_params floats c)
  score_topic aggregates estimate =
      keeping estimate (default_aggregate_topic_params floats c estimate)
  score_topic attestations estimate =
      keeping estimate (default_attestation_topic_params floats c estimate)
  score_topic contributions estimate =
      keeping estimate (default_sync_contribution_topic_params floats c)
  score_topic sync_committees estimate = default_sync_subnet_topic_params floats c estimate
  score_topic proposer_slashings estimate =
      keeping estimate (default_proposer_slashing_topic_params floats c)
  score_topic attester_slashings estimate =
      keeping estimate (default_attester_slashing_topic_params floats c)
  score_topic bls_changes estimate =
      keeping estimate (default_bls_to_execution_change_topic_params floats c)
  score_topic exits estimate = keeping estimate (default_voluntary_exit_topic_params floats c)
  score_topic unknown_topic estimate = ok (estimate, no_topic_params)

  abbrev pub TopicParams : Type 0
  TopicParams = List (Text × TopicScoreParams floats)

  -- The loop over the topics, with the estimate and `topicParams`.
  unfoldable pub score_topics :
      MessageNames → List Text → ℕ → TopicParams → Result (ℕ × TopicParams)
  score_topics n [] estimate found = ok (estimate, found)
  score_topics n (topic ∷ topics) estimate found =
      score_topic (scoring_of n topic) estimate >>= λ scored.
      score_topics n topics scored.0 (put Text-discrete topic scored.1 found)

  -- `pubsub.PeerScoreParams`; `AppSpecificScore` is the score that it gives to a peer.
  pub record PeerScoreParams : Type 0 where
    pub topics : TopicParams
    pub topic_score_cap : Float
    pub app_specific_score : Text → Float
    pub app_specific_weight : Float
    pub ip_colocation_factor_weight : Float
    pub ip_colocation_factor_threshold : ℕ
    pub behaviour_penalty_weight : Float
    pub behaviour_penalty_threshold : Float
    pub behaviour_penalty_decay : Float
    pub decay_interval : ℤ
    pub decay_to_zero : Float
    pub retain_score : ℤ

  -- `pubsub.PeerScoreThresholds`
  pub record PeerScoreThresholds : Type 0 where
    pub gossip_threshold : Float
    pub publish_threshold : Float
    pub graylist_threshold : Float
    pub accept_px_threshold : Float
    pub opportunistic_graft_threshold : Float

  unfoldable pub params :
      MessageNames → PeerScore → Result (PeerScore × PeerScoreParams × PeerScoreThresholds)
  unfolding score_topics
  params n ps = do
    scored ← score_topics n ps.topics ps.estimate_active_validators []
    behaviour_decay ← score_decay floats c (times 10 (get_epoch_duration c))
    ok (
      record ps { estimate_active_validators = scored.0 },
      record {
        topics = scored.1;
        topic_score_cap = decimal (pos 3272) 2;
        app_specific_score = λ _. whole floats c 0;
        app_specific_weight = whole floats c 1;
        ip_colocation_factor_weight = decimal (negsuc 3510) 2;
        ip_colocation_factor_threshold = 10;
        behaviour_penalty_weight = decimal (negsuc 1591) 2;
        behaviour_penalty_threshold = whole floats c 6;
        behaviour_penalty_decay = behaviour_decay;
        decay_interval = get_epoch_duration c;
        decay_to_zero = decimal (pos 1) 2;
        retain_score = times 100 (get_epoch_duration c);
      },
      record {
        gossip_threshold = decimal (negsuc 3999) 0;
        publish_threshold = decimal (negsuc 7999) 0;
        graylist_threshold = decimal (negsuc 15999) 0;
        accept_px_threshold = whole floats c 100;
        opportunistic_graft_threshold = whole floats c 5;
      },
    )
