-- ===== src/Witness/Restarting.antt =====
-- The theorem on gossipSub's `Serve` run twice, with a libp2p on which every call succeeds.
use mathlib.Core.Path.{◌≡◌, refl}
use peekd.Base.{ℕ, some, List, [], ◌∷◌, Text, arith}
use peekd.Base.Int.{pos}
use peekd.Base.Results.{Error, Result, ok, err}
use peekd.Gossip.PeerScore.{PeerScore}
use peekd.Gossip.Service.{GossipSubParams, Service}
use peekd.Gossip.Service.Serve.{PubsubOptions, Outcome, ended, serve, serve-again, served, crashed}
use peekd.Gossip.Destination.{beacon_attestation_handler, sync_committee_handler}
use peekd.Gossip.PeerScore.Params.{params, score_topic, score_topics, scoring_of}
use peekd.Base.Strings.{contains, has_prefix}
use peekd.Gossip.PeerScore.Defaults.{
  default_attestation_topic_params, committees, mesh_topic_params, default_sync_subnet_topic_params,
}
use peekd.Gossip.PeerScore.{score_decay, decay_limit, decay_threshold, in_mesh_cap_time}
use peekd.Base.Int.{quo_duration, to_int64}
use peekd.Eth.{get_slot_duration, get_epoch_duration}
use peekd.Gossip.Service.{join_topics, join_topic}
use peekd.Gossip.Service.Serve.{prune_rounds}
use peekd.Gossip.Handler.{mapping_topic_to_handler}
use peekd.Witness.Fixtures.{names}
use peekd.Witness.Network.{mainnet}
use peekd.Witness.Scoring.{coarse, attestation_topic, sync_topic, in_order, attests, syncs}
use peekd.Witness.Sorting.{scores}

abbrev join : Text → ℕ → ℕ × Result Text
join topic calls = (calls, ok topic)

abbrev new_pubsub : PubsubOptions coarse mainnet names scores → Result ℕ
new_pubsub options = ok 0

abbrev default_params : GossipSubParams
default_params = record {
  d = 6;
  dlo = 5;
  dhi = 12;
  history_length = 5;
  history_gossip = 3;
  heartbeat_interval = pos 1_000_000_000;
}

abbrev topics : List Text
topics = attestation_topic ∷ sync_topic ∷ []

abbrev cut_down : PeerScore
cut_down = record in_order { estimate_active_validators = 512 }

abbrev run :
    PeerScore
    → List (Service Text)
    → Outcome coarse mainnet names scores join join new_pubsub default_params (λ n. n)
run ps services =
    serve coarse mainnet names scores join join new_pubsub default_params (λ n. n) ps services
      topics (ended Error.canceled ∷ [])

-- What the supervisor is given.
abbrev given : List (Service Text)
given =
    record { subscription = attestation_topic; topic_handler = beacon_attestation_handler }
    ∷ record { subscription = sync_topic; topic_handler = sync_committee_handler }
    ∷ []

first_run : run in_order [] ≡ served cut_down given [] (some (err Error.canceled))
unfolding serve params score_topic scoring_of contains default_attestation_topic_params committees
    mesh_topic_params score_decay quo_duration get_slot_duration to_int64 decay_limit
    decay_threshold in_mesh_cap_time default_sync_subnet_topic_params join_topics join_topic
    prune_rounds mapping_topic_to_handler score_topics has_prefix get_epoch_duration
first_run = refl

serve-again_example : run cut_down given ≡ crashed
serve-again_example =
    serve-again coarse mainnet names scores join join new_pubsub default_params (λ n. n)
      attestation_topic sync_topic in_order cut_down [] given topics (ended Error.canceled ∷ []) []
      (some (err Error.canceled)) (attestation_topic ∷ []) [] [] (sync_topic ∷ []) (omega arith)
      (omega arith) (omega arith) attests syncs refl refl first_run given
      (ended Error.canceled ∷ [])
