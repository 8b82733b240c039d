-- ===== src/Gossip/Topics.antt =====
-- `NewGossipSub` of gossip/gossipsub.go: the options, and the list of topics where none is given. The
-- host, the supervisor and the processor are handed on and enter as types; fmt.Sprintf at the topic
-- formats and forks.CreateForkDigest of Prysm are parameters.
pub mod Known
use peekd.Base.{
  ℕ, zero, suc, ◌+◌, Bool, true, false, Option, none, some, List, [], ◌∷◌, ◌++◌, Text, codes, ◌==◌,
  if◌then◌else◌,
}
use peekd.Base.Int.{ℤ, pos}
use peekd.Base.Results.{Error, Result, ok, err, wrapped, ◌>>=◌}
use peekd.Eth.{
  BeaconChainConfig, Params, TopicFormats, GenesisConfig, has_subnets, get_genesis_config,
  get_beacon_chain_config,
}
use peekd.Gossip.PeerScore.{PeerScore, new_peer_score}

-- What the package prints and computes with the code of others.
pub record Printing : Type 0 where
  -- `fmt.Sprintf(format, digest)` and `fmt.Sprintf(format, digest, i)`
  pub sprintf : Text → Text → Text
  pub sprintf_subnet : Text → Text → ℕ → Text
  -- encoder.ProtocolSuffixSSZSnappy
  pub suffix : Text
  pub create_fork_digest : ℤ → Text → Result Text
  pub formats : TopicFormats

module _ (printing : Printing) where
  open printing use {sprintf, sprintf_subnet, suffix, create_fork_digest, formats}

  abbrev pub raw_all_topics : List Text
  raw_all_topics =
      formats.block ∷ formats.blob ∷ formats.aggregate_and_proof ∷ formats.attestation
      ∷ formats.sync_contribution_and_proof ∷ formats.sync_committee ∷ formats.proposer_slashing
      ∷ formats.attester_slashing ∷ formats.bls_to_execution_change ∷ formats.exit ∷ []

  -- `+ "/" + encoder.ProtocolSuffixSSZSnappy`
  abbrev pub with_suffix : Text → Text
  with_suffix topic = topic ++ (codes "/" ++ suffix)

  -- `for i := i; i < i + rounds; i++` over the subnets of a format.
  unfoldable pub subnet_topics : Text → Text → ℕ → ℕ → List Text
  subnet_topics raw_topic fork_digest zero i = []
  subnet_topics raw_topic fork_digest (suc rounds) i =
      with_suffix (sprintf_subnet raw_topic fork_digest i)
      ∷ subnet_topics raw_topic fork_digest rounds (i + 1)

  unfoldable pub topics_of : BeaconChainConfig → Text → Text → List Text
  topics_of c fork_digest raw_topic =
      let (subnet_cnt, has_subnet) = has_subnets c formats raw_topic in
      if has_subnet
      then subnet_topics raw_topic fork_digest subnet_cnt 0
      else with_suffix (sprintf raw_topic fork_digest) ∷ []

  unfoldable pub all_topics : BeaconChainConfig → Text → List Text → List Text
  all_topics c fork_digest [] = []
  all_topics c fork_digest (raw_topic ∷ raw_topics) =
      topics_of c fork_digest raw_topic ++ all_topics c fork_digest raw_topics

  -- The types of the supervisor, the host and the processor.
  module _ (params : Params) (Supervisor Host Processor : Type 0) where
    pub record GossipSubOption : Type 0 where
      pub supervisor : Supervisor
      pub host : Option Host
      pub topics : List Text
      pub estimate_active_validators : ℕ
      pub peer_score_inspect_period : ℤ
      pub message_processor : Option Processor

    abbrev pub GossipSubOptionFunc : Type 0
    GossipSubOptionFunc = GossipSubOption → GossipSubOption

    abbrev pub with_estimate_active_validators : ℕ → GossipSubOptionFunc
    with_estimate_active_validators n o = record o { estimate_active_validators = n }

    abbrev pub with_topics : List Text → GossipSubOptionFunc
    with_topics topics o = record o { topics = topics }

    abbrev pub with_peer_score_inspect_period : ℤ → GossipSubOptionFunc
    with_peer_score_inspect_period period o = record o { peer_score_inspect_period = period }

    abbrev pub with_supervisor : Supervisor → GossipSubOptionFunc
    with_supervisor sup o = record o { supervisor = sup }

    abbrev pub with_host : Host → GossipSubOptionFunc
    with_host h o = record o { host = some h }

    abbrev pub with_message_processor : Processor → GossipSubOptionFunc
    with_message_processor processor o = record o { message_processor = some processor }

    unfoldable pub apply : List GossipSubOptionFunc → GossipSubOption → GossipSubOption
    apply [] o = o
    apply (opt ∷ opts) o = apply opts (opt o)

    -- `suture.NewSimple("gossipSub")` is an argument.
    abbrev pub default_option : Supervisor → GossipSubOption
    default_option supervisor = record {
      supervisor = supervisor;
      host = none;
      topics = [];
      estimate_active_validators = 0;
      peer_score_inspect_period = pos 12_000_000_000;
      message_processor = none;
    }

    pub record GossipSub : Type 0 where
      pub supervisor : Supervisor
      pub host : Host
      pub peer_score : PeerScore
      pub topics : List Text
      pub fork_version : Text
      pub beacon_config : BeaconChainConfig
      pub message_processor : Option Processor

    -- The topics of the option, or all topics of the network.
    unfoldable pub chosen_topics : Text → List Text → Result (List Text)
    chosen_topics network [] = do
      genesis_config ← get_genesis_config params network
      fork_digest ←
          wrapped (codes "failed to create fork digest")
            (create_fork_digest genesis_config.genesis_time genesis_config.genesis_validator_root)
      config ← get_beacon_chain_config params network
      ok (all_topics config fork_digest raw_all_topics)
    chosen_topics network (topic ∷ topics) = ok (topic ∷ topics)

    -- What follows the options. `current_fork_version` is what eth.GetCurrentForkVersion returns.
    unfoldable pub create : Text → Result Text → GossipSubOption → Result GossipSub
    unfolding chosen_topics
    create network current_fork_version o = elim o.host [
      | none ↦ err (Error.new (codes "host must be configured when creating gossipSub"))
      | some host ↦
          if o.estimate_active_validators == 0
          then err (
              Error.new (
                codes
                  "number of estimate active validators must be more than 0 when creating gossipSub"))
          else do
            topics ← chosen_topics network o.topics
            fork_version ← current_fork_version
            config ← get_beacon_chain_config params network
            ok (record {
              supervisor = o.supervisor;
              host = host;
              peer_score =
                  new_peer_score o.estimate_active_validators topics o.peer_score_inspect_period;
              topics = topics;
              fork_version = fork_version;
              beacon_config = config;
              message_processor = o.message_processor;
            })
    ]

    unfoldable pub new_gossip_sub :
        Text → Result Text → Supervisor → List GossipSubOptionFunc → Result GossipSub
    new_gossip_sub network current_fork_version supervisor opts =
        create network current_fork_version (apply opts (default_option supervisor))
