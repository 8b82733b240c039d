-- ===== src/Gossip/Topics/Known.antt =====
-- Every topic that `NewGossipSub` lists by itself is known to the code that is chosen by a topic.
use mathlib.Core.List.{map, append_assoc}
use peekd.Base.{
  ◌==◌, false, ◌<◌, some, ℕ, zero, suc, ◌+◌, ◌≡◌, ◌≢◌, refl, ap, ◌∙◌, true, All, All-append, List,
  [], ◌∷◌, ◌++◌, Text, codes, arith, Bool-cases, inl, inr,
}
use peekd.Base.Strings.{contains, contains-append}
use peekd.Base.Results.{IsOk, ok_of, Result, ok}
use peekd.Eth.{
  get_beacon_chain_config, get_genesis_config, Params, has_subnets, TopicFormats, BeaconChainConfig,
}
use peekd.Gossip.Destination.{noop_handler}
use peekd.Gossip.Handler.{mapping_topic_to_handler}
use peekd.Gossip.PeerScore.Params.{
  bls_changes, attester_slashings, proposer_slashings, sync_committees, contributions, exits,
  contributions, attestations, aggregates, blobs, blocks, Scoring, scoring_of, unknown_topic,
}
use peekd.Gossip.PeerScore.{new_peer_score}
use peekd.Gossip.Topics.{
  create, GossipSub, ℤ, default_option, apply, GossipSubOption, GossipSubOptionFunc, Result,
  new_peer_score, chosen_topics, new_gossip_sub, Printing, with_suffix, subnet_topics, topics_of,
  all_topics, raw_all_topics,
}
use peekd.Processor.Topics.{MessageNames}

-- The ten kinds of topics, in the order of the list of formats.
abbrev pub kinds : List Scoring
kinds =
    blocks ∷ blobs ∷ aggregates ∷ attestations ∷ contributions ∷ sync_committees
    ∷ proposer_slashings ∷ attester_slashings ∷ bls_changes ∷ exits ∷ []

abbrev pub name_of : MessageNames → Scoring → Text
name_of n blocks = n.block
name_of n blobs = n.blob_sidecar
name_of n aggregates = n.aggregate_and_proof
name_of n attestations = n.attestation
name_of n contributions = n.contribution_and_proof
name_of n sync_committees = n.sync_committee
name_of n proposer_slashings = n.proposer_slashing
name_of n attester_slashings = n.attester_slashing
name_of n bls_changes = n.bls_to_execution_change
name_of n exits = n.exit
name_of n unknown_topic = []

abbrev pub format_of : TopicFormats → Scoring → Text
format_of f blocks = f.block
format_of f blobs = f.blob
format_of f aggregates = f.aggregate_and_proof
format_of f attestations = f.attestation
format_of f contributions = f.sync_contribution_and_proof
format_of f sync_committees = f.sync_committee
format_of f proposer_slashings = f.proposer_slashing
format_of f attester_slashings = f.attester_slashing
format_of f bls_changes = f.bls_to_execution_change
format_of f exits = f.exit
format_of f unknown_topic = []

kinds_known : All (λ k. k ≢ unknown_topic) kinds
kinds_known = ground arith

module _ (n : MessageNames) where
  -- A topic for which there is a handler, and parameters for scoring.
  abbrev pub IsKnown : Text → Type 0
  IsKnown topic =
      (mapping_topic_to_handler n topic ≢ noop_handler) × (scoring_of n topic ≢ unknown_topic)

  contains-IsKnown :
      (k : Scoring) (topic : Text)
      → k ≢ unknown_topic
      → contains topic (name_of n k) ≡ true
      → IsKnown topic
  unfolding mapping_topic_to_handler scoring_of
  contains-IsKnown blocks topic known e = (ground arith, ground arith)
  contains-IsKnown unknown_topic topic known e = absurd (known refl)
  contains-IsKnown _ topic known e = (ground arith, ground arith)

  module _ (printing : Printing) where
    open printing use {sprintf, sprintf_subnet, formats}

    -- What is printed at a format contains the name of the format's kind, with any digest and subnet.
    abbrev pub Prints : Scoring → Type 0
    Prints k =
        ((digest : Text)
          → (before : Text) × (after : Text) × (sprintf (format_of formats k) digest
              ≡ before ++ (name_of n k ++ after)))
        × ((digest : Text) (i : ℕ)
            → (before : Text) × (after : Text) × (sprintf_subnet (format_of formats k) digest i
                ≡ before ++ (name_of n k ++ after)))

    printed-IsKnown :
        (k : Scoring) (printed before after : Text)
        → k ≢ unknown_topic
        → printed ≡ before ++ (name_of n k ++ after)
        → IsKnown (with_suffix printing printed)
    printed-IsKnown k printed before after known e =
        let rest = codes "/" ++ printing.suffix in
        let regrouped : printed ++ rest ≡ before ++ (name_of n k ++ (after ++ rest)) =
          ap (λ t. t ++ rest) e
          ∙ append_assoc before (name_of n k ++ after) rest
          ∙ ap (λ t. before ++ t) (append_assoc (name_of n k) after rest) in
        contains-IsKnown k (with_suffix printing printed) known
          (rw regrouped (contains-append before (name_of n k) (after ++ rest)))

    subnet_topics-IsKnown :
        (k : Scoring) (digest : Text) (rounds i : ℕ)
        → k ≢ unknown_topic
        → Prints k
        → All IsKnown (subnet_topics printing (format_of formats k) digest rounds i)
    unfolding subnet_topics
    subnet_topics-IsKnown k digest zero i known prints = tt
    subnet_topics-IsKnown k digest (suc rounds) i known prints =
        let (before, after, e) = prints.1 digest i in
        (
          printed-IsKnown k _ before after known e,
          subnet_topics-IsKnown k digest rounds (i + 1) known prints,
        )

    topics_of-IsKnown :
        (c : BeaconChainConfig) (k : Scoring) (digest : Text)
        → k ≢ unknown_topic
        → Prints k
        → All IsKnown (topics_of printing c digest (format_of formats k))
    unfolding topics_of
    topics_of-IsKnown c k digest known prints =
        let (subnets, has_subnet) = has_subnets c formats (format_of formats k) in
        let (before, after, e) = prints.0 digest in
        elim (Bool-cases has_subnet) [
          | inl h ↦ rw h (subnet_topics-IsKnown k digest subnets 0 known prints)
          | inr h ↦ rw h (printed-IsKnown k _ before after known e, tt)
        ]

    all_topics-IsKnown :
        (c : BeaconChainConfig) (digest : Text) (ks : List Scoring)
        → All (λ k. k ≢ unknown_topic) ks
        → All Prints ks
        → All IsKnown (all_topics printing c digest (map (format_of formats) ks))
    unfolding all_topics
    all_topics-IsKnown c digest [] known prints = tt
    all_topics-IsKnown c digest (k ∷ ks) known prints =
        All-append IsKnown _ _ (topics_of-IsKnown c k digest known.0 prints.0)
          (all_topics-IsKnown c digest ks known.1 prints.1)

    create-IsKnown :
        (params : Params) {Supervisor Host Processor : Type 0} (network : Text)
        (current_fork_version : Result Text) (host : Host)
        (o : GossipSubOption printing params Supervisor Host Processor)
        → o.host ≡ some host
        → 0 < o.estimate_active_validators
        → o.topics ≡ []
        → IsOk (get_genesis_config params network)
        → IsOk (get_beacon_chain_config params network)
        → ((time : ℤ) (root : Text) → IsOk (printing.create_fork_digest time root))
        → IsOk current_fork_version
        → All Prints kinds
        → (gs : GossipSub printing params Supervisor Host Processor) × (create printing params
              Supervisor Host Processor network current_fork_version o
            ≡ ok gs)
          × All IsKnown gs.topics
          × (gs.peer_score.topics ≡ gs.topics)
    unfolding create chosen_topics new_peer_score
    create-IsKnown params {Supervisor} {Host} {Processor} network current host o hosted positive
          listed genesis config digest version prints =
        let (g, g-eq) = ok_of _ genesis in
        let (c, c-eq) = ok_of _ config in
        let (d, d-eq) = ok_of _ (digest g.genesis_time g.genesis_validator_root) in
        let (v, v-eq) = ok_of _ version in
        let positive-eq : (o.estimate_active_validators == 0) ≡ false = ground arith in
        let topics = all_topics printing c d (raw_all_topics printing) in
        let gs : GossipSub printing params Supervisor Host Processor = record {
          supervisor = o.supervisor;
          host = host;
          peer_score =
              new_peer_score o.estimate_active_validators topics o.peer_score_inspect_period;
          topics = topics;
          fork_version = v;
          beacon_config = c;
          message_processor = o.message_processor;
        } in
        (
          gs,
          rw (hosted, positive-eq, listed, g-eq, d-eq, c-eq, v-eq) refl,
          all_topics-IsKnown c d kinds kinds_known prints,
          refl,
        )

    -- Where the option has a host, an estimate above 0 and no topics, and the fork digest, the fork version
    -- and the configuration of the network are there, `NewGossipSub` returns. Each of its topics has a
    -- handler and a case in the scoring, and the scores are computed for these topics.
    pub new_gossip_sub-IsKnown :
        (params : Params) {Supervisor Host Processor : Type 0} (network : Text)
        (current_fork_version : Result Text) (supervisor : Supervisor)
        (opts : List (GossipSubOptionFunc printing params Supervisor Host Processor)) (host : Host)
        (o : GossipSubOption printing params Supervisor Host Processor)
        → apply printing params Supervisor Host Processor opts
            (default_option printing params Supervisor Host Processor supervisor)
          ≡ o
        → o.host ≡ some host
        → 0 < o.estimate_active_validators
        → o.topics ≡ []
        → IsOk (get_genesis_config params network)
        → IsOk (get_beacon_chain_config params network)
        → ((time : ℤ) (root : Text) → IsOk (printing.create_fork_digest time root))
        → IsOk current_fork_version
        → All Prints kinds
        → (gs : GossipSub printing params Supervisor Host Processor) × (new_gossip_sub printing
              params Supervisor Host Processor network current_fork_version supervisor opts
            ≡ ok gs)
          × All IsKnown gs.topics
          × (gs.peer_score.topics ≡ gs.topics)
    unfolding new_gossip_sub
    new_gossip_sub-IsKnown params {Supervisor} {Host} {Processor} network current supervisor opts
          host o applied hosted positive listed genesis config digest version prints =
        let (gs, e, known, same) =
          create-IsKnown params network current host o hosted positive listed genesis config digest
            version prints in
        (
          gs,
          ap (create printing params Supervisor Host Processor network current) applied ∙ e,
          known,
          same,
        )
