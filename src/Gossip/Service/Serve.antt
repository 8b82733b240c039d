-- ===== src/Gossip/Service/Serve.antt =====
-- `Serve` of gossip/gossipsub.go from start to end: the options of libp2p's gossipsub, the joining of the
-- topics, and the rounds in which peers are pruned until the context ends. libp2p's calls are parameters.
use mathlib.Core.Option.{some-injective}
use peekd.Base.{
  sym, ap, ◌∙◌, ℕ, Option, none, some, List, [], ◌∷◌, ◌++◌, Text, codes, ◌*◌, ◌<◌, ◌≡◌, refl, arith,
}
use peekd.Base.Floats.{Floats}
use peekd.Base.Int.{ℤ}
use peekd.Base.Results.{Error, Result, ok, err, panicked, wrapped, IsOk}
use peekd.Eth.{BeaconChainConfig}
use peekd.Host.{Host}
use peekd.Processor.Topics.{MessageNames}
use peekd.Gossip.PeerScore.{PeerScore}
use peekd.Gossip.PeerScore.Params.{
  PeerScoreParams, PeerScoreThresholds, params, scoring_of, attestations, sync_committees,
}
use peekd.Gossip.PeerScore.Again.{params-again}
use peekd.Gossip.Prune.{Scores, Snapshots, prune}
use peekd.Gossip.Service.{
  GossipSubParams, gossip_sub_params, max_message_size, Service, join_topics,
}

module _ (floats : Floats) (c : BeaconChainConfig) (n : MessageNames) (scores : Scores) where
  open scores use {Score}

  -- The options that depend on the program. Signatures and authors are left out of messages, and the id of
  -- a message is that of Prysm, which counts it as seen.
  pub record PubsubOptions : Type 0 where
    pub sub_params : GossipSubParams
    pub message_size : ℤ
    pub score_params : PeerScoreParams floats c
    pub thresholds : PeerScoreThresholds floats c
    pub inspect_period : ℤ

  -- A round of the goroutine that prunes, with the snapshots and the host at that time and the order that
  -- `sort.Slice` makes; or the end of the context, with its error.
  pub data Round : Type 0 where
    tick : Snapshots scores → Host → (List (Text × Score) → List (Text × Score)) → Round
    ended : Error → Round

  -- The peers that are closed, and what `Serve` returns; `none` while it runs.
  unfoldable pub prune_rounds : List Round → List Text × Option (Result (Unit {0}))
  prune_rounds [] = ([], none)
  prune_rounds (ended e ∷ rounds) = ([], some (err e))
  prune_rounds (tick snapshots h sort ∷ rounds) =
      let (closed, result) = prune_rounds rounds in
      (prune scores sort snapshots h ++ closed, result)

  module _ {Pubsub Topic Subscription : Type 0} (join : Text → Pubsub → Pubsub × Result Topic)
      (subscribe : Topic → Pubsub → Pubsub × Result Subscription)
      (new_pubsub : PubsubOptions → Result Pubsub) (default_params : GossipSubParams)
      (max_compressed_len : ℕ → ℕ) where
    -- What a run leaves: the peer score's state, what the supervisor was given, the peers closed, and what
    -- was returned. Where `params` panics, the state is left open.
    pub data Outcome : Type 0 where
      crashed : Outcome
      served :
          PeerScore → List (Service Subscription) → List Text → Option (Result (Unit {0})) → Outcome

    abbrev pub options_of :
        PeerScore → PeerScoreParams floats c → PeerScoreThresholds floats c → PubsubOptions
    options_of ps score_params thresholds = record {
      sub_params = gossip_sub_params default_params;
      message_size = max_message_size max_compressed_len c;
      score_params = score_params;
      thresholds = thresholds;
      inspect_period = ps.inspect_period;
    }

    -- From the topics on.
    abbrev pub serve_joined :
        PeerScore
        → List Round
        → (Pubsub × List (Service Subscription)) × Result (Unit {0})
        → Outcome
    serve_joined ps rounds ((pubsub, services), ok _) =
        let (closed, result) = prune_rounds rounds in served ps services closed result
    serve_joined ps rounds ((pubsub, services), err e) = served ps services [] (some (err e))
    serve_joined ps rounds ((pubsub, services), panicked) = served ps services [] (some panicked)

    abbrev pub serve_created :
        PeerScore → List (Service Subscription) → List Text → List Round → Result Pubsub → Outcome
    serve_created ps services topics rounds (ok pubsub) =
        serve_joined ps rounds (join_topics n join subscribe topics (pubsub, services))
    serve_created ps services topics rounds (err e) = served ps services [] (some (err e))
    serve_created ps services topics rounds panicked = served ps services [] (some panicked)

    -- `params` has no error of its own.
    abbrev pub serve_scored :
        List (Service Subscription)
        → List Text
        → List Round
        → Result (PeerScore × PeerScoreParams floats c × PeerScoreThresholds floats c)
        → Outcome
    serve_scored services topics rounds (ok (ps, score_params, thresholds)) =
        serve_created ps services topics rounds (
          wrapped (codes "failed to create gossipSub")
            (new_pubsub (options_of ps score_params thresholds)))
    serve_scored services topics rounds (err e) = crashed
    serve_scored services topics rounds panicked = crashed

    unfoldable pub serve :
        PeerScore → List (Service Subscription) → List Text → List Round → Outcome
    serve ps services topics rounds = serve_scored services topics rounds (params floats c n ps)

    abbrev state_of : Outcome → Option PeerScore
    state_of crashed = none
    state_of (served ps services closed result) = some ps

    state_of-serve_joined :
        (ps : PeerScore) (rounds : List Round)
        (joined : (Pubsub × List (Service Subscription)) × Result (Unit {0}))
        → state_of (serve_joined ps rounds joined) ≡ some ps
    state_of-serve_joined ps rounds ((pubsub, services), ok _) = refl
    state_of-serve_joined ps rounds ((pubsub, services), err e) = refl
    state_of-serve_joined ps rounds ((pubsub, services), panicked) = refl

    state_of-serve_created :
        (ps : PeerScore) (services : List (Service Subscription)) (topics : List Text)
        (rounds : List Round) (r : Result Pubsub)
        → state_of (serve_created ps services topics rounds r) ≡ some ps
    state_of-serve_created ps services topics rounds (ok pubsub) =
        state_of-serve_joined ps rounds (join_topics n join subscribe topics (pubsub, services))
    state_of-serve_created ps services topics rounds (err e) = refl
    state_of-serve_created ps services topics rounds panicked = refl

    -- The state that a run leaves is the one that `params` left.
    params-served :
        (ps after : PeerScore) (services : List (Service Subscription)) (topics : List Text)
        (rounds : List Round)
        (r : Result (PeerScore × PeerScoreParams floats c × PeerScoreThresholds floats c))
        → state_of (serve_scored services topics rounds r) ≡ some after
        → (found : PeerScoreParams floats c) × (thresholds : PeerScoreThresholds floats c) × (r
            ≡ ok (after, found, thresholds))
    params-served ps after services topics rounds (ok (left, found, thresholds)) e =
        let same : some left ≡ some after =
          sym (state_of-serve_created left services topics rounds _) ∙ e in
        (found, thresholds, λ i. ok (some-injective left after same i, found, thresholds))
    params-served ps after services topics rounds (err x) e = absurd (ground arith)
    params-served ps after services topics rounds panicked e = absurd (ground arith)

    serve_scored_crashed :
        (services : List (Service Subscription)) (topics : List Text) (rounds : List Round)
        (r : Result (PeerScore × PeerScoreParams floats c × PeerScoreThresholds floats c))
        → ¬ IsOk r
        → serve_scored services topics rounds r ≡ crashed
    serve_scored_crashed services topics rounds (ok r) never = absurd (never tt)
    serve_scored_crashed services topics rounds (err e) never = refl
    serve_scored_crashed services topics rounds panicked never = refl

    -- Where the sync committee has fewer members than attestation subnets times slots per epoch (as on
    -- mainnet) and the list has a topic of sync committees and one of attestations (as the list of all
    -- topics has): once a run of gossipSub's `Serve` has got past `params`, whatever has become of it then,
    -- no later run on the state that it leaves does. Each crashes before it joins a topic.
    pub serve-again :
        (attestation sync : Text) (ps after : PeerScore)
        (services given : List (Service Subscription)) (topics : List Text) (rounds : List Round)
        (closed : List Text) (result : Option (Result (Unit {0})))
        (before_sync after_sync before_attestation after_attestation : List Text)
        → 0 < c.attestation_subnet_count
        → 0 < c.slots_per_epoch
        → c.sync_committee_size < c.attestation_subnet_count * c.slots_per_epoch
        → scoring_of n attestation ≡ attestations
        → scoring_of n sync ≡ sync_committees
        → ps.topics ≡ before_sync ++ (sync ∷ after_sync)
        → ps.topics ≡ before_attestation ++ (attestation ∷ after_attestation)
        → serve ps services topics rounds ≡ served after given closed result
        → (more : List (Service Subscription)) (later : List Round)
        → serve after more topics later ≡ crashed
    unfolding serve
    serve-again attestation sync ps after services given topics rounds closed result before_sync
          after_sync before_attestation after_attestation subnets slots small attests syncs
          with_sync with_attestation first more later =
        let (found, thresholds, scored) =
          params-served ps after services topics rounds (params floats c n ps)
            (ap state_of first) in
        serve_scored_crashed more topics later (params floats c n after) (
          params-again floats c n subnets slots small attestation sync attests syncs ps after found
            thresholds before_sync after_sync before_attestation after_attestation with_sync
            with_attestation scored)
