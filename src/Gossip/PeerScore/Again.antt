-- ===== src/Gossip/PeerScore/Again.antt =====
-- `params` called a second time: the estimate of validators that the first call has cut down is too small
-- for the attestation topics.
use peekd.Base.{
  ℕ, ◌*◌, ◌≤◌, ◌<◌, ◌≡◌, ap, ◌∙◌, sym, arith, List, [], ◌∷◌, ◌++◌, Text, Text-discrete,
}
use peekd.Base.Floats.{Floats}
use peekd.Base.Maps.{put}
use peekd.Base.Results.{IsOk, ok, bind-ok, ok-inj, ok_of}
use peekd.Eth.{BeaconChainConfig, get_epoch_duration}
use peekd.Base.Int.{times}
use peekd.Gossip.PeerScore.{score_decay}
use mathlib.Core.Path.{subst}
use peekd.Processor.Topics.{MessageNames}
use peekd.Gossip.PeerScore.{PeerScore}
use peekd.Gossip.PeerScore.Defaults.{TopicScoreParams}
use peekd.Gossip.PeerScore.Params.{
  attestations, sync_committees, scoring_of, score_topic, score_topics, TopicParams, params,
  PeerScoreParams, PeerScoreThresholds,
}
use peekd.Gossip.PeerScore.Order.{IsSmall, score_topic-le, sync_subnet_cut, score_topics_small}

module _ (floats : Floats) (c : BeaconChainConfig) (n : MessageNames) where
  -- The first topic and the rest, where the loop returns.
  score_topics-uncons :
      (topic : Text) (topics : List Text) (estimate : ℕ) (found : TopicParams floats c)
      (r : ℕ × TopicParams floats c)
      → score_topics floats c n (topic ∷ topics) estimate found ≡ ok r
      → (scored : ℕ × TopicScoreParams floats) × (score_topic floats c (scoring_of n topic) estimate
          ≡ ok scored)
        × (score_topics floats c n topics scored.0 (put Text-discrete topic scored.1 found) ≡ ok r)
  unfolding score_topics
  score_topics-uncons topic topics estimate found r e =
      bind-ok (score_topic floats c (scoring_of n topic) estimate)
        (λ scored. score_topics floats c n topics scored.0 (put Text-discrete topic scored.1 found))
        r e

  score_topics-le :
      (topics : List Text) (estimate : ℕ) (found : TopicParams floats c)
      (r : ℕ × TopicParams floats c)
      → score_topics floats c n topics estimate found ≡ ok r
      → r.0 ≤ estimate
  score_topics-le [] estimate found r e = unfold score_topics in ground arith
  score_topics-le (topic ∷ topics) estimate found r e =
      let (scored, first, rest) = score_topics-uncons topic topics estimate found r e in
      let less = score_topic-le floats c (scoring_of n topic) estimate scored first in
      let rest_less = score_topics-le topics scored.0 _ r rest in omega arith

  module _ (subnets : 0 < c.attestation_subnet_count) (slots : 0 < c.slots_per_epoch)
      (small_committee : c.sync_committee_size < c.attestation_subnet_count * c.slots_per_epoch)
      (attestation sync : Text) (attests : scoring_of n attestation ≡ attestations)
      (syncs : scoring_of n sync ≡ sync_committees) where
    score_topics-IsSmall :
        (before after : List Text) (estimate : ℕ) (found : TopicParams floats c)
        (r : ℕ × TopicParams floats c)
        → score_topics floats c n (before ++ (sync ∷ after)) estimate found ≡ ok r
        → IsSmall floats c r.0
    score_topics-IsSmall [] after estimate found r e =
        let (scored, first, rest) = score_topics-uncons sync after estimate found r e in
        let cut =
          sync_subnet_cut floats c n subnets slots small_committee attestation attests sync estimate
            scored syncs first in
        let less = score_topics-le after scored.0 _ r rest in omega arith
    score_topics-IsSmall (topic ∷ before) after estimate found r e =
        let (scored, first, rest) =
          score_topics-uncons topic (before ++ (sync ∷ after)) estimate found r e in
        score_topics-IsSmall before after scored.0 _ r rest

    params-estimate :
        (ps after : PeerScore) (found : PeerScoreParams floats c)
        (thresholds : PeerScoreThresholds floats c)
        → params floats c n ps ≡ ok (after, found, thresholds)
        → (scored : ℕ × TopicParams floats c) × (score_topics floats c n ps.topics
              ps.estimate_active_validators []
            ≡ ok scored)
          × (record ps { estimate_active_validators = scored.0 } ≡ after)
    unfolding params
    params-estimate ps after found thresholds e =
        let (scored, first, rest) =
          bind-ok (score_topics floats c n ps.topics ps.estimate_active_validators []) _ _ e in
        let (decay, second, last) =
          bind-ok (score_decay floats c (times 10 (get_epoch_duration c))) _ _ rest in
        (scored, first, ap (λ r. r.0) (ok-inj last))

    -- Where the sync committee has fewer members than attestation subnets times slots per epoch (as on
    -- mainnet): if the list has a topic of sync committees and one of attestations, in whatever order, and
    -- `params` returns, then it never returns again for the state that it has left.
    pub params-again :
        (ps after : PeerScore) (found : PeerScoreParams floats c)
        (thresholds : PeerScoreThresholds floats c) (before_sync after_sync : List Text)
        (before_attestation after_attestation : List Text)
        → ps.topics ≡ before_sync ++ (sync ∷ after_sync)
        → ps.topics ≡ before_attestation ++ (attestation ∷ after_attestation)
        → params floats c n ps ≡ ok (after, found, thresholds)
        → ¬ IsOk (params floats c n after)
    unfolding params
    params-again ps after found thresholds before_sync after_sync before_attestation
          after_attestation with_sync with_attestation e returns =
        let (scored, first, same) = params-estimate ps after found thresholds e in
        let small : IsSmall floats c scored.0 =
          score_topics-IsSmall before_sync after_sync ps.estimate_active_validators [] scored (
            ap (λ topics. score_topics floats c n topics ps.estimate_active_validators [])
              (sym with_sync)
            ∙ first) in
        let (r, again) =
          ok_of (params floats c n (record ps { estimate_active_validators = scored.0 }))
            (subst (λ p. IsOk (params floats c n p)) (sym same) returns) in
        let (second, never, _) =
          bind-ok (score_topics floats c n ps.topics scored.0 []) _ r again in
        score_topics_small floats c n subnets slots small_committee attestation attests
          before_attestation after_attestation scored.0 [] second small
          (ap (λ topics. score_topics floats c n topics scored.0 []) (sym with_attestation) ∙ never)
