-- ===== src/Gossip/PeerScore/Total/Returns.antt =====
-- `params` returns, with parameters for every topic.
use peekd.Base.{
  if_neg, if_pos, ℕ, ◌*◌, ◌^◌, ◌≤◌, ◌<◌, ◌≡◌, ◌≢◌, ◌⊎◌, refl, ◌∙◌, arith, inl, inr, All, List, [],
  ◌∷◌, Text, Text-discrete, none, ite,
}
use peekd.Base.Floats.{Floats}
use peekd.Base.Maps.{get, put, get-put, get-put_self}
use peekd.Base.Results.{Result, ok, IsOk, ok_of, Result-cases}
use peekd.Eth.{BeaconChainConfig}
use peekd.Processor.Topics.{MessageNames}
use peekd.Gossip.PeerScore.{PeerScore}
use peekd.Gossip.PeerScore.Defaults.{
  default_voluntary_exit_topic_params, default_bls_to_execution_change_topic_params,
  default_attester_slashing_topic_params, default_proposer_slashing_topic_params, TopicScoreParams,
  cut_estimate,
}
use peekd.Gossip.PeerScore.Params.{
  keeping, Scoring, blocks, blobs, aggregates, attestations, contributions, sync_committees,
  proposer_slashings, attester_slashings, bls_changes, exits, unknown_topic, scoring_of,
  score_topic, score_topics, TopicParams, params, PeerScoreParams, PeerScoreThresholds,
}
use peekd.Gossip.PeerScore.Order.{sync_subnet-le}
use peekd.Gossip.PeerScore.Total.{
  IsUsable, default_topic_params-IsOk, rare_topic_params-IsOk, aggregate-IsOk, contribution-IsOk,
  score_decay-epochs,
}
use peekd.Gossip.PeerScore.Total.Loop.{attestation-IsOk, sync-IsOk}

Scoring-discrete : Discrete Scoring
Scoring-discrete = hlevel

abbrev pub LacksAttestations : MessageNames → List Text → Type 0
LacksAttestations n = All (λ topic. scoring_of n topic ≢ attestations)

-- No attestation topic stands behind a topic of sync committees.
abbrev pub IsInOrder : MessageNames → List Text → Type 0
IsInOrder n [] = Unit
IsInOrder n (topic ∷ topics) =
    (scoring_of n topic ≡ sync_committees → LacksAttestations n topics) × IsInOrder n topics

module _ (floats : Floats) (c : BeaconChainConfig) (u : IsUsable floats c) where
  abbrev pub IsEnough : ℕ → Type 0
  IsEnough estimate = 3 * c.sync_committee_subnet_count ≤ estimate

  abbrev pub IsPlenty : ℕ → Type 0
  IsPlenty estimate = 3 * c.attestation_subnet_count * c.slots_per_epoch ≤ estimate

  keeping-IsOk :
      (estimate : ℕ) (found : Result (TopicScoreParams floats))
      → IsOk found
      → IsOk (keeping floats c estimate found)
  keeping-IsOk estimate found h = let (p, e) = ok_of found h in rw e tt

  score_topic-IsOk :
      (k : Scoring) (estimate : ℕ)
      → IsEnough estimate
      → estimate < 2 ^ 63
      → (k ≡ attestations → IsPlenty estimate)
      → IsOk (score_topic floats c k estimate)
  unfolding score_topic default_proposer_slashing_topic_params
      default_attester_slashing_topic_params default_bls_to_execution_change_topic_params
      default_voluntary_exit_topic_params
  score_topic-IsOk blocks estimate enough fits plenty =
      keeping-IsOk estimate _ (default_topic_params-IsOk floats c u)
  score_topic-IsOk blobs estimate enough fits plenty =
      keeping-IsOk estimate _ (default_topic_params-IsOk floats c u)
  score_topic-IsOk aggregates estimate enough fits plenty =
      keeping-IsOk estimate _ (aggregate-IsOk floats c u estimate)
  score_topic-IsOk attestations estimate enough fits plenty =
      keeping-IsOk estimate _ (attestation-IsOk floats c u estimate (plenty refl) fits)
  score_topic-IsOk contributions estimate enough fits plenty =
      keeping-IsOk estimate _ (contribution-IsOk floats c u)
  score_topic-IsOk sync_committees estimate enough fits plenty =
      sync-IsOk floats c u estimate enough fits
  score_topic-IsOk proposer_slashings estimate enough fits plenty =
      keeping-IsOk estimate _ (rare_topic_params-IsOk floats c u _ _ _)
  score_topic-IsOk attester_slashings estimate enough fits plenty =
      keeping-IsOk estimate _ (rare_topic_params-IsOk floats c u _ _ _)
  score_topic-IsOk bls_changes estimate enough fits plenty =
      keeping-IsOk estimate _ (rare_topic_params-IsOk floats c u _ _ _)
  score_topic-IsOk exits estimate enough fits plenty =
      keeping-IsOk estimate _ (rare_topic_params-IsOk floats c u _ _ _)
  score_topic-IsOk unknown_topic estimate enough fits plenty = tt

  -- The estimate after a topic: cut down for sync committees, and else as before.
  score_topic_estimate :
      (k : Scoring) (estimate : ℕ) (scored : ℕ × TopicScoreParams floats)
      → score_topic floats c k estimate ≡ ok scored
      → scored.0
        ≡ ite (Scoring-discrete k sync_committees) (cut_estimate floats c estimate) estimate
  unfolding score_topic Scoring-discrete
  score_topic_estimate sync_committees estimate scored e = sync_subnet-le floats c estimate scored e
  score_topic_estimate _ estimate scored e = ground arith

  cut_estimate_suffices :
      (estimate : ℕ)
      → IsEnough estimate
      → IsEnough (cut_estimate floats c estimate) × (cut_estimate floats c estimate ≤ estimate)
  cut_estimate_suffices estimate enough = ground (arith, u.sync_members)

  score_topics-IsOk :
      (n : MessageNames) (topics : List Text) (estimate : ℕ) (found : TopicParams floats c)
      → IsEnough estimate
      → estimate < 2 ^ 63
      → IsPlenty estimate ⊎ LacksAttestations n topics
      → IsInOrder n topics
      → IsOk (score_topics floats c n topics estimate found)
  unfolding score_topics
  score_topics-IsOk n [] estimate found enough fits many order = tt
  score_topics-IsOk n (topic ∷ topics) estimate found enough fits many order =
      let k = scoring_of n topic in
      let plenty : k ≡ attestations → IsPlenty estimate =
        λ att. elim many [ inl big ↦ big | inr lacks ↦ absurd (lacks.0 att) ] in
      let (scored, e) = ok_of _ (score_topic-IsOk k estimate enough fits plenty) in
      let after = score_topic_estimate k estimate scored e in
      let rest = put Text-discrete topic scored.1 found in
      rw e (elim (Scoring-discrete k sync_committees) [
        | yes syncs ↦
            let cut : scored.0 ≡ cut_estimate floats c estimate =
              after
              ∙ if_pos (Scoring-discrete k sync_committees) syncs (cut_estimate floats c estimate)
                  estimate in
            score_topics-IsOk n topics scored.0 rest
              (omega (arith, cut, cut_estimate_suffices estimate enough))
              (omega (arith, cut, cut_estimate_suffices estimate enough)) (inr (order.0 syncs))
              order.1
        | no other ↦
            let same : scored.0 ≡ estimate =
              after
              ∙ if_neg (Scoring-discrete k sync_committees) other (cut_estimate floats c estimate)
                  estimate in
            score_topics-IsOk n topics scored.0 rest (omega (arith, same)) (omega (arith, same))
              (elim many [ inl big ↦ inl (omega (arith, same, big)) | inr lacks ↦ inr lacks.1 ])
              order.1
      ])

module _ (floats : Floats) (c : BeaconChainConfig) (n : MessageNames) where
  abbrev HasAll : List Text → TopicParams floats c → Type 0
  HasAll topics found = All (λ t. get Text-discrete t found ≢ none) topics

  -- One more topic: what is found stays found, and the topic is found.
  score_topics-step :
      (topic : Text) (topics : List Text) (estimate : ℕ) (found : TopicParams floats c)
      (r : ℕ × TopicParams floats c)
      → score_topics floats c n (topic ∷ topics) estimate found ≡ ok r
      → (scored : ℕ × TopicScoreParams floats) × (score_topics floats c n topics scored.0
            (put Text-discrete topic scored.1 found)
          ≡ ok r)
  unfolding score_topics
  score_topics-step topic topics estimate found r =
      elim (Result-cases (score_topic floats c (scoring_of n topic) estimate)) [
        | inl (scored, f) ↦ rw f (λ e. (scored, e))
        | inr (inl (_, f)) ↦ rw f (ground arith)
        | inr (inr f) ↦ rw f (ground arith)
      ]

  score_topics-get :
      (topics : List Text) (estimate : ℕ) (found : TopicParams floats c)
      (r : ℕ × TopicParams floats c)
      → score_topics floats c n topics estimate found ≡ ok r
      → ((t : Text) → get Text-discrete t found ≢ none → get Text-discrete t r.1 ≢ none)
        × HasAll topics r.1
  unfolding score_topics
  score_topics-get [] estimate found r e = (λ t h. ground arith, tt)
  score_topics-get (topic ∷ topics) estimate found r e =
      let (scored, f) = score_topics-step topic topics estimate found r e in
      let (kept, all) =
        score_topics-get topics scored.0 (put Text-discrete topic scored.1 found) r f in
      (
        λ t h. kept t (ground (arith, get-put Text-discrete topic t scored.1 found)),
        (kept topic (ground (arith, get-put_self Text-discrete topic scored.1 found)), all),
      )

  -- The parameters that `params` returns are those that the loop has found.
  params-get :
      (ps : PeerScore) (r : PeerScore × PeerScoreParams floats c × PeerScoreThresholds floats c)
      → params floats c n ps ≡ ok r
      → HasAll ps.topics r.1.topics
  unfolding params
  params-get ps r e =
      let loop = score_topics floats c n ps.topics ps.estimate_active_validators [] in
      elim (Result-cases loop) [
        | inl (s, f) ↦
            let same : r.1.topics ≡ s.1 = ground arith in
            rw same (score_topics-get ps.topics ps.estimate_active_validators [] s f).1
        | inr (inl (_, f)) ↦ ground arith
        | inr (inr f) ↦ ground arith
      ]

  -- Where the configuration is usable, the estimate of validators is below 2^63 and at least three per
  -- attestation subnet and slot and three per sync committee subnet, and no attestation topic stands
  -- behind a sync committee topic, `params` returns, without a panic, with parameters for every topic.
  pub params-ok :
      (ps : PeerScore)
      → IsUsable floats c
      → 3 * c.attestation_subnet_count * c.slots_per_epoch ≤ ps.estimate_active_validators
      → 3 * c.sync_committee_subnet_count ≤ ps.estimate_active_validators
      → ps.estimate_active_validators < 2 ^ 63
      → IsInOrder n ps.topics
      → (r : PeerScore × PeerScoreParams floats c × PeerScoreThresholds floats c) × (params floats c
            n ps
          ≡ ok r)
        × All (λ t. get Text-discrete t r.1.topics ≢ none) ps.topics
  unfolding params
  params-ok ps u plenty enough fits order =
      let (s, f) = ok_of _ (
        score_topics-IsOk floats c u n ps.topics ps.estimate_active_validators [] enough fits
          (inl plenty) order) in
      let (r, e) =
        ok_of (params floats c n ps) (rw (f, score_decay-epochs floats c u 10 (omega arith)) tt) in
      (r, e, params-get ps r e)
