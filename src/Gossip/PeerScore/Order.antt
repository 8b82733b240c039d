-- ===== src/Gossip/PeerScore/Order.antt =====
-- The order of the topics matters: the case of sync committees cuts the estimate of validators down to
-- the size of the sync committee, and the case of attestations panics where that is too few.
use peekd.Base.{
  ℕ, suc, ◌*◌, ◌/◌, ◌≤◌, ◌<◌, ◌≡◌, ◌≢◌, refl, ap, ◌∙◌, arith, List, [], ◌∷◌, ◌++◌, Text,
  zero-or-suc, inl, inr, sym,
}
use native.Mathlib.Nat.{div-eq_of_lt, div-lt_iff_lt-mul, mul_comm}
use peekd.Gossip.PeerScore.Committees.{quo_uint-pos}
use peekd.Base.Floats.{Floats}
use peekd.Base.Results.{IsOk, ok, panicked, Result-cases}
use peekd.Eth.{BeaconChainConfig}
use peekd.Processor.Topics.{MessageNames}
use peekd.Gossip.PeerScore.{PeerScore}
use peekd.Gossip.PeerScore.Defaults.{
  TopicScoreParams, default_attestation_topic_params, default_sync_subnet_topic_params,
  cut_estimate,
}
use peekd.Gossip.PeerScore.Params.{
  Scoring, blocks, attestations, sync_committees, scoring_of, score_topic, score_topics,
  TopicParams, params,
}

module _ (floats : Floats) (c : BeaconChainConfig) where
  -- Too few validators for attestations.
  abbrev pub IsSmall : ℕ → Type 0
  IsSmall estimate = estimate < c.attestation_subnet_count * c.slots_per_epoch

  attestation_small :
      (estimate : ℕ)
      → 0 < c.attestation_subnet_count
      → 0 < c.slots_per_epoch
      → IsSmall estimate
      → default_attestation_topic_params floats c estimate ≡ panicked
  unfolding default_attestation_topic_params
  attestation_small estimate subnets slots small =
      let per_subnet = estimate / c.attestation_subnet_count in
      let none_left : per_subnet / c.slots_per_epoch ≡ 0 = div-eq_of_lt (
        (div-lt_iff_lt-mul subnets).1
          (omega (arith, mul_comm c.attestation_subnet_count c.slots_per_epoch))) in
      elim (zero-or-suc per_subnet) [
        | inl e ↦ rw (quo_uint-pos estimate c.attestation_subnet_count subnets, e) refl
        | inr (m, e) ↦
            let last : suc m / c.slots_per_epoch ≡ 0 =
              ap (λ k. k / c.slots_per_epoch) (sym e) ∙ none_left in
            rw
              (
                quo_uint-pos estimate c.attestation_subnet_count subnets,
                e,
                quo_uint-pos (suc m) c.slots_per_epoch slots,
                last,
              )
              refl
      ]

  pub sync_subnet-le :
      (estimate : ℕ) (scored : ℕ × TopicScoreParams floats)
      → default_sync_subnet_topic_params floats c estimate ≡ ok scored
      → scored.0 ≡ cut_estimate floats c estimate
  unfolding default_sync_subnet_topic_params
  sync_subnet-le estimate scored e = ground arith

  pub score_topic-le :
      (k : Scoring) (estimate : ℕ) (scored : ℕ × TopicScoreParams floats)
      → score_topic floats c k estimate ≡ ok scored
      → scored.0 ≤ estimate
  unfolding score_topic
  score_topic-le blocks estimate scored e = ground arith
  score_topic-le sync_committees estimate scored e =
      ground (arith, sync_subnet-le estimate scored e)
  score_topic-le _ estimate scored e = ground arith

  module _ (n : MessageNames) (subnets : 0 < c.attestation_subnet_count)
      (slots : 0 < c.slots_per_epoch)
      (small_committee : c.sync_committee_size < c.attestation_subnet_count * c.slots_per_epoch)
      (attestation : Text) (attests : scoring_of n attestation ≡ attestations) where
    attestation_never :
        (estimate : ℕ) (scored : ℕ × TopicScoreParams floats)
        → IsSmall estimate
        → score_topic floats c (scoring_of n attestation) estimate ≢ ok scored
    unfolding score_topic
    attestation_never estimate scored small =
        rw (attests, attestation_small estimate subnets slots small) (ground arith)

    pub sync_subnet_cut :
        (sync : Text) (estimate : ℕ) (scored : ℕ × TopicScoreParams floats)
        → scoring_of n sync ≡ sync_committees
        → score_topic floats c (scoring_of n sync) estimate ≡ ok scored
        → IsSmall scored.0
    unfolding score_topic
    sync_subnet_cut sync estimate scored syncs e =
        let cut : scored.0 ≡ cut_estimate floats c estimate =
          sync_subnet-le estimate scored
            (ap (λ k. score_topic floats c k estimate) (sym syncs) ∙ e) in
        ground arith

    -- One more topic: what the rest does not return, the whole does not.
    score_topics-cons :
        (topic : Text) (topics : List Text) (estimate : ℕ) (found : TopicParams floats c)
        → ((scored : ℕ × TopicScoreParams floats) (more : TopicParams floats c)
              (r : ℕ × TopicParams floats c)
            → score_topic floats c (scoring_of n topic) estimate ≡ ok scored
            → score_topics floats c n topics scored.0 more ≢ ok r)
        → (r : ℕ × TopicParams floats c)
        → score_topics floats c n (topic ∷ topics) estimate found ≢ ok r
    unfolding score_topics
    score_topics-cons topic topics estimate found rest r =
        elim (Result-cases (score_topic floats c (scoring_of n topic) estimate)) [
          | inl (scored, e) ↦ rw e (rest scored _ r e)
          | inr (inl (_, e)) ↦ rw e (ground arith)
          | inr (inr e) ↦ rw e (ground arith)
        ]

    pub score_topics_small :
        (middle after : List Text) (estimate : ℕ) (found : TopicParams floats c)
        (r : ℕ × TopicParams floats c)
        → IsSmall estimate
        → score_topics floats c n (middle ++ (attestation ∷ after)) estimate found ≢ ok r
    score_topics_small [] after estimate found r small =
        score_topics-cons attestation after estimate found
          (λ scored more s e. absurd (attestation_never estimate scored small e)) r
    score_topics_small (topic ∷ middle) after estimate found r small =
        score_topics-cons topic (middle ++ (attestation ∷ after)) estimate found
          (λ scored more s e.
            let less = score_topic-le (scoring_of n topic) estimate scored e in
            score_topics_small middle after scored.0 more s (omega arith))
          r

    score_topics_late :
        (sync : Text) (before middle after : List Text) (estimate : ℕ)
        (found : TopicParams floats c) (r : ℕ × TopicParams floats c)
        → scoring_of n sync ≡ sync_committees
        → score_topics floats c n
            (before ++ (sync ∷ (middle ++ (attestation ∷ after))))
            estimate
            found
          ≢ ok r
    score_topics_late sync [] middle after estimate found r syncs =
        score_topics-cons sync (middle ++ (attestation ∷ after)) estimate found
          (λ scored more s e.
            score_topics_small middle after scored.0 more s
              (sync_subnet_cut sync estimate scored syncs e))
          r
    score_topics_late sync (topic ∷ before) middle after estimate found r syncs =
        score_topics-cons topic (before ++ (sync ∷ (middle ++ (attestation ∷ after)))) estimate
          found
          (λ scored more s e. score_topics_late sync before middle after scored.0 more s syncs) r

    -- Where the sync committee has fewer members than attestation subnets times slots per epoch (as on
    -- mainnet), `params` does not return if an attestation topic stands behind a sync committee topic in
    -- the list, however many validators are estimated.
    pub params-not_ok :
        (ps : PeerScore) (sync : Text) (before middle after : List Text)
        → scoring_of n sync ≡ sync_committees
        → ps.topics ≡ before ++ (sync ∷ (middle ++ (attestation ∷ after)))
        → ¬ IsOk (params floats c n ps)
    unfolding params
    params-not_ok ps sync before middle after syncs listed returns =
        elim (Result-cases (score_topics floats c n ps.topics ps.estimate_active_validators [])) [
          | inl (scored, f) ↦
              score_topics_late sync before middle after ps.estimate_active_validators [] scored
                syncs
                (ap (λ topics. score_topics floats c n topics ps.estimate_active_validators [])
                    (sym listed)
                  ∙ f)
          | inr (inl (_, f)) ↦ ground arith
          | inr (inr f) ↦ ground arith
        ]
