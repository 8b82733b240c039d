-- ===== src/Gossip/PeerScore/Total.antt =====
-- On a configuration whose numbers fit, the defaults are computed without a panic.
pub mod Loop
pub mod Returns
use native.Mathlib.Nat.{
  mul-le-mul_left, mul-le-mul_right, le-div_iff_mul-le, mul-div_cancel_left, mul_comm,
}
use peekd.Base.{
  Option, ℕ, zero, suc, ◌+◌, ◌*◌, ◌/◌, ◌%◌, ◌^◌, ◌≤◌, ◌<◌, ◌≡◌, ◌≢◌, refl, ap, ◌∙◌, sym, false,
  arith, zero-or-suc, inl, inr, if◌then◌else◌,
}
use peekd.Base.Int.{ℤ, pos, times, quo, quo_duration, to_int64}
use peekd.Base.Floats.{Floats}
use peekd.Base.Results.{Result, ok, IsOk, ok_of, ◌>>=◌}
use peekd.Eth.{BeaconChainConfig, get_slot_duration, get_epoch_duration}
use peekd.Gossip.PeerScore.{
  invalid_decay_period, quo_uint, or_panic, in_mesh_cap_time, score_decay, decay_limit,
  decay_threshold, whole,
}
use peekd.Gossip.PeerScore.Committees.{quo_uint-pos}
use peekd.Gossip.PeerScore.Defaults.{
  default_sync_contribution_topic_params, default_aggregate_topic_params, rare_topic_params,
  default_topic_params, TopicScoreParams, committees, mesh_topic_params,
}

-- `math.Pow(0.01, 1/n)`
abbrev pub decay_over : (floats : Floats) → ℕ → floats.Float
decay_over floats n =
    floats.pow (floats.decimal (pos 1) 2)
      (floats.div (floats.decimal (pos 1) 0) (floats.of_int (pos n)))

-- The configuration's numbers are positive and its durations fit into int64. Decays over up to sixteen
-- epochs are less than 1, as those of the real numbers are.
pub record IsUsable (floats : Floats) (c : BeaconChainConfig) : Type 0 where
  pub seconds : 0 < c.seconds_per_slot
  pub slots : 0 < c.slots_per_epoch
  pub fits : 100 * (1_000_000_000 * c.seconds_per_slot * c.slots_per_epoch) < 2 ^ 63
  pub size : 0 < c.target_committee_size
  pub attestation_subnets : 0 < c.attestation_subnet_count
  pub sync_subnets : 0 < c.sync_committee_subnet_count
  pub sync_members : 3 * c.sync_committee_subnet_count ≤ c.sync_committee_size
  pub decays :
      (n : ℕ)
      → 0 < n
      → n ≤ 16 * c.slots_per_epoch
      → floats.ge (decay_over floats n) (floats.decimal (pos 1) 0) ≡ false

to_int64_small : (n : ℕ) → n < 2 ^ 63 → to_int64 n ≡ pos n
unfolding to_int64
to_int64_small n h = ground arith

quo_duration-pos : (a d : ℕ) → 0 < d → quo_duration (pos a) (pos d) ≡ Option.some (pos (a / d))
unfolding quo_duration quo
quo_duration-pos a zero p = absurd (omega arith)
quo_duration-pos a (suc d) p = refl

regroup : (k a b : ℕ) → k * (a * b) ≡ a * (k * b)
regroup k a b = grind arith

module _ (floats : Floats) (c : BeaconChainConfig) (u : IsUsable floats c) where
  open floats use {Float, decimal, of_int, ge}

  abbrev slot_length : ℕ
  slot_length = 1_000_000_000 * c.seconds_per_slot

  abbrev epoch_length : ℕ
  epoch_length = slot_length * c.slots_per_epoch

  slot-lt : slot_length < 2 ^ 63
  slot-lt = omega (arith, u.fits, mul-le-mul_left slot_length u.slots)

  get_slot_duration-pos : get_slot_duration c ≡ pos slot_length
  unfolding get_slot_duration
  get_slot_duration-pos = to_int64_small slot_length slot-lt

  get_epoch_duration-pos : get_epoch_duration c ≡ pos epoch_length
  unfolding get_epoch_duration
  get_epoch_duration-pos = to_int64_small epoch_length (omega (arith, u.fits))

  times-epoch : (k : ℕ) → k ≤ 100 → times k (get_epoch_duration c) ≡ pos (k * epoch_length)
  unfolding times
  times-epoch k h =
      rw get_epoch_duration-pos
        (to_int64_small (k * epoch_length) (omega (arith, u.fits, mul-le-mul_right epoch_length h)))

  epochs_of : (k : ℕ) → k * epoch_length / slot_length ≡ k * c.slots_per_epoch
  epochs_of k =
      ap (λ n. n / slot_length) (regroup k slot_length c.slots_per_epoch)
      ∙ mul-div_cancel_left (k * c.slots_per_epoch) (omega (arith, u.seconds))

  score_decay-ok : (a : ℕ) → score_decay floats c (pos a) ≡ ok (decay_over floats (a / slot_length))
  unfolding score_decay
  score_decay-ok a =
      rw (get_slot_duration-pos, quo_duration-pos a slot_length (omega (arith, u.seconds))) refl

  pub score_decay-epochs :
      (k : ℕ)
      → k ≤ 100
      → score_decay floats c (times k (get_epoch_duration c))
        ≡ ok (decay_over floats (k * c.slots_per_epoch))
  score_decay-epochs k h =
      rw (times-epoch k h)
        (score_decay-ok (k * epoch_length) ∙ ap (λ n. ok (decay_over floats n)) (epochs_of k))

  epoch_once : get_epoch_duration c ≡ times 1 (get_epoch_duration c)
  epoch_once = get_epoch_duration-pos ∙ sym (times-epoch 1 (omega arith) ∙ ap pos (omega arith))

  in_mesh_cap_time-IsOk : IsOk (in_mesh_cap_time floats c)
  unfolding in_mesh_cap_time
  in_mesh_cap_time-IsOk =
      rw
        (
          get_slot_duration-pos,
          quo_duration-pos 3_600_000_000_000 slot_length (omega (arith, u.seconds)),
        )
        tt

  decays_below :
      (k : ℕ)
      → 0 < k
      → k ≤ 16
      → ge (decay_over floats (k * c.slots_per_epoch)) (decimal (pos 1) 0) ≡ false
  decays_below k p h =
      u.decays (k * c.slots_per_epoch)
        (omega (arith, u.slots, mul-le-mul_right c.slots_per_epoch p))
        (mul-le-mul_right c.slots_per_epoch h)

  decay_limit-IsOk :
      (k : ℕ) (rate : Float)
      → 0 < k
      → k ≤ 16
      → IsOk (decay_limit floats c (decay_over floats (k * c.slots_per_epoch)) rate)
  unfolding decay_limit
  decay_limit-IsOk k rate p h = rw (decays_below k p h) tt

  -- With decays over 1 to 16 epochs the shared end of the four functions returns.
  pub mesh_topic_params-IsOk :
      (topic_weight : Float) (j k : ℕ) (first_period mesh_period : ℤ) (first_rate mesh_rate : Float)
      → 0 < j
      → j ≤ 16
      → 0 < k
      → k ≤ 16
      → score_decay floats c first_period ≡ ok (decay_over floats (j * c.slots_per_epoch))
      → score_decay floats c mesh_period ≡ ok (decay_over floats (k * c.slots_per_epoch))
      → IsOk (mesh_topic_params floats c topic_weight first_period first_rate mesh_period mesh_rate)
  unfolding mesh_topic_params decay_threshold invalid_decay_period
  mesh_topic_params-IsOk topic_weight j k first_period mesh_period first_rate mesh_rate pj hj pk hk
        first mesh =
      let (cap, c-eq) = ok_of _ in_mesh_cap_time-IsOk in
      let (first_cap, f-eq) = ok_of _ (decay_limit-IsOk j first_rate pj hj) in
      let (limit, l-eq) = ok_of _ (decay_limit-IsOk k mesh_rate pk hk) in
      rw (first, mesh, f-eq, l-eq, c-eq, score_decay-epochs 50 (omega arith)) tt

  pub default_topic_params-IsOk : IsOk (default_topic_params floats c)
  unfolding default_topic_params invalid_decay_period
  default_topic_params-IsOk =
      let (cap, c-eq) = ok_of _ in_mesh_cap_time-IsOk in
      rw
        (
          c-eq,
          score_decay-epochs 20 (omega arith),
          score_decay-epochs 5 (omega arith),
          score_decay-epochs 50 (omega arith),
        )
        tt

  pub rare_topic_params-IsOk : (w f m : ℕ) → IsOk (rare_topic_params floats c w f m)
  unfolding rare_topic_params invalid_decay_period
  rare_topic_params-IsOk w f m =
      let (cap, c-eq) = ok_of _ in_mesh_cap_time-IsOk in
      rw (c-eq, score_decay-epochs 100 (omega arith), score_decay-epochs 50 (omega arith)) tt

  score_decay-epoch :
      score_decay floats c (get_epoch_duration c) ≡ ok (decay_over floats (1 * c.slots_per_epoch))
  score_decay-epoch = ap (score_decay floats c) (epoch_once) ∙ score_decay-epochs 1 (omega arith)

  pub committees-IsOk : (estimate : ℕ) → IsOk (committees floats c estimate)
  unfolding committees
  committees-IsOk estimate =
      rw
        (
          quo_uint-pos estimate c.slots_per_epoch u.slots,
          quo_uint-pos (estimate / c.slots_per_epoch) c.target_committee_size u.size,
        )
        tt

  pub aggregate-IsOk : (estimate : ℕ) → IsOk (default_aggregate_topic_params floats c estimate)
  unfolding default_aggregate_topic_params
  aggregate-IsOk estimate =
      let (comms, e) = ok_of _ (committees-IsOk estimate) in
      rw e (
        mesh_topic_params-IsOk _ 1 1 _ _ _ _ (omega arith) (omega arith) (omega arith) (omega arith)
          score_decay-epoch score_decay-epoch)

  pub contribution-IsOk : IsOk (default_sync_contribution_topic_params floats c)
  unfolding default_sync_contribution_topic_params
  contribution-IsOk =
      mesh_topic_params-IsOk _ 1 1 _ _ _ _ (omega arith) (omega arith) (omega arith) (omega arith)
        score_decay-epoch score_decay-epoch
