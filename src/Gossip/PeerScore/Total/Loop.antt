-- ===== src/Gossip/PeerScore/Total/Loop.antt =====
-- With enough validators, and no attestation topic behind one of sync committees, `params` returns.
use native.Mathlib.Nat.{le-div_iff_mul-le, div-le_self}
use peekd.Base.{
  ℕ, zero, suc, ◌*◌, ◌/◌, ◌%◌, ◌^◌, ◌≤◌, ◌<◌, ◌≡◌, refl, arith, inl, inr, leb, Bool-cases,
}
use peekd.Base.Int.{pos, times}
use peekd.Base.Floats.{Floats}
use peekd.Base.Results.{ok, IsOk, ok_of}
use peekd.Eth.{BeaconChainConfig, get_epoch_duration}
use peekd.Gossip.PeerScore.Committees.{quo_uint-pos}
use peekd.Gossip.PeerScore.Defaults.{
  cut_estimate, default_attestation_topic_params, default_sync_subnet_topic_params, positive,
}
use peekd.Gossip.PeerScore.Total.{
  IsUsable, mesh_topic_params-IsOk, committees-IsOk, score_decay-epochs,
}

regroup_three : (a b : ℕ) → 3 * a * b ≡ 3 * b * a
regroup_three a b = grind arith

positive-eq :
    (floats : Floats) (c : BeaconChainConfig) (n : ℕ) → 0 < n → positive floats c n ≡ ok tt
positive-eq floats c zero p = absurd (omega arith)
positive-eq floats c (suc n) p = refl

module _ (floats : Floats) (c : BeaconChainConfig) (u : IsUsable floats c) where
  pub attestation-IsOk :
      (estimate : ℕ)
      → 3 * c.attestation_subnet_count * c.slots_per_epoch ≤ estimate
      → estimate < 2 ^ 63
      → IsOk (default_attestation_topic_params floats c estimate)
  unfolding default_attestation_topic_params
  attestation-IsOk estimate enough fits =
      let per_subnet = estimate / c.attestation_subnet_count in
      let vals = per_subnet / c.slots_per_epoch in
      let many : 3 ≤ vals = (le-div_iff_mul-le u.slots).1 (
        (le-div_iff_mul-le u.attestation_subnets).1
          (omega (arith, enough, regroup_three c.attestation_subnet_count c.slots_per_epoch))) in
      let less : vals ≤ estimate = omega (
        arith,
        div-le_self per_subnet c.slots_per_epoch,
        div-le_self estimate c.attestation_subnet_count,
      ) in
      let (comms, comms-eq) = ok_of _ (committees-IsOk floats c u estimate) in
      rw
        (
          quo_uint-pos estimate c.attestation_subnet_count u.attestation_subnets,
          positive-eq floats c per_subnet (omega (arith, div-le_self per_subnet c.slots_per_epoch)),
          quo_uint-pos per_subnet c.slots_per_epoch u.slots,
          positive-eq floats c vals (omega arith),
          comms-eq,
          quo_uint-pos (2 * c.attestation_subnet_count % 2 ^ 64) c.slots_per_epoch u.slots,
          positive-eq floats c (vals * 2 % 2 ^ 64 / 6) (omega arith),
        )
        (elim (Bool-cases
          (leb (2 * c.attestation_subnet_count % 2 ^ 64 / c.slots_per_epoch) comms)) [
            | inl e ↦ rw e (
                mesh_topic_params-IsOk floats c u _ 4 16 _ _ _ _ (omega arith) (omega arith)
                  (omega arith) (omega arith) (score_decay-epochs floats c u 4 (omega arith))
                  (score_decay-epochs floats c u 16 (omega arith)))
            | inr e ↦ rw e (
                mesh_topic_params-IsOk floats c u _ 1 4 _ _ _ _ (omega arith) (omega arith)
                  (omega arith) (omega arith) (score_decay-epochs floats c u 1 (omega arith))
                  (score_decay-epochs floats c u 4 (omega arith)))
          ])

  pub sync-IsOk :
      (estimate : ℕ)
      → 3 * c.sync_committee_subnet_count ≤ estimate
      → estimate < 2 ^ 63
      → IsOk (default_sync_subnet_topic_params floats c estimate)
  unfolding default_sync_subnet_topic_params
  sync-IsOk estimate enough fits =
      let cut = cut_estimate floats c estimate in
      let per_subnet = cut / c.sync_committee_subnet_count in
      let cut-le : (3 * c.sync_committee_subnet_count ≤ cut) × (cut ≤ estimate) =
        ground (arith, u.sync_members) in
      let many : 3 ≤ per_subnet = (le-div_iff_mul-le u.sync_subnets).1 cut-le.0 in
      let less : per_subnet ≤ cut = div-le_self cut c.sync_committee_subnet_count in
      let (found, found-eq) = ok_of _ (
        mesh_topic_params-IsOk floats c u
          (floats.div (floats.decimal (pos 40) 2)
            (floats.of_int (pos c.sync_committee_subnet_count)))
          1 4 (times 1 (get_epoch_duration c)) (times 4 (get_epoch_duration c))
          (floats.of_int (pos (per_subnet * 2 % 2 ^ 64 / 6)))
          (floats.of_int (pos (per_subnet / 90))) (omega arith) (omega arith) (omega arith)
          (omega arith) (score_decay-epochs floats c u 1 (omega arith))
          (score_decay-epochs floats c u 4 (omega arith))) in
      rw
        (
          quo_uint-pos cut c.sync_committee_subnet_count u.sync_subnets,
          positive-eq floats c per_subnet (omega arith),
          positive-eq floats c (per_subnet * 2 % 2 ^ 64 / 6) (omega (arith, cut-le.1)),
          found-eq,
        )
        tt
