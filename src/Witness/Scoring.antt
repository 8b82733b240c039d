-- ===== src/Witness/Scoring.antt =====
-- The theorems on the peer scores, with a coarse arithmetic in place of float64.
use mathlib.Core.Path.{◌≡◌, refl}
use peekd.Base.{
  sym, ◌∙◌, ℕ, [], ◌∷◌, Text, codes, ltb, leb, if◌then◌else◌, arith, ◌*◌, ◌/◌, ◌-◌, ◌^◌, All, none,
  Text-discrete, ◌≢◌,
}
use peekd.Base.Floats.{Floats}
use peekd.Base.Int.{ℤ, pos, negsuc}
use peekd.Base.Maps.{get}
use peekd.Base.Strings.{contains, has_prefix}
use peekd.Base.Results.{ok, IsOk}
use peekd.Gossip.PeerScore.{PeerScore}
use peekd.Gossip.PeerScore.Params.{
  params, PeerScoreParams, PeerScoreThresholds, scoring_of, attestations, sync_committees,
}
use peekd.Gossip.PeerScore.Order.{params-not_ok}
use peekd.Gossip.PeerScore.Total.{IsUsable}
use peekd.Gossip.PeerScore.Total.Returns.{params-ok}
use peekd.Witness.Fixtures.{names}
use peekd.Witness.Network.{mainnet}

attestations_apart : attestations ≢ sync_committees
attestations_apart e = ground arith

abbrev from_int : ℤ → ℕ
from_int (pos n) = n
from_int (negsuc n) = 0

-- Hundredths, cut off below 0; a power of a number below 1 is rounded down to 0.
abbrev pub coarse : Floats
coarse = record {
  Float = ℕ;
  decimal = λ n k. from_int n * 100 / 10 ^ k;
  of_int = λ n. from_int n * 100;
  neg = λ a. 0;
  sub = λ a b. a - b;
  mul = λ a b. a * b / 100;
  div = λ a b. a * 100 / b;
  pow = λ a b. if ltb a 100 then 0 else a;
  ge = λ a b. leb b a;
}

mainnet-IsUsable : IsUsable coarse mainnet
mainnet-IsUsable = record {
  seconds = omega arith;
  slots = omega arith;
  fits = omega arith;
  size = omega arith;
  attestation_subnets = omega arith;
  sync_subnets = omega arith;
  sync_members = omega arith;
  decays = λ n p h. refl;
}

abbrev pub attestation_topic : Text
attestation_topic = codes "/eth2/6a95a1a9/beacon_attestation_7/ssz_snappy"

abbrev pub sync_topic : Text
sync_topic = codes "/eth2/6a95a1a9/sync_committee_3/ssz_snappy"

pub attests : scoring_of names attestation_topic ≡ attestations
unfolding scoring_of contains has_prefix
attests = refl

pub syncs : scoring_of names sync_topic ≡ sync_committees
unfolding scoring_of contains has_prefix
syncs = refl

abbrev pub in_order : PeerScore
in_order = record {
  estimate_active_validators = 1_000_000;
  topics = attestation_topic ∷ sync_topic ∷ [];
  inspect_period = pos 0;
}

params-ok_example :
    (r : PeerScore × PeerScoreParams coarse mainnet × PeerScoreThresholds coarse mainnet) × (params
        coarse mainnet names in_order
      ≡ ok r)
    × All (λ t. get Text-discrete t r.1.topics ≢ none) (attestation_topic ∷ sync_topic ∷ [])
params-ok_example =
    params-ok coarse mainnet names in_order mainnet-IsUsable (omega arith) (omega arith)
      (omega arith) (λ e. absurd (attestations_apart (sym attests ∙ e)), (λ e. tt, tt))

params-not_ok_example :
    ¬ IsOk (
      params coarse mainnet names
        (record in_order { topics = sync_topic ∷ attestation_topic ∷ [] }))
params-not_ok_example =
    params-not_ok coarse mainnet names (omega arith) (omega arith) (omega arith) attestation_topic
      attests (record in_order { topics = sync_topic ∷ attestation_topic ∷ [] }) sync_topic [] [] []
      syncs refl
