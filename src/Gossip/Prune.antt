-- ===== src/Gossip/Prune.antt =====
-- `prune` and `isBadPeer` of gossip/gossipsub.go, and the snapshots of gossip/peer_score.go. Scores are
-- float64 in Go; here they are an abstract ordered type, which leaves NaN out.
pub mod Sorted
pub mod Law
use mathlib.Core.List.{Perm}
use peekd.Base.{
  ℕ, zero, suc, ◌+◌, ◌-◌, ◌≡◌, Bool, true, false, ◌||◌, not, Option, none, some, List, [], ◌∷◌,
  Text, Text-discrete, ltb, if◌then◌else◌, All,
}
use peekd.Base.Int.{pos_part, neg_part}
use peekd.Base.Maps.{get, put}
use peekd.Host.{Conn, Host, target_peer_count, total_peer_count}

-- float64 without NaN: `less` is `<`, a strict order in which unordered values are equal.
pub record Scores : Type 1 where
  pub Score : Type 0
  pub less : Score → Score → Bool
  pub zero_score : Score
  pub gossip_threshold : Score
  pub less_irrefl : (a : Score) → less a a ≡ false
  pub less_chain : (a b c : Score) → less a b ≡ false → less b c ≡ false → less a c ≡ false

module _ (scores : Scores) where
  open scores use {Score, less, zero_score, gossip_threshold}

  -- `ps.snapshots`, of which only the score is read.
  abbrev pub Snapshots : Type 0
  Snapshots = List (Text × Score)

  -- `inspect` replaces the snapshots.
  unfoldable pub inspect : Snapshots → Snapshots → Snapshots
  inspect new old = new

  unfoldable pub score_of : Snapshots → Text → Score
  score_of snapshots pid = elim (get Text-discrete pid snapshots) [
    | some score ↦ score
    | none ↦ zero_score
  ]

  unfoldable pub is_bad_peer : Snapshots → Text → Bool
  is_bad_peer snapshots pid = less (score_of snapshots pid) gossip_threshold

  -- `!ok || score < prev`
  abbrev pub is_lower : Option Score → Score → Bool
  is_lower none score = true
  is_lower (some prev) score = less score prev

  -- The loop over the connections: the lowest score read for each peer.
  unfoldable pub peer_scores : Snapshots → List Conn → List (Text × Score) → List (Text × Score)
  unfolding score_of
  peer_scores snapshots [] found = found
  peer_scores snapshots (conn ∷ conns) found =
      let pid = conn.remote_peer in
      let score = score_of snapshots pid in
      peer_scores snapshots conns (
        if is_lower (get Text-discrete pid found) score
        then put Text-discrete pid score found
        else found)

  -- The loop that closes peers; `i` is its index. The peers closed, in order.
  unfoldable pub prune_loop : Snapshots → ℕ → ℕ → ℕ → List (Text × Score) → List Text
  unfolding is_bad_peer
  prune_loop snapshots total target i [] = []
  prune_loop snapshots total target i ((pid, score) ∷ pairs) =
      let rest = prune_loop snapshots total target (i + 1) pairs in
      if ltb (i + target) total || is_bad_peer snapshots pid then pid ∷ rest else []

  -- The network of the host is there, which Go checks first. `sort` is `sort.Slice` by ascending
  -- score, after the map was visited in some order. The result lists the peers on which `ClosePeer` is
  -- called. `i < excess` for the int `excess = total - target` is `i + target < total`, with a negative
  -- target on the other side; a target so far below 0 that `excess` overflows is left out.
  unfoldable pub prune : (List (Text × Score) → List (Text × Score)) → Snapshots → Host → List Text
  prune sort snapshots h =
      prune_loop snapshots (total_peer_count h + neg_part (target_peer_count h))
        (pos_part (target_peer_count h)) 0 (sort (peer_scores snapshots h.conns []))

  -- Ascending by score: no pair is less than an earlier one.
  abbrev pub IsSorted : List (Text × Score) → Type 0
  IsSorted [] = Unit
  IsSorted ((pid, score) ∷ pairs) = All (λ q. less q.1 score ≡ false) pairs × IsSorted pairs
