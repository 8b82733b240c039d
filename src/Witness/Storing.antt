-- ===== src/Witness/Storing.antt =====
-- The theorem on pruning, and a driver of the database.
use mathlib.Core.Path.{◌≡◌, refl}
use Prim.Native.Nat.{max}
use peekd.Base.{◌+◌, ◌-◌, List, [], ◌∷◌, ◌++◌, map, codes, length}
use peekd.Base.Int.{pos_part, neg_part, pos}
use peekd.Base.Results.{ok}
use peekd.Repository.Models.{SlotMessageStats}
use peekd.Repository.ClickHouse
use peekd.Repository.ClickHouse.{
  IsBatching, save_slot_message_stats_multi, save_slot_message_stats_multi-rows,
}
use peekd.Gossip.Prune.{Snapshots, prune}
use peekd.Gossip.Prune.Sorted.{take, bad_count}
use peekd.Gossip.Prune.Law.{pairs_of, prune_lem}
use peekd.Host.{Host, inbound, outbound, total_peer_count, target_peer_count}
use peekd.Witness.Sorting.{scores, sort, sort-Perm, sort-IsSorted}

-- Two peers, one of them connected twice, and room for one.
abbrev crowded : Host
crowded = record {
  conns =
      record { remote_peer = codes "a"; direction = inbound }
      ∷ record { remote_peer = codes "b"; direction = outbound }
      ∷ record { remote_peer = codes "a"; direction = outbound }
      ∷ [];
  target_peers = pos 1;
}

abbrev snapshots : Snapshots scores
snapshots = (codes "a", 120) ∷ (codes "b", 90) ∷ []

prune_lem_example :
    (length (pairs_of scores snapshots sort crowded) ≡ total_peer_count crowded)
    × (prune scores sort snapshots crowded
        ≡ map
            (λ pair. pair.0)
            (take
              (max
                (total_peer_count crowded
                  + neg_part (target_peer_count crowded)
                  - pos_part (target_peer_count crowded))
                (bad_count scores snapshots (pairs_of scores snapshots sort crowded)))
              (pairs_of scores snapshots sort crowded)))
prune_lem_example = prune_lem scores snapshots sort crowded sort-Perm sort-IsSorted

-- A driver whose batches are lists.
abbrev pub driver : ClickHouse.Conn
driver = record {
  Batch = List SlotMessageStats;
  exec = λ query row. ok tt;
  prepare_batch = λ query. ok [];
  append = λ stat b. ok (b ++ (stat ∷ []));
  send = λ b. ok tt;
}

pub driver-IsBatching : IsBatching driver
driver-IsBatching = record {
  rows = λ b. b;
  prepared = λ query. ([], refl, refl);
  appended = λ stat b. (b ++ (stat ∷ []), refl, refl);
}

abbrev stat : SlotMessageStats
stat = record {
  slot = 3;
  topic_group = codes "beacon_block";
  fork_version = codes "6a95a1a9";
  topic = codes "beacon_block";
  node_region = [];
  node_alias = [];
  node_peer_count = 5;
  message_id = codes "abcd";
  slot_start_time = pos 1_606_824_059_000_000_000;
  first_arrival_time = pos 1_606_824_059_500_000_000;
  latency_ms = 500;
  size_bytes = 3;
  seen_count = 2;
}
