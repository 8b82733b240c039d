-- ===== src/Host.antt =====
-- host/host.go: the counts of the connected peers. A peer may have several connections. What libp2p
-- returns from `Network().Conns()` is an argument; peer ids are texts.
pub mod Counts
pub mod Cover
pub mod Create
pub mod Serve
use peekd.Base.{ℕ, Bool, true, false, List, [], ◌∷◌, Text, Text-discrete, length, if◌then◌else◌}
use peekd.Base.Int.{ℤ}
use peekd.Base.Maps.{put}

-- `network.Direction`
pub data Direction : Type 0 where
  unknown inbound outbound : Direction

pub record Conn : Type 0 where
  pub remote_peer : Text
  pub direction : Direction

pub record Host : Type 0 where
  pub conns : List Conn
  pub target_peers : ℤ  -- int

unfoldable pub target_peer_count : Host → ℤ
target_peer_count h = h.target_peers

-- The loop that fills `map[peer.ID]struct{}`, over the connections that `test` does not skip.
unfoldable pub peer_set :
    (Direction → Bool) → List Conn → List (Text × Unit {0}) → List (Text × Unit {0})
peer_set test [] peers = peers
peer_set test (conn ∷ conns) peers =
    peer_set test conns
      (if test conn.direction then put Text-discrete conn.remote_peer tt peers else peers)

abbrev pub any_direction : Direction → Bool
any_direction _ = true

abbrev pub is_inbound : Direction → Bool
is_inbound inbound = true
is_inbound _ = false

abbrev pub is_outbound : Direction → Bool
is_outbound outbound = true
is_outbound _ = false

unfoldable pub total_peer_count : Host → ℕ
unfolding peer_set
total_peer_count h = length (peer_set any_direction h.conns [])

unfoldable pub inbound_peer_count : Host → ℕ
unfolding peer_set
inbound_peer_count h = length (peer_set is_inbound h.conns [])

unfoldable pub outbound_peer_count : Host → ℕ
unfolding peer_set
outbound_peer_count h = length (peer_set is_outbound h.conns [])
