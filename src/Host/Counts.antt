-- ===== src/Host/Counts.antt =====
-- How the three peer counts relate.
use peekd.Base.{
  suc, ◌≤◌, ◌≡◌, ◌≢◌, refl, Bool, none, List, [], ◌∷◌, Text, Text-discrete, length, arith,
  Bool-cases, inl, inr,
}
use peekd.Base.Maps.{get, put, delete, HasUniqueKeys, get-put, get-delete, put-HasUniqueKeys}
use peekd.Host.{
  Direction, Conn, Host, peer_set, any_direction, is_inbound, is_outbound, total_peer_count,
  inbound_peer_count, outbound_peer_count,
}

module _ {K V : Type 0} (dec : Discrete K) where
  length-delete : (k : K) (m : List (K × V)) → length (delete dec k m) ≤ length m
  unfolding delete
  length-delete k [] = omega arith
  length-delete k ((i, v) ∷ m) = ground (arith, length-delete k m)

  length-delete_held :
      (k : K) (m : List (K × V)) → get dec k m ≢ none → suc (length (delete dec k m)) ≤ length m
  unfolding get delete
  length-delete_held k [] held = absurd (held refl)
  length-delete_held k ((i, v) ∷ m) held = ground (arith, length-delete k m, length-delete_held k m)

  abbrev pub IsWithin : List (K × V) → List (K × V) → Type 0
  IsWithin m n = (k : K) → get dec k m ≢ none → get dec k n ≢ none

  tail-IsWithin :
      (k : K) (v : V) (m n : List (K × V))
      → get dec k m ≡ none
      → IsWithin ((k, v) ∷ m) n
      → IsWithin m (delete dec k n)
  unfolding get
  tail-IsWithin k v m n absent within j held = ground (arith, get-delete dec k j n, within j)

  head-IsWithin :
      (k : K) (v : V) (m n : List (K × V)) → IsWithin ((k, v) ∷ m) n → get dec k n ≢ none
  unfolding get
  head-IsWithin k v m n within = within k (ground arith)

  pub length-IsWithin :
      (m n : List (K × V)) → HasUniqueKeys dec m → IsWithin m n → length m ≤ length n
  length-IsWithin [] n u within = omega arith
  length-IsWithin ((k, v) ∷ m) n u within =
      let rest = length-IsWithin m (delete dec k n) u.1 (tail-IsWithin k v m n u.0 within) in
      let here = length-delete_held k n (head-IsWithin k v m n within) in omega (arith, rest, here)

  put-IsWithin :
      (k : K) (v w : V) (m n : List (K × V))
      → IsWithin m n
      → IsWithin (put dec k v m) (put dec k w n)
  put-IsWithin k v w m n within j held =
      ground (arith, get-put dec k j v m, get-put dec k j w n, within j)

  put_right-IsWithin :
      (k : K) (w : V) (m n : List (K × V)) → IsWithin m n → IsWithin m (put dec k w n)
  put_right-IsWithin k w m n within j held = ground (arith, get-put dec k j w n, within j)

pub peer_set-HasUniqueKeys :
    (test : Direction → Bool) (conns : List Conn) (peers : List (Text × Unit {0}))
    → HasUniqueKeys Text-discrete peers
    → HasUniqueKeys Text-discrete (peer_set test conns peers)
unfolding peer_set
peer_set-HasUniqueKeys test [] peers u = u
peer_set-HasUniqueKeys test (conn ∷ conns) peers u = elim (Bool-cases (test conn.direction)) [
  | inl e ↦ rw e (
      peer_set-HasUniqueKeys test conns _
        (put-HasUniqueKeys Text-discrete conn.remote_peer tt peers u))
  | inr e ↦ rw e (peer_set-HasUniqueKeys test conns peers u)
]

-- The loop with a stronger test finds no more peers.
peer_set-IsWithin :
    (test : Direction → Bool) (conns : List Conn) (some_peers all_peers : List (Text × Unit {0}))
    → IsWithin Text-discrete some_peers all_peers
    → IsWithin Text-discrete
        (peer_set test conns some_peers)
        (peer_set any_direction conns all_peers)
unfolding peer_set
peer_set-IsWithin test [] some_peers all_peers within = within
peer_set-IsWithin test (conn ∷ conns) some_peers all_peers within =
    elim (Bool-cases (test conn.direction)) [
      | inl e ↦ rw e (
          peer_set-IsWithin test conns _ _
            (put-IsWithin Text-discrete conn.remote_peer tt tt some_peers all_peers within))
      | inr e ↦ rw e (
          peer_set-IsWithin test conns _ _
            (put_right-IsWithin Text-discrete conn.remote_peer tt some_peers all_peers within))
    ]

length-peer_set :
    (test : Direction → Bool) (conns : List Conn)
    → length (peer_set test conns []) ≤ length (peer_set any_direction conns [])
length-peer_set test conns =
    length-IsWithin Text-discrete (peer_set test conns []) (peer_set any_direction conns [])
      (peer_set-HasUniqueKeys test conns [] tt)
      (peer_set-IsWithin test conns [] [] (λ k held. held))

-- However many connections a peer has, and in whichever directions, the inbound peers and the outbound
-- peers are each at most all the peers.
pub peer_count_le :
    (h : Host)
    → (inbound_peer_count h ≤ total_peer_count h) × (outbound_peer_count h ≤ total_peer_count h)
unfolding inbound_peer_count outbound_peer_count total_peer_count
peer_count_le h = (length-peer_set is_inbound h.conns, length-peer_set is_outbound h.conns)
