-- ===== src/Host/Cover.antt =====
-- Every peer is counted as inbound or outbound.
use peekd.Base.{
  refl, ◌≡◌, ◌+◌, ◌≤◌, ◌≢◌, ◌++◌, ◌⊎◌, none, List, [], ◌∷◌, Text, Text-discrete, length-append, All,
  arith, inl, inr,
}
use peekd.Base.Maps.{get, put, get-put}
use peekd.Host.{
  Direction, unknown, inbound, outbound, Conn, Host, peer_set, any_direction, is_inbound,
  is_outbound, total_peer_count, inbound_peer_count, outbound_peer_count,
}
use peekd.Host.Counts.{length-IsWithin, peer_set-HasUniqueKeys}

abbrev IsPeerOf : Text → List (Text × Unit {0}) → Type 0
IsPeerOf k peers = get Text-discrete k peers ≢ none

-- Every peer of the first list is in one of the others.
abbrev IsCovered : List (Text × Unit {0}) → List (Text × Unit {0}) → List (Text × Unit {0}) → Type 0
IsCovered peers ins outs = (k : Text) → IsPeerOf k peers → IsPeerOf k ins ⊎ IsPeerOf k outs

Direction-cases : (d : Direction) → (d ≡ inbound) ⊎ (d ≡ outbound) ⊎ (d ≡ unknown)
Direction-cases unknown = inr (inr refl)
Direction-cases inbound = inl refl
Direction-cases outbound = inr (inl refl)

get-append :
    (k : Text) (ins outs : List (Text × Unit {0}))
    → IsPeerOf k ins ⊎ IsPeerOf k outs
    → IsPeerOf k (ins ++ outs)
unfolding get
get-append k [] outs (inl held) = ground arith
get-append k [] outs (inr held) = held
get-append k ((i, v) ∷ ins) outs held = ground (arith, get-append k ins outs)

put_left-IsCovered :
    (k : Text) (peers ins outs : List (Text × Unit {0}))
    → IsCovered peers ins outs
    → IsCovered (put Text-discrete k tt peers) (put Text-discrete k tt ins) outs
put_left-IsCovered k peers ins outs covered j held =
    ground (arith, get-put Text-discrete k j tt peers, get-put Text-discrete k j tt ins, covered j)

put_right-IsCovered :
    (k : Text) (peers ins outs : List (Text × Unit {0}))
    → IsCovered peers ins outs
    → IsCovered (put Text-discrete k tt peers) ins (put Text-discrete k tt outs)
put_right-IsCovered k peers ins outs covered j held =
    ground (arith, get-put Text-discrete k j tt peers, get-put Text-discrete k j tt outs, covered j)

peer_set-IsCovered :
    (conns : List Conn) (peers ins outs : List (Text × Unit {0}))
    → All (λ conn. conn.direction ≢ unknown) conns
    → IsCovered peers ins outs
    → IsCovered
        (peer_set any_direction conns peers)
        (peer_set is_inbound conns ins)
        (peer_set is_outbound conns outs)
unfolding peer_set
peer_set-IsCovered [] peers ins outs known covered = covered
peer_set-IsCovered (conn ∷ conns) peers ins outs known covered =
    let k = conn.remote_peer in
    elim (Direction-cases conn.direction) [
      | inl e ↦
          rw e
            (peer_set-IsCovered conns _ _ _ known.1 (put_left-IsCovered k peers ins outs covered))
      | inr (inl e) ↦
          rw e
            (peer_set-IsCovered conns _ _ _ known.1 (put_right-IsCovered k peers ins outs covered))
      | inr (inr e) ↦ absurd (known.0 e)
    ]

-- If every connection is inbound or outbound, there are at most as many peers as inbound and outbound
-- ones together.
pub peer_count_cover :
    (h : Host)
    → All (λ conn. conn.direction ≢ unknown) h.conns
    → total_peer_count h ≤ inbound_peer_count h + outbound_peer_count h
unfolding inbound_peer_count outbound_peer_count total_peer_count
peer_count_cover h known =
    let ins = peer_set is_inbound h.conns [] in
    let outs = peer_set is_outbound h.conns [] in
    let covered = peer_set-IsCovered h.conns [] [] [] known (λ k held. inl held) in
    let counted =
      length-IsWithin Text-discrete (peer_set any_direction h.conns []) (ins ++ outs)
        (peer_set-HasUniqueKeys any_direction h.conns [] tt)
        (λ k held. get-append k ins outs (covered k held)) in
    omega (arith, counted, length-append ins outs)
