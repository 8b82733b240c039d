-- ===== src/Peering/Found.antt =====
-- The way of a node from discovery to the dialer.
use peekd.Base.{
  false, some, List, [], ◌∷◌, ◌++◌, map, All, Text, if◌then◌else◌, ◌≡◌, ◌≢◌, ◌<◌, refl, ap, ◌∙◌,
  inl, inr, Bool-cases,
}
use peekd.Base.Int.{pos_part}
use peekd.Base.Floats.{Floats}
use peekd.Base.Results.{ok, err, panicked, Result-cases}
use peekd.Host.{Host, total_peer_count, target_peer_count}
use peekd.Peering.Dialer.{AddrInfo, Act, connect, discovered, peers_of, others, serve-connects}
use peekd.Peering.Dialer
use peekd.Peering.Discovery.{Node, Parsers, Round, next, exhausted, extract_peer_addr_info, serve}

module _ (parsers : Parsers) where
  -- The addresses of the public nodes with a readable record.
  unfoldable pub found : List Node → List AddrInfo
  found [] = []
  found (node ∷ nodes) =
      let rest = found nodes in
      if node.is_private then rest else elim (extract_peer_addr_info parsers node) [
        | ok addr_info ↦ addr_info ∷ rest
        | err e ↦ rest
        | panicked ↦ rest
      ]

  serve-found :
      (nodes : List Node) (rounds : List Round)
      → All (λ node. extract_peer_addr_info parsers node ≢ panicked) nodes
      → serve parsers false (map (λ node. next node false) nodes ++ (exhausted ∷ rounds))
        ≡ (found nodes, some (ok tt))
  unfolding serve found
  serve-found [] rounds calm = refl
  serve-found (node ∷ nodes) rounds calm = elim (Bool-cases node.is_private) [
    | inl p ↦ rw p (serve-found nodes rounds calm.1)
    | inr p ↦ elim (Result-cases (extract_peer_addr_info parsers node)) [
      | inl (a, e) ↦ rw (e, p) (ap (λ r. (a ∷ r.0, r.1)) (serve-found nodes rounds calm.1))
      | inr (inl (x, e)) ↦ rw (e, p) (serve-found nodes rounds calm.1)
      | inr (inr e) ↦ absurd (calm.0 e)
    ]
  ]

  peers_of-map :
      (at : AddrInfo → Host) (infos : List AddrInfo)
      → peers_of (map (λ a. discovered a (at a)) infos) ≡ map (λ a. (a, at a)) infos
  peers_of-map at [] = refl
  peers_of-map at (a ∷ infos) = ap (λ l. (a, at a) ∷ l) (peers_of-map at infos)

  All-map :
      (at : AddrInfo → Host) (infos : List AddrInfo)
      → ((a : AddrInfo) → total_peer_count (at a) < pos_part (target_peer_count (at a)))
      → All
          (λ (p : AddrInfo × Host). total_peer_count p.1 < pos_part (target_peer_count p.1))
          (map (λ a. (a, at a)) infos)
  All-map at [] few = tt
  All-map at (a ∷ infos) few = (few a, All-map at infos few)

  -- Every public node that discovery finds before its iterator ends, and whose record can be read, is
  -- dialled, in order, but for this node itself, as long as the host has fewer peers than its target
  -- whenever one arrives at the dialer. Nothing else is dialled. (No parser panics.)
  pub serve-dials :
      (floats : Floats) (host_id : Text) (at : AddrInfo → Host) (nodes : List Node)
      (rounds : List Round)
      → All (λ node. extract_peer_addr_info parsers node ≢ panicked) nodes
      → ((a : AddrInfo) → total_peer_count (at a) < pos_part (target_peer_count (at a)))
      → (Dialer.serve floats host_id (
          map
            (λ a. discovered a (at a))
            (serve parsers false
              (map (λ node. next node false) nodes ++ (exhausted ∷ rounds))).0)).0
        ≡ map connect (others host_id (map (λ a. (a, at a)) (found nodes)))
  serve-dials floats host_id at nodes rounds calm few =
      let sent = found nodes in
      rw (serve-found nodes rounds calm) (
        (serve-connects floats host_id (map (λ a. discovered a (at a)) sent)
          (rw (peers_of-map at sent) (All-map at sent few))).1
        ∙ ap (λ l. map connect (others host_id l)) (peers_of-map at sent))
