-- ===== src/Witness/Peering.antt =====
-- The theorems on peering, and on the host's `Serve`.
use mathlib.Core.Path.{◌≡◌, refl}
use peekd.Base.Int.{pos}
use peekd.Base.{
  some, ◌≢◌, Bool, true, false, none, All, List, [], ◌∷◌, ◌++◌, map, Text, codes, arith,
}
use peekd.Base.Results.{ok}
use peekd.Host.{peer_set, target_peer_count, total_peer_count, Host}
use peekd.Peering.Dialer.{AddrInfo, connect, discovered, others}
use peekd.Host.Serve.{minute, ended, IsNotifying, serve-IsNotifying}
use peekd.Host.Serve as HostServe
use peekd.Base.Results.{Error}
use peekd.Peering.Dialer
use peekd.Peering.Discovery.{Node, Parsers, next, exhausted, serve, extract_peer_addr_info}
use peekd.Peering.Found.{found, serve-dials}
use peekd.Peering.Lifecycle.{Run, IsInVain, serve_service, restarted, serve_service-restarted}
use peekd.Witness.Scoring.{coarse}

abbrev parsers : Parsers
parsers = record {
  PublicKey = Text;
  unmarshal_public_key = λ key. ok key;
  id_from_public_key = λ key. ok key;
  new_multiaddr = λ t. ok t;
  decimal = λ n. n ∷ [];
}

abbrev node : Text → Bool → Node
node key is_private = record {
  pubkey = key;
  ip = codes "9.9.9.9";
  is_ip4 = true;
  is_ip6 = true;
  is_private = is_private;
  udp = 9000;
  tcp = 0;
}

abbrev empty_host : Host
empty_host = record { conns = []; target_peers = pos 80 }

-- A node, one in a private network, and this node itself.
abbrev nodes : List Node
nodes = node (codes "a") false ∷ node (codes "b") true ∷ node (codes "me") false ∷ []

serve-dials_example :
    (Dialer.serve coarse (codes "me") (
      map
        (λ a. discovered a empty_host)
        (serve parsers false (map (λ node. next node false) nodes ++ (exhausted ∷ []))).0)).0
    ≡ map connect (others (codes "me") (map (λ a. (a, empty_host)) (found parsers nodes)))
unfolding extract_peer_addr_info total_peer_count target_peer_count peer_set
serve-dials_example =
    serve-dials parsers coarse (codes "me") (λ a. empty_host) nodes []
      (ground arith, (ground arith, (ground arith, tt))) (λ a. omega arith)

-- The iterator ends after a node.
abbrev first_run : Run
first_run = record {
  ip = codes "9.9.9.9";
  is_ip4 = true;
  udp = 9090;
  listened = ok tt;
  started = ok tt;
  rounds = next (node (codes "a") false) false ∷ exhausted ∷ [];
}

-- Another node is found after the service is started again.
abbrev second_run : Run
second_run = record first_run { rounds = next (node (codes "c") false) false ∷ [] }

first_run_ends : (serve parsers false first_run.rounds).1 ≢ none
unfolding serve extract_peer_addr_info
first_run_ends = ground arith

serve_service-restarted_example :
    ((serve_service parsers first_run false).closed ≡ true)
    × All
        (IsInVain parsers)
        (restarted parsers (second_run ∷ []) (serve_service parsers first_run false).closed)
serve_service-restarted_example =
    serve_service-restarted parsers first_run (second_run ∷ []) refl refl refl first_run_ends

-- A minute, and the end of the context.
serve-IsNotifying_example :
    IsNotifying (HostServe.serve (ok tt) (minute (some empty_host) ∷ ended Error.canceled ∷ []))
serve-IsNotifying_example =
    serve-IsNotifying (ok tt) (minute (some empty_host) ∷ ended Error.canceled ∷ [])
