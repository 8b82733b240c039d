-- ===== src/Peering/Discovery.antt =====
-- peering/discovery.go: the options, the loop that hands on the nodes that discv5 finds, and what is
-- taken from a node's record. The parsers and the key types of libp2p and of go-ethereum are parameters.
use peekd.Base.{ℕ, Bool, Option, none, some, List, [], ◌∷◌, ◌++◌, Text, codes, ◌==◌, if◌then◌else◌}
use peekd.Base.Int.{ℤ, pos}
use peekd.Base.Results.{Error, Result, ok, err, panicked, wrapped, ◌>>=◌}
use peekd.Peering.Dialer.{AddrInfo}

module _ (PrivateKey : Type 0) where
  -- `none` is nil.
  pub record DiscoveryOption : Type 0 where
    pub private_key : Option PrivateKey
    pub listen_ip : Text
    pub port_udp : ℤ
    pub port_tcp : ℤ

  abbrev pub DiscoveryOptionFunc : Type 0
  DiscoveryOptionFunc = DiscoveryOption → DiscoveryOption

  abbrev pub with_private_key : PrivateKey → DiscoveryOptionFunc
  with_private_key key o = record o { private_key = some key }

  abbrev pub with_listen_ip : Text → DiscoveryOptionFunc
  with_listen_ip ip o = record o { listen_ip = ip }

  abbrev pub with_port_udp : ℤ → DiscoveryOptionFunc
  with_port_udp port o = record o { port_udp = port }

  abbrev pub with_port_tcp : ℤ → DiscoveryOptionFunc
  with_port_tcp port o = record o { port_tcp = port }

  abbrev pub default_option : DiscoveryOption
  default_option = record {
    private_key = none;
    listen_ip = codes "127.0.0.1";
    port_udp = pos 9090;
    port_tcp = pos 9090;
  }

-- A node as discv5 finds it: its record, and its address in the forms that are asked for.
pub record Node : Type 0 where
  pub pubkey : Text
  pub ip : Text
  -- `node.IP().To4()` has four bytes, `node.IP().To16()` has sixteen.
  pub is_ip4 : Bool
  pub is_ip6 : Bool
  pub is_private : Bool
  pub udp : ℕ
  pub tcp : ℕ

-- What the code of others computes: `UnmarshalSecp256k1PublicKey` after `FromECDSAPub`,
-- `IDFromPublicKey`, `NewMultiaddr`, and `%d`.
pub record Parsers : Type 1 where
  pub PublicKey : Type 0
  pub unmarshal_public_key : Text → Result PublicKey
  pub id_from_public_key : PublicKey → Result Text
  pub new_multiaddr : Text → Result Text
  pub decimal : ℕ → Text

-- A round of the loop: the context has ended, the iterator has, or there is a node, and where it is to
-- be handed on, whether the context ends first.
pub data Round : Type 0 where
  cancelled exhausted : Round
  next : Node → Bool → Round

module _ (parsers : Parsers) where
  open parsers use {unmarshal_public_key, id_from_public_key, new_multiaddr, decimal}

  abbrev ip_scheme : Node → Result Text
  ip_scheme node =
      if node.is_ip4
      then ok (codes "ip4")
      else if node.is_ip6
      then ok (codes "ip6")
      else err (Error.new (codes "invalid ip scheme from node's ip " ++ node.ip))

  -- `fmt.Sprintf("/%s/%s/udp/%d", ..)`
  abbrev pub multiaddr_text : Text → Text → Text → ℕ → Text
  multiaddr_text scheme ip protocol port =
      codes "/"
      ++ (scheme ++ (codes "/" ++ (ip ++ (codes "/" ++ (protocol ++ (codes "/" ++ decimal port))))))

  -- The address of a port, and none for port 0.
  abbrev pub maddr_of : Text → Text → Text → Text → ℕ → Result (List Text)
  maddr_of failed scheme ip protocol port = if port == 0 then ok [] else do
    maddr ← wrapped failed (new_multiaddr (multiaddr_text scheme ip protocol port))
    ok (maddr ∷ [])

  unfoldable pub extract_peer_addr_info : Node → Result AddrInfo
  extract_peer_addr_info node = do
    public_key ←
        wrapped (codes "failed to unmarshal secp256k1 public key from node's ecdsa public key")
          (unmarshal_public_key node.pubkey)
    pid ←
        wrapped (codes "failed to extract peer ID from node's secp256k1 public key")
          (id_from_public_key public_key)
    scheme ← ip_scheme node
    udp ← maddr_of (codes "failed to parse udp multiaddr") scheme node.ip (codes "udp") node.udp
    tcp ← maddr_of (codes "failed to parse tcp multiaddr") scheme node.ip (codes "tcp") node.tcp
    ok (record { id = pid; addrs = udp ++ tcp })

  -- What is sent to `d.discovers`, and what the loop returns; `none` while it runs. A send on a channel
  -- that is closed panics.
  unfoldable pub serve : Bool → List Round → List AddrInfo × Option (Result (Unit {0}))
  serve closed [] = ([], none)
  serve closed (cancelled ∷ rounds) = ([], some (ok tt))
  serve closed (exhausted ∷ rounds) = ([], some (ok tt))
  serve closed (next node cancelled_first ∷ rounds) =
      let rest = serve closed rounds in
      if node.is_private then rest else elim (extract_peer_addr_info node) [
        | ok addr_info ↦
            if cancelled_first
            then ([], some (ok tt))
            else if closed
            then ([], some panicked)
            else (addr_info ∷ rest.0, rest.1)
        | err e ↦ rest
        | panicked ↦ ([], some panicked)
      ]
