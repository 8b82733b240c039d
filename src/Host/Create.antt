-- ===== src/Host/Create.antt =====
-- The options of host/host.go and `NewHost`. The parsers of addresses, the defaults that are generated and
-- `libp2p.New` are parameters.
use peekd.Base.{Bool, Option, none, some, List, [], ◌∷◌, Text, codes, if◌then◌else◌}
use peekd.Base.Int.{ℤ, pos}
use peekd.Base.Results.{Error, Result, ok, err, wrapped, ◌>>=◌}

-- The code of others.
pub record Network : Type 1 where
  pub PrivKey : Type 0
  pub ResourceManager : Type 0
  pub ConnManager : Type 0
  pub Multiaddr : Type 0
  pub Libp2p : Type 0
  pub null_conn_mgr : ConnManager
  pub generate_secp256k1_key : Result PrivKey
  pub new_resource_manager : Result ResourceManager
  -- `net.ParseIP(s) != nil`, and whether its `To4()` is there too
  pub parses_ip : Text → Bool
  pub parses_ip4 : Text → Bool
  -- `ma.NewMultiaddr(fmt.Sprintf("/ip4/%s/tcp/%d", ip, port))`
  pub tcp_multiaddr : Text → ℤ → Result Multiaddr
  -- `libp2p.New` with the address, the key, the user agent and the two managers
  pub new_libp2p : Multiaddr → PrivKey → Text → ResourceManager → ConnManager → Result Libp2p

module _ (net : Network) where
  open net use {PrivKey, ResourceManager, ConnManager, Libp2p}

  pub record HostOption : Type 0 where
    pub listen_ip : Text
    pub port : ℤ
    pub private_key : Option PrivKey
    pub user_agent : Text
    pub target_peers : ℤ
    pub rc_mgr : Option ResourceManager
    pub conn_mgr : ConnManager

  abbrev pub HostOptionFunc : Type 0
  HostOptionFunc = HostOption → HostOption

  abbrev pub with_listen_ip : Text → HostOptionFunc
  with_listen_ip ip o = record o { listen_ip = ip }

  abbrev pub with_port : ℤ → HostOptionFunc
  with_port port o = record o { port = port }

  abbrev pub with_private_key : PrivKey → HostOptionFunc
  with_private_key key o = record o { private_key = some key }

  abbrev pub with_user_agent : Text → HostOptionFunc
  with_user_agent user_agent o = record o { user_agent = user_agent }

  abbrev pub with_target_peers : ℤ → HostOptionFunc
  with_target_peers target_peers o = record o { target_peers = target_peers }

  abbrev pub with_resource_manager : ResourceManager → HostOptionFunc
  with_resource_manager rc_mgr o = record o { rc_mgr = some rc_mgr }

  abbrev pub with_conn_mgr : ConnManager → HostOptionFunc
  with_conn_mgr conn_mgr o = record o { conn_mgr = conn_mgr }

  abbrev pub default_option : HostOption
  default_option = record {
    listen_ip = codes "127.0.0.1";
    port = pos 9090;
    private_key = none;
    user_agent = codes "libp2p-host";
    target_peers = pos 80;
    rc_mgr = none;
    conn_mgr = net.null_conn_mgr;
  }

  abbrev pub apply : List HostOptionFunc → HostOption → HostOption
  apply [] o = o
  apply (opt ∷ opts) o = apply opts (opt o)

  pub record NewHost : Type 0 where
    pub libp2p_host : Libp2p
    pub target_peers : ℤ

  abbrev pub private_key_of : Option PrivKey → Result PrivKey
  private_key_of (some key) = ok key
  private_key_of none =
      wrapped (codes "failed to generate secp256k1 private key") net.generate_secp256k1_key

  abbrev pub rc_mgr_of : Option ResourceManager → Result ResourceManager
  rc_mgr_of (some rc_mgr) = ok rc_mgr
  rc_mgr_of none =
      wrapped (codes "failed to create libp2p resource manager") net.new_resource_manager

  abbrev pub check_ip : Text → Result (Unit {0})
  check_ip ip =
      if net.parses_ip ip
      then (if net.parses_ip4 ip
          then ok tt
          else err (Error.new (codes "ip address should be ipv4")))
      else err (Error.new (codes "failed to parse ip address"))

  unfoldable pub new_host : List HostOptionFunc → Result NewHost
  new_host opts =
      let o = apply opts default_option in
      do
        private_key ← private_key_of o.private_key
        rc_mgr ← rc_mgr_of o.rc_mgr
        checked ← check_ip o.listen_ip
        multiaddr ←
            wrapped (codes "failed to parse tcp multiaddr") (net.tcp_multiaddr o.listen_ip o.port)
        libp2p_host ←
            wrapped (codes "failed to create libp2p host")
              (net.new_libp2p multiaddr private_key o.user_agent rc_mgr o.conn_mgr)
        ok (record { libp2p_host = libp2p_host; target_peers = o.target_peers })
