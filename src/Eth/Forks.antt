-- ===== src/Eth/Forks.antt =====
-- The fork in force at an epoch, and the chosen network.
use peekd.Base.{
  ℕ, ◌≤◌, ◌≡◌, ◌≢◌, ◌⊎◌, inl, inr, List, [], ◌∷◌, Text, Text-discrete, ite, arith, leb,
  if◌then◌else◌,
}
use peekd.Base.Results.{Result-cases, ok, panicked}
use peekd.Eth.{
  BeaconChainConfig, Params, four_bytes, get_fork_version, set_network, by_network,
  get_genesis_config, get_beacon_chain_config,
}

-- The forks after genesis, with the epochs from which they are in force.
abbrev pub schedule : BeaconChainConfig → List (ℕ × Text)
schedule c =
    (c.altair_fork_epoch, c.altair_fork_version)
    ∷ (c.bellatrix_fork_epoch, c.bellatrix_fork_version)
    ∷ (c.capella_fork_epoch, c.capella_fork_version)
    ∷ (c.deneb_fork_epoch, c.deneb_fork_version)
    ∷ (c.electra_fork_epoch, c.electra_fork_version)
    ∷ []

-- The last fork of the schedule that has begun, or the value given.
abbrev pub active {ℓ} : {A : Type ℓ} → ℕ → A → List (ℕ × A) → A
active epoch version [] = version
active epoch version ((from, next) ∷ forks) =
    active epoch (if leb from epoch then next else version) forks

-- The epochs of the forks do not fall.
pub record IsOrdered (c : BeaconChainConfig) : Type 0 where
  pub altair_first : c.altair_fork_epoch ≤ c.bellatrix_fork_epoch
  pub bellatrix_first : c.bellatrix_fork_epoch ≤ c.capella_fork_epoch
  pub capella_first : c.capella_fork_epoch ≤ c.deneb_fork_epoch
  pub deneb_first : c.deneb_fork_epoch ≤ c.electra_fork_epoch

-- Where the forks begin one after another, the version of an epoch is that of the last fork of the
-- schedule that has begun (Fulu, which is not in it, keeps the version of Electra).
pub get_fork_version-active :
    (c : BeaconChainConfig) (epoch : ℕ)
    → IsOrdered c
    → get_fork_version c epoch ≡ four_bytes (active epoch c.genesis_fork_version (schedule c))
unfolding get_fork_version
get_fork_version-active c epoch o = ground arith

by_network-set_network {ℓ} :
    {A : Type ℓ} (params : Params) (mainnet hoodi : A) (net network : Text)
    → (set_network params net network).1 ≡ ok tt
    → by_network params mainnet hoodi (set_network params net network).0
      ≡ ok (ite (Text-discrete net params.mainnet_name) mainnet hoodi)
unfolding set_network by_network
by_network-set_network params mainnet hoodi net network accepted =
    elim (Text-discrete net params.mainnet_name) [ yes p ↦ ground arith | no p ↦ ground arith ]

set_network_refused :
    (params : Params) (net network : Text)
    → (set_network params net network).1 ≢ ok tt
    → (set_network params net network).0 ≡ network
unfolding set_network
set_network_refused params net network h = ground arith

-- `SetNetwork` either accepts the network, and from then on the getters answer, without a panic, with
-- the beacon configuration of that network; or refuses it, and the earlier choice stays.
pub set_network-getters :
    (params : Params) (net network : Text)
    → let after = set_network params net network in
      ((after.1 ≡ ok tt)
        × (get_beacon_chain_config params after.0
            ≡ ok (
                ite
                  (Text-discrete net params.mainnet_name)
                  params.mainnet_config
                  params.hoodi_config))
        × (get_genesis_config params after.0 ≢ panicked))
      ⊎ ((after.1 ≢ ok tt) × (after.0 ≡ network))
set_network-getters params net network = elim (Result-cases (set_network params net network).1) [
  | inl (_, accepted) ↦ inl (
    accepted,
    unfold get_beacon_chain_config in
        by_network-set_network params params.mainnet_config params.hoodi_config net network
          accepted,
    unfold get_genesis_config in λ e. cc (by_network-set_network params _ _ net network accepted),
  )
  | inr failed ↦
      let refused : (set_network params net network).1 ≢ ok tt = elim failed [
        | inl (e, h) ↦ λ x. cc
        | inr h ↦ λ x. cc
      ] in
      inr (refused, set_network_refused params net network refused)
]
