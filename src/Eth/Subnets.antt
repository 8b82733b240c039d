-- ===== src/Eth/Subnets.antt =====
-- The bit vectors of all subnets. Setting a bit is a method of go-bitfield, a parameter here.
use peekd.Base.{
  not, ℕ, zero, suc, ◌+◌, ◌≡◌, Bool, true, false, ltb, ◌==◌, ◌&&◌, if◌then◌else◌, arith,
}
use peekd.Eth.{BeaconChainConfig}

-- `bitfield.Bitvector64` and `Bitvector4`: a write past the end changes nothing.
pub record Bitvector : Type 1 where
  pub Bits : Type 0
  pub size : ℕ
  pub zeros : Bits
  pub bit_at : Bits → ℕ → Bool
  pub set_bit_at : Bits → ℕ → Bool → Bits
  pub bit_at-zeros : (i : ℕ) → bit_at zeros i ≡ false
  pub bit_at-set_bit_at :
      (b : Bits) (i : ℕ) (v : Bool) (j : ℕ)
      → bit_at (set_bit_at b i v) j ≡ (if i == j && ltb i size then v else bit_at b j)

module _ (bitfield : Bitvector) where
  open bitfield use {Bits, size, zeros, bit_at, set_bit_at, bit_at-zeros, bit_at-set_bit_at}

  -- `for i := from; i < from + rounds; i++ { b.SetBitAt(i, true) }`
  unfoldable pub set_from : ℕ → ℕ → Bits → Bits
  set_from zero i b = b
  set_from (suc rounds) i b = set_from rounds (i + 1) (set_bit_at b i true)

  unfoldable pub get_attestation_all_subnet_bitvector : BeaconChainConfig → Bits
  unfolding set_from
  get_attestation_all_subnet_bitvector config = set_from config.attestation_subnet_count 0 zeros

  unfoldable pub get_sync_committee_all_subnet_bitvector : BeaconChainConfig → Bits
  unfolding set_from
  get_sync_committee_all_subnet_bitvector config =
      set_from config.sync_committee_subnet_count 0 zeros

  bit_at-set_from :
      (rounds i : ℕ) (b : Bits) (j : ℕ)
      → bit_at (set_from rounds i b) j
        ≡ (if (ltb j size && ltb j (i + rounds)) && not (ltb j i) then true else bit_at b j)
  unfolding set_from
  bit_at-set_from zero i b j = ground arith
  bit_at-set_from (suc rounds) i b j =
      ground (
        arith,
        bit_at-set_from rounds (i + 1) (set_bit_at b i true) j,
        bit_at-set_bit_at b i true j,
      )

  -- The vectors have the bits of exactly the subnets that exist and that they have room for.
  pub bit_at-all_subnets :
      (config : BeaconChainConfig) (j : ℕ)
      → (bit_at (get_attestation_all_subnet_bitvector config) j
          ≡ (ltb j size && ltb j config.attestation_subnet_count))
        × (bit_at (get_sync_committee_all_subnet_bitvector config) j
            ≡ (ltb j size && ltb j config.sync_committee_subnet_count))
  unfolding get_attestation_all_subnet_bitvector get_sync_committee_all_subnet_bitvector
  bit_at-all_subnets config j = (
    ground (arith, bit_at-set_from config.attestation_subnet_count 0 zeros j, bit_at-zeros j),
    ground (arith, bit_at-set_from config.sync_committee_subnet_count 0 zeros j, bit_at-zeros j),
  )
