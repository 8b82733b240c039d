-- ===== src/Witness/Network.antt =====
-- The theorems on eth/ and on the handlers of gossip/, at a configuration like that of mainnet.
use mathlib.Core.Path.{◌≡◌, refl}
use peekd.Base.{
  ℕ, ◌≢◌, Bool, false, some, [], ◌∷◌, Text, codes, ltb, arith, ◌&&◌, ◌==◌, if◌then◌else◌,
}
use peekd.Base.Results.{ok}
use peekd.Processor.Messages.{
  signed_beacon_block_electra_type, signed_beacon_block_type, attester_slashing_type,
}
use peekd.Eth.{BeaconChainConfig, Params, four_bytes, get_fork_version}
use peekd.Eth.Forks.{IsOrdered, active, schedule, get_fork_version-active}
use peekd.Eth.Subnets.{Bitvector}
use peekd.Gossip.Destination.{GossipSub, dst_of, beacon_block_handler, attester_slashing_handler}
use peekd.Gossip.Handler.Forks.{
  HasFourByteVersions, HasDistinctVersions, block_schedule, dst_of-attester_slashing,
  dst_of-block-active,
}

abbrev pub version : ℕ → Text
version n = n ∷ 0 ∷ 0 ∷ 0 ∷ []

abbrev pub mainnet : BeaconChainConfig
mainnet = record {
  seconds_per_slot = 12;
  slots_per_epoch = 32;
  altair_fork_epoch = 74240;
  bellatrix_fork_epoch = 144896;
  capella_fork_epoch = 194048;
  deneb_fork_epoch = 269568;
  electra_fork_epoch = 364032;
  fulu_fork_epoch = 18446744073709551615;
  genesis_fork_version = version 0;
  altair_fork_version = version 1;
  bellatrix_fork_version = version 2;
  capella_fork_version = version 3;
  deneb_fork_version = version 4;
  electra_fork_version = version 5;
  blobsidecar_subnet_count = 6;
  attestation_subnet_count = 64;
  sync_committee_subnet_count = 4;
  sync_committee_size = 512;
  target_committee_size = 128;
  max_committees_per_slot = 64;
  target_aggregators_per_committee = 16;
  target_aggregators_per_sync_subcommittee = 16;
  max_payload_size = 10485760;
}

abbrev pub params : Params
params = record {
  mainnet_name = codes "mainnet";
  hoodi_name = codes "hoodi";
  mainnet_config = mainnet;
  hoodi_config = mainnet;
  must_decode = λ text. text;
}

mainnet-IsOrdered : IsOrdered mainnet
mainnet-IsOrdered = record {
  altair_first = omega arith;
  bellatrix_first = omega arith;
  capella_first = omega arith;
  deneb_first = omega arith;
}

get_fork_version-active_example :
    get_fork_version mainnet 400000
    ≡ four_bytes (active 400000 mainnet.genesis_fork_version (schedule mainnet))
get_fork_version-active_example = get_fork_version-active mainnet 400000 mainnet-IsOrdered

-- 64 bits as a function.
abbrev pub bits : Bitvector
bits = record {
  Bits = ℕ → Bool;
  size = 64;
  zeros = λ i. false;
  bit_at = λ b i. b i;
  set_bit_at = λ b i v j. if i == j && ltb i 64 then v else b j;
  bit_at-zeros = λ i. refl;
  bit_at-set_bit_at = λ b i v j. refl;
}

mainnet_four : HasFourByteVersions mainnet
unfolding four_bytes
mainnet_four = record {
  genesis_four = refl;
  altair_four = refl;
  bellatrix_four = refl;
  capella_four = refl;
  deneb_four = refl;
  electra_four = refl;
}

differs : (a b : ℕ) → a ≢ b → version a ≢ version b
differs a b ne = ground (arith, ne)

mainnet_distinct : HasDistinctVersions mainnet
mainnet_distinct = record {
  genesis_altair = differs 0 1 (omega arith);
  genesis_bellatrix = differs 0 2 (omega arith);
  genesis_capella = differs 0 3 (omega arith);
  genesis_deneb = differs 0 4 (omega arith);
  genesis_electra = differs 0 5 (omega arith);
  altair_bellatrix = differs 1 2 (omega arith);
  altair_capella = differs 1 3 (omega arith);
  altair_deneb = differs 1 4 (omega arith);
  altair_electra = differs 1 5 (omega arith);
  bellatrix_capella = differs 2 3 (omega arith);
  bellatrix_deneb = differs 2 4 (omega arith);
  bellatrix_electra = differs 2 5 (omega arith);
  capella_deneb = differs 3 4 (omega arith);
  capella_electra = differs 3 5 (omega arith);
  deneb_electra = differs 4 5 (omega arith);
}

electra_now : get_fork_version mainnet 400000 ≡ ok (version 5)
unfolding get_fork_version four_bytes
electra_now = refl

abbrev gossip_sub : GossipSub
gossip_sub = record { fork_version = version 5; beacon_config = mainnet }

dst_of-attester_slashing_example :
    dst_of attester_slashing_handler gossip_sub ≡ some attester_slashing_type
dst_of-attester_slashing_example =
    dst_of-attester_slashing mainnet 400000 (version 5) mainnet_four electra_now

dst_of-block-active_example :
    dst_of beacon_block_handler gossip_sub
    ≡ some (active 400000 signed_beacon_block_type (block_schedule mainnet))
dst_of-block-active_example =
    dst_of-block-active mainnet 400000 (version 5) mainnet-IsOrdered mainnet_four mainnet_distinct
      electra_now

electra_block : dst_of beacon_block_handler gossip_sub ≡ some signed_beacon_block_electra_type
unfolding dst_of
electra_block = ground arith
