-- ===== src/Witness/Fixtures.antt =====
-- A mainnet-like configuration, a decoder, messages and processors for the examples.
use mathlib.Core.List.{Perm}
use mathlib.Core.List.Perm
use peekd.Base.{ℕ, Bool, true, List, [], ◌∷◌, Text, codes}
use peekd.Base.Int.{ℤ, pos}
use peekd.Base.Results.{Error, Result, ok, err}
use peekd.Repository.Models.{SlotMessageStats}
use peekd.Processor.Messages.{
  Message, MessageType, signed_beacon_block, signed_beacon_block_type, voluntary_exit,
  voluntary_exit_type,
}
use peekd.Processor.Topics.{MessageNames}
use peekd.Processor.State.{
  BeaconConfig, BeaconMessageProcessor, PubsubMessage, new_beacon_message_processor,
}
use peekd.Processor.Process.{process, slot_record, new_slot_metadata}
use peekd.Processor.Process.Kept.{process-IsValid, IsValid}
use peekd.Processor.Serve.{Flush}
use peekd.Processor.Serve.Reach.{new-IsValid}

abbrev pub names : MessageNames
names = record {
  block = codes "beacon_block";
  aggregate_and_proof = codes "beacon_aggregate_and_proof";
  contribution_and_proof = codes "sync_committee_contribution_and_proof";
  proposer_slashing = codes "proposer_slashing";
  attester_slashing = codes "attester_slashing";
  exit = codes "voluntary_exit";
  bls_to_execution_change = codes "bls_to_execution_change";
  attestation = codes "beacon_attestation";
  sync_committee = codes "sync_committee";
  blob_sidecar = codes "blob_sidecar";
}

abbrev pub genesis : ℕ
genesis = 1_606_824_023_000_000_000

abbrev pub config : BeaconConfig
config = record { genesis_time = pos genesis; seconds_per_slot = 12; names = names }

-- Blocks of slot 3 and exits are understood.
abbrev pub decode : MessageType → Text → Result Message
decode signed_beacon_block_type payload = ok (signed_beacon_block (record { slot = 3 }))
decode voluntary_exit_type payload = ok voluntary_exit
decode _ payload = err (Error.new (codes "snappy: corrupt input"))

abbrev pub block_msg : PubsubMessage
block_msg = record {
  received_from = codes "16Uiu2";
  topic = codes "/eth2/6a95a1a9/beacon_block/ssz_snappy";
  id = 171 ∷ 205 ∷ [];
  payload = 1 ∷ 2 ∷ 3 ∷ [];
}

abbrev pub exit_msg : PubsubMessage
exit_msg = record {
  received_from = codes "16Uiu2";
  topic = codes "/eth2/6a95a1a9/voluntary_exit/ssz_snappy";
  id = 18 ∷ [];
  payload = 4 ∷ [];
}

-- Half a second into slot 3, and slot 10.
abbrev pub now : ℕ
now = 1_606_824_059_500_000_000

abbrev pub later : ℤ
later = pos 1_606_824_143_000_000_000

abbrev pub start : BeaconMessageProcessor
start = new_beacon_message_processor config []

pub start-IsValid : IsValid start
start-IsValid = new-IsValid config []

-- The record of the block.
abbrev pub block_record : SlotMessageStats
block_record =
    slot_record 5 (new_slot_metadata start.beacon_config (pos now) block_msg 3) (codes "6a95a1a9")
      (codes "beacon_block") start

-- After a block of slot 3.
abbrev pub held : BeaconMessageProcessor
held = (process decode (pos now) 5 block_msg signed_beacon_block_type start).0

pub held-IsValid : IsValid held
held-IsValid =
    process-IsValid decode (pos now) 5 block_msg signed_beacon_block_type start start-IsValid

abbrev pub accept : List SlotMessageStats → Bool
accept stats = true

abbrev pub slots : List ℕ → List ℕ
slots xs = xs

abbrev pub visit : List SlotMessageStats → List SlotMessageStats
visit xs = xs

pub any_slots : (xs : List ℕ) → Perm (slots xs) xs
any_slots xs = Perm.refl xs

pub any_visit : (xs : List SlotMessageStats) → Perm (visit xs) xs
any_visit xs = Perm.refl xs

abbrev pub flush_later : Flush
flush_later = record { now = later; accept = accept; slots = slots; visit = visit }
