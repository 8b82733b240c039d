-- ===== src/Processor/SeenCounter/History.antt =====
-- The counter against its history: what `Pop` reports is the number of sightings of the same raw id
-- since the last `Pop` of that id.
use mathlib.Core.Option
use peekd.Base.{
  ℕ, zero, suc, ◌+◌, ◌%◌, ◌^◌, ◌≡◌, refl, ap, ite, Option, none, some, List, [], ◌∷◌, Text,
  Text-discrete, All, ltb, arith,
}
use peekd.Base.Maps.{get, get-put, get-delete}
use peekd.Processor.SeenCounter.{SeenCounter, hex_encode, new_seen_counter, increase_by_raw_id, pop}
use peekd.Processor.SeenCounter.Hex.{IsBytes, hex_encode-injective}

-- A call of the counter, for the message with this raw id.
pub data Call : Type 0 where
  seen : Text → Call
  popped : Text → Call

abbrev pub raw_of : Call → Text
raw_of (seen raw) = raw
raw_of (popped raw) = raw

-- The counter after a history of calls, the newest first.
unfoldable pub run : List Call → SeenCounter
run [] = new_seen_counter
run (seen raw ∷ h) = increase_by_raw_id raw (run h)
run (popped raw ∷ h) = (pop (hex_encode raw) (run h)).0

-- How many sightings of an id there were since it was last popped.
unfoldable pub since_pop : Text → List Call → ℕ
since_pop raw [] = 0
since_pop raw (seen other ∷ h) =
    let rest = since_pop raw h in ite (Text-discrete other raw) (suc rest) rest
since_pop raw (popped other ∷ h) =
    let rest = since_pop raw h in ite (Text-discrete other raw) 0 rest

stored : ℕ → Option ℕ
stored zero = none
stored (suc n) = some (suc n % 2 ^ 32)

stored-suc : (n : ℕ) → some ((Option.get_or (stored n) 0 + 1) % 2 ^ 32) ≡ stored (suc n)
unfolding stored
stored-suc zero = refl
stored-suc (suc n) = ap some (omega arith)

stored-zero : stored 0 ≡ none
unfolding stored
stored-zero = refl

-- The key of another id is another key.
hex_encode-eq : (r s : Text) → IsBytes r → IsBytes s → ¬ (r ≡ s) → ¬ (hex_encode r ≡ hex_encode s)
hex_encode-eq r s hr hs ne e = ne (hex_encode-injective r s hr hs e)

get-pop :
    (id j : Text) (sc : SeenCounter)
    → get Text-discrete j (pop id sc).0.counts
      ≡ ite (Text-discrete id j) none (get Text-discrete j sc.counts)
unfolding pop
get-pop id j sc = ground (arith, get-delete Text-discrete id j sc.counts)

get-run :
    (raw : Text) (h : List Call)
    → IsBytes raw
    → All (λ c. IsBytes (raw_of c)) h
    → get Text-discrete (hex_encode raw) (run h).counts ≡ stored (since_pop raw h)
unfolding run since_pop new_seen_counter increase_by_raw_id get
get-run raw [] b bs = unfold stored in refl
get-run raw (seen other ∷ h) b bs =
    let counts = (run h).counts in
    let seen_so_far = Option.get_or (get Text-discrete (hex_encode other) counts) 0 in
    ground (
      arith,
      get-put Text-discrete (hex_encode other) (hex_encode raw) ((seen_so_far + 1) % 2 ^ 32) counts,
      stored-suc (since_pop raw h),
      hex_encode-eq other raw bs.0 b,
      get-run raw h b bs.1,
    )
get-run raw (popped other ∷ h) b bs = ground (
  arith,
  get-pop (hex_encode other) (hex_encode raw) (run h),
  stored-zero,
  hex_encode-eq other raw bs.0 b,
  get-run raw h b bs.1,
)

-- On ids that are bytes, `Pop` of the key of an id answers, after any history of calls, the number
-- of sightings of that id since it was last popped, modulo 2^32, and whether there was any.
pub pop-run :
    (raw : Text) (h : List Call)
    → IsBytes raw
    → All (λ c. IsBytes (raw_of c)) h
    → (pop (hex_encode raw) (run h)).1 ≡ (since_pop raw h % 2 ^ 32, ltb 0 (since_pop raw h))
unfolding pop stored
pop-run raw h b bs = ground (arith, get-run raw h b bs)
