-- ===== src/Witness/Streams.antt =====
-- The theorems on reqresp/, at streams that are kept in memory.
use mathlib.Core.Path.{◌≡◌, refl}
use peekd.Base.{
  ℕ, zero, suc, Bool, true, false, Option, none, some, All, [], ◌∷◌, ◌++◌, Text, codes, length,
}
use peekd.Base.Results.{Error, Result, ok, err, panicked}
use peekd.Reqresp.Stream.{Streams, Codec}
use peekd.Reqresp.Frames.{read_request, read_response, write_request, write_response}
use peekd.Reqresp.Handler.{RpcTopics, Wire, MetaDataV1, inbound_ping_handler, outbound_ping_handler}
use peekd.Reqresp.Serve.{set_stream_handlers, IsClosing, set_stream_handlers-IsClosing}
use peekd.Reqresp.Reliable.{View, IsReliable, IsCoding}
use peekd.Reqresp.RoundTrip.{read-write}
use peekd.Reqresp.Exchange.{ping_exchange}
use peekd.Witness.Network.{mainnet, bits}

record Memory : Type 0 where
  sent : Text
  to_read : Text
  reading : Bool
  writing : Bool
  closed : Bool

-- The first bytes and the others; `none` where there are too few.
unfoldable take : ℕ → Text → Option (Text × Text)
take zero t = some ([], t)
take (suc n) [] = none
take (suc n) (c ∷ t) = elim (take n t) [ none ↦ none | some found ↦ some (c ∷ found.0, found.1) ]

take-length : (b rest : Text) → take (length b) (b ++ rest) ≡ some (b, rest)
unfolding take
take-length [] rest = refl
take-length (c ∷ b) rest = rw (take-length b rest) refl

abbrev Io : Type 0 → Type 0
Io A = Memory → Memory × Result A

-- What fails on a stream that is closed for it.
unfoldable when_open : {A : Type 0} → Bool → Io A → Io A
when_open true m s = m s
when_open false m s = (s, err (Error.new (codes "stream closed")))

unfoldable take_from : ℕ → Io Text
unfolding take
take_from n s = elim (take n s.to_read) [
  | none ↦ (s, err (Error.new (codes "unexpected EOF")))
  | some found ↦ (record s { to_read = found.1 }, ok found.0)
]

abbrev put : Text → Io (Unit {0})
put b s = when_open s.writing (λ t. (record t { sent = t.sent ++ b }, ok tt)) s

abbrev streams : Streams
streams = record {
  Stream = Memory;
  set_read_deadline = λ d s. (s, ok tt);
  set_write_deadline = λ d s. (s, ok tt);
  write = put;
  read_full = λ n s. when_open s.reading (take_from n) s;
  read_all = λ s. when_open s.reading (λ t. (record t { to_read = [] }, ok t.to_read)) s;
  close_read = λ s. (record s { reading = false }, ok tt);
  close_write = λ s. (record s { writing = false }, ok tt);
  close = λ s. (record s { reading = false; writing = false; closed = true }, ok tt);
}

abbrev seen : Memory → View
seen s = record { sent = s.sent; to_read = s.to_read; reading = s.reading; writing = s.writing }

reliable : IsReliable streams seen
unfolding take_from when_open
reliable = record {
  set_read_deadline = λ d s can. (s, refl, refl);
  set_write_deadline = λ d s can. (s, refl, refl);
  write = λ b s can. (record s { sent = s.sent ++ b }, rw (can, when_open) refl, refl);
  read_full = λ b rest s can arrived. (
    record s { to_read = rest },
    rw (can, when_open, arrived, take_from, take-length b rest) refl,
    refl,
  );
  read_all = λ s can. (record s { to_read = [] }, rw (can, when_open) refl, refl);
  close_read = λ s. (record s { reading = false }, refl, refl);
  close_write = λ s. (record s { writing = false }, refl, refl);
  close = λ s. refl;
}

abbrev first_of : Text → ℕ
first_of [] = 0
first_of (c ∷ _) = c

abbrev mapped : Result Text → Result ℕ
mapped (ok t) = ok (first_of t)
mapped (err e) = err e
mapped panicked = panicked

-- A number as one byte.
abbrev byte_codec : Codec streams ℕ
byte_codec = record {
  encode = λ n. put (n ∷ []);
  decode = λ s. when_open s.reading (λ t. let (t', r) = take_from 1 t in (t', mapped r)) s;
}

abbrev byte : ℕ → Text
byte n = n ∷ []

coding : IsCoding streams seen byte_codec byte
unfolding take_from take when_open
coding = record {
  encode = λ n s can. (record s { sent = s.sent ++ (n ∷ []) }, rw (can, when_open) refl, refl);
  decode = λ n rest s can arrived.
      (record s { to_read = rest }, rw (can, when_open, arrived, take_from) refl, refl);
}

abbrev metadata_codec : Codec streams (MetaDataV1 bits bits)
metadata_codec = record {
  encode = λ m s. (s, ok tt);
  decode = λ s. (s, err (Error.new (codes "EOF")));
}

abbrev wire : Wire streams bits bits
wire = record {
  Status = ℕ;
  uint64 = byte_codec;
  status = byte_codec;
  metadata = metadata_codec;
  goodbye_code_messages = λ n. none;
  format_code = λ n. n ∷ [];
}

abbrev topics : RpcTopics
topics = record {
  ping_v1 = codes "/eth2/beacon_chain/req/ping/1";
  goodbye_v1 = codes "/eth2/beacon_chain/req/goodbye/1";
  status_v1 = codes "/eth2/beacon_chain/req/status/1";
  metadata_v1 = codes "/eth2/beacon_chain/req/metadata/1";
  metadata_v2 = codes "/eth2/beacon_chain/req/metadata/2";
}

set_stream_handlers-IsClosing_example :
    All
      (λ e. IsClosing streams bits bits wire mainnet (λ s. s.closed) (λ s. refl) e.1)
      (set_stream_handlers (codes "ssz_snappy") topics)
set_stream_handlers-IsClosing_example =
    set_stream_handlers-IsClosing streams bits bits wire mainnet (λ s. s.closed) (λ s. refl)
      (codes "ssz_snappy") topics

abbrev fresh : Text → Memory
fresh arriving = record {
  sent = [];
  to_read = arriving;
  reading = true;
  writing = true;
  closed = false;
}

-- The number 7, asked and answered.
read-write_example :
    ((write_request streams byte_codec 7 (fresh [])).1 ≡ ok tt)
    × ((seen (write_request streams byte_codec 7 (fresh [])).0).writing ≡ false)
    × ((write_response streams byte_codec 7 (fresh [])).1 ≡ ok tt)
    × ((seen (write_response streams byte_codec 7 (fresh [])).0).writing ≡ false)
    × ((read_request streams byte_codec (fresh (7 ∷ []))).1 ≡ ok 7)
    × ((read_response streams byte_codec (λ n. n ∷ []) (fresh (0 ∷ 7 ∷ []))).1 ≡ ok 7)
unfolding write_request write_response when_open
read-write_example =
    read-write streams seen reliable byte_codec byte coding (λ n. n ∷ []) 7 (fresh [])
      (fresh (7 ∷ [])) (fresh (0 ∷ 7 ∷ [])) refl refl refl refl refl refl

ping_exchange_example :
    ((inbound_ping_handler streams bits bits wire (fresh (0 ∷ []))).1 ≡ ok tt)
    × ((outbound_ping_handler streams bits bits wire (fresh (0 ∷ 0 ∷ []))).1 ≡ ok tt)
unfolding write_request write_response read_request inbound_ping_handler take take_from when_open
ping_exchange_example =
    ping_exchange streams seen reliable bits bits wire byte (fresh (0 ∷ 0 ∷ [])) (fresh (0 ∷ []))
      coding refl refl refl refl refl refl refl refl
