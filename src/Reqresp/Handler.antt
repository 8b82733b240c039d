-- ===== src/Reqresp/Handler.antt =====
-- reqresp/handler.go, its first half: the handlers of the streams that peers open, and those of the
-- streams that this node opens. The result of an inbound handler is what it logs.
use peekd.Base.{ℕ, Option, none, some, Text, codes, ite, Text-discrete}
use peekd.Base.Results.{Error}
use peekd.Eth.{BeaconChainConfig}
use peekd.Eth.Subnets.{
  Bitvector, get_attestation_all_subnet_bitvector, get_sync_committee_all_subnet_bitvector,
}
use peekd.Base.Actions.{◌>>=◌, ◌>>◌, pure, raise, wrapping}
use peekd.Reqresp.Stream.{Streams, Io, Codec, closing}
use peekd.Reqresp.Frames.{read_request, read_response, write_request, write_response}

-- p2p.RPCPingTopicV1 and its siblings.
pub record RpcTopics : Type 0 where
  pub ping_v1 : Text
  pub goodbye_v1 : Text
  pub status_v1 : Text
  pub metadata_v1 : Text
  pub metadata_v2 : Text

pub data StreamHandler : Type 0 where
  inbound_ping inbound_goodbye inbound_metadata inbound_status noop : StreamHandler

unfoldable pub mapping_topic_to_handler : RpcTopics → Text → StreamHandler
mapping_topic_to_handler t topic = ite (Text-discrete topic t.ping_v1) inbound_ping (
    ite (Text-discrete topic t.goodbye_v1) inbound_goodbye (
      ite (Text-discrete topic t.metadata_v1) inbound_metadata (
        ite (Text-discrete topic t.metadata_v2) inbound_metadata
          (ite (Text-discrete topic t.status_v1) inbound_status noop))))

-- `ethtypes.MetaDataV1`, its bit vectors of 64 and 4 bits.
pub record MetaDataV1 (bits64 bits4 : Bitvector) : Type 0 where
  pub attnets : bits64.Bits
  pub syncnets : bits4.Bits

-- What the handlers use of the packages they import: the codecs of the three kinds of data, the
-- messages of the goodbye codes, and `%d`.
pub record Wire (streams : Streams) (bits64 bits4 : Bitvector) : Type 1 where
  pub Status : Type 0
  pub uint64 : Codec streams ℕ
  pub status : Codec streams Status
  pub metadata : Codec streams (MetaDataV1 bits64 bits4)
  pub goodbye_code_messages : ℕ → Option Text
  pub format_code : ℕ → Text

module _ (streams : Streams) (bits64 bits4 : Bitvector) (wire : Wire streams bits64 bits4) where
  abbrev pub Served : Type 0
  Served = Io streams (Unit {0})

  unfoldable pub inbound_ping_handler : Served
  inbound_ping_handler = closing streams do
    wrapping (codes "failed to read ping request on stream") (read_request streams wire.uint64)
    wrapping (codes "failed to write ping response on stream")
        (write_response streams wire.uint64 0)

  unfoldable pub inbound_goodbye_handler : Served
  inbound_goodbye_handler = closing streams do
    req ←
        wrapping (codes "failed to read goodbye request on stream")
          (read_request streams wire.uint64)
    known (wire.goodbye_code_messages req)
    where
      known : Option Text → Served
      known none = raise (Error.new (codes "failed to read goodbye request code on stream"))
      known (some goodbye_code) = pure tt

  unfoldable pub inbound_metadata_handler : BeaconChainConfig → Served
  inbound_metadata_handler c = closing streams do
    wrapping (codes "failed to write metadata response") (
        write_response streams wire.metadata (record {
          attnets = get_attestation_all_subnet_bitvector bits64 c;
          syncnets = get_sync_committee_all_subnet_bitvector bits4 c;
        }))

  unfoldable pub inbound_status_handler : Served
  inbound_status_handler = closing streams do
    status ←
        wrapping (codes "failed to read status request on stream")
          (read_request streams wire.status)
    wrapping (codes "failed to write status response on stream")
        (write_response streams wire.status status)

  unfoldable pub serve_stream : BeaconChainConfig → StreamHandler → Served
  unfolding inbound_ping_handler inbound_goodbye_handler inbound_metadata_handler
      inbound_status_handler
  serve_stream c inbound_ping = inbound_ping_handler
  serve_stream c inbound_goodbye = inbound_goodbye_handler
  serve_stream c inbound_metadata = inbound_metadata_handler c
  serve_stream c inbound_status = inbound_status_handler
  serve_stream c noop = pure tt

  unfoldable pub outbound_ping_handler : Io streams (Unit {0})
  outbound_ping_handler = closing streams do
    wrapping (codes "failed to write ping request on stream") (write_request streams wire.uint64 0)
    wrapping (codes "failed to read ping response on stream")
        (read_response streams wire.uint64 wire.format_code)
    pure tt

  unfoldable pub outbound_metadata_handler : Io streams (Unit {0})
  outbound_metadata_handler = closing streams do
    wrapping (codes "failed to read metadata response")
        (read_response streams wire.metadata wire.format_code)
    pure tt
