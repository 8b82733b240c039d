-- ===== src/Reqresp/Serve.antt =====
-- reqresp/reqresp.go: the service, and the handlers that it sets on the host. The host is the one of
-- libp2p; setting a handler is a call that is written down in order.
use peekd.Base.{
  Bool, true, ◌≡◌, ◌≢◌, refl, Option, none, some, All, List, [], ◌∷◌, ◌++◌, map, Text, codes, arith,
}
use peekd.Base.Results.{Error, Result, ok, err}
use peekd.Eth.{BeaconChainConfig}
use peekd.Eth.Subnets.{Bitvector}
use peekd.Reqresp.Stream.{Streams}
use peekd.Reqresp.Handler.{
  RpcTopics, StreamHandler, inbound_ping, inbound_goodbye, inbound_metadata, inbound_status, noop,
  mapping_topic_to_handler, Wire, serve_stream,
}

module _ (Host : Type 0) where
  pub record ReqRespOption : Type 0 where
    pub host : Option Host

  pub record ReqResp : Type 0 where
    pub host : Host

  abbrev pub with_host : Host → ReqRespOption → ReqRespOption
  with_host host o = record o { host = some host }

  abbrev apply : List (ReqRespOption → ReqRespOption) → ReqRespOption → ReqRespOption
  apply [] o = o
  apply (opt ∷ opts) o = apply opts (opt o)

  unfoldable pub new_req_resp : List (ReqRespOption → ReqRespOption) → Result ReqResp
  new_req_resp opts = elim (apply opts (record { host = none })).host [
    | none ↦ err (Error.new (codes "host must be configured when creating reqresp"))
    | some host ↦ ok (record { host = host })
  ]

-- `suffix` is encoder.ProtocolSuffixSSZSnappy.
unfoldable pub protocol_id : Text → Text → Text
protocol_id suffix topic = topic ++ (codes "/" ++ suffix)

abbrev pub topics : RpcTopics → List Text
topics t = t.ping_v1 ∷ t.goodbye_v1 ∷ t.status_v1 ∷ t.metadata_v1 ∷ t.metadata_v2 ∷ []

-- The calls of `SetStreamHandler`.
unfoldable pub set_stream_handlers : Text → RpcTopics → List (Text × StreamHandler)
set_stream_handlers suffix t =
    map (λ topic. (protocol_id suffix topic, mapping_topic_to_handler t topic)) (topics t)

handlers_known :
    (suffix : Text) (t : RpcTopics) → All (λ e. e.1 ≢ noop) (set_stream_handlers suffix t)
unfolding set_stream_handlers mapping_topic_to_handler
handlers_known suffix t =
    (ground arith, (ground arith, (ground arith, (ground arith, (ground arith, tt)))))

module _ (streams : Streams) (bits64 bits4 : Bitvector) (wire : Wire streams bits64 bits4)
    (c : BeaconChainConfig) (is_closed : streams.Stream → Bool)
    (close-is_closed : (s : streams.Stream) → is_closed (streams.close s).0 ≡ true) where
  abbrev pub IsClosing : StreamHandler → Type 0
  IsClosing h =
      (s : streams.Stream) → is_closed (serve_stream streams bits64 bits4 wire c h s).0 ≡ true

  closes : (h : StreamHandler) → h ≢ noop → IsClosing h
  unfolding serve_stream
  closes inbound_ping known s = close-is_closed _
  closes inbound_goodbye known s = close-is_closed _
  closes inbound_metadata known s = close-is_closed _
  closes inbound_status known s = close-is_closed _
  closes noop known s = absurd (known refl)

  -- Every handler that the service sets closes the stream it was given, whichever of its calls fails.
  pub set_stream_handlers-IsClosing :
      (suffix : Text) (t : RpcTopics) → All (λ e. IsClosing e.1) (set_stream_handlers suffix t)
  unfolding set_stream_handlers
  set_stream_handlers-IsClosing suffix t =
      let (ping, (goodbye, (status, (v1, (v2, _))))) = handlers_known suffix t in
      (closes _ ping, (closes _ goodbye, (closes _ status, (closes _ v1, (closes _ v2, tt)))))
