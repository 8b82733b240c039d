-- ===== src/Reqresp/Exchange.antt =====
-- What two nodes that run this code say to each other over reliable connections.
use peekd.Base.{true, ℕ, [], ◌∷◌, ◌++◌, Text, ◌≡◌, refl, sym, ap, ◌∙◌}
use mathlib.Core.List.{append-nil}
use peekd.Base.Results.{ok}
use peekd.Eth.Subnets.{Bitvector}
use peekd.Reqresp.Stream.{Streams}
use peekd.Reqresp.Frames.{write_request}
use peekd.Reqresp.Reliable.{wrote, left, read_shut, write_shut, View, Gives, IsReliable, IsCoding}
use peekd.Reqresp.RoundTrip.{
  write_request_gives, read_request_gives, write_response_gives, read_response_gives,
}
use peekd.Reqresp.Handler.{
  Wire, inbound_ping_handler, inbound_status_handler, outbound_ping_handler,
}

module _ (streams : Streams) (view : streams.Stream → View) (reliable : IsReliable streams view)
    (bits64 bits4 : Bitvector) (wire : Wire streams bits64 bits4) where
  open streams use {Stream}

  -- The handler of pings reads a request, answers 0 and closes the stream.
  inbound_ping_gives :
      (bytes : ℕ → Text) (s : Stream) (n : ℕ)
      → IsCoding streams view wire.uint64 bytes
      → (view s).reading ≡ true
      → (view s).writing ≡ true
      → (view s).to_read ≡ bytes n
      → Gives streams view
          (inbound_ping_handler streams bits64 bits4 wire)
          s
          tt
          (read_shut (write_shut (left [] (wrote (bytes 0) (wrote (0 ∷ []) (view s))))))
  unfolding inbound_ping_handler
  inbound_ping_gives bytes s n coding reads writes arrived =
      let (s₁, e₁, v₁) =
        read_request_gives streams view reliable wire.uint64 bytes coding n [] s reads
          (arrived ∙ sym (append-nil (bytes n))) in
      let (s₂, e₂, v₂) =
        write_response_gives streams view reliable wire.uint64 bytes coding 0 s₁
          (ap (λ w. w.writing) v₁ ∙ writes) in
      (
        (streams.close s₂).0,
        rw (e₁, e₂) refl,
        reliable.close s₂
            ∙ ap (λ w. read_shut (write_shut w))
                (v₂ ∙ ap (λ w. write_shut (wrote (bytes 0) (wrote (0 ∷ []) w))) v₁),
      )

  -- The answer to a status is that status.
  pub inbound_status-echo :
      (bytes : wire.Status → Text) (s : Stream) (status : wire.Status)
      → IsCoding streams view wire.status bytes
      → (view s).sent ≡ []
      → (view s).reading ≡ true
      → (view s).writing ≡ true
      → (view s).to_read ≡ bytes status
      → (view (inbound_status_handler streams bits64 bits4 wire s).0).sent ≡ 0 ∷ bytes status
  unfolding inbound_status_handler
  inbound_status-echo bytes s status coding fresh reads writes arrived =
      let (s₁, e₁, v₁) =
        read_request_gives streams view reliable wire.status bytes coding status [] s reads
          (arrived ∙ sym (append-nil (bytes status))) in
      let (s₂, e₂, v₂) =
        write_response_gives streams view reliable wire.status bytes coding status s₁
          (ap (λ w. w.writing) v₁ ∙ writes) in
      rw (e₁, e₂)
        (ap (λ w. w.sent) (reliable.close s₂ ∙ ap (λ w. read_shut (write_shut w)) v₂)
          ∙ ap (λ w. (w.sent ++ (0 ∷ [])) ++ bytes status) v₁
          ∙ ap (λ b. (b ++ (0 ∷ [])) ++ bytes status) fresh)

  -- On connections whose calls succeed while their half of the stream is open, and with an encoder and a
  -- decoder that fit, a ping between two nodes on fresh and open streams succeeds on both sides, if the one
  -- that is asked gets what the outbound handler has written as its request, and the outbound handler gets
  -- what the inbound handler has sent.
  pub ping_exchange :
      (bytes : ℕ → Text) (from to : Stream)
      → IsCoding streams view wire.uint64 bytes
      → (view from).sent ≡ []
      → (view from).reading ≡ true
      → (view from).writing ≡ true
      → (view to).sent ≡ []
      → (view to).reading ≡ true
      → (view to).writing ≡ true
      → (view to).to_read ≡ (view (write_request streams wire.uint64 0 from).0).sent
      → (view from).to_read ≡ (view (inbound_ping_handler streams bits64 bits4 wire to).0).sent
      → ((inbound_ping_handler streams bits64 bits4 wire to).1 ≡ ok tt)
        × ((outbound_ping_handler streams bits64 bits4 wire from).1 ≡ ok tt)
  unfolding outbound_ping_handler
  ping_exchange bytes from to coding fresh_from from_reads from_writes fresh_to to_reads to_writes
        asked answered =
      let (s₁, e₁, v₁) =
        write_request_gives streams view reliable wire.uint64 bytes coding 0 from from_writes in
      let (s₂, e₂, v₂) = inbound_ping_gives bytes to 0 coding to_reads to_writes (
        asked
        ∙ ap (λ r. (view r.0).sent) e₁
        ∙ ap (λ w. w.sent) v₁
        ∙ ap (λ b. b ++ bytes 0) fresh_from) in
      let (s₃, e₃, v₃) =
        read_response_gives streams view reliable wire.uint64 bytes coding wire.format_code 0 [] s₁
          (ap (λ w. w.reading) v₁ ∙ from_reads)
          (ap (λ w. w.to_read) v₁
            ∙ answered
            ∙ ap (λ r. (view r.0).sent) e₂
            ∙ ap (λ w. w.sent) v₂
            ∙ ap (λ b. (b ++ (0 ∷ [])) ++ bytes 0) fresh_to
            ∙ ap (λ b. 0 ∷ b) (sym (append-nil (bytes 0)))) in
      (ap (λ r. r.1) e₂, rw (e₁, e₃) refl)
