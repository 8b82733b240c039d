-- ===== src/Reqresp/RoundTrip.antt =====
-- Requests and responses over reliable connections: what is written, and what is read from it.
use peekd.Base.{true, false, ℕ, suc, [], ◌∷◌, ◌++◌, Text, codes, ◌≡◌, refl, sym, ap, ◌∙◌}
use peekd.Base.Results.{Error, ok, err, wrap}
use peekd.Reqresp.Stream.{Streams, Codec}
use peekd.Reqresp.Frames.{
  read_request, read_body, read_response, write_request, write_response, read_timeout,
  write_timeout,
}
use peekd.Reqresp.Reliable.{wrote, left, read_shut, write_shut, View, Gives, IsReliable, IsCoding}
use mathlib.Core.List.{append-nil}

module _ (streams : Streams) (view : streams.Stream → View)
    (reliable : IsReliable streams view) where
  open streams use {Stream}

  module _ {V : Type 0} (codec : Codec streams V) (bytes : V → Text)
      (coding : IsCoding streams view codec bytes) where
    pub write_request_gives :
        (v : V) (s : Stream)
        → (view s).writing ≡ true
        → Gives streams view
            (write_request streams codec v)
            s
            tt
            (write_shut (wrote (bytes v) (view s)))
    unfolding write_request
    write_request_gives v s can =
        let (s₁, e₁, v₁) = reliable.set_write_deadline write_timeout s can in
        let (s₂, e₂, v₂) = coding.encode v s₁ (ap (λ w. w.writing) v₁ ∙ can) in
        let (s₃, e₃, v₃) = reliable.close_write s₂ in
        (s₃, rw (e₁, e₂, e₃) refl, v₃ ∙ ap write_shut (v₂ ∙ ap (wrote (bytes v)) v₁))

    pub read_request_gives :
        (v : V) (rest : Text) (s : Stream)
        → (view s).reading ≡ true
        → (view s).to_read ≡ bytes v ++ rest
        → Gives streams view (read_request streams codec) s v (read_shut (left rest (view s)))
    unfolding read_request
    read_request_gives v rest s can arrived =
        let (s₁, e₁, v₁) = reliable.set_read_deadline read_timeout s can in
        let (s₂, e₂, v₂) =
          coding.decode v rest s₁ (ap (λ w. w.reading) v₁ ∙ can)
            (ap (λ w. w.to_read) v₁ ∙ arrived) in
        let (s₃, e₃, v₃) = reliable.close_read s₂ in
        (s₃, rw (e₁, e₂, e₃) refl, v₃ ∙ ap read_shut (v₂ ∙ ap (left rest) v₁))

    pub write_response_gives :
        (v : V) (s : Stream)
        → (view s).writing ≡ true
        → Gives streams view
            (write_response streams codec v)
            s
            tt
            (write_shut (wrote (bytes v) (wrote (0 ∷ []) (view s))))
    unfolding write_response
    write_response_gives v s can =
        let (s₁, e₁, v₁) = reliable.set_write_deadline write_timeout s can in
        let can₁ = ap (λ w. w.writing) v₁ ∙ can in
        let (s₂, e₂, v₂) = reliable.write (0 ∷ []) s₁ can₁ in
        let (s₃, e₃, v₃) = coding.encode v s₂ (ap (λ w. w.writing) v₂ ∙ can₁) in
        let (s₄, e₄, v₄) = reliable.close_write s₃ in
        (
          s₄,
          rw (e₁, e₂, e₃, e₄) refl,
          v₄ ∙ ap write_shut (v₃ ∙ ap (wrote (bytes v)) (v₂ ∙ ap (wrote (0 ∷ [])) v₁)),
        )

    pub read_response_gives :
        (format_code : ℕ → Text) (v : V) (rest : Text) (s : Stream)
        → (view s).reading ≡ true
        → (view s).to_read ≡ 0 ∷ (bytes v ++ rest)
        → Gives streams view
            (read_response streams codec format_code)
            s
            v
            (read_shut (left rest (view s)))
    unfolding read_response read_body
    read_response_gives format_code v rest s can arrived =
        let (s₁, e₁, v₁) = reliable.set_read_deadline read_timeout s can in
        let can₁ = ap (λ w. w.reading) v₁ ∙ can in
        let (s₂, e₂, v₂) =
          reliable.read_full (0 ∷ []) (bytes v ++ rest) s₁ can₁
            (ap (λ w. w.to_read) v₁ ∙ arrived) in
        let (s₃, e₃, v₃) =
          coding.decode v rest s₂ (ap (λ w. w.reading) v₂ ∙ can₁) (ap (λ w. w.to_read) v₂) in
        let (s₄, e₄, v₄) = reliable.close_read s₃ in
        (
          s₄,
          rw (e₁, e₂, e₃, e₄) refl,
          v₄ ∙ ap read_shut (v₃ ∙ ap (left rest) (v₂ ∙ ap (left (bytes v ++ rest)) v₁)),
        )

    -- A response with a code other than 0 is an error that carries the code and all that follows it.
    pub read_response-code :
        (format_code : ℕ → Text) (k : ℕ) (message : Text) (s : Stream)
        → (view s).reading ≡ true
        → (view s).to_read ≡ suc k ∷ message
        → (read_response streams codec format_code s).1
          ≡ err (
              wrap (Error.new message) (
                codes "received error code "
                ++ (format_code (suc k) ++ codes " response on stream")))
    unfolding read_response read_body
    read_response-code format_code k message s can arrived =
        let (s₁, e₁, v₁) = reliable.set_read_deadline read_timeout s can in
        let can₁ = ap (λ w. w.reading) v₁ ∙ can in
        let (s₂, e₂, v₂) =
          reliable.read_full (suc k ∷ []) message s₁ can₁ (ap (λ w. w.to_read) v₁ ∙ arrived) in
        let (s₃, e₃, v₃) = reliable.read_all s₂ (ap (λ w. w.reading) v₂ ∙ can₁) in
        rw (e₁, e₂, e₃, ap (λ w. w.to_read) v₂) refl

    -- On a connection whose calls succeed while their half of the stream is open, and with an encoder and a
    -- decoder that fit: writing a value as a request, and as a response, on a fresh stream that is open for
    -- writing succeeds and closes the stream for writing; and a node that reads the bytes that were sent,
    -- as a request or as a response, on a stream that is open for reading, gets the value.
    pub read-write :
        (format_code : ℕ → Text) (v : V) (from request response : Stream)
        → (view from).sent ≡ []
        → (view from).writing ≡ true
        → (view request).reading ≡ true
        → (view request).to_read ≡ (view (write_request streams codec v from).0).sent
        → (view response).reading ≡ true
        → (view response).to_read ≡ (view (write_response streams codec v from).0).sent
        → ((write_request streams codec v from).1 ≡ ok tt)
          × ((view (write_request streams codec v from).0).writing ≡ false)
          × ((write_response streams codec v from).1 ≡ ok tt)
          × ((view (write_response streams codec v from).0).writing ≡ false)
          × ((read_request streams codec request).1 ≡ ok v)
          × ((read_response streams codec format_code response).1 ≡ ok v)
    read-write format_code v from request response fresh can asks asked answers answered =
        let (s₁, e₁, v₁) = write_request_gives v from can in
        let (s₂, e₂, v₂) = write_response_gives v from can in
        let (s₃, e₃, v₃) = read_request_gives v [] request asks (
          asked
          ∙ ap (λ r. (view r.0).sent) e₁
          ∙ ap (λ w. w.sent) v₁
          ∙ ap (λ b. b ++ bytes v) fresh
          ∙ sym (append-nil (bytes v))) in
        let (s₄, e₄, v₄) = read_response_gives format_code v [] response answers (
          answered
          ∙ ap (λ r. (view r.0).sent) e₂
          ∙ ap (λ w. w.sent) v₂
          ∙ ap (λ b. (b ++ (0 ∷ [])) ++ bytes v) fresh
          ∙ ap (λ b. 0 ∷ b) (sym (append-nil (bytes v)))) in
        (
          ap (λ r. r.1) e₁,
          ap (λ r. (view r.0).writing) e₁ ∙ ap (λ w. w.writing) v₁,
          ap (λ r. r.1) e₂,
          ap (λ r. (view r.0).writing) e₂ ∙ ap (λ w. w.writing) v₂,
          ap (λ r. r.1) e₃,
          ap (λ r. r.1) e₄,
        )
