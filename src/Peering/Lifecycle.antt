-- ===== src/Peering/Lifecycle.antt =====
-- `Serve` of peering/discovery.go from start to end, once and again: opening the socket and the listener,
-- the loop, and the deferred calls. What the calls of others answer is given for each run.
use mathlib.Core.Path.{subst, sym}
use peekd.Base.{
  Bool-cases, inl, inr, arith, ℕ, Bool, true, false, Option, none, some, List, [], ◌∷◌, ◌++◌, map,
  All, Text, codes, ◌≡◌, ◌≢◌, refl, if◌then◌else◌,
}
use peekd.Base.Results.{Error, Result, ok, err, panicked, Result-cases}
use peekd.Peering.Dialer.{AddrInfo}
use peekd.Peering.Discovery.{
  Parsers, Round, cancelled, exhausted, next, extract_peer_addr_info, serve,
}

-- One run: the node's own address, what `net.ListenUDP` and `discover.ListenV5` return, and the rounds.
pub record Run : Type 0 where
  pub ip : Text
  pub is_ip4 : Bool
  pub udp : ℕ
  pub listened : Result (Unit {0})
  pub started : Result (Unit {0})
  pub rounds : List Round

pub data Act : Type 0 where
  listen_udp : Text → ℕ → Act
  listen_v5 : Act
  send : AddrInfo → Act
  close_discovers close_iterator close_listener : Act

-- What is done in a run, whether the channel is closed after it, and what it returns.
pub record Outcome : Type 0 where
  pub acts : List Act
  pub closed : Bool
  pub result : Option (Result (Unit {0}))

-- The deferred calls in their order. Closing a closed channel panics, and the other calls follow.
abbrev deferred : List Act
deferred = close_discovers ∷ close_iterator ∷ close_listener ∷ []

-- What follows the listener, by what the loop has sent and returned.
abbrev pub loop_outcome : Bool → List AddrInfo × Option (Result (Unit {0})) → Outcome
loop_outcome closed (sent, none) = record { acts = map send sent; closed = closed; result = none }
loop_outcome closed (sent, some result) = record {
  acts = map send sent ++ deferred;
  closed = true;
  result = some (if closed then panicked else result);
}

module _ (parsers : Parsers) where
  unfoldable pub serve_loop : Run → Bool → Outcome
  serve_loop r closed = loop_outcome closed (serve parsers closed r.rounds)

  unfoldable pub serve_service : Run → Bool → Outcome
  unfolding serve_loop
  serve_service r closed =
      let listen = listen_udp (codes "udp4") r.udp in
      if r.is_ip4
      then elim r.listened [
        | err e ↦ record {
          acts = listen ∷ [];
          closed = closed;
          result =
              some (
                err (Error.wrap e (codes "failed to listen on 0.0.0.0:" ++ parsers.decimal r.udp)));
        }
        | panicked ↦ record { acts = listen ∷ []; closed = closed; result = some panicked }
        | ok _ ↦ elim r.started [
          | err e ↦ record {
            acts = listen ∷ listen_v5 ∷ [];
            closed = closed;
            result = some (err (Error.wrap e (codes "failed to start discv5 listener")));
          }
          | panicked ↦ record {
            acts = listen ∷ listen_v5 ∷ [];
            closed = closed;
            result = some panicked;
          }
          | ok _ ↦
              let outcome = serve_loop r closed in
              record outcome { acts = listen ∷ listen_v5 ∷ outcome.acts }
        ]
      ]
      else record {
        acts = [];
        closed = closed;
        result = some (err (Error.new (codes "invalid IP address: " ++ r.ip)));
      }

  -- The runs of a service that is started again whenever it ends.
  unfoldable pub restarted : List Run → Bool → List Outcome
  restarted [] closed = []
  restarted (r ∷ runs) closed =
      let outcome = serve_service r closed in outcome ∷ restarted runs outcome.closed

  abbrev pub sent_in : List Act → List AddrInfo
  sent_in [] = []
  sent_in (send addr_info ∷ acts) = addr_info ∷ sent_in acts
  sent_in (_ ∷ acts) = sent_in acts

  -- Nothing is handed on, and the run does not return without an error.
  abbrev pub IsInVain : Outcome → Type 0
  IsInVain o = (sent_in o.acts ≡ []) × (o.closed ≡ true) × (o.result ≢ some (ok tt))

  serve_nothing : (rounds : List Round) → (serve parsers true rounds).0 ≡ []
  unfolding serve
  serve_nothing [] = refl
  serve_nothing (cancelled ∷ rounds) = refl
  serve_nothing (exhausted ∷ rounds) = refl
  serve_nothing (next node cancelled_first ∷ rounds) = elim (Bool-cases node.is_private) [
    | inl p ↦ rw p (serve_nothing rounds)
    | inr p ↦ elim (Result-cases (extract_peer_addr_info parsers node)) [
      | inl (a, e) ↦
          rw (e, p) (elim (Bool-cases cancelled_first) [ inl c ↦ rw c refl | inr c ↦ rw c refl ])
      | inr (inl (x, e)) ↦ rw (e, p) (serve_nothing rounds)
      | inr (inr e) ↦ rw (e, p) refl
    ]
  ]

  loop_outcome-IsInVain :
      (stop : Option (Result (Unit {0}))) → IsInVain (loop_outcome true ([], stop))
  loop_outcome-IsInVain none = (refl, refl, λ f. ground arith)
  loop_outcome-IsInVain (some result) = (refl, refl, λ f. ground arith)

  serve_loop-IsInVain : (r : Run) → IsInVain (serve_loop r true)
  unfolding serve_loop
  serve_loop-IsInVain r =
      let stops : serve parsers true r.rounds ≡ ([], (serve parsers true r.rounds).1) =
        λ i. (serve_nothing r.rounds i, (serve parsers true r.rounds).1) in
      subst (λ s. IsInVain (loop_outcome true s)) (sym stops)
        (loop_outcome-IsInVain (serve parsers true r.rounds).1)

  loop_outcome-closed :
      (s : List AddrInfo × Option (Result (Unit {0})))
      → s.1 ≢ none
      → (loop_outcome false s).closed ≡ true
  loop_outcome-closed (sent, none) ended = absurd (ended refl)
  loop_outcome-closed (sent, some result) ended = refl

  serve_service-IsInVain : (r : Run) → IsInVain (serve_service r true)
  unfolding serve_service
  serve_service-IsInVain r = elim (Bool-cases r.is_ip4) [
    | inl i ↦ elim (Result-cases r.listened) [
      | inl (_, e) ↦ elim (Result-cases r.started) [
        | inl (_, f) ↦ rw (i, e, f) (serve_loop-IsInVain r)
        | inr (inl (x, f)) ↦ rw (i, e, f) (refl, refl, λ g. ground arith)
        | inr (inr f) ↦ rw (i, e, f) (refl, refl, λ g. ground arith)
      ]
      | inr (inl (x, e)) ↦ rw (i, e) (refl, refl, λ g. ground arith)
      | inr (inr e) ↦ rw (i, e) (refl, refl, λ g. ground arith)
    ]
    | inr i ↦ rw i (refl, refl, λ g. ground arith)
  ]

  restarted-IsInVain : (runs : List Run) → All IsInVain (restarted runs true)
  unfolding restarted
  restarted-IsInVain [] = tt
  restarted-IsInVain (r ∷ runs) =
      let vain = serve_service-IsInVain r in
      (vain, subst (λ c. All IsInVain (restarted runs c)) (sym vain.1) (restarted-IsInVain runs))

  -- A run of the discovery service that ends from within its loop has closed the channel to the dialer, and
  -- from then on the service is of no use: however often it is started again, and whatever it finds then,
  -- no run hands on a peer, and none returns without an error.
  pub serve_service-restarted :
      (first : Run) (runs : List Run)
      → first.is_ip4 ≡ true
      → first.listened ≡ ok tt
      → first.started ≡ ok tt
      → (serve parsers false first.rounds).1 ≢ none
      → ((serve_service first false).closed ≡ true)
        × All IsInVain (restarted runs (serve_service first false).closed)
  unfolding serve_service serve_loop
  serve_service-restarted first runs i e f ended =
      let closed : (serve_service first false).closed ≡ true =
        rw (serve_service, i, e, f)
          (loop_outcome-closed (serve parsers false first.rounds) ended) in
      (closed, subst (λ c. All IsInVain (restarted runs c)) (sym closed) (restarted-IsInVain runs))
