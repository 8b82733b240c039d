-- ===== src/Gossip/Subscription.antt =====
-- gossip/subscription.go: the loop that hands the messages of one topic to its handler. What the
-- handler reads and writes is an abstract state; each round of the loop is given by its inputs.
use peekd.Base.{
  sym, ◌∙◌, if_neg, if_pos, ◌≡◌, ◌≢◌, ◌++◌, refl, ap, ite, Option, none, some, List, [], ◌∷◌, map,
  Text, codes, Text-discrete, inl, inr,
}
use peekd.Base.Results.{Error, Result, ok, err, panicked, Result-cases}
use peekd.Processor.State.{PubsubMessage}

-- One round: `ctx` is done, or what `Next` returns.
pub data Round : Type 0 where
  cancelled : Round
  failed : Error → Round
  received : PubsubMessage → Round

module _ {S : Type 0} (host_id : Text) (handler : PubsubMessage → S → S × Result (Unit {0})) where
  -- The state after the rounds, and what `Serve` returns; `none` while it runs. A panic of the handler
  -- is one of `Serve`.
  unfoldable pub serve : List Round → S → S × Option (Result (Unit {0}))
  serve [] s = (s, none)
  serve (cancelled ∷ rounds) s = (s, some (ok tt))
  serve (failed e ∷ rounds) s =
      (s, some (err (Error.wrap e (codes "failed to get next gossip subscription message"))))
  serve (received msg ∷ rounds) s =
      ite (Text-discrete msg.received_from host_id) (serve rounds s) (elim (handler msg s).1 [
        | ok _ ↦ serve rounds (handler msg s).0
        | err _ ↦ serve rounds (handler msg s).0
        | panicked ↦ ((handler msg s).0, some panicked)
      ])

  -- Handling messages one after another, whatever the handler answers.
  unfoldable pub handle_all : List PubsubMessage → S → S
  handle_all [] s = s
  handle_all (msg ∷ msgs) s = handle_all msgs (handler msg s).0

  -- The messages that are not the host's own.
  unfoldable pub foreign : List PubsubMessage → List PubsubMessage
  foreign [] = []
  foreign (msg ∷ msgs) =
      let rest = foreign msgs in ite (Text-discrete msg.received_from host_id) rest (msg ∷ rest)

  pub serve_own :
      (msg : PubsubMessage) (rounds : List Round) (s : S)
      → msg.received_from ≡ host_id
      → serve (received msg ∷ rounds) s ≡ serve rounds s
  unfolding serve
  serve_own msg rounds s own = rw (if_pos _ own) refl

  pub serve_other :
      (msg : PubsubMessage) (rounds : List Round) (s : S)
      → msg.received_from ≢ host_id
      → (handler msg s).1 ≢ panicked
      → serve (received msg ∷ rounds) s ≡ serve rounds (handler msg s).0
  unfolding serve
  serve_other msg rounds s other calm = elim (Result-cases (handler msg s).1) [
    | inl (_, e) ↦ rw (if_neg _ other, e) refl
    | inr (inl (_, e)) ↦ rw (if_neg _ other, e) refl
    | inr (inr e) ↦ absurd (calm e)
  ]

  pub foreign_own :
      (msg : PubsubMessage) (msgs : List PubsubMessage)
      → msg.received_from ≡ host_id
      → foreign (msg ∷ msgs) ≡ foreign msgs
  unfolding foreign
  foreign_own msg msgs own = rw (if_pos _ own) refl

  pub foreign_other :
      (msg : PubsubMessage) (msgs : List PubsubMessage)
      → msg.received_from ≢ host_id
      → foreign (msg ∷ msgs) ≡ msg ∷ foreign msgs
  unfolding foreign
  foreign_other msg msgs other = rw (if_neg _ other) refl

  -- With a handler that never panics, the loop handles every message that is not the host's own, in the
  -- order received and each once, also after an error of the handler; then it goes on with the next
  -- rounds.
  pub serve-append :
      (msgs : List PubsubMessage) (rounds : List Round) (s : S)
      → ((msg : PubsubMessage) (t : S) → (handler msg t).1 ≢ panicked)
      → serve (map received msgs ++ rounds) s ≡ serve rounds (handle_all (foreign msgs) s)
  unfolding handle_all
  serve-append [] rounds s calm = unfold foreign in refl
  serve-append (msg ∷ msgs) rounds s calm = elim (Text-discrete msg.received_from host_id) [
    | yes own ↦
        serve_own msg (map received msgs ++ rounds) s own
        ∙ serve-append msgs rounds s calm
        ∙ ap (λ ms. serve rounds (handle_all ms s)) (sym (foreign_own msg msgs own))
    | no other ↦
        serve_other msg (map received msgs ++ rounds) s other (calm msg s)
        ∙ serve-append msgs rounds (handler msg s).0 calm
        ∙ ap (λ ms. serve rounds (handle_all ms s)) (sym (foreign_other msg msgs other))
  ]
