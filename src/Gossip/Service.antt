-- ===== src/Gossip/Service.antt =====
-- `Serve` of gossip/gossipsub.go up to where it waits: the parameters of libp2p's gossipsub, and the
-- loop that joins the topics. Joining and subscribing are calls of libp2p on a state of its own.
pub mod Serve
use mathlib.Core.List.{map-append, append-nil, append_assoc}
use peekd.Base.{
  inr, ◌∙◌, ap, sym, inl, ◌≢◌, ◌↔◌, ◌⊎◌, ℕ, ◌+◌, ◌*◌, ◌%◌, ◌^◌, List, [], ◌∷◌, ◌++◌, Text, codes,
  ◌≡◌, refl, map, ltb, if◌then◌else◌, arith,
}
use peekd.Base.Int.{ℤ, pos, to_int64}
use peekd.Base.Results.{Result-cases, Result, ok}
use peekd.Base.Actions.{◌>>=◌, wrapping, pure}
use peekd.Eth.{BeaconChainConfig}
use peekd.Gossip.Destination.{Handler}
use peekd.Gossip.Handler.{mapping_topic_to_handler}
use peekd.Processor.Topics.{MessageNames}

-- `pubsub.GossipSubParams`, the fields that are set here.
pub record GossipSubParams : Type 0 where
  pub d : ℕ
  pub dlo : ℕ
  pub dhi : ℕ
  pub history_length : ℕ
  pub history_gossip : ℕ
  pub heartbeat_interval : ℤ

-- From `pubsub.DefaultGossipSubParams()`.
unfoldable pub gossip_sub_params : GossipSubParams → GossipSubParams
gossip_sub_params default = record default {
  d = 6;
  dlo = 5;
  dhi = 9;
  history_length = 6;
  history_gossip = 3;
  heartbeat_interval = pos 700_000_000;
}

-- `ethmath.Max` on uint64.
abbrev max : ℕ → ℕ → ℕ
max a b = if ltb b a then a else b

-- `max_compressed_len` is encoder.MaxCompressedLen.
unfoldable pub max_message_size : (ℕ → ℕ) → BeaconChainConfig → ℤ
max_message_size max_compressed_len c =
    to_int64 (max ((max_compressed_len c.max_payload_size + 1024) % 2 ^ 64) (1024 * 1024))

-- What the supervisor is given for a topic: the subscription and the handler of its messages.
pub record Service (Subscription : Type 0) : Type 0 where
  pub subscription : Subscription
  pub topic_handler : Handler

module _ {Pubsub Topic Subscription : Type 0} (n : MessageNames)
    (join : Text → Pubsub → Pubsub × Result Topic)
    (subscribe : Topic → Pubsub → Pubsub × Result Subscription) where
  -- The state of libp2p, and what the supervisor was given.
  abbrev pub State : Type 0
  State = Pubsub × List (Service Subscription)

  abbrev on_pubsub : {A : Type 0} → (Pubsub → Pubsub × Result A) → State → State × Result A
  on_pubsub m (p, services) = let (p', r) = m p in ((p', services), r)

  -- `gs.supervisor.Add(newSubscription(..))`
  abbrev supervise : Service Subscription → State → State × Result (Unit {0})
  supervise service (p, services) = ((p, services ++ (service ∷ [])), ok tt)

  -- One round of the loop.
  unfoldable pub join_topic : Text → State → State × Result (Unit {0})
  join_topic topic_name = do
    topic ← wrapping (codes "failed to join topic " ++ topic_name) (on_pubsub (join topic_name))
    subscription ←
        wrapping (codes "failed to subscribe topic " ++ topic_name) (on_pubsub (subscribe topic))
    supervise (record {
      subscription = subscription;
      topic_handler = mapping_topic_to_handler n topic_name;
    })

  unfoldable pub join_topics : List Text → State → State × Result (Unit {0})
  join_topics [] = pure tt
  join_topics (topic ∷ topics) = join_topic topic >>= λ _. join_topics topics

  abbrev pub handlers : State → List Handler
  handlers st = map (λ service. service.topic_handler) st.1

  -- A round adds the handler of its topic, or fails and adds nothing.
  join_topic_adds :
      (topic : Text) (st : State)
      → ((join_topic topic st).1 ≡ ok tt)
          × (handlers (join_topic topic st).0
              ≡ handlers st ++ (mapping_topic_to_handler n topic ∷ []))
        ⊎ ((join_topic topic st).1 ≢ ok tt) × (handlers (join_topic topic st).0 ≡ handlers st)
  unfolding join_topic
  join_topic_adds topic (p, services) =
      let joined = join topic p in
      elim (Result-cases joined.1) [
        | inl (t, e) ↦ elim (Result-cases (subscribe t joined.0).1) [
          | inl (s, f) ↦ rw (e, f) (inl (refl, map-append _ services _))
          | inr (inl (x, f)) ↦ rw (e, f) (inr (ground arith, refl))
          | inr (inr f) ↦ rw (e, f) (inr (ground arith, refl))
        ]
        | inr (inl (x, e)) ↦ rw e (inr (ground arith, refl))
        | inr (inr e) ↦ rw e (inr (ground arith, refl))
      ]

  join_topic_joined :
      (topic : Text) (st : State)
      → (join_topic topic st).1 ≡ ok tt
      → handlers (join_topic topic st).0 ≡ handlers st ++ (mapping_topic_to_handler n topic ∷ [])
  join_topic_joined topic st e = elim (join_topic_adds topic st) [
    | inl h ↦ h.1
    | inr h ↦ absurd (h.0 e)
  ]

  join_topic_failed :
      (topic : Text) (st : State)
      → (join_topic topic st).1 ≢ ok tt
      → handlers (join_topic topic st).0 ≡ handlers st
  join_topic_failed topic st ne = elim (join_topic_adds topic st) [
    | inl h ↦ absurd (ne h.0)
    | inr h ↦ h.1
  ]

  -- The loop hands the supervisor one service for each topic that it comes to, in order and with the
  -- topic's handler. These are all topics where it returns without an error, and else the topics before
  -- the one that fails.
  join_topics-handlers :
      (topics : List Text) (st : State)
      → (joined : List Text) × (rest : List Text) × (topics ≡ joined ++ rest)
        × (handlers (join_topics topics st).0
            ≡ handlers st ++ map (mapping_topic_to_handler n) joined)
        × (((join_topics topics st).1 ≡ ok tt) ↔ (rest ≡ []))
  unfolding join_topics
  join_topics-handlers [] st =
      ([], [], refl, sym (append-nil (handlers st)), (λ e. refl, λ e. refl))
  join_topics-handlers (topic ∷ topics) st = elim (Result-cases (join_topic topic st).1) [
    | inl (_, e) ↦
        let (joined, rest, split, added, end) =
          join_topics-handlers topics (join_topic topic st).0 in
        rw e (
          topic ∷ joined,
          rest,
          ap (λ l. topic ∷ l) split,
          added
              ∙ ap (λ l. l ++ map (mapping_topic_to_handler n) joined)
                  (join_topic_joined topic st e)
              ∙ append_assoc (handlers st) _ _,
          end,
        )
    | inr (inl (x, e)) ↦ rw e (
      [],
      topic ∷ topics,
      refl,
      join_topic_failed topic st (λ f. ground arith) ∙ sym (append-nil (handlers st)),
      (λ f. ground arith, λ f. ground arith),
    )
    | inr (inr e) ↦ rw e (
      [],
      topic ∷ topics,
      refl,
      join_topic_failed topic st (λ f. ground arith) ∙ sym (append-nil (handlers st)),
      (λ f. ground arith, λ f. ground arith),
    )
  ]
