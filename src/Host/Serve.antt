-- ===== src/Host/Serve.antt =====
-- `Serve` of host/host.go, with the notifications of host/notify.go. The calls on the host's network and
-- the log are written down in order; what `Listen` returns and the counts of each minute are given.
use peekd.Base.{
  ℕ, Bool, true, false, Option, none, some, List, [], ◌∷◌, ◌++◌, Text, codes, ◌≡◌, refl,
}
use peekd.Base.Results.{Error, Result, ok, err, panicked}
use peekd.Host.{Host, Conn, Direction, inbound_peer_count, outbound_peer_count}

pub data Act : Type 0 where
  notify listen stop_notify : Act
  -- "connected peers status", with the two counts.
  log_status : ℕ → ℕ → Act

-- A round: a minute has gone by, with the host as it is then or with its network gone, or the context ends.
pub data Round : Type 0 where
  minute : Option Host → Round
  ended : Error → Round

-- What is done until the end of the context, and what is returned; `none` while it runs.
unfoldable pub watch : List Round → List Act × Option (Result (Unit {0}))
unfolding inbound_peer_count outbound_peer_count
watch [] = ([], none)
watch (ended e ∷ rounds) = ([], some (err e))
watch (minute none ∷ rounds) = watch rounds
watch (minute (some h) ∷ rounds) =
    let (acts, result) = watch rounds in
    (log_status (inbound_peer_count h) (outbound_peer_count h) ∷ acts, result)

-- The deferred `StopNotify` of a run that ends.
abbrev stopping : List Act × Option (Result (Unit {0})) → List Act × Option (Result (Unit {0}))
stopping (acts, none) = (acts, none)
stopping (acts, some result) = (acts ++ (stop_notify ∷ []), some result)

-- With the two calls before the wait.
abbrev started : List Act × Option (Result (Unit {0})) → List Act × Option (Result (Unit {0}))
started (acts, result) = (notify ∷ listen ∷ acts, result)

unfoldable pub serve : Result (Unit {0}) → List Round → List Act × Option (Result (Unit {0}))
serve (ok _) rounds = started (stopping (watch rounds))
serve (err e) rounds = (
  notify ∷ listen ∷ stop_notify ∷ [],
  some (err (Error.wrap e (codes "failed to start libp2p network"))),
)
serve panicked rounds = (notify ∷ listen ∷ stop_notify ∷ [], some panicked)

-- What is logged of a connection that is made or lost, but for its address.
pub record LogEntry : Type 0 where
  pub message : Text
  pub peer_id : Text
  pub direction : Direction

unfoldable pub connected_func : Conn → LogEntry
connected_func conn = record {
  message = codes "Peer Connected";
  peer_id = conn.remote_peer;
  direction = conn.direction;
}

unfoldable pub disconnected_func : Conn → LogEntry
disconnected_func conn = record {
  message = codes "Peer Disconnected";
  peer_id = conn.remote_peer;
  direction = conn.direction;
}

-- Notifications on at the end of some acts, where they were so before them or not.
abbrev pub notifying : Bool → List Act → Bool
notifying on [] = on
notifying on (notify ∷ acts) = notifying true acts
notifying on (stop_notify ∷ acts) = notifying false acts
notifying on (listen ∷ acts) = notifying on acts
notifying on (log_status i o ∷ acts) = notifying on acts

-- On while the run goes on, off after it.
abbrev pub IsNotifying : List Act × Option (Result (Unit {0})) → Type 0
IsNotifying (acts, none) = notifying false acts ≡ true
IsNotifying (acts, some result) = notifying false acts ≡ false

notifying-append :
    (on : Bool) (acts more : List Act)
    → notifying on (acts ++ more) ≡ notifying (notifying on acts) more
notifying-append on [] more = refl
notifying-append on (notify ∷ acts) more = notifying-append true acts more
notifying-append on (stop_notify ∷ acts) more = notifying-append false acts more
notifying-append on (listen ∷ acts) more = notifying-append on acts more
notifying-append on (log_status i o ∷ acts) more = notifying-append on acts more

watch-notifying : (rounds : List Round) → notifying true (watch rounds).0 ≡ true
unfolding watch
watch-notifying [] = refl
watch-notifying (ended e ∷ rounds) = refl
watch-notifying (minute none ∷ rounds) = watch-notifying rounds
watch-notifying (minute (some h) ∷ rounds) = watch-notifying rounds

started-IsNotifying :
    (r : List Act × Option (Result (Unit {0})))
    → notifying true r.0 ≡ true
    → IsNotifying (started (stopping r))
started-IsNotifying (acts, none) on = on
started-IsNotifying (acts, some result) on = notifying-append true acts (stop_notify ∷ [])

-- The host is notified of its connections as long as `Serve` runs, and no longer: a run that ends, by the
-- end of its context or because the network does not start, has stopped the notifications.
pub serve-IsNotifying :
    (listened : Result (Unit {0})) (rounds : List Round) → IsNotifying (serve listened rounds)
unfolding serve
serve-IsNotifying (ok _) rounds = started-IsNotifying (watch rounds) (watch-notifying rounds)
serve-IsNotifying (err e) rounds = refl
serve-IsNotifying panicked rounds = refl
