-- ===== src/Peering/Dialer.antt =====
-- peering/dialer.go: the loop that connects to discovered peers. A round is given by what the `select`
-- receives and by the host at that time; `Connect` and the pause are written down in order.
use peekd.Base.{
  All-append, Bool, false, ◌&&◌, Option, none, some, List, [], ◌∷◌, ◌++◌, map, All, Text,
  Text-discrete, codes, ite, if_pos, if_neg, leb, if◌then◌else◌, ◌≡◌, ◌≢◌, ◌<◌, refl, ap, arith,
  inl, inr, Bool-cases,
}
use peekd.Base.Int.{pos, pos_part}
use peekd.Base.Floats.{Floats}
use peekd.Base.Results.{Error, Result, ok, err}
use peekd.Host.{Host, total_peer_count, outbound_peer_count, target_peer_count}

-- `peer.AddrInfo`, with its addresses as texts.
pub record AddrInfo : Type 0 where
  pub id : Text
  pub addrs : List Text

pub record Dialer (H Channel : Type 0) : Type 0 where
  pub host : H
  pub discovers : Channel

-- `none` is nil.
unfoldable pub new_dialer :
    {H Channel : Type 0} → Option H → Option Channel → Result (Dialer H Channel)
new_dialer none discovers = err (Error.new (codes "host should be configured when creating dialer"))
new_dialer (some host) none =
    err (Error.new (codes "discovers channel should be configured when creating dialer"))
new_dialer (some host) (some discovers) = ok (record { host = host; discovers = discovers })

-- What the `select` takes: the end of the context, the end of the channel, or a peer.
pub data Round : Type 0 where
  cancelled closed : Round
  discovered : AddrInfo → Host → Round

pub data Act : Type 0 where
  -- `<-time.After(time.Second)`, and `d.host.Connect` with a limit of two seconds, on its own.
  pause : Act
  connect : AddrInfo → Act

-- What `Serve` returns: the context's error, or nil.
pub data Stop : Type 0 where
  context_error finished : Stop

-- The rounds up to the end of the context or of the channel.
abbrev pub peers_of : List Round → List (AddrInfo × Host)
peers_of [] = []
peers_of (cancelled ∷ rounds) = []
peers_of (closed ∷ rounds) = []
peers_of (discovered addr_info h ∷ rounds) = (addr_info, h) ∷ peers_of rounds

module _ (host_id : Text) where
  -- Connecting to another peer.
  abbrev pub IsForeign : Act → Type 0
  IsForeign pause = Unit
  IsForeign (connect addr_info) = addr_info.id ≢ host_id

  -- The peers that are not this node.
  abbrev pub others : List (AddrInfo × Host) → List AddrInfo
  others [] = []
  others ((addr_info, h) ∷ peers) =
      let rest = others peers in ite (Text-discrete addr_info.id host_id) rest (addr_info ∷ rest)

module _ (floats : Floats) (host_id : Text) where
  open floats use {of_int, mul, decimal, ge}

  -- There are enough peers: a fifth of the target outbound, and the target in all. The count reaches an
  -- int exactly if it reaches its positive part.
  unfoldable pub is_full : Host → Bool
  is_full h =
      ge (of_int (pos (outbound_peer_count h)))
        (mul (of_int (target_peer_count h)) (decimal (pos 2) 1))
      && leb (pos_part (target_peer_count h)) (total_peer_count h)

  -- The body of the loop for a discovered peer.
  unfoldable pub dial : AddrInfo → Host → List Act
  dial addr_info h =
      ite (Text-discrete addr_info.id host_id) []
        (if is_full h then pause ∷ [] else connect addr_info ∷ [])

  -- The acts, and what `Serve` returns; `none` while it runs.
  unfoldable pub serve : List Round → List Act × Option Stop
  serve [] = ([], none)
  serve (cancelled ∷ rounds) = ([], some context_error)
  serve (closed ∷ rounds) = ([], some finished)
  serve (discovered addr_info h ∷ rounds) =
      let (acts, stop) = serve rounds in (dial addr_info h ++ acts, stop)

  dial-IsForeign : (addr_info : AddrInfo) (h : Host) → All (IsForeign host_id) (dial addr_info h)
  unfolding dial
  dial-IsForeign addr_info h = elim (Text-discrete addr_info.id host_id) [
    | yes own ↦ rw (if_pos _ own) tt
    | no other ↦
        rw (if_neg _ other)
          (elim (Bool-cases (is_full h)) [ inl e ↦ rw e (tt, tt) | inr e ↦ rw e (other, tt) ])
  ]

  serve-IsForeign : (rounds : List Round) → All (IsForeign host_id) (serve rounds).0
  unfolding serve
  serve-IsForeign [] = tt
  serve-IsForeign (cancelled ∷ rounds) = tt
  serve-IsForeign (closed ∷ rounds) = tt
  serve-IsForeign (discovered addr_info h ∷ rounds) =
      All-append (IsForeign host_id) (dial addr_info h) _ (dial-IsForeign addr_info h)
        (serve-IsForeign rounds)

  is_full-false :
      (h : Host) → total_peer_count h < pos_part (target_peer_count h) → is_full h ≡ false
  unfolding is_full
  is_full-false h few = ground arith

  serve-others :
      (rounds : List Round)
      → All (λ p. total_peer_count p.1 < pos_part (target_peer_count p.1)) (peers_of rounds)
      → (serve rounds).0 ≡ map connect (others host_id (peers_of rounds))
  unfolding serve dial
  serve-others [] few = refl
  serve-others (cancelled ∷ rounds) few = refl
  serve-others (closed ∷ rounds) few = refl
  serve-others (discovered addr_info h ∷ rounds) few = elim (Text-discrete addr_info.id host_id) [
    | yes own ↦ rw (if_pos _ own, if_pos _ own) (serve-others rounds few.1)
    | no other ↦
        rw (if_neg _ other, if_neg _ other, is_full-false h few.0)
          (ap (λ acts. connect addr_info ∷ acts) (serve-others rounds few.1))
  ]

  -- The dialer never connects to its own node. While the host has fewer peers than its target, it connects
  -- to each other peer that is discovered before the end, in order and without a pause.
  pub serve-connects :
      (rounds : List Round)
      → All (λ p. total_peer_count p.1 < pos_part (target_peer_count p.1)) (peers_of rounds)
      → All (IsForeign host_id) (serve rounds).0
        × ((serve rounds).0 ≡ map connect (others host_id (peers_of rounds)))
  serve-connects rounds few = (serve-IsForeign rounds, serve-others rounds few)
