-- ===== src/Reqresp/Reliable.antt =====
-- A connection on which the calls succeed as long as their half of the stream is open: what they write is
-- sent, in order, and what they read is what has arrived. After `CloseWrite` or `Close` nothing is known of
-- a write, and after `CloseRead` or `Close` nothing of a read. This is what libp2p and the SSZ encoder
-- document for calls without an error.
use peekd.Base.{Bool, true, false, [], ◌++◌, Text, ◌≡◌, length}
use peekd.Base.Int.{ℤ}
use peekd.Base.Results.{ok}
use peekd.Reqresp.Stream.{Streams, Io, Codec}

-- The bytes that were sent on a stream, those that are still to be read, and whether it is open for reading
-- and for writing.
pub record View : Type 0 where
  pub sent : Text
  pub to_read : Text
  pub reading : Bool
  pub writing : Bool

abbrev pub wrote : Text → View → View
wrote b v = record v { sent = v.sent ++ b }

abbrev pub left : Text → View → View
left rest v = record v { to_read = rest }

abbrev pub read_shut : View → View
read_shut v = record v { reading = false }

abbrev pub write_shut : View → View
write_shut v = record v { writing = false }

module _ (streams : Streams) (view : streams.Stream → View) where
  open streams use {Stream}

  -- In the state `s` the action returns `a`, and leaves a stream that is seen as `v`.
  abbrev pub Gives : {A : Type 0} → Io streams A → Stream → A → View → Type 0
  Gives m s a v = (s' : Stream) × (m s ≡ (s', ok a)) × (view s' ≡ v)

  pub record IsReliable : Type 0 where
    pub set_read_deadline :
        (d : ℤ) (s : Stream)
        → (view s).reading ≡ true
        → Gives (streams.set_read_deadline d) s tt (view s)
    pub set_write_deadline :
        (d : ℤ) (s : Stream)
        → (view s).writing ≡ true
        → Gives (streams.set_write_deadline d) s tt (view s)
    pub write :
        (b : Text) (s : Stream)
        → (view s).writing ≡ true
        → Gives (streams.write b) s tt (wrote b (view s))
    pub read_full :
        (b rest : Text) (s : Stream)
        → (view s).reading ≡ true
        → (view s).to_read ≡ b ++ rest
        → Gives (streams.read_full (length b)) s b (left rest (view s))
    pub read_all :
        (s : Stream)
        → (view s).reading ≡ true
        → Gives streams.read_all s (view s).to_read (left [] (view s))
    pub close_read : (s : Stream) → Gives streams.close_read s tt (read_shut (view s))
    pub close_write : (s : Stream) → Gives streams.close_write s tt (write_shut (view s))
    pub close : (s : Stream) → view (streams.close s).0 ≡ read_shut (write_shut (view s))

  -- The encoder writes the bytes of a value, and the decoder reads them back.
  pub record IsCoding {V : Type 0} (codec : Codec streams V) (bytes : V → Text) : Type 0 where
    pub encode :
        (v : V) (s : Stream)
        → (view s).writing ≡ true
        → Gives (codec.encode v) s tt (wrote (bytes v) (view s))
    pub decode :
        (v : V) (rest : Text) (s : Stream)
        → (view s).reading ≡ true
        → (view s).to_read ≡ bytes v ++ rest
        → Gives codec.decode s v (left rest (view s))
