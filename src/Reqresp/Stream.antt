-- ===== src/Reqresp/Stream.antt =====
-- `network.Stream` of libp2p and Prysm's SSZ encoder, as far as reqresp/handler.go calls them. An action takes the stream and returns it with what the call returned.
use peekd.Base.{ℕ, Text}
use peekd.Base.Int.{ℤ}
use peekd.Base.Results.{Result}

pub record Streams : Type 1 where
  pub Stream : Type 0
  -- `stream.SetReadDeadline(time.Now().Add(d))`
  pub set_read_deadline : ℤ → Stream → Stream × Result (Unit {0})
  pub set_write_deadline : ℤ → Stream → Stream × Result (Unit {0})
  pub write : Text → Stream → Stream × Result (Unit {0})
  -- `io.ReadFull` into a buffer of that length, and `io.ReadAll`
  pub read_full : ℕ → Stream → Stream × Result Text
  pub read_all : Stream → Stream × Result Text
  pub close_read : Stream → Stream × Result (Unit {0})
  pub close_write : Stream → Stream × Result (Unit {0})
  pub close : Stream → Stream × Result (Unit {0})

module _ (streams : Streams) where
  open streams use {Stream, close}

  abbrev pub Io : Type 0 → Type 0
  Io A = Stream → Stream × Result A

  -- `enc.EncodeWithMaxLength(stream, data)` and `enc.DecodeWithMaxLength(stream, data)` for one type
  -- of data.
  pub record Codec (V : Type 0) : Type 0 where
    pub encode : V → Io (Unit {0})
    pub decode : Io V

-- `defer stream.Close()`
abbrev pub closing : {A : Type 0} (streams : Streams) → Io streams A → Io streams A
closing streams m s = let (s', r) = m s in ((streams.close s').0, r)
