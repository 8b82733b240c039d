-- ===== src/Reqresp/Frames.antt =====
-- reqresp/handler.go, its second half: requests and responses on a stream. A response is a byte for
-- the code, then the data, or a message for a code other than 0.
use peekd.Base.{ℕ, zero, suc, Text, [], ◌∷◌, ◌++◌, codes}
use peekd.Base.Int.{ℤ, pos}
use peekd.Base.Results.{panicked, Error, Result, ok, err, wrap, panicked}
use peekd.Base.Actions.{◌>>=◌, ◌>>◌, pure, raise, wrapping}
use peekd.Reqresp.Stream.{Streams, Io, Codec}

-- reqresp/reqresp.go
abbrev pub read_timeout : ℤ
read_timeout = pos 5_000_000_000

abbrev pub write_timeout : ℤ
write_timeout = pos 10_000_000_000

-- `if err != nil { return errors.New(text) }`
abbrev pub replaced : {A : Type 0} → Text → Result A → Result A
replaced text (ok a) = ok a
replaced text (err e) = err (Error.new text)
replaced text panicked = panicked

abbrev pub replacing : {A S : Type 0} → Text → (S → S × Result A) → S → S × Result A
replacing text m s = let (s', r) = m s in (s', replaced text r)

-- `respCode[0]`
abbrev pub first : {S : Type 0} → Text → S → S × Result ℕ
first [] s = (s, panicked)
first (code ∷ _) s = (s, ok code)

module _ (streams : Streams) {V : Type 0} (codec : Codec streams V) where
  open streams use {
    Stream, set_read_deadline, set_write_deadline, write, read_full, read_all, close_read,
    close_write,
  }

  unfoldable pub read_request : Io streams V
  read_request = do
    replacing (codes "failed to set read deadline on stream") (set_read_deadline read_timeout)
    found ← wrapping (codes "failed to decode data on stream") codec.decode
    wrapping (codes "failed to close read request stream") close_read
    pure found

  -- What follows the code of a response. `format_code` is the `%d` of fmt.
  unfoldable pub read_body : (ℕ → Text) → ℕ → Io streams V
  read_body format_code zero = do
    found ← wrapping (codes "failed to decode data on stream") codec.decode
    wrapping (codes "failed to close read response stream") close_read
    pure found
  read_body format_code (suc k) = do
    message ← wrapping (codes "failed to read response error data on stream") read_all
    raise (
        wrap (Error.new message)
          (codes "received error code " ++ (format_code (suc k) ++ codes " response on stream")))

  unfoldable pub read_response : (ℕ → Text) → Io streams V
  unfolding read_body
  read_response format_code = do
    wrapping (codes "failed to set read deadline on stream") (set_read_deadline read_timeout)
    response ← wrapping (codes "failed to read response code on stream") (read_full 1)
    code ← first response
    read_body format_code code

  unfoldable pub write_request : V → Io streams (Unit {0})
  write_request v = do
    wrapping (codes "failed to set write deadline on stream") (set_write_deadline write_timeout)
    wrapping (codes "failed to encode data on stream") (codec.encode v)
    wrapping (codes "failed to close write request stream") close_write

  unfoldable pub write_response : V → Io streams (Unit {0})
  write_response v = do
    wrapping (codes "failed to set write deadline on stream") (set_write_deadline write_timeout)
    wrapping (codes "failed to write success response code on stream") (write (0 ∷ []))
    wrapping (codes "failed to encode data on stream") (codec.encode v)
    wrapping (codes "failed to close write response stream") close_write
