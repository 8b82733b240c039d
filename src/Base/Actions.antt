-- ===== src/Base/Actions.antt =====
-- Calls that change a state and return a result, one after another.
use peekd.Base.Lists.{Text}
use peekd.Base.Results.{Error, Result, ok, err, panicked, wrapped}

-- What follows a call: on an error or a panic, nothing.
abbrev pub after : {A B S : Type 0} → S × Result A → (A → S → S × Result B) → S × Result B
after (s, ok a) f = f a s
after (s, err e) f = (s, err e)
after (s, panicked) f = (s, panicked)

infixl 5 ◌>>=◌ ◌>>◌
abbrev pub ◌>>=◌ : {A B S : Type 0} → (S → S × Result A) → (A → S → S × Result B) → S → S × Result B
(m >>= f) s = after (m s) f

abbrev pub ◌>>◌ : {A B S : Type 0} → (S → S × Result A) → (S → S × Result B) → S → S × Result B
m >> k = m >>= λ _. k

abbrev pub pure : {A S : Type 0} → A → S → S × Result A
pure a s = (s, ok a)

abbrev pub raise : {A S : Type 0} → Error → S → S × Result A
raise e s = (s, err e)

-- `if err != nil { return errors.Wrap(err, text) }`
abbrev pub wrapping : {A S : Type 0} → Text → (S → S × Result A) → S → S × Result A
wrapping text m s = let (s', r) = m s in (s', wrapped text r)
