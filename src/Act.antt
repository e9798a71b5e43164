-- ===== src/Act.antt =====
-- The effects of the Go code: a method reads and changes a state, and returns a value, returns an
-- error, panics, or blocks for ever on a lock that nobody will release. What was written before
-- stays written, so the state comes back beside every outcome.
pub mod Returns
pub mod Keeps
use qptools.Prelude.{String, Bool, true, false, Option, none, some}

-- `io.EOF` is told apart from other errors; `reason` is `errors.New`.
pub data Error : Type 0 where
  eof : Error
  reason : String → Error

-- `err.Error()`
abbrev pub message : Error → String
message eof = "EOF"
message (reason s) = s

pub data Outcome (A : Type 0) : Type 0 where
  ok : A → Outcome A
  err : Error → Outcome A
  panicked : Outcome A
  blocked : Outcome A

abbrev pub Act : Type 0 → Type 0 → Type 0
Act S A = S → Outcome A × S

module _ {S A : Type 0} where
  unfoldable pub pure : A → Act S A
  pure a s = (ok a, s)

  unfoldable pub raise : Error → Act S A
  raise e s = (err e, s)

  unfoldable pub panic : Act S A
  panic s = (panicked, s)

  unfoldable pub block : Act S A
  block s = (blocked, s)

  unfoldable pub gets : (S → A) → Act S A
  gets f s = (ok (f s), s)

unfoldable pub modify : {S : Type 0} → (S → S) → Act S (Unit {0})
modify f s = (ok tt, f s)

module _ {S A B : Type 0} where
  abbrev pub continue : Outcome A → (A → Act S B) → Act S B
  continue (ok a) f s = f a s
  continue (err e) f s = (err e, s)
  continue panicked f s = (panicked, s)
  continue blocked f s = (blocked, s)

  infixl 5 ◌>>=◌ ◌>>◌
  -- Opening this opens the actions above and below too.
  unfoldable pub ◌>>=◌ : Act S A → (A → Act S B) → Act S B
  unfolding pure raise panic block gets modify
  ◌>>=◌ m f s = let (r, s') = m s in continue r f s'

  abbrev pub ◌>>◌ : Act S A → Act S B → Act S B
  m >> n = m >>= λ _. n

-- What a call returned, for code that looks at its error before it goes on.
pub data Result (A : Type 0) : Type 0 where
  value : A → Result A
  failure : Error → Result A

module _ {S A : Type 0} where
  abbrev pub settle : Outcome A → Act S (Result A)
  settle (ok a) s = (ok (value a), s)
  settle (err e) s = (ok (failure e), s)
  settle panicked s = (panicked, s)
  settle blocked s = (blocked, s)

  -- `x, err := m()`
  unfoldable pub attempt : Act S A → Act S (Result A)
  unfolding ◌>>=◌
  attempt m s = let (r, s') = m s in settle r s'

  -- `m()` whose error nobody reads
  unfoldable pub ignore : Act S A → Act S (Unit {0})
  unfolding ◌>>=◌ attempt
  ignore m = do attempt m; pure tt

-- A call on a part of the state.
unfoldable pub within : {S T A : Type 0} → (S → T) → (T → S → S) → Act T A → Act S A
within get put m s = let (r, t) = m (get s) in (r, put t s)

unfoldable pub require : {S : Type 0} → Bool → Error → Act S (Unit {0})
unfolding ◌>>=◌
require true e = pure tt
require false e = raise e

unfoldable pub or_raise : {S A : Type 0} → Option A → Error → Act S A
unfolding ◌>>=◌
or_raise none e = raise e
or_raise (some a) e = pure a
