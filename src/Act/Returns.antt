-- ===== src/Act/Returns.antt =====
-- Postconditions of actions: what holds of every value that an action returns.
use qptools.Prelude.{◌≡◌, refl, Bool, true, false, Option, none, some, if◌then◌else◌}
use qptools.Act.{
  Act, Error, Outcome, ok, err, panicked, blocked, pure, raise, panic, or_raise, continue, ◌>>=◌,
}

-- `Q` holds of the value, if the action returned one.
abbrev pub Yields : {A : Type 0} → (A → Type 0) → Outcome A → Type 0
Yields Q (ok a) = Q a
Yields Q (err e) = Unit
Yields Q panicked = Unit
Yields Q blocked = Unit

pub record Returns {S A : Type 0} (Q : A → Type 0) (m : Act S A) : Type 0 where
  pub at : (s : S) → Yields Q (m s).0

module _ {S A : Type 0} {Q : A → Type 0} where
  pub Returns-pure : (a : A) → Q a → Returns {S = S} Q (pure a)
  unfolding pure
  Returns-pure a h = record { at = λ s. h }

  pub Returns-raise : (e : Error) → Returns {S = S} Q (raise e)
  unfolding raise
  Returns-raise e = record { at = λ s. tt }

  pub Returns-panic : Returns {S = S} Q panic
  unfolding panic
  Returns-panic = record { at = λ s. tt }

  pub Returns-if :
      (b : Bool) (m n : Act S A) → Returns Q m → Returns Q n → Returns Q (if b then m else n)
  Returns-if true m n hm hn = hm
  Returns-if false m n hm hn = hn

  -- Each branch may use the outcome of the test.
  pub Returns-if_eq :
      (b : Bool) (m n : Act S A)
      → (b ≡ true → Returns Q m)
      → (b ≡ false → Returns Q n)
      → Returns Q (if b then m else n)
  Returns-if_eq true m n hm hn = hm refl
  Returns-if_eq false m n hm hn = hn refl

pub Returns-or_raise :
    {S A : Type 0} (o : Option A) (e : Error) → Returns {S = S} (λ a. o ≡ some a) (or_raise o e)
unfolding or_raise
Returns-or_raise none e = Returns-raise e
Returns-or_raise (some a) e = Returns-pure a refl

module _ {S A B : Type 0} {P : A → Type 0} {Q : B → Type 0} where
  Yields-continue :
      (r : Outcome A) (f : A → Act S B)
      → Yields P r
      → ((a : A) → P a → Returns Q (f a))
      → (s : S) → Yields Q (continue r f s).0
  Yields-continue (ok a) f y kf s = (kf a y).at s
  Yields-continue (err e) f y kf s = tt
  Yields-continue panicked f y kf s = tt
  Yields-continue blocked f y kf s = tt

  pub Returns-bind :
      (m : Act S A) (f : A → Act S B)
      → Returns P m
      → ((a : A) → P a → Returns Q (f a))
      → Returns Q (m >>= f)
  unfolding ◌>>=◌
  Returns-bind m f hm kf = record { at = λ s. Yields-continue (m s).0 f (hm.at s) kf (m s).1 }

Yields-any : {A : Type 0} (r : Outcome A) → Yields (λ _. Unit {0}) r
Yields-any (ok a) = tt
Yields-any (err e) = tt
Yields-any panicked = tt
Yields-any blocked = tt

-- Nothing is known of what the first action returns.
pub Returns-bind_any :
    {S A B : Type 0} {Q : B → Type 0} (m : Act S A) (f : A → Act S B)
    → ((a : A) → Returns Q (f a))
    → Returns Q (m >>= f)
Returns-bind_any m f kf =
    Returns-bind {P = λ _. Unit {0}} m f (record { at = λ s. Yields-any (m s).0 }) (λ a _. kf a)

Yields-weaken :
    {A : Type 0} {P Q : A → Type 0} (r : Outcome A)
    → ((a : A) → P a → Q a)
    → Yields P r
    → Yields Q r
Yields-weaken (ok a) w y = w a y
Yields-weaken (err e) w y = tt
Yields-weaken panicked w y = tt
Yields-weaken blocked w y = tt

pub Returns-weaken :
    {S A : Type 0} {P Q : A → Type 0} (m : Act S A)
    → ((a : A) → P a → Q a)
    → Returns P m
    → Returns Q m
Returns-weaken m w h = record { at = λ s. Yields-weaken (m s).0 w (h.at s) }
