-- ===== src/Act/Keeps.antt =====
-- Actions that leave a part of the state as it is, unless they block for ever.
use qptools.Prelude.{◌≡◌, refl, ◌∙◌, Bool, true, false, Option, none, some, if◌then◌else◌}
use qptools.Act.{
  Act, Error, Outcome, ok, err, panicked, blocked, Result, value, failure, pure, raise, panic,
  block, settle, attempt, require, or_raise, continue, ◌>>=◌,
}

abbrev pub Ends : {A : Type 0} → Outcome A → Type 0
Ends (ok a) = Unit {0}
Ends (err e) = Unit {0}
Ends panicked = Unit {0}
Ends blocked = ⊥

pub record Keeps {S A V : Type 0} (view : S → V) (m : Act S A) : Type 0 where
  pub at : (s : S) → Ends (m s).0 → view (m s).1 ≡ view s

module _ {S A B : Type 0} where
  continue-Ends : (r : Outcome A) (f : A → Act S B) (s : S) → Ends (continue r f s).0 → Ends r
  continue-Ends (ok a) f s e = tt
  continue-Ends (err why) f s e = tt
  continue-Ends panicked f s e = tt
  continue-Ends blocked f s e = e

module _ {S V A : Type 0} where
  Keeps-settle :
      (view : S → V) (r : Outcome A) (s : S)
      → (view (settle r s).1 ≡ view s) × (Ends (settle r s).0 → Ends r)
  Keeps-settle view (ok a) s = (refl, λ e. tt)
  Keeps-settle view (err why) s = (refl, λ e. tt)
  Keeps-settle view panicked s = (refl, λ e. tt)
  Keeps-settle view blocked s = (refl, λ e. e)

module _ {S V : Type 0} {view : S → V} where
  pub Keeps-same : {A : Type 0} {m : Act S A} → ((s : S) → view (m s).1 ≡ view s) → Keeps view m
  Keeps-same h = record { at = λ s e. h s }

  module _ {A : Type 0} where
    pub Keeps-pure : (a : A) → Keeps view (pure a)
    unfolding pure
    Keeps-pure a = Keeps-same (λ s. refl)

    pub Keeps-raise : (e : Error) → Keeps view (raise {A = A} e)
    unfolding raise
    Keeps-raise e = Keeps-same (λ s. refl)

    pub Keeps-panic : Keeps view (panic {A = A})
    unfolding panic
    Keeps-panic = Keeps-same (λ s. refl)

    pub Keeps-block : Keeps view (block {A = A})
    unfolding block
    Keeps-block = Keeps-same (λ s. refl)

    pub Keeps-or_raise : (o : Option A) (e : Error) → Keeps view (or_raise o e)
    unfolding or_raise
    Keeps-or_raise none e = Keeps-raise e
    Keeps-or_raise (some a) e = Keeps-pure a

    pub Keeps-if :
        (b : Bool) (m n : Act S A) → Keeps view m → Keeps view n → Keeps view (if b then m else n)
    Keeps-if true m n hm hn = hm
    Keeps-if false m n hm hn = hn

  pub Keeps-require : (b : Bool) (e : Error) → Keeps view (require b e)
  unfolding require
  Keeps-require true e = Keeps-pure tt
  Keeps-require false e = Keeps-raise e

  module _ {A B : Type 0} where
    Keeps-continue :
        (r : Outcome A) (f : A → Act S B)
        → ((a : A) → Keeps view (f a))
        → (s : S) → Ends (continue r f s).0
        → view (continue r f s).1 ≡ view s
    Keeps-continue (ok a) f k s e = (k a).at s e
    Keeps-continue (err why) f k s e = refl
    Keeps-continue panicked f k s e = refl
    Keeps-continue blocked f k s e = absurd e

    pub Keeps-bind :
        {m : Act S A} {f : A → Act S B}
        → Keeps view m
        → ((a : A) → Keeps view (f a))
        → Keeps view (m >>= f)
    unfolding ◌>>=◌
    Keeps-bind {m} {f} hm k = record {
      at =
          λ s e. Keeps-continue (m s).0 f k (m s).1 e ∙ hm.at s (continue-Ends (m s).0 f (m s).1 e);
    }

  pub Keeps-attempt : {A : Type 0} {m : Act S A} → Keeps view m → Keeps view (attempt m)
  unfolding attempt
  Keeps-attempt {m} hm = record {
    at = λ s e. let (same, ends) = Keeps-settle view (m s).0 (m s).1 in same ∙ hm.at s (ends e);
  }

  -- an action whose error is looked at
  pub Keeps-attempt_then :
      {A B : Type 0} {m : Act S A} (f : Result A → Act S B)
      → Keeps view m
      → ((a : A) → Keeps view (f (value a)))
      → ((e : Error) → Keeps view (f (failure e)))
      → Keeps view (attempt m >>= f)
  Keeps-attempt_then {A} f hm hv hf = Keeps-bind (Keeps-attempt hm) settled
    where
      settled : (r : Result A) → Keeps view (f r)
      settled (value a) = hv a
      settled (failure e) = hf e
