-- ===== src/Client/Simple/Kept.antt =====
-- The loop that decodes a listing leaves the state as it is.
use qptools.Prelude.{
  ℕ, zero, suc, ◌+◌, ◌%◌, ◌^◌, ◌≡◌, refl, Bool-cases, Option-cases, inl, inr, List, [], ◌∷◌, ◌++◌,
  ltb, length, take, ◌⊎◌,
}
use qptools.Act.{Error, Result, value, failure}
use qptools.Act.Keeps.{Keeps, Keeps-pure, Keeps-raise, Keeps-panic, Keeps-block, Keeps-bind}
use qptools.Qp.{StatCodec}
use qptools.Client.Simple.{decode_each, two}

pub Result-cases :
    {A : Type 0} (r : Result A) → ((a : A) × (r ≡ value a)) ⊎ ((e : Error) × (r ≡ failure e))
Result-cases (value a) = inl (a, refl)
Result-cases (failure e) = inr (e, refl)

module _ {S V : Type 0} (view : S → V) (codec : StatCodec) (spare : List ℕ) where
  pub Keeps-decode_each : (fuel : ℕ) (b : List ℕ) → Keeps view (decode_each codec spare fuel b)
  unfolding decode_each
  Keeps-decode_each zero b = Keeps-block
  Keeps-decode_each (suc fuel) [] = Keeps-pure []
  Keeps-decode_each (suc fuel) (x ∷ b) = elim (Option-cases (two ((x ∷ b) ++ spare))) [
    | inl e ↦ rw (decode_each, e) Keeps-panic
    | inr (l, e) ↦
        let end = (2 + l) % 2 ^ 16 in
        elim (Bool-cases (ltb (length ((x ∷ b) ++ spare)) end)) [
          | inl f ↦ rw (decode_each, e, f) Keeps-panic
          | inr f ↦ elim (Result-cases (codec.unmarshal (take end ((x ∷ b) ++ spare)))) [
            | inl (s, g) ↦ elim (Bool-cases (ltb (length (x ∷ b)) end)) [
              | inl h ↦ rw (decode_each, e, f, g, h) Keeps-panic
              | inr h ↦
                  rw (decode_each, e, f, g, h)
                    (Keeps-bind (Keeps-decode_each fuel _) (λ ss. Keeps-pure (s ∷ ss)))
            ]
            | inr (why, g) ↦ rw (decode_each, e, f, g) (Keeps-raise why)
          ]
        ]
  ]
