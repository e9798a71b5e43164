-- ===== src/Client/Wrapped/Kept.antt =====
-- What the loops of WrappedFid leave as it is.
use qptools.Prelude.{
  refl, ℕ, zero, suc, ◌+◌, ◌%◌, ◌^◌, Option, none, some, List, [], ◌∷◌, ◌++◌, ◌==◌, ltb, length, ℤ,
  pos, negsuc, Bool-cases, inl, inr,
}
use qptools.Act.{Act, Error, pure, gets}
use qptools.Act.Keeps.{
  Keeps, Keeps-pure, Keeps-panic, Keeps-block, Keeps-if, Keeps-bind, Keeps-attempt_then,
}
use qptools.Trees.Slice.{Slice}
use qptools.Client.Connection.{Connection}
use qptools.Client.Wrapped.{
  chunk, rest_from, Round, read_loop, read_all, write_round, write_loop, write_to,
}

module _ {S V : Type 0} (view : S → V) (conn : Connection S) (fid : ℕ) where
  Keeps-gets : {A : Type 0} (g : S → A) → Keeps view (gets g)
  unfolding gets
  Keeps-gets g = record { at = λ s e. refl }

  module _ (reads : (offset count : ℕ) → Keeps view (conn.read fid offset count)) where
    Keeps-more :
        (fuel offset : ℕ) (got : List ℕ)
        → ((o : ℕ) (bs : List ℕ) → Keeps view (read_loop conn fuel fid o bs))
        → (b : List ℕ)
        → Keeps view (elim b as (λ _. Act S (List ℕ × Option Error)) [
          | [] ↦ pure (got, none)
          | x ∷ xs ↦ read_loop conn fuel fid ((offset + length (x ∷ xs)) % 2 ^ 64) (got ++ x ∷ xs)
        ])
    Keeps-more fuel offset got h [] = Keeps-pure _
    Keeps-more fuel offset got h (x ∷ xs) = h _ _

    Keeps-read_loop :
        (fuel offset : ℕ) (got : List ℕ) → Keeps view (read_loop conn fuel fid offset got)
    unfolding read_loop
    Keeps-read_loop zero offset got = Keeps-block
    Keeps-read_loop (suc fuel) offset got = Keeps-bind (Keeps-gets conn.max_size) λ size.
        Keeps-attempt_then _ (reads offset size)
          (Keeps-more fuel offset got (λ o bs. Keeps-read_loop fuel o bs)) (λ e. Keeps-pure _)

    pub Keeps-read_all : (fuel : ℕ) → Keeps view (read_all conn fuel fid)
    unfolding read_all
    Keeps-read_all fuel = Keeps-read_loop fuel 0 []

  module _ (writes : (offset : ℕ) (bytes : List ℕ) → Keeps view (conn.write fid offset bytes)) where
    Keeps-chunk : (ms : ℕ) (p : Slice) → Keeps view (chunk ms p)
    Keeps-chunk ms p = Keeps-if (ltb (length p.array) ms) _ _ Keeps-panic (Keeps-pure _)

    Keeps-rest_from : (n : ℕ) (p : Slice) → Keeps view (rest_from n p)
    Keeps-rest_from n p = Keeps-if (ltb p.len n) _ _ Keeps-panic (Keeps-pure _)

    Keeps-write_round : (ms offset : ℕ) (p : Slice) → Keeps view (write_round conn fid ms offset p)
    unfolding write_round
    Keeps-write_round ms offset p = Keeps-bind (Keeps-chunk ms p) λ b.
        Keeps-attempt_then _ (writes offset b)
          (λ n.
            Keeps-if (n == 0) _ _ (Keeps-pure _)
              (Keeps-bind (Keeps-rest_from n p) (λ p'. Keeps-pure _)))
          (λ e. Keeps-pure _)

    Keeps-next :
        (fuel ms : ℕ)
        → ((o : ℕ) (p : Slice) → Keeps view (write_loop conn fuel fid ms o p))
        → (r : Round)
        → Keeps view (elim r as (λ _. Act S (ℕ × Option Error)) [
          | Round.stopped o e ↦ pure (o, some e)
          | Round.further o p ↦ write_loop conn fuel fid ms o p
        ])
    Keeps-next fuel ms h (Round.stopped o e) = Keeps-pure _
    Keeps-next fuel ms h (Round.further o p) = h o p

    Keeps-write_loop :
        (fuel ms offset : ℕ) (p : Slice) → Keeps view (write_loop conn fuel fid ms offset p)
    unfolding write_loop
    Keeps-write_loop zero ms offset p = Keeps-block
    Keeps-write_loop (suc fuel) ms offset p = elim (Bool-cases (p.len == 0)) [
      | inl e ↦ rw (write_loop, e) (Keeps-pure _)
      | inr e ↦
          rw (write_loop, e)
            (Keeps-bind (Keeps-write_round ms offset p)
              (Keeps-next fuel ms (λ o p'. Keeps-write_loop fuel ms o p')))
    ]

    pub Keeps-write_to :
        (overhead fuel : ℕ) (p : Slice) (off : ℤ)
        → Keeps view (write_to conn overhead fuel fid p off)
    unfolding write_to
    Keeps-write_to overhead fuel p (negsuc k) = Keeps-pure _
    Keeps-write_to overhead fuel p (pos off) =
        Keeps-bind (Keeps-gets conn.max_size)
          λ size. Keeps-bind (Keeps-write_loop fuel _ off p) (λ x. Keeps-pure _)
