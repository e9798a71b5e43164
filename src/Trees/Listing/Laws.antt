-- ===== src/Trees/Listing/Laws.antt =====
-- The reading of a directory, page by page, and what comes of it when it is decoded.
use qptools.Prelude.{
  ℕ, suc, ◌+◌, ◌-◌, ◌≤◌, ◌<◌, ◌≡◌, refl, ap, true, false, none, List, [], ◌∷◌, ◌++◌, arith, ltb,
  inl, inr, ◌==◌, length, take, drop, length-append, Bool-cases,
}
use qptools.Qp.{Stat, StatCodec}
use qptools.Utils.Laws.{AllFit, first_fits, AllEncode, another, listing}
use qptools.Trees.Listing.{Page, fill}

abbrev before : List ℕ → Page → Page
before b p = record p { bytes = b ++ p.bytes }

module _ (codec : StatCodec) (room : ℕ) where
  -- What a page holds: the first `k` stats, all that fit, and one at least if any stat is left.
  pub record Holds (copied : ℕ) (ss : List Stat) (page : Page) : Type 0 where
    pub k : ℕ
    pub copies : page ≡ record { bytes = listing codec (take k ss); left = drop k ss; error = none }
    pub inside : copied + length page.bytes ≤ room
    pub progress : copied ≡ 0 → 0 < length ss → 0 < k

  stop :
      (copied : ℕ) (s : Stat) (ss : List Stat)
      → copied ≤ room
      → (copied ≡ 0 → AllFit codec room (s ∷ ss))
      → ltb (room - copied) (codec.size s) ≡ true
      → Holds copied (s ∷ ss) (fill codec room copied (s ∷ ss))
  unfolding fill
  stop copied s ss h fit small =
      let later : 0 < copied = elim (Bool-cases (copied == 0)) [
        | inl start ↦ absurd (ground (arith, first_fits (fit (ground arith))))
        | inr not_start ↦ ground arith
      ] in
      let not_first : ((copied == 0) ≡ false) = ground arith in
      rw (small, not_first)
        (record {
          k = 0;
          copies = refl;
          inside = omega arith;
          progress = λ e. absurd (omega (arith, e, later));
        })

  pub fill-Holds :
      (copied : ℕ) (ss : List Stat)
      → copied ≤ room
      → AllEncode codec ss
      → (copied ≡ 0 → AllFit codec room ss)
      → Holds copied ss (fill codec room copied ss)
  unfolding fill
  fill-Holds copied [] h all fit = record {
    k = 0;
    copies = refl;
    inside = omega arith;
    progress = λ a b. absurd (omega arith);
  }
  fill-Holds copied (s ∷ ss) h (another e all) fit =
      elim (Bool-cases (ltb (room - copied) (codec.size s))) [
        | inl small ↦ stop copied s ss h fit small
        | inr fits ↦
            let inside : (copied + codec.size s ≤ room) = ground (arith, h) in
            let more =
              fill-Holds (copied + codec.size s) ss inside all
                (λ z. absurd (omega (arith, z, e.sized))) in
            rw (fits, e.marshalled)
              (record {
                k = suc more.k;
                copies = rw e.marshalled (ap (before (e.lo ∷ e.hi ∷ e.body)) more.copies);
                inside = omega (
                  arith,
                  more.inside,
                  e.sized,
                  length-append e.body (fill codec room (copied + codec.size s) ss).bytes,
                );
                progress = λ a b. omega arith;
              })
      ]
