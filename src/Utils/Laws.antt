-- ===== src/Utils/Laws.antt =====
-- Readdir on a listing: encoded stats, one after the other.
use qptools.Prelude.{
  ℕ, zero, suc, ◌+◌, ◌*◌, ◌≤◌, ◌<◌, ◌≡◌, refl, ap, ◌∙◌, false, Option, none, some, List, [], ◌∷◌,
  ◌++◌, append_assoc, arith, ltb, length, take, drop, length-append,
}
use qptools.Act.{Error, Result, Outcome, ok, panicked, value, failure}
use qptools.Qp.{Stat, StatCodec, Encodes}
use qptools.Utils.{decode, readdir, prepend, short_input, uint16}

-- What Marshal writes, and a whole listing.
abbrev pub bytes : Result (List ℕ) → List ℕ
bytes (value b) = b
bytes (failure e) = []

abbrev pub listing : StatCodec → List Stat → List ℕ
listing codec [] = []
listing codec (s ∷ ss) = bytes (codec.marshal s) ++ listing codec ss

pub data AllEncode (codec : StatCodec) : List Stat → Type 0 where
  finished : AllEncode codec []
  another :
      {s : Stat} {ss : List Stat} → Encodes codec s → AllEncode codec ss → AllEncode codec (s ∷ ss)

-- Every stat fits into a buffer of `room` bytes.
pub data AllFit (codec : StatCodec) (room : ℕ) : List Stat → Type 0 where
  nothing : AllFit codec room []
  further :
      {s : Stat} {ss : List Stat}
      → codec.size s ≤ room
      → AllFit codec room ss
      → AllFit codec room (s ∷ ss)

pub first_fits :
    {codec : StatCodec} {room : ℕ} {s : Stat} {ss : List Stat}
    → AllFit codec room (s ∷ ss)
    → codec.size s ≤ room
first_fits (further h rest) = h

-- What follows a listing, with what comes of it: nothing, one byte of a slice that fills its array,
-- or a stat that is cut short.
pub data Tail (spare : List ℕ) : List ℕ → Outcome (List Stat × Option Error) → Type 0 where
  complete : Tail spare [] (ok ([], none))
  single : (b : ℕ) → spare ≡ [] → Tail spare (b ∷ []) panicked
  cut :
      (lo hi : ℕ) (b : List ℕ)
      → length b < lo + 256 * hi
      → Tail spare (lo ∷ hi ∷ b) (ok ([], some short_input))

pub take-length : {A : Type 0} (xs ys : List A) → take (length xs) (xs ++ ys) ≡ xs
take-length [] ys = refl
take-length (x ∷ xs) ys = ap (◌∷◌ x) (take-length xs ys)

pub drop-length : {A : Type 0} (xs ys : List A) → drop (length xs) (xs ++ ys) ≡ ys
drop-length [] ys = refl
drop-length (x ∷ xs) ys = drop-length xs ys

module _ (codec : StatCodec) (spare : List ℕ) where
  decode-Tail :
      (fuel : ℕ) (b : List ℕ) (o : Outcome (List Stat × Option Error))
      → Tail spare b o
      → decode codec spare (suc fuel) b ≡ o
  unfolding decode
  decode-Tail fuel b o complete = refl
  decode-Tail fuel b o (single x e) = rw e refl
  decode-Tail fuel b o (cut lo hi body h) = ground arith

  decode-stat :
      (fuel lo hi : ℕ) (s : Stat) (body rest : List ℕ)
      → length body ≡ lo + 256 * hi
      → codec.unmarshal (lo ∷ hi ∷ body) ≡ value s
      → decode codec spare (suc fuel) (lo ∷ hi ∷ (body ++ rest))
        ≡ prepend (s ∷ []) (decode codec spare fuel rest)
  unfolding decode
  decode-stat fuel lo hi s body rest counted decoded =
      let fits : (ltb (length (body ++ rest)) (length body) ≡ false) =
        ground (arith, length-append body rest) in
      let n : (uint16 lo hi ≡ length body) = omega arith in
      let left : (drop (uint16 lo hi) (body ++ rest) ≡ rest) = rw n (drop-length body rest) in
      rw (n, fits, take-length body rest, decoded)
        (ap (λ r. prepend (s ∷ []) (decode codec spare fuel r)) left)

  decode-listing :
      (fuel : ℕ) (ss : List Stat) (tail : List ℕ) (o : Outcome (List Stat × Option Error))
      → AllEncode codec ss
      → Tail spare tail o
      → length (listing codec ss ++ tail) < fuel
      → decode codec spare fuel (listing codec ss ++ tail) ≡ prepend ss o
  decode-listing zero ss tail o all end enough = absurd (omega arith)
  decode-listing (suc fuel) [] tail o all end enough = decode-Tail fuel tail o end
  decode-listing (suc fuel) (s ∷ ss) tail o (another e all) end enough =
      let shorter : (2 + length (e.body ++ (listing codec ss ++ tail)) < suc fuel) =
        omega (arith, rw (e.marshalled, append_assoc e.body (listing codec ss) tail) at enough) in
      rw (e.marshalled, append_assoc e.body (listing codec ss) tail)
        (decode-stat fuel e.lo e.hi s e.body (listing codec ss ++ tail) e.counted e.decoded
          ∙ ap (prepend (s ∷ [])) (
              decode-listing fuel ss tail o all end
                (omega (arith, shorter, length-append e.body (listing codec ss ++ tail)))))

  -- Readdir of the encodings of any number of stats, each of which the codec carries, and what
  -- follows them: it returns them all, without an error when nothing follows; a stat of which bytes
  -- are missing behind its count ends the list with the error that the input is short, and a single
  -- byte that fills the slice's array makes it panic.
  pub readdir_lem :
      (ss : List Stat) (tail : List ℕ) (o : Outcome (List Stat × Option Error))
      → AllEncode codec ss
      → Tail spare tail o
      → readdir codec spare (listing codec ss ++ tail) ≡ prepend ss o
  unfolding readdir
  readdir_lem ss tail o all end = decode-listing _ ss tail o all end (omega arith)
