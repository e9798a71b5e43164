-- ===== src/Client/Wrapped/Reads.antt =====
-- ReadAll: it returns the content of a file, in whatever pieces that comes.
use qptools.Prelude.{
  ℕ, zero, suc, ◌+◌, ◌-◌, ◌%◌, ◌^◌, ◌≤◌, ◌<◌, ◌≡◌, refl, ap, ◌∙◌, none, List, [], ◌∷◌, ◌++◌, arith,
  length, take, drop, take-add, take_all, length-take, length-drop,
}
use qptools.Act.{ok, attempt, ◌>>=◌}
use qptools.Client.Connection.{Connection}
use qptools.Client.Wrapped.{read_loop, read_all}

-- A fid whose reads return parts of `content`, none of them empty before the end; `Fine` is what the
-- peer keeps.
pub record Serves {S : Type 0} (conn : Connection S) (fid : ℕ) (content : List ℕ)
    (Fine : S → Type 0) : Type 0 where
  pub part :
      (offset : ℕ) (s : S)
      → Fine s
      → (b : List ℕ) × (s' : S) × (conn.read fid offset (conn.max_size s) s ≡ (ok b, s'))
        × Fine s'
        × (b ≡ take (length b) (drop offset content))
        × (offset < length content → 0 < length b)

module _ {S : Type 0} (conn : Connection S) (fid : ℕ) where
  pub read_end :
      (fuel offset : ℕ) (got : List ℕ) (s s' : S)
      → conn.read fid offset (conn.max_size s) s ≡ (ok [], s')
      → read_loop conn (suc fuel) fid offset got s ≡ (ok (got, none), s')
  unfolding read_loop attempt ◌>>=◌
  read_end fuel offset got s s' e = ground (arith, e)

  read_more :
      (fuel offset x : ℕ) (xs got : List ℕ) (s s' : S)
      → conn.read fid offset (conn.max_size s) s ≡ (ok (x ∷ xs), s')
      → read_loop conn (suc fuel) fid offset got s
        ≡ read_loop conn fuel fid ((offset + length (x ∷ xs)) % 2 ^ 64) (got ++ x ∷ xs) s'
  unfolding read_loop attempt ◌>>=◌
  read_more fuel offset x xs got s s' e = ground (arith, e)

  pub read_to :
      (fuel offset x o : ℕ) (xs got got' : List ℕ) (s s' : S)
      → conn.read fid offset (conn.max_size s) s ≡ (ok (x ∷ xs), s')
      → (offset + length (x ∷ xs)) % 2 ^ 64 ≡ o
      → got ++ x ∷ xs ≡ got'
      → read_loop conn (suc fuel) fid offset got s ≡ read_loop conn fuel fid o got' s'
  read_to fuel offset x o xs got got' s s' e eo eg =
      read_more fuel offset x xs got s s' e ∙ rw (eo, eg) refl

  module _ (content : List ℕ) (Fine : S → Type 0) (serves : Serves conn fid content Fine)
      (short : length content < 2 ^ 64) where
    -- What the loop promises from an offset on, with fuel for the rest.
    abbrev Reads : (fuel offset : ℕ) → S → Type 0
    Reads fuel offset s =
        (s' : S) × (read_loop conn fuel fid offset (take offset content) s
          ≡ (ok (content, none), s'))
        × Fine s'

    one_read :
        (fuel offset : ℕ) (b : List ℕ) (s s' : S)
        → ((o : ℕ) → o ≤ length content → length content - o < fuel → Reads fuel o s')
        → offset ≤ length content
        → length content - offset < suc fuel
        → conn.read fid offset (conn.max_size s) s ≡ (ok b, s')
        → Fine s'
        → b ≡ take (length b) (drop offset content)
        → (offset < length content → 0 < length b)
        → Reads (suc fuel) offset s
    one_read fuel offset [] s s' ih inside enough e fine part more =
        let all : (take offset content ≡ content) = take_all offset content (grind (arith, more)) in
        (s', read_end fuel offset (take offset content) s s' e ∙ rw all refl, fine)
    one_read fuel offset (x ∷ xs) s s' ih inside enough e fine part more =
        let n = length (x ∷ xs) in
        let size : (n ≤ length content - offset) =
          rw (ap length part)
            (omega (arith, length-take n (drop offset content), length-drop offset content)) in
        let o : ((offset + n) % 2 ^ 64 ≡ offset + n) = omega (arith, size) in
        let (s'', done, fine'') = ih (offset + n) (omega (arith, size)) (omega (arith, size)) in
        let got : (take offset content ++ x ∷ xs ≡ take (offset + n) content) =
          rw (take-add offset n content) (ap (λ t. take offset content ++ t) part) in
        (
          s'',
          read_to fuel offset x (offset + n) xs (take offset content) (take (offset + n) content) s
                s' e o got
              ∙ done,
          fine'',
        )

    loop_lem :
        (fuel offset : ℕ) (s : S)
        → Fine s
        → offset ≤ length content
        → length content - offset < fuel
        → Reads fuel offset s
    loop_lem zero offset s fine inside enough = absurd (omega arith)
    loop_lem (suc fuel) offset s fine inside enough =
        let (b, s', e, fine', part, more) = serves.part offset s fine in
        one_read fuel offset b s s' (λ o i n. loop_lem fuel o s' fine' i n) inside enough e fine'
          part more

    -- ReadAll of a file of less than 2 ^ 64 bytes, whose reads return parts of its content, none of
    -- them empty before the end: it returns the content without an error, with more rounds than the
    -- content has bytes.
    pub read_all_lem :
        (fuel : ℕ) (s : S)
        → Fine s
        → length content < fuel
        → (s' : S) × (read_all conn fuel fid s ≡ (ok (content, none), s')) × Fine s'
    unfolding read_all
    read_all_lem fuel s fine enough = loop_lem fuel 0 s fine (omega arith) (omega arith)
