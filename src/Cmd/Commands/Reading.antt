-- ===== src/Cmd/Commands/Reading.antt =====
-- The commands cat and ls on a file that can be read.
use Prim.Native.String.{String}
use qptools.Prelude.{
  ℕ, zero, suc, ◌+◌, ◌-◌, ◌%◌, ◌^◌, ◌≤◌, ◌<◌, ◌≡◌, refl, sym, ap, ◌∙◌, some, List, [], ◌∷◌, ◌++◌,
  append-nil, append_assoc, arith, length, take, drop, length-take, length-drop, take-append-drop,
}
use qptools.Act.{ok, within, modify, ◌>>=◌}
use qptools.Qp.{Qp, Qid}
use qptools.Client.Connection.{Connection}
use qptools.Client.Simple.{deferring}
use qptools.Cmd.Shell.{
  parse_path, Output, described, listed, content, notice, downloading, downloaded, uploading,
  no_such_command, failed, Host, Shell, remotely, print, walk,
}
use qptools.Cmd.Commands.{print_from, cat, start_at}

drop_end : {A : Type 0} (n : ℕ) (xs : List A) → length xs ≤ n → drop n xs ≡ []
drop_end zero [] h = refl
drop_end zero (x ∷ xs) h = absurd (omega arith)
drop_end (suc n) [] h = refl
drop_end (suc n) (x ∷ xs) h = drop_end n xs (omega arith)

drop-add : {A : Type 0} (m n : ℕ) (xs : List A) → drop n (drop m xs) ≡ drop (m + n) xs
drop-add zero n xs = ap (λ k. drop k xs) (omega arith)
drop-add (suc m) n [] = drop_end n [] (omega arith) ∙ sym (drop_end (suc m + n) [] (omega arith))
drop-add (suc m) n (x ∷ xs) =
    let more : (suc (m + n) ≡ suc m + n) = omega arith in
    drop-add m n xs ∙ ap (λ k. drop k (x ∷ xs)) more

pieced :
    {A : Type 0} (offset : ℕ) (b text : List A)
    → b ≡ take (length b) (drop offset text)
    → b ++ drop (offset + length b) text ≡ drop offset text
pieced offset b text part =
    ap (λ t. b ++ t) (sym (drop-add offset (length b) text))
    ∙ (ap (λ t. t ++ drop (length b) (drop offset text)) part
        ∙ take-append-drop (length b) (drop offset text))

-- what cat printed of files
abbrev pub shown : List Output → List ℕ
shown [] = []
shown (content b ∷ os) = b ++ shown os
shown (o ∷ os) = shown os

shown-append : (os ps : List Output) → shown (os ++ ps) ≡ shown os ++ shown ps
shown-append [] ps = refl
shown-append (content b ∷ os) ps =
    ap (λ t. b ++ t) (shown-append os ps) ∙ sym (append_assoc b (shown os) (shown ps))
shown-append (described q ∷ os) ps = shown-append os ps
shown-append (listed p v n q ∷ os) ps = shown-append os ps
shown-append (notice q ∷ os) ps = shown-append os ps
shown-append (downloading r l n ∷ os) ps = shown-append os ps
shown-append (downloaded n ∷ os) ps = shown-append os ps
shown-append (uploading l r n ∷ os) ps = shown-append os ps
shown-append (no_such_command q ∷ os) ps = shown-append os ps
shown-append (failed q e ∷ os) ps = shown-append os ps

shown-content :
    (os : List Output) (b rest : List ℕ)
    → shown (os ++ content b ∷ []) ++ rest ≡ shown os ++ (b ++ rest)
shown-content os b rest =
    ap (λ t. t ++ rest) (shown-append os (content b ∷ []) ∙ ap (λ t. shown os ++ t) (append-nil b))
    ∙ append_assoc (shown os) b rest

-- A fid whose reads of 1024 bytes return parts of a content, none of them empty before its end.
pub record Pieces {S : Type 0} (conn : Connection S) (fid : ℕ) (text : List ℕ) (Fine : S → Type 0)
    : Type 0 where
  pub part :
      (offset : ℕ) (s : S)
      → Fine s
      → (b : List ℕ) × (s' : S) × (conn.read fid offset 1024 s ≡ (ok b, s'))
        × Fine s'
        × (b ≡ take (length b) (drop offset text))
        × (offset < length text → 0 < length b)

-- A path that leads to a fid, which can be opened for reading and clunked.
pub record Reaches {S : Type 0} (conn : Connection S) (qp : Qp) (Fine : S → Type 0) (start fid : ℕ)
    (names : List String) (s : S) : Type 0 where
  pub walked : S
  pub opened : S
  pub qids : List Qid
  pub qid : Qid
  pub iounit : ℕ
  pub walks : conn.walk start names s ≡ (ok (some fid, qids), walked)
  pub opens : conn.open_mode fid qp.oread walked ≡ (ok (qid, iounit), opened)
  pub fine : Fine opened
  pub clunks : (t : S) → Fine t → (t' : S) × (conn.clunk fid t ≡ (ok tt, t'))

module _ (qp : Qp) {S L : Type 0} (conn : Connection S) (host : Host L) (fid : ℕ) (text : List ℕ)
    (Fine : S → Type 0) where
  module _ (pieces : Pieces conn fid text Fine) (short : length text < 2 ^ 64) where
    -- what the loop does from an offset on
    abbrev Prints : (size offset : ℕ) → Shell S L → Type 0
    Prints size offset s =
        (s' : Shell S L) × (print_from qp conn host size fid offset s ≡ (ok tt, s'))
        × Fine s'.connection
        × (shown s'.printed ≡ shown s.printed ++ drop offset text)

    print_end :
        (size offset : ℕ) (s : Shell S L) (t : S)
        → conn.read fid offset 1024 s.connection ≡ (ok [], t)
        → print_from qp conn host (suc size) fid offset s ≡ (ok tt, record s { connection = t })
    unfolding print_from remotely within ◌>>=◌
    print_end size offset s t e = rw e refl

    print_more :
        (size offset o x : ℕ) (xs : List ℕ) (s : Shell S L) (t : S)
        → conn.read fid offset 1024 s.connection ≡ (ok (x ∷ xs), t)
        → (offset + length (x ∷ xs)) % 2 ^ 64 ≡ o
        → print_from qp conn host (suc size) fid offset s
          ≡ print_from qp conn host size fid o
              (record s { connection = t; printed = s.printed ++ content (x ∷ xs) ∷ [] })
    unfolding print_from remotely print within modify ◌>>=◌
    print_more size offset o x xs s t e eo = ground (arith, e, eo)

    one_piece :
        (size offset : ℕ) (b : List ℕ) (s : Shell S L) (t : S)
        → ((o : ℕ) (s' : Shell S L)
            → Fine s'.connection
            → o ≤ length text
            → length text - o < size
            → Prints size o s')
        → offset ≤ length text
        → length text - offset < suc size
        → conn.read fid offset 1024 s.connection ≡ (ok b, t)
        → Fine t
        → b ≡ take (length b) (drop offset text)
        → (offset < length text → 0 < length b)
        → Prints (suc size) offset s
    one_piece size offset [] s t ih inside enough e fine part more =
        let none_left = drop_end offset text (grind (arith, more)) in
        (
          record s { connection = t },
          print_end size offset s t e,
          fine,
          sym (append-nil (shown s.printed)) ∙ ap (λ l. shown s.printed ++ l) (sym none_left),
        )
    one_piece size offset (x ∷ xs) s t ih inside enough e fine part more =
        let n = length (x ∷ xs) in
        let s₁ : Shell S L = record s {
          connection = t;
          printed = s.printed ++ content (x ∷ xs) ∷ [];
        } in
        let size' : (n ≤ length text - offset) =
          rw (ap length part)
            (omega (arith, length-take n (drop offset text), length-drop offset text)) in
        let o : ((offset + n) % 2 ^ 64 ≡ offset + n) = omega (arith, size') in
        let (s', done, fine', printed) =
          ih (offset + n) s₁ fine (omega (arith, size')) (omega (arith, size')) in
        (
          s',
          print_more size offset (offset + n) x xs s t e o ∙ done,
          fine',
          printed
              ∙ (shown-content s.printed (x ∷ xs) _
                  ∙ ap (λ l. shown s.printed ++ l) (pieced offset (x ∷ xs) text part)),
        )

    print_from_lem :
        (size offset : ℕ) (s : Shell S L)
        → Fine s.connection
        → offset ≤ length text
        → length text - offset < size
        → Prints size offset s
    print_from_lem zero offset s fine inside enough = absurd (omega arith)
    print_from_lem (suc size) offset s fine inside enough =
        let (b, t, e, fine', part, more) = pieces.part offset s.connection fine in
        one_piece size offset b s t (λ o s' fine'' i n. print_from_lem size o s' fine'' i n) inside
          enough e fine' part more

    -- The command cat of a path that leads to a fid, which can be opened and clunked, and whose reads
    -- of 1024 bytes return parts of a content of less than 2 ^ 64 bytes, none of them empty before
    -- its end: with more rounds than the content has bytes it returns the working directory, and what
    -- it printed of the file is the content.
    pub cat_lem :
        (size root cwd : ℕ) (line : String) (s : Shell S L)
        → Reaches conn qp Fine
            (start_at qp conn host (parse_path line).1 root cwd)
            fid
            (parse_path line).0
            s.connection
        → length text < size
        → (s' : Shell S L) × (cat qp conn host size root cwd line s ≡ (ok cwd, s'))
          × (shown s'.printed ≡ shown s.printed ++ text)
    unfolding cat walk remotely print within modify deferring ◌>>=◌
    cat_lem size root cwd line s r enough =
        let s₁ : Shell S L = record s { connection = r.opened } in
        let (s₂, done, fine, printed) =
          print_from_lem size 0 s₁ r.fine (omega arith) (omega arith) in
        let (t, c) = r.clunks s₂.connection fine in
        (
          record s₂ { connection = t; printed = s₂.printed ++ notice "\n" ∷ [] },
          rw (r.walks, r.opens, done, c) refl,
          shown-append s₂.printed (notice "\n" ∷ []) ∙ (append-nil (shown s₂.printed) ∙ printed),
        )
