-- ===== src/Cmd/Commands/Download.antt =====
-- The command get on a file.
use Prim.Native.String.{String}
use qptools.Prelude.{
  ℕ, zero, suc, ◌^◌, ◌<◌, ◌≡◌, refl, sym, ◌∙◌, append-nil, true, some, List, [], ◌∷◌, ◌++◌, arith,
  ◌==◌, length, drop, bit_and,
}
use qptools.Act.{ok, value, pure, within, modify, require, ◌>>=◌}
use qptools.Qp.{Qp, Qid, Stat}
use qptools.Client.Connection.{Connection}
use qptools.Client.Wrapped.Reads.{Serves, read_all_lem}
use qptools.Client.Simple.{deferring}
use qptools.Cmd.Parse.{parse_command_line}
use qptools.Cmd.Shell.{
  parse_path, downloading, downloaded, Host, Local, Shell, runes, remotely, locally, print, walk,
}
use qptools.Cmd.Commands.{two_arguments, save, download, get, start_at}

-- A local file, and the bytes in it: Write takes all that it is given.
pub record Stores {L : Type 0} (files : Local L) (file : ℕ) (saved : L → List ℕ) : Type 0 where
  pub takes :
      (bytes : List ℕ) (l : L)
      → (l' : L) × (files.write file bytes l ≡ (ok (length bytes), l'))
        × (saved l' ≡ saved l ++ bytes)

-- A path that leads to a file, which is no directory and can be opened for reading and clunked.
pub record Offers {S : Type 0} (conn : Connection S) (qp : Qp) (Fine : S → Type 0) (start fid : ℕ)
    (names : List String) (s : S) : Type 0 where
  pub walked : S
  pub looked : S
  pub opened : S
  pub qids : List Qid
  pub stat : Stat
  pub qid : Qid
  pub iounit : ℕ
  pub walks : conn.walk start names s ≡ (ok (some fid, qids), walked)
  pub stats : conn.stat fid walked ≡ (ok stat, looked)
  pub no_directory : bit_and stat.mode qp.dmdir ≡ 0
  pub opens : conn.open_mode fid qp.oread looked ≡ (ok (qid, iounit), opened)
  pub fine : Fine opened
  pub clunks : (t : S) → Fine t → (t' : S) × (conn.clunk fid t ≡ (ok tt, t'))

drop-length : (xs : List ℕ) → drop (length xs) xs ≡ []
drop-length [] = refl
drop-length (x ∷ xs) = drop-length xs

module _ (qp : Qp) {S L : Type 0} (conn : Connection S) (host : Host L) (file : ℕ)
    (saved : L → List ℕ) (stores : Stores host.files file saved) where
  save_nil : (size : ℕ) (s : Shell S L) → save qp conn host size file [] s ≡ (ok tt, s)
  unfolding save pure
  save_nil zero s = refl
  save_nil (suc size) s = refl

  save_all :
      (size b : ℕ) (bs : List ℕ) (s : Shell S L) (l : L)
      → host.files.write file (b ∷ bs) s.machine ≡ (ok (length (b ∷ bs)), l)
      → save qp conn host (suc size) file (b ∷ bs) s
        ≡ save qp conn host size file (drop (length bs) bs) (record s { machine = l })
  unfolding save locally within ◌>>=◌
  save_all size b bs s l e = ground (arith, e)

  save_lem :
      (size : ℕ) (bytes : List ℕ) (s : Shell S L)
      → length bytes < size
      → (l : L) × (save qp conn host size file bytes s ≡ (ok tt, record s { machine = l }))
        × (saved l ≡ saved s.machine ++ bytes)
  save_lem zero bytes s enough = absurd (omega arith)
  save_lem (suc size) [] s enough =
      (s.machine, save_nil (suc size) s, sym (append-nil (saved s.machine)))
  save_lem (suc size) (b ∷ bs) s enough =
      let (l, e, e') = stores.takes (b ∷ bs) s.machine in
      (
        l,
        save_all size b bs s l e ∙ rw (drop-length bs) (save_nil size (record s { machine = l })),
        e',
      )

  -- The command get, whose arguments are a path and a local name, of a path that leads to a file,
  -- which is no directory, can be opened and clunked, and whose reads return parts of a content of
  -- less than 2 ^ 64 bytes, none of them empty before its end, into a local file that is empty when
  -- it is created and that takes all that is written: with more rounds than the content has bytes it
  -- returns the working directory, and the local file has the content.
  pub get_lem :
      (size root cwd fid : ℕ) (line remote local : String) (words : List (List ℕ)) (text : List ℕ)
      (Fine : S → Type 0) (s : Shell S L) (l : L)
      → parse_command_line (runes line) ≡ ok words
      → host.arguments "get" words ≡ value (remote, local)
      → host.files.create local s.machine ≡ (ok file, l)
      → saved l ≡ []
      → Offers conn qp Fine
          (start_at qp conn host (parse_path remote).1 root cwd)
          fid
          (parse_path remote).0
          s.connection
      → Serves conn fid text Fine
      → length text < 2 ^ 64
      → length text < size
      → (s' : Shell S L) × (get qp conn host size root cwd line s ≡ (ok cwd, s'))
        × (saved s'.machine ≡ text)
  unfolding get two_arguments download walk remotely locally within modify print deferring require
      ◌>>=◌
  get_lem size root cwd fid line remote local words text Fine s l ew ea ec empty o serves short
        enough =
      let (t₁, read, fine) =
        read_all_lem conn fid text Fine serves short size o.opened o.fine enough in
      let (t₂, clunked) = o.clunks t₁ fine in
      let s₁ : Shell S L = record s {
        connection = t₁;
        machine = l;
        printed =
            (s.printed ++ downloading remote local o.stat.length ∷ [])
            ++ downloaded (length text) ∷ [];
      } in
      let (l', e, e') = save_lem size text s₁ enough in
      let plain : ((bit_and o.stat.mode qp.dmdir == 0) ≡ true) = ground (arith, o.no_directory) in
      (
        record s₁ { connection = t₂; machine = l' },
        rw (ew, ea, ec, o.walks, o.stats, plain, o.opens, read, e, clunked) refl,
        e' ∙ rw empty refl,
      )
