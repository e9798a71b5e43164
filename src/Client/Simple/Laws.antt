-- ===== src/Client/Simple/Laws.antt =====
-- Whole files and directories by their paths.
use Prim.Native.String.{String}
use qptools.Prelude.{
  ℕ, zero, suc, ◌+◌, ◌-◌, ◌*◌, ◌%◌, ◌^◌, ◌<◌, ◌≡◌, refl, Bool, false, none, some, List, [], ◌∷◌,
  ◌++◌, arith, ltb, ◌==◌, length, take, append_assoc, length-append,
}
use qptools.Act.{Act, ok, err, value, pure, require, ◌>>=◌}
use qptools.Qp.{Qp, Qid, Stat, StatCodec}
use qptools.Utils.{uint16}
use qptools.Utils.Laws.{
  AllEncode, finished, another, listing, AllFit, further, take-length, drop-length,
}
use qptools.Client.Connection.{Connection}
use qptools.Client.Wrapped.Reads.{Serves, read_all_lem}
use qptools.Client.Paths.{split, filled, dir, resolve, follow}
use qptools.Client.Simple.{
  invalid_path, walk_path, deferring, decode_each, read_file, list_files, create_file,
}

-- The directory of a path "/name", without a further slash, is the root, and its names are none.
root_names :
    (name : String) → split name ≡ name ∷ [] → filled (split (dir (String.◌∷◌ "/" name))) ≡ []
unfolding split filled dir resolve follow
root_names name e = rw e refl

module _ {S : Type 0} (conn : Connection S) (qp : Qp) where
  -- Create of a file in the root, by its absolute path, a slash and a name without one, fails:
  -- path.Dir of "/name" is "/", which walkTo refuses as an invalid path, before anything is sent.
  pub create_file_root :
      (root : ℕ) (name : String) (directory : Bool) (s : S)
      → split name ≡ name ∷ []
      → create_file conn qp (some root) (String.◌∷◌ "/" name) directory s ≡ (err invalid_path, s)
  unfolding create_file walk_path require ◌>>=◌
  create_file_root root name directory s e = rw (root_names name e)

-- A file that can be opened for reading: its path has names, they lead to `fid`, and it can be
-- clunked.
pub record Opens {S : Type 0} (conn : Connection S) (qp : Qp) (Fine : S → Type 0) (root fid : ℕ)
    (file : String) (s : S) : Type 0 where
  pub walked : S
  pub opened : S
  pub qids : List Qid
  pub qid : Qid
  pub iounit : ℕ
  pub named : 0 < length (filled (split file))
  pub walks : conn.walk root (filled (split file)) s ≡ (ok (some fid, qids), walked)
  pub opens : conn.open_mode fid qp.oread walked ≡ (ok (qid, iounit), opened)
  pub fine : Fine opened
  pub clunks : (t : S) → Fine t → (t' : S) × (conn.clunk fid t ≡ (ok tt, t'))

module _ (codec : StatCodec) (spare : List ℕ) {S : Type 0} where
  one_more :
      {b rest : List ℕ} (m : List ℕ → Act S (List Stat)) (x : Stat) (ss : List Stat) (s : S)
      → b ≡ rest
      → m rest s ≡ (ok ss, s)
      → (m b >>= λ ts. pure (x ∷ ts)) s ≡ (ok (x ∷ ss), s)
  unfolding ◌>>=◌
  one_more m x ss s same e = rw (same, e)

  decode_each-stat :
      (fuel lo hi : ℕ) (x : Stat) (body rest : List ℕ) (ss : List Stat) (s : S)
      → length body ≡ lo + 256 * hi
      → 2 + length body < 2 ^ 16
      → codec.unmarshal (lo ∷ hi ∷ body) ≡ value x
      → decode_each codec spare fuel rest s ≡ (ok ss, s)
      → decode_each codec spare (suc fuel) (lo ∷ hi ∷ (body ++ rest)) s ≡ (ok (x ∷ ss), s)
  unfolding decode_each ◌>>=◌
  decode_each-stat fuel lo hi x body rest ss s counted fits decoded more =
      let end : ((2 + uint16 lo hi) % 2 ^ 16 ≡ suc (suc (length body))) = omega (arith, counted) in
      let inside : (ltb (length (lo ∷ hi ∷ ((body ++ rest) ++ spare))) (suc (suc (length body)))
          ≡ false) =
        ground (arith, length-append (body ++ rest) spare, length-append body rest) in
      let inside' : (ltb (length (lo ∷ hi ∷ (body ++ rest))) (suc (suc (length body))) ≡ false) =
        ground (arith, length-append body rest) in
      let first : (take (length body) ((body ++ rest) ++ spare) ≡ body) =
        rw (append_assoc body rest spare) (take-length body (rest ++ spare)) in
      rw (end, inside, first, decoded, end, inside')
        (one_more (decode_each codec spare fuel) x ss s (drop-length body rest) more)

  pub decode_each-listing :
      (fuel : ℕ) (ss : List Stat) (s : S)
      → AllEncode codec ss
      → AllFit codec (2 ^ 16 - 1) ss
      → length (listing codec ss) < fuel
      → decode_each codec spare fuel (listing codec ss) s ≡ (ok ss, s)
  unfolding decode_each ◌>>=◌
  decode_each-listing zero ss s all fit enough = absurd (omega arith)
  decode_each-listing (suc fuel) [] s finished fit enough = refl
  decode_each-listing (suc fuel) (x ∷ ss) s (another e all) (further h fit) enough =
      let longer : (2 + length (e.body ++ listing codec ss) < suc fuel) =
        omega (arith, rw e.marshalled at enough) in
      rw e.marshalled (
        decode_each-stat fuel e.lo e.hi x e.body (listing codec ss) ss s e.counted
          (omega (arith, h, e.sized)) e.decoded
          (decode_each-listing fuel ss s all fit
            (omega (arith, longer, length-append e.body (listing codec ss)))))

module _ {S : Type 0} (conn : Connection S) (qp : Qp) (root fid : ℕ) (content : List ℕ)
    (Fine : S → Type 0) (serves : Serves conn fid content Fine)
    (short : length content < 2 ^ 64) where
  walk_path-Opens :
      (file : String) (s : S) (o : Opens conn qp Fine root fid file s)
      → walk_path conn root file s ≡ (ok fid, o.walked)
  unfolding walk_path require ◌>>=◌
  walk_path-Opens file s o =
      let some_name : ((length (filled (split file)) == 0) ≡ false) = ground (arith, o.named) in
      rw (some_name, o.walks)

  -- Read of a path that leads to a fid whose reads return parts of a content, none of them empty
  -- before its end: it returns the content without an error, with more rounds than that has bytes.
  pub read_file_lem :
      (fuel : ℕ) (file : String) (s : S)
      → Opens conn qp Fine root fid file s
      → length content < fuel
      → (s' : S) × (read_file conn qp fuel (some root) file s ≡ (ok (content, none), s'))
  unfolding read_file deferring ◌>>=◌
  read_file_lem fuel file s o enough =
      let (read, e, fine) =
        read_all_lem conn fid content Fine serves short fuel o.opened o.fine enough in
      let (clunked, c) = o.clunks read fine in
      (clunked, rw (walk_path-Opens file s o, o.opens, e, c))

  -- List of a path that leads to a directory, which can be opened and clunked, and whose reads return
  -- parts of its listing, of less than 2 ^ 64 bytes, none of them empty
  -- before its end: it returns the stats of the listing, with more rounds than that has bytes, if the
  -- codec carries each of them in less than 2 ^ 16 bytes.
  pub list_files_lem :
      (codec : StatCodec) (spare : List ℕ) (fuel : ℕ) (file : String) (ss : List Stat) (s : S)
      → Opens conn qp Fine root fid file s
      → AllEncode codec ss
      → AllFit codec (2 ^ 16 - 1) ss
      → content ≡ listing codec ss
      → length content < fuel
      → (s' : S) × (list_files conn qp codec spare fuel (some root) file s ≡ (ok ss, s'))
  unfolding list_files deferring ◌>>=◌
  list_files_lem codec spare fuel file ss s o all fits same enough =
      let (read, e, fine) =
        read_all_lem conn fid content Fine serves short fuel o.opened o.fine enough in
      let (clunked, c) = o.clunks read fine in
      let decoded =
        decode_each-listing codec spare (suc (length content)) ss read all fits
          (rw same (omega arith)) in
      (clunked, rw (walk_path-Opens file s o, o.opens, e, rw (← same) at decoded, c))
