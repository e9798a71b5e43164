-- ===== src/Cmd/Commands/Kept.antt =====
-- The commands of cmd/9pc that leave the fids of the connection as they were.
use Prim.Native.String.{String}
use text.Mathlib.Text.{◌==◌ as str_eq}
use qptools.Prelude.{
  ℕ, zero, suc, ◌≡◌, refl, Bool-cases, inl, inr, Option, none, some, List, [], ◌∷◌, ◌==◌, ltb,
  length,
}
use qptools.Act.{Act, Error, Result, value, failure}
use qptools.Act.Keeps.{
  Keeps, Keeps-same, Keeps-pure, Keeps-raise, Keeps-panic, Keeps-block, Keeps-require,
  Keeps-or_raise, Keeps-bind, Keeps-attempt_then, Keeps-if,
}
use qptools.Qp.{Qp, Stat, StatCodec}
use qptools.Trees.Slice.{Slice}
use qptools.Client.Connection.{Connection}
use qptools.Client.Wrapped.{read_all}
use qptools.Client.Simple.Kept.{Keeps-decode_each}
use qptools.Client.Wrapped.Kept.{Keeps-read_all, Keeps-write_to}
use qptools.Cmd.Shell.{read_stats, Host, remotely}
use qptools.Cmd.Commands.{
  accepted, put_over, print_sorted, describe, stat, print_stats, list_opened, ls, cat, print_from,
  two_arguments, upload, stuff, save, download, get, upload_as, put_at, put, mkdir, rm, returned,
  need_destination,
}
use qptools.Cmd.Commands.Tracked.{
  tracked, fids, own, Keeps-locally, Keeps-print, Keeps-remotely, Keeps-walking, Keeps-removing,
}

module _ (qp : Qp) {S L : Type 0} (conn : Connection S) (host : Host L) where
  -- a call of the connection, which neither opens nor clunks a fid
  Keeps-call :
      {A : Type 0} (m : Act (S × List ℕ) A)
      → ((s : S × List ℕ) → own (m s).1 ≡ own s)
      → Keeps (fids {L = L}) (remotely m)
  Keeps-call m h = Keeps-remotely (Keeps-same h)

  Keeps-describe : (f : ℕ) → Keeps fids (describe qp (tracked conn) host f)
  unfolding describe
  Keeps-describe f = Keeps-bind (Keeps-call _ (λ s. refl)) (λ s. Keeps-print _)

  pub Keeps-stat :
      (root cwd : ℕ) (line : String) → Keeps fids (stat qp (tracked conn) host root cwd line)
  unfolding stat
  Keeps-stat root cwd line =
      Keeps-if (str_eq line "") _ _ (Keeps-bind (Keeps-describe cwd) (λ u. Keeps-pure cwd))
        (Keeps-walking conn _ _ (λ x. Keeps-bind (Keeps-describe x.0) (λ u. Keeps-pure cwd)))

  Keeps-print_stats : (ss : List Stat) → Keeps fids (print_stats qp (tracked conn) host ss)
  unfolding print_stats
  Keeps-print_stats [] = Keeps-pure tt
  Keeps-print_stats (s ∷ ss) = Keeps-bind (Keeps-print _) (λ u. Keeps-print_stats ss)

  Keeps-returned :
      {A : Type 0} (x : A × Option Error) → Keeps fids (returned qp (tracked conn) host x)
  Keeps-returned (a, none) = Keeps-pure a
  Keeps-returned (a, some e) = Keeps-raise e

  Keeps-print_sorted :
      (ss : Option (List Stat)) → Keeps fids (print_sorted qp (tracked conn) host ss)
  Keeps-print_sorted none = Keeps-panic
  Keeps-print_sorted (some ss) = Keeps-print_stats ss

  Keeps-print_from : (size f off : ℕ) → Keeps fids (print_from qp (tracked conn) host size f off)
  unfolding print_from
  Keeps-print_from zero f off = Keeps-block
  Keeps-print_from (suc size) f off = Keeps-bind (Keeps-call _ (λ s. refl)) λ b.
      elim (Bool-cases (length b == 0)) [
        | inl e ↦ rw e (Keeps-pure tt)
        | inr e ↦ rw e (Keeps-bind (Keeps-print _) (λ u. Keeps-print_from size f _))
      ]

  pub Keeps-cat :
      (size root cwd : ℕ) (line : String)
      → Keeps fids (cat qp (tracked conn) host size root cwd line)
  unfolding cat
  Keeps-cat size root cwd line = Keeps-walking conn _ _ λ x.
      Keeps-bind (Keeps-call _ (λ s. refl)) λ u.
        Keeps-bind (Keeps-print_from size x.0 0) λ v. Keeps-bind (Keeps-print _) λ w. Keeps-pure cwd

  Keeps-accepted : {A : Type 0} (r : Result A) → Keeps fids (accepted qp (tracked conn) host r)
  Keeps-accepted (value a) = Keeps-pure a
  Keeps-accepted (failure e) = Keeps-raise e

  Keeps-two_arguments :
      (command line : String) → Keeps fids (two_arguments qp (tracked conn) host command line)
  unfolding two_arguments
  Keeps-two_arguments command line = Keeps-bind (Keeps-same (λ s. refl)) (λ words. Keeps-accepted _)

  Keeps-upload :
      (size f : ℕ) (bytes : Slice) → Keeps fids (upload qp (tracked conn) host size f bytes)
  unfolding upload
  Keeps-upload size f bytes =
      Keeps-bind
        (Keeps-remotely
          (Keeps-write_to own (tracked conn) f (λ offset b. Keeps-same (λ s. refl)) _ size bytes _))
        (λ x. Keeps-returned x)

  Keeps-download_all :
      (size f : ℕ) → Keeps (fids {L = L}) (remotely (read_all (tracked conn) size f))
  Keeps-download_all size f =
      Keeps-remotely
        (Keeps-read_all own (tracked conn) f (λ offset count. Keeps-same (λ s. refl)) size)

  pub Keeps-stuff :
      (size root cwd : ℕ) (line : String)
      → Keeps fids (stuff qp (tracked conn) host size root cwd line)
  unfolding stuff
  Keeps-stuff size root cwd line = Keeps-bind (Keeps-two_arguments "stuff" line) λ args.
      Keeps-bind (Keeps-require _ need_destination) λ u. Keeps-walking conn _ _ λ x.
        Keeps-bind (Keeps-call _ (λ s. refl))
          λ v. Keeps-bind (Keeps-upload size x.0 _) λ n. Keeps-pure cwd

  Keeps-save :
      (size file : ℕ) (bytes : List ℕ) → Keeps fids (save qp (tracked conn) host size file bytes)
  unfolding save
  Keeps-save zero file [] = Keeps-pure tt
  Keeps-save (suc size) file [] = Keeps-pure tt
  Keeps-save zero file (b ∷ bs) = Keeps-block
  Keeps-save (suc size) file (b ∷ bs) = Keeps-bind (Keeps-locally _) λ n.
      elim (Bool-cases (ltb (length (b ∷ bs)) n)) [
        | inl e ↦ rw e Keeps-panic
        | inr e ↦ rw e (Keeps-save size file _)
      ]

  Keeps-download :
      (size file f : ℕ) (remote local : String)
      → Keeps fids (download qp (tracked conn) host size file f remote local)
  unfolding download
  Keeps-download size file f remote local = Keeps-bind (Keeps-call _ (λ s. refl)) λ s.
      Keeps-bind (Keeps-require _ _) λ u. Keeps-bind (Keeps-call _ (λ t. refl)) λ v.
        Keeps-bind (Keeps-print _) λ w. Keeps-bind (Keeps-download_all size f) λ r.
          Keeps-bind (Keeps-returned r)
            λ bytes. Keeps-bind (Keeps-print _) λ z. Keeps-save size file bytes

  pub Keeps-get :
      (size root cwd : ℕ) (line : String)
      → Keeps fids (get qp (tracked conn) host size root cwd line)
  unfolding get
  Keeps-get size root cwd line = Keeps-bind (Keeps-two_arguments "get" line) λ args.
      Keeps-bind (Keeps-locally _) λ file.
        Keeps-walking conn _ _
          λ x. Keeps-bind (Keeps-download size file x.0 _ _) λ u. Keeps-pure cwd

  Keeps-upload_as :
      (size f : ℕ) (bytes : Slice) (local remote : String)
      → Keeps fids (upload_as qp (tracked conn) host size f bytes local remote)
  unfolding upload_as
  Keeps-upload_as size f bytes local remote =
      Keeps-bind (Keeps-print _) λ u. Keeps-bind (Keeps-upload size f bytes) λ n. Keeps-pure tt

  Keeps-put_over :
      (size f : ℕ) (name : String) (bytes : Slice) (local remote : String)
      → Keeps fids (put_over qp (tracked conn) host size f name bytes local remote)
  unfolding put_over
  Keeps-put_over size f name bytes local remote =
      Keeps-walking conn _ _
        λ x. Keeps-bind (Keeps-call _ (λ s. refl)) λ u. Keeps-upload_as size x.0 bytes local remote

  Keeps-put_at :
      (size f : ℕ) (name : String) (bytes : Slice) (local remote : String)
      → Keeps fids (put_at qp (tracked conn) host size f name bytes local remote)
  unfolding put_at
  Keeps-put_at size f name bytes local remote =
      Keeps-attempt_then _ (Keeps-call _ (λ s. refl))
        (λ made. Keeps-upload_as size f bytes local remote)
        (λ e. Keeps-put_over size f name bytes local remote)

  pub Keeps-put :
      (size root cwd : ℕ) (line : String)
      → Keeps fids (put qp (tracked conn) host size root cwd line)
  unfolding put
  Keeps-put size root cwd line = Keeps-bind (Keeps-two_arguments "put" line) λ args.
      Keeps-bind (Keeps-locally _) λ bytes. Keeps-bind (Keeps-or_raise _ need_destination) λ name.
        Keeps-walking conn _ _
          λ x. Keeps-bind (Keeps-put_at size x.0 name bytes _ _) λ u. Keeps-pure cwd

  pub Keeps-mkdir :
      (root cwd : ℕ) (line : String) → Keeps fids (mkdir qp (tracked conn) host root cwd line)
  unfolding mkdir
  Keeps-mkdir root cwd line =
      Keeps-bind (Keeps-or_raise _ need_destination) λ name.
        Keeps-walking conn _ _ λ x. Keeps-bind (Keeps-call _ (λ s. refl)) λ u. Keeps-pure cwd

  pub Keeps-ls :
      (codec : StatCodec) (spare : List ℕ) (size root cwd : ℕ) (line : String)
      → Keeps fids (ls qp (tracked conn) host codec spare size root cwd line)
  unfolding ls list_opened read_stats
  Keeps-ls codec spare size root cwd line = Keeps-walking conn _ _ λ x.
      Keeps-bind (Keeps-call _ (λ s. refl)) λ u.
        Keeps-bind
          (Keeps-bind (Keeps-download_all size x.0) λ r. Keeps-bind (Keeps-returned r) λ b.
            Keeps-bind (Keeps-decode_each fids codec spare (suc (length b)) b)
              λ stats. Keeps-print_sorted _)
          λ v. Keeps-pure cwd

  pub Keeps-rm :
      (root cwd : ℕ) (line : String) → Keeps fids (rm qp (tracked conn) host root cwd line)
  unfolding rm
  Keeps-rm root cwd line =
      Keeps-bind (Keeps-require _ need_destination)
        λ u. Keeps-removing conn _ _ (λ v. Keeps-pure cwd)
