-- ===== src/Fileserver/Effects.antt =====
-- What attach, open, read and clunk do to the fids and the tree, on success and on failure.
use qptools.Prelude.{
  ℕ, ◌+◌, ◌-◌, ◌≤◌, ◌≡◌, refl, ◌≢◌, String, true, false, none, some, List, [], ◌∷◌, arith, ◌==◌,
  min, is_some, inl, inr, Option-cases, if◌then◌else◌, length, int64, ℤ,
}
use qptools.Prelude.Maps.{Map, lookup, nat_key, lookup-insert, lookup-delete}
use qptools.Act.{Error, ok, err}
use qptools.Act.Returns.{Yields}
use qptools.Qp.{Reply, r_read}
use qptools.Trees.{Tree}
use qptools.Fileserver.Walk.{FidState}
use qptools.Fileserver.State.{Session, Host, fid_not_open, not_open_for_read}
use qptools.Fileserver.Fids.{find_fid, fresh, root_of, attach_body}
use qptools.Fileserver.Files.{readable, read_body, open_body, clunk_body}

-- io.ReaderAt's contract: a read returns at most as many bytes as the buffer holds.
abbrev pub ReadsAtMost : {W : Type 0} → Tree W → Type 0
ReadsAtMost {W} tree =
    (h n : ℕ) (off : ℤ) (w : W) → Yields (λ r. length r.0 ≤ n) (tree.read_at h n off w).0

module _ {W : Type 0} (host : Host W) where
  -- Where ReadAt returns at most as many bytes as it is asked for: a read that is answered with
  -- data came through a fid that is open for reading, and the data is no longer than asked for
  -- and fits, with the overhead of the message, into the negotiated size.
  pub read_body_bound :
      (f : FidState) (msg_size offset count : ℕ) (s : Session W) (bytes : List ℕ)
      → ReadsAtMost host.tree
      → (read_body host f msg_size offset count s).0 ≡ ok (r_read bytes)
      → (is_some f.handle ≡ true)
        × (readable host.qp f.mode ≡ true)
        × (length bytes ≤ count)
        × (length bytes + host.qp.read_overhead ≤ msg_size)
  unfolding read_body readable
  read_body_bound f msg_size offset count s bytes small e = elim (Option-cases f.handle) [
    | inl shut ↦ ground arith
    | inr (h, opened) ↦
        ground
          (arith, small h (min (msg_size - host.qp.read_overhead) count) (int64 offset) s.world)
  ]

  -- A fid that is not open, or not for reading, is refused before the file is touched.
  pub read_body_refusal :
      (f : FidState) (msg_size offset count : ℕ) (s : Session W)
      → (f.handle ≡ none → read_body host f msg_size offset count s ≡ (err fid_not_open, s))
        × ((h : ℕ)
            → f.handle ≡ some h
            → readable host.qp f.mode ≡ false
            → read_body host f msg_size offset count s ≡ (err not_open_for_read, s))
  unfolding read_body
  read_body_refusal f msg_size offset count s =
      (λ e. rw (e, read_body) refl, λ h e r. rw (e, r, read_body) refl)

  -- A clunk that succeeds forgets its fid and no other.
  pub find_fid-clunk :
      (f : FidState) (fid other : ℕ) (s : Session W) (reply : Reply)
      → (clunk_body host f fid s).0 ≡ ok reply
      → find_fid other (clunk_body host f fid s).1.fids
        ≡ (if fid == other then none else find_fid other s.fids)
  unfolding clunk_body find_fid
  find_fid-clunk f fid other s reply e = grind (arith, lookup-delete)

  -- For a fid that is known, an open that fails leaves every fid as it was; one that succeeds
  -- found the fid closed, gives it a handle and the mode, keeps its location, and leaves the
  -- other fids as they were.
  pub open_body_fids :
      (f : FidState) (fid mode other : ℕ) (s : Session W)
      → (find_fid fid s.fids ≡ some f)
      → let (r, s') = open_body host f fid mode s in
        ((e : Error) → r ≡ err e → s'.fids ≡ s.fids)
        × ((reply : Reply)
            → r ≡ ok reply
            → (f.handle ≡ none)
              × ((g : FidState)
                  → find_fid fid s'.fids ≡ some g
                  → (g.mode ≡ mode) × (is_some g.handle ≡ true) × (g.location ≡ f.location))
              × (fid ≢ other → find_fid other s'.fids ≡ find_fid other s.fids))
  unfolding open_body find_fid
  open_body_fids f fid mode other s here = (
    λ e fails. ground arith,
    λ reply ok'. (
      ground arith,
      λ g found. grind (arith, lookup-insert),
      λ apart. grind (arith, lookup-insert),
    ),
  )

  -- The bug: an attach with an unused fid, without authentication, to a root whose Qid fails is
  -- answered with that error, and its fid is in use all the same.
  pub attach_body_leak :
      (fid afid root : ℕ) (user service : String) (s : Session W) (m : Map ℕ FidState) (e : Error)
      → s.fids ≡ some m
      → lookup fid m ≡ none
      → host.auth_file ≡ none
      → afid ≡ host.qp.nofid
      → root_of host service ≡ some root
      → (host.tree.qid root s.world).0 ≡ err e
      → let (r, s') = attach_body host fid afid user service s in
        (r ≡ err e) × (find_fid fid s'.fids ≡ some (record (fresh user) { location = root ∷ [] }))
  unfolding attach_body find_fid
  attach_body_leak fid afid root user service s m e some_fids unused no_auth nofid serves fails =
      grind (arith, lookup-insert)
