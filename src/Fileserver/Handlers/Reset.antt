-- ===== src/Fileserver/Handlers/Reset.antt =====
-- Version negotiation: the size that is agreed, and the reset of the session.
use qptools.Prelude.{
  ℕ, ◌≤◌, ◌≡◌, refl, false, Option, none, some, [], ◌∷◌, arith, inl, inr, Option-cases, ◌↔◌, ◌<◌,
}
use qptools.Prelude.Maps.{Map}
use qptools.Act.{Act, Outcome, ok, err, panicked, blocked, ignore, ◌>>=◌}
use qptools.Trees.{Tree}
use qptools.Fileserver.Walk.{FidState}
use qptools.Fileserver.State.{Session, Server, Host, min_size, nine_p2000}
use qptools.Fileserver.Wire.{on_session, close_fid, close_fids, close_all, cleanup}
use qptools.Fileserver.Handlers.{negotiate, reset_session}

-- Where the server's own size is not below the minimum: the agreed size is at most the client's
-- and at most the server's own, and not below the minimum; and a request is refused exactly where
-- its size is below the minimum.
pub negotiate_bounds :
    {W : Type 0} (host : Host W) (requested : ℕ)
    → min_size ≤ host.suggested_message_size
    → ((n : ℕ)
        → negotiate host requested ≡ some n
        → (n ≤ requested) × (n ≤ host.suggested_message_size) × (min_size ≤ n))
      × ((negotiate host requested ≡ none) ↔ (requested < min_size))
unfolding negotiate
negotiate_bounds host requested h = (λ n e. ground arith, ground arith)

-- A call that comes back, with or without an error.
abbrev pub Ends : {A : Type 0} → Outcome A → Type 0
Ends (ok a) = Unit
Ends (err e) = Unit
Ends panicked = ⊥
Ends blocked = ⊥

-- Every Close of the tree comes back.
abbrev pub Closes : {W : Type 0} → Tree W → Type 0
Closes {W} tree = (h : ℕ) (w : W) → Ends (tree.close h w).0

abbrev pub Unlocked : Map ℕ FidState → Type 0
Unlocked [] = Unit
Unlocked ((fid, f) ∷ fids) = (f.locked ≡ false) × Unlocked fids

abbrev pub AllUnlocked : Option (Map ℕ FidState) → Type 0
AllUnlocked none = Unit
AllUnlocked (some fids) = Unlocked fids

-- Whether any handler holds a lock.
pub record IsIdle {W : Type 0} (s : Session W) : Type 0 where
  pub fids_free : s.fid_lock ≡ false
  pub each_free : AllUnlocked s.fids

ignore-ok : {S A : Type 0} (m : Act S A) (s : S) → Ends (m s).0 → (ignore m s).0 ≡ ok tt
unfolding ignore
ignore-ok m s e = ground arith

module _ {W : Type 0} (tree : Tree W) (closes : Closes tree) where
  close_fid-ok : (f : FidState) (w : W) → f.locked ≡ false → (close_fid tree f w).0 ≡ ok tt
  unfolding close_fid
  close_fid-ok f w free = elim (Option-cases f.handle) [
    | inl e ↦ rw (free, e, close_fid) refl
    | inr (h, e) ↦ rw (free, e, close_fid) (ignore-ok (tree.close h) w (closes h w))
  ]

  close_fids-ok :
      (fids : Map ℕ FidState) (w : W) → Unlocked fids → (close_fids tree fids w).0 ≡ ok tt
  unfolding close_fids ◌>>=◌
  close_fids-ok [] w u = refl
  close_fids-ok ((fid, f) ∷ fids) w u =
      let (r, t) = close_fid tree f w in rw (close_fid-ok f w u.0) (close_fids-ok fids t u.1)

  close_all-ok :
      (fids : Option (Map ℕ FidState)) (w : W)
      → AllUnlocked fids
      → (close_all tree fids w).0 ≡ ok tt
  unfolding close_all
  close_all-ok none w u = refl
  close_all-ok (some fids) w u = close_fids-ok fids w u

module _ {W : Type 0} (host : Host W) (closes : Closes host.tree) where
  -- cleanup ends, and leaves no fid and no lock.
  pub cleanup-ok :
      (s : Session W)
      → IsIdle s
      → ((cleanup host s).0 ≡ ok tt)
        × ((cleanup host s).1.fids ≡ some [])
        × ((cleanup host s).1.fid_lock ≡ false)
  unfolding cleanup
  cleanup-ok s idle =
      rw (idle.fids_free, cleanup)
        (ground (arith, close_all-ok host.tree closes s.fids s.world idle.each_free))

  -- Where no handler holds a lock and every Close of the tree comes back, the reset of a version
  -- request ends, leaves no fid and no tag, puts the protocol and the agreed size in force, and
  -- writes and cancels nothing.
  pub reset_session_lem :
      (size : ℕ) (s : Server W)
      → IsIdle s.session
      → let s' = (reset_session host size s).1 in
        ((reset_session host size s).0 ≡ ok tt)
        × (s'.session.fids ≡ some [])
        × (s'.session.fid_lock ≡ false)
        × (s'.tags ≡ [])
        × (s'.proto ≡ some nine_p2000)
        × (s'.msg_size ≡ size)
        × (s'.decoder.message_size ≡ size)
        × (s'.sent ≡ s.sent)
        × (s'.cancelled ≡ s.cancelled)
  unfolding reset_session ◌>>=◌ on_session
  reset_session_lem size s idle = ground (arith, cleanup-ok s.session idle)
