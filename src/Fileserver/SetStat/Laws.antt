-- ===== src/Fileserver/SetStat/Laws.antt =====
-- What setStat lets a client change, and what happens when a change is refused halfway.
use qptools.Prelude.{ℕ, ◌≡◌, refl, ap, ◌⊎◌, String, true, false, Option, none, some, arith, is_some}
use qptools.Act.{Act, Error, reason, ok, err, panicked, panic, attempt, ignore, ◌>>=◌, ◌>>◌}
use qptools.Qp.{Qp, Stat}
use qptools.Trees.{Tree}
use qptools.Fileserver.SetStat.{refusal, requested, apply_changes, set_stat, or_undo}

-- A field that the client leaves alone: the value that stands for "no change", or the old one.
abbrev pub Keeps : (top new old : ℕ) → Type 0
Keeps top new old = (new ≡ top) ⊎ (new ≡ old)

abbrev pub KeepsText : (new old : String) → Type 0
KeepsText new old = (new ≡ "") ⊎ (new ≡ old)

ignore-panic : {W : Type 0} (w : W) → ignore (panic {A = Unit {0}}) w ≡ (panicked, w)
unfolding ignore attempt panic ◌>>=◌
ignore-panic w = refl

-- Undoing a change of a root by a rename, after the two other changes are undone.
undo_panics :
    {W : Type 0} (m n : Act W (Unit {0})) (w : W)
    → (m w).0 ≡ ok tt
    → (n (m w).1).0 ≡ ok tt
    → ((do m; n; ignore (panic {A = Unit {0}})) w).0 ≡ panicked
unfolding ◌>>=◌
undo_panics m n w first second = rw (first, second) (ap (λ r. r.0) (ignore-panic (n (m w).1).1))

or_undo_panics :
    {W : Type 0} (m undo : Act W (Unit {0})) (w w' : W) (e : Error)
    → m w ≡ (err e, w')
    → (undo w').0 ≡ panicked
    → (or_undo m undo w).0 ≡ panicked
unfolding or_undo attempt ◌>>=◌
or_undo_panics m undo w w' e fails p = ground (arith, fails, p)

module _ {W : Type 0} (qp : Qp) (tree : Tree W) (user : String) (file : ℕ) (new : Stat) where
  -- A request that fails a check, on a file whose Stat succeeds, is answered with the reason, and
  -- changes nothing: no call but Stat is made.
  pub set_stat_refused :
      (dir : Option ℕ) (w w' : W) (old : Stat) (why : String)
      → tree.stat file w ≡ (ok old, w')
      → refusal qp (is_some dir) old new ≡ some why
      → set_stat qp tree user file dir new w ≡ (err (reason why), w')
  unfolding set_stat
  set_stat_refused dir w w' old why e r = rw (e, r) refl

  -- The bug: where an accepted request on a root changes the length alone, SetLength fails and
  -- the undoing of mode and owner comes back, the undoing of the rename, which was never made,
  -- panics.
  pub set_stat_root_panics :
      (w w₁ w₂ : W) (old : Stat) (e : Error)
      → tree.stat file w ≡ (ok old, w₁)
      → refusal qp false old new ≡ none
      → (requested qp old new).mode ≡ false
      → (requested qp old new).owner ≡ false
      → (requested qp old new).name ≡ false
      → (requested qp old new).length ≡ true
      → tree.set_length file user new.length w₁ ≡ (err e, w₂)
      → ((w' : W)
          → ((ignore (tree.set_mode file user old.mode) w').0 ≡ ok tt)
            × ((ignore (tree.set_owner file user old.uid old.gid) w').0 ≡ ok tt))
      → (set_stat qp tree user file none new w).0 ≡ panicked
  unfolding set_stat apply_changes ◌>>=◌
  set_stat_root_panics w w₁ w₂ old e st r m o n l sl undone =
      let (out, w₃) = ignore (tree.set_mode file user old.mode) w₂ in
      rw (st, r, m, o, n, l)
        (or_undo_panics (tree.set_length file user new.length) _ w₁ w₂ e sl (
          undo_panics (ignore (tree.set_mode file user old.mode))
            (ignore (tree.set_owner file user old.uid old.gid)) w₂ (undone w₂).0 (undone w₃).1))
