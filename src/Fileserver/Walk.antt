-- ===== src/Fileserver/Walk.antt =====
-- walkTo of fileserver/fileserver.go, and the fidState that it starts from and returns.
pub mod Laws
use text.Mathlib.Text.{◌==◌ as str_eq}
use qptools.Prelude.{
  ℕ, String, Bool, false, Option, none, some, List, [], ◌∷◌, ◌++◌, ltb, ◌==◌, is_some,
  if◌then◌else◌, length,
}
use qptools.Act.{
  Act, Error, reason, Result, value, failure, pure, raise, panic, attempt, or_raise, ◌>>=◌, ◌>>◌,
}
use qptools.Qp.{Qid}
use qptools.Trees.{Tree}
use qptools.Fileserver.Path.{current, parent, clone, shorten}

-- fidState. `locked` tells whether its lock is held for writing.
pub record FidState : Type 0 where
  pub location : List ℕ
  pub handle : Option ℕ
  pub mode : ℕ
  pub username : String
  pub locked : Bool

abbrev pub invalid_op_on_fid : Error
invalid_op_on_fid = reason "invalid operation on file"

abbrev pub fid_open : Error
fid_open = reason "fid is open"

abbrev pub fid_not_directory : Error
fid_not_directory = reason "fid is not a directory"

abbrev pub no_such_file : Error
no_such_file = reason "file does not exist"

-- How one element of a walk ends: `goto done` with an error, or the file that was reached and the
-- path to it.
pub data Move : Type 0 where
  stopped : Error → Move
  moved : (root : ℕ) → (loc : List ℕ) → Move

-- How the loop ends: with `err` set by a `goto done`, or after the last name.
pub record Trail : Type 0 where
  pub loc : List ℕ
  pub qids : List Qid
  pub error : Option Error

module _ {W : Type 0} where
  -- What follows the label `done`.
  unfoldable pub conclude :
      (username : String) (names : List String) → Trail → Act W (Option FidState × List Qid)
  unfolding ◌>>=◌
  conclude username names trail = elim (if length trail.qids == 0 then trail.error else none) [
    | some e ↦ raise e
    | none ↦
        if ltb (length trail.qids) (length names)
        then pure (none, trail.qids)
        else pure (
          some (record {
            location = trail.loc;
            handle = none;
            mode = 0;
            username = username;
            locked = false;
          }),
          trail.qids,
        )
  ]

module _ {W : Type 0} (tree : Tree W) where
  -- The file that Walk returned is entered: Arrived may send the walk elsewhere.
  unfoldable pub enter : (user : String) (loc : List ℕ) → Option ℕ → Act W Move
  unfolding ◌>>=◌ attempt
  enter user loc none = pure (stopped no_such_file)
  enter user loc (some file) = do
    arrival ← attempt (tree.arrived file user)
    elim arrival [
      | failure e ↦ pure (stopped e)
      | value none ↦ pure (moved file (loc ++ file ∷ []))
      | value (some other) ↦ pure (moved other (loc ++ other ∷ []))
    ]

  -- The default case of the switch: a regular file name.
  unfoldable pub descend : (user name : String) (root : ℕ) (loc : List ℕ) → Act W Move
  unfolding ◌>>=◌ attempt enter
  descend user name root loc = do
    isdir ← tree.is_dir root
    if isdir
        then (if tree.has_dir root
            then (do
              found ← attempt (tree.walk root user name)
              elim found [ failure e ↦ pure (stopped e) | value file ↦ enter user loc file ])
            else panic)
        else pure (stopped fid_not_directory)

  -- `root = newloc.Parent()`, which is not nil as the path is not empty
  unfoldable pub ascend : (loc : List ℕ) → Act W Move
  unfolding ◌>>=◌
  ascend loc = elim (parent loc) [ none ↦ panic | some p ↦ pure (moved p (shorten loc)) ]

  unfoldable pub walk_name : (user name : String) (root : ℕ) (loc : List ℕ) → Act W Move
  unfolding ◌>>=◌ descend ascend
  walk_name user name root loc =
      if str_eq name "."
      then pure (moved root loc)
      else if str_eq name ".."
      then ascend loc
      else descend user name root loc

  -- The loop over the names. An error of IsDir or Qid is returned at once.
  unfoldable pub walk_names :
      (user : String) → List String → (root : ℕ) (loc : List ℕ) (qids : List Qid) → Act W Trail
  unfolding ◌>>=◌
  walk_names user [] root loc qids = pure (record { loc = loc; qids = qids; error = none })
  walk_names user (name ∷ names) root loc qids = do
    move ← walk_name user name root loc
    elim move [
      | stopped e ↦ pure (record { loc = loc; qids = qids; error = some e })
      | moved root' loc' ↦ do q ← tree.qid root'; walk_names user names root' loc' (qids ++ q ∷ [])
    ]

  -- walkTo(oldState, names)
  unfoldable pub walk_to :
      (old : FidState) (names : List String) → Act W (Option FidState × List Qid)
  unfolding ◌>>=◌ or_raise conclude
  walk_to old names = do
    root ← or_raise (current (clone old.location)) invalid_op_on_fid
    if is_some old.handle then raise fid_open else (do
      trail ← walk_names old.username names root (clone old.location) []
      conclude old.username names trail)
