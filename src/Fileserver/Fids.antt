-- ===== src/Fileserver/Fids.antt =====
-- What the handlers of fileserver/fileserver.go do with the fids and the file tree, between the
-- arrival of a request and its answer.
use qptools.Prelude.{
  ℕ, ◌-◌, ◌^◌, String, true, false, not, ◌&&◌, Option, none, some, List, [], ◌∷◌, ◌==◌, is_some,
  if◌then◌else◌,
}
use qptools.Prelude.Maps.{Map, lookup, insert, delete, nat_key, text_key}
use qptools.Act.{Act, pure, raise, panic, block, gets, modify, require, or_raise, ◌>>=◌, ◌>>◌}
use qptools.Qp.{Qid, Reply, r_auth, r_attach, r_walk}
use qptools.Trees.{Tree}
use qptools.Fileserver.Walk.{FidState, fid_open, walk_to}
use qptools.Fileserver.State.{
  Session, Host, fid_in_use, auth_not_supported, auth_required, no_such_service, unknown_fid,
  fid_not_open, afid_not_auth_file, permission_denied,
}
use qptools.Fileserver.Wire.{on_world}

-- fids[fid], where a nil map has no entries
unfoldable pub find_fid : ℕ → Option (Map ℕ FidState) → Option FidState
find_fid fid none = none
find_fid fid (some fids) = lookup fid fids

-- A fidState without a location, a handle or a mode.
abbrev pub fresh : String → FidState
fresh username = record {
  location = [];
  handle = none;
  mode = 0;
  username = username;
  locked = false;
}

module _ {W : Type 0} where
  -- a lookup under fidLock.RLock
  unfoldable pub read_fid : ℕ → Act (Session W) (Option FidState)
  unfolding ◌>>=◌ find_fid
  read_fid fid = do
    held ← gets (λ s. s.fid_lock)
    if held then block else gets (λ s. find_fid fid s.fids)

  -- a lookup by a handler that holds fidLock
  unfoldable pub held_fid : ℕ → Act (Session W) (Option FidState)
  unfolding ◌>>=◌ find_fid
  held_fid fid = gets (λ s. find_fid fid s.fids)

  -- fids[fid] = f, which panics if the map is nil
  unfoldable pub put_fid : ℕ → FidState → Act (Session W) (Unit {0})
  unfolding ◌>>=◌
  put_fid fid f = do
    fids ← gets (λ s. s.fids)
    elim fids [ none ↦ panic | some m ↦ modify (λ s. record s { fids = some (insert fid f m) }) ]

  -- an assignment to fields of fids[fid]
  unfoldable pub update_fid : ℕ → (FidState → FidState) → Act (Session W) (Unit {0})
  unfolding ◌>>=◌ find_fid
  update_fid fid change = do
    fids ← gets (λ s. s.fids)
    elim fids [
      | none ↦ pure tt
      | some m ↦ elim (lookup fid m) [
        | none ↦ pure tt
        | some f ↦ modify (λ s. record s { fids = some (insert fid (change f) m) })
      ]
    ]

  -- delete(fids, fid)
  unfoldable pub delete_fid : ℕ → Act (Session W) (Unit {0})
  unfolding ◌>>=◌
  delete_fid fid = do
    fids ← gets (λ s. s.fids)
    elim fids [ none ↦ pure tt | some m ↦ modify (λ s. record s { fids = some (delete fid m) }) ]

  -- x.(trees.Dir)
  unfoldable pub assert_dir : Tree W → ℕ → Act (Session W) ℕ
  unfolding ◌>>=◌
  assert_dir tree file = if tree.has_dir file then pure file else panic

module _ {W : Type 0} (host : Host W) where
  open host use {qp, tree}

  -- auth, from the lookup of the afid on; `file` is the server's AuthFile
  unfoldable pub auth_body : (file auth_fid : ℕ) (username : String) → Act (Session W) Reply
  unfolding ◌>>=◌ held_fid put_fid on_world require
  auth_body file auth_fid username = do
    known ← held_fid auth_fid
    require (not (is_some known)) fid_in_use
    handle ← on_world (tree.open_file file username qp.ordwr)
    put_fid auth_fid (record (fresh username) { handle = some handle })
    pure (r_auth (record { kind = qp.qtauth; version = 2 ^ 32 - 1; path = 2 ^ 64 - 1 }))

  -- attach: the check of the afid
  unfoldable pub check_auth :
      (auth_fid : ℕ) (username service : String) → Act (Session W) (Unit {0})
  unfolding ◌>>=◌ held_fid on_world require or_raise
  check_auth auth_fid username service =
      if is_some host.auth_file
      then (do
        require (not (auth_fid == qp.nofid)) auth_required
        known ← held_fid auth_fid
        a ← or_raise known unknown_fid
        handle ← or_raise a.handle fid_not_open
        require (tree.is_authenticator handle) afid_not_auth_file
        authed ← on_world (tree.authenticated handle username service)
        require authed permission_denied)
      else require (auth_fid == qp.nofid) auth_not_supported

  -- the root that serves a service
  unfoldable pub root_of : (service : String) → Option ℕ
  root_of service = elim (lookup service host.roots) [
    | some root ↦ some root
    | none ↦ host.default_root
  ]

  unfoldable pub attach_body :
      (fid auth_fid : ℕ) (username service : String) → Act (Session W) Reply
  unfolding ◌>>=◌ held_fid put_fid on_world require or_raise check_auth root_of
  attach_body fid auth_fid username service = do
    known ← held_fid fid
    require (not (is_some known)) fid_in_use
    check_auth auth_fid username service
    root ← or_raise (root_of service) no_such_service
    put_fid fid (record (fresh username) { location = root ∷ [] })
    qid ← on_world (tree.qid root)
    pure (r_attach qid)

  -- walk, up to the end of walkTo, which runs without a lock
  unfoldable pub walk_begin :
      (fid new_fid : ℕ) (names : List String) → Act (Session W) (Option FidState × List Qid)
  unfolding ◌>>=◌ read_fid on_world require or_raise
  walk_begin fid new_fid names = do
    old ← read_fid fid
    new ← read_fid new_fid
    state ← or_raise old unknown_fid
    require (not (is_some new && not (fid == new_fid))) fid_in_use
    on_world (walk_to tree state names)

  -- walk, under fidLock again: the new fid may have been taken meanwhile. An error unlocks first; a
  -- panic does not, as this lock is not released by a defer.
  unfoldable pub walk_claim : (fid new_fid : ℕ) → FidState → Act (Session W) (Unit {0})
  unfolding ◌>>=◌ held_fid put_fid
  walk_claim fid new_fid state = do
    held ← gets (λ s. s.fid_lock)
    if held then block else (do
      modify (λ s. record s { fid_lock = true })
      known ← held_fid new_fid
      (if fid == new_fid
          then elim known [
            | none ↦ panic
            | some old ↦
                if is_some old.handle
                then (do modify (λ s. record s { fid_lock = false }); raise fid_open)
                else pure tt
          ]
          else if is_some known
          then (do modify (λ s. record s { fid_lock = false }); raise fid_in_use)
          else pure tt)
      put_fid new_fid state
      modify (λ s. record s { fid_lock = false }))

  unfoldable pub walk_finish :
      (fid new_fid : ℕ) → Option FidState × List Qid → Act (Session W) Reply
  unfolding ◌>>=◌ walk_claim
  walk_finish fid new_fid (none, qids) = pure (r_walk qids)
  walk_finish fid new_fid (some state, qids) = do walk_claim fid new_fid state; pure (r_walk qids)

  unfoldable pub walk_body : (fid new_fid : ℕ) (names : List String) → Act (Session W) Reply
  unfolding ◌>>=◌ walk_begin walk_finish
  walk_body fid new_fid names = do
    reached ← walk_begin fid new_fid names
    walk_finish fid new_fid reached
