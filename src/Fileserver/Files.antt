-- ===== src/Fileserver/Files.antt =====
-- What the handlers of fileserver/fileserver.go do to an open file, or to the file of a fid: open,
-- create, read, write, clunk, remove, stat and writeStat. `f` is the fidState of the request's fid.
use text.Mathlib.Text.{◌==◌ as str_eq}
use qptools.Prelude.{
  ℕ, ◌-◌, ◌%◌, ◌^◌, String, Bool, not, ◌&&◌, ◌||◌, Option, none, some, List, [], ◌∷◌, ◌++◌, min,
  bit_and, ltb, leb, ◌==◌, is_some, if◌then◌else◌, length, int64,
}
use qptools.Act.{
  Act, Error, eof, reason, pure, raise, panic, block, ignore, require, or_raise, ◌>>=◌, ◌>>◌,
}
use qptools.Qp.{
  Qp, Stat, Reply, r_open, r_create, r_read, r_write, r_clunk, r_remove, r_stat, r_write_stat,
}
use qptools.Fileserver.Path.{current, parent}
use qptools.Fileserver.SetStat.{set_stat}
use qptools.Fileserver.Walk.{FidState, invalid_op_on_fid, fid_open, fid_not_directory}
use qptools.Fileserver.State.{
  Session, Host, fid_not_open, invalid_file_name, not_open_for_read, not_open_for_write,
  open_write_on_dir,
}
use qptools.Fileserver.Wire.{on_world}
use qptools.Fileserver.Fids.{update_fid, delete_fid, assert_dir}

module _ (qp : Qp) where
  -- switch mode & 3 { case qp.OREAD, qp.ORDWR, qp.OEXEC: … }
  unfoldable pub readable : (mode : ℕ) → Bool
  readable mode =
      bit_and mode 3 == qp.oread || bit_and mode 3 == qp.ordwr || bit_and mode 3 == qp.oexec

  -- switch mode & 3 { case qp.OWRITE, qp.ORDWR: … }
  unfoldable pub writable : (mode : ℕ) → Bool
  writable mode = bit_and mode 3 == qp.owrite || bit_and mode 3 == qp.ordwr

module _ {W : Type 0} (host : Host W) where
  open host use {qp, tree}

  unfoldable pub open_body : (f : FidState) (fid mode : ℕ) → Act (Session W) Reply
  unfolding ◌>>=◌ or_raise require on_world update_fid writable
  open_body f fid mode = do
    require (not (is_some f.handle)) fid_open
    l ← or_raise (current f.location) invalid_op_on_fid
    isdir ← on_world (tree.is_dir l)
    require (not (isdir && writable qp mode)) open_write_on_dir
    qid ← on_world (tree.qid l)
    openfile ← on_world (tree.open_file l f.username mode)
    update_fid fid (λ g. record g { handle = some openfile; mode = mode })
    pure (r_open qid 0)

  unfoldable pub create_body :
      (f : FidState) (fid : ℕ) (name : String) (permissions mode : ℕ) → Act (Session W) Reply
  unfolding ◌>>=◌ or_raise require on_world update_fid assert_dir
  create_body f fid name permissions mode = do
    require (not (is_some f.handle)) fid_open
    require (not (str_eq name "." || str_eq name "..")) invalid_file_name
    cur ← or_raise (current f.location) invalid_op_on_fid
    isdir ← on_world (tree.is_dir cur)
    require isdir fid_not_directory
    dir ← assert_dir tree cur
    l ← on_world (tree.create dir f.username name permissions)
    qid ← on_world (tree.qid l)
    openfile ← on_world (tree.open_file l f.username mode)
    update_fid fid
        (λ g. record g { location = g.location ++ l ∷ []; handle = some openfile; mode = mode })
    pure (r_create qid 0)

  -- count := int(msgSize) - ReadOverhead, at most r.Count; make panics where it is negative
  unfoldable pub read_count : (msg_size count : ℕ) → Option ℕ
  read_count msg_size count =
      if ltb msg_size qp.read_overhead then none else some (min (msg_size - qp.read_overhead) count)

  -- an error of ReadAt other than io.EOF is returned
  unfoldable pub read_result : List ℕ × Option Error → Act (Session W) Reply
  unfolding ◌>>=◌
  read_result (bytes, none) = pure (r_read bytes)
  read_result (bytes, some eof) = pure (r_read bytes)
  read_result (bytes, some (reason why)) = raise (reason why)

  unfoldable pub read_body : (f : FidState) (msg_size offset count : ℕ) → Act (Session W) Reply
  unfolding ◌>>=◌ or_raise require on_world readable read_count read_result
  read_body f msg_size offset count = do
    handle ← or_raise f.handle fid_not_open
    require (readable qp f.mode) not_open_for_read
    elim (read_count msg_size count) [
      | none ↦ panic
      | some n ↦ do result ← on_world (tree.read_at handle n (int64 offset)); read_result result
    ]

  unfoldable pub write_body : (f : FidState) (offset : ℕ) (bytes : List ℕ) → Act (Session W) Reply
  unfolding ◌>>=◌ or_raise require on_world writable
  write_body f offset bytes = do
    handle ← or_raise f.handle fid_not_open
    require (writable qp f.mode) not_open_for_write
    n ← on_world (tree.write_at handle bytes (int64 offset))
    pure (r_write (n % 2 ^ 32))

  -- what clunk and remove do first: the fid is forgotten and its handle closed
  unfoldable pub forget : (f : FidState) (fid : ℕ) → Act (Session W) (Unit {0})
  unfolding ◌>>=◌ ignore on_world delete_fid
  forget f fid = do
    delete_fid fid
    if f.locked
        then block
        else elim f.handle [ none ↦ pure tt | some h ↦ ignore (on_world (tree.close h)) ]

  unfoldable pub clunk_body : (f : FidState) (fid : ℕ) → Act (Session W) Reply
  unfolding ◌>>=◌ forget
  clunk_body f fid = do forget f fid; pure r_clunk

  -- remove, after the clunk. The root itself is not removed, and an error of Remove is not reported.
  unfoldable pub remove_file : (f : FidState) → Act (Session W) Reply
  unfolding ◌>>=◌ ignore on_world assert_dir
  remove_file f = if leb (length f.location) 1 then pure r_remove else elim (current f.location) [
    | none ↦ panic
    | some cur ↦ do
      n ← on_world (tree.name cur)
      elim (parent f.location) [
        | none ↦ panic
        | some p ↦ do
          dir ← assert_dir tree p
          ignore (on_world (tree.remove dir f.username n))
          pure r_remove
      ]
  ]

  unfoldable pub remove_body : (f : FidState) (fid : ℕ) → Act (Session W) Reply
  unfolding ◌>>=◌ forget remove_file
  remove_body f fid = do forget f fid; remove_file f

  unfoldable pub stat_body : (f : FidState) → Act (Session W) Reply
  unfolding ◌>>=◌ or_raise on_world
  stat_body f = do
    l ← or_raise (current f.location) invalid_op_on_fid
    st ← on_world (tree.stat l)
    pure (r_stat st)

  -- the directory that setStat is given: none for a root
  unfoldable pub parent_dir : (f : FidState) → Act (Session W) (Option ℕ)
  unfolding ◌>>=◌ assert_dir
  parent_dir f =
      if ltb 1 (length f.location)
      then elim (parent f.location) [
        | none ↦ panic
        | some p ↦ do dir ← assert_dir tree p; pure (some dir)
      ]
      else pure none

  unfoldable pub write_stat_body : (f : FidState) (stat : Stat) → Act (Session W) Reply
  unfolding ◌>>=◌ or_raise on_world parent_dir set_stat
  write_stat_body f stat = do
    l ← or_raise (current f.location) invalid_op_on_fid
    p ← parent_dir f
    on_world (set_stat qp tree f.username l p stat)
    pure r_write_stat
