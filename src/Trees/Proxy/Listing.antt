-- ===== src/Trees/Proxy/Listing.antt =====
-- proxyFileListHandle of fileserver/trees/proxyfile.go: the fast listing of a directory.
use qptools.Prelude.{
  ℕ, ◌+◌, ◌-◌, Option, none, some, List, [], ◌∷◌, ◌++◌, ltb, ◌==◌, if◌then◌else◌, ℤ,
}
use qptools.Act.{
  Act, Error, reason, Outcome, ok, err, panicked, blocked, value, failure, raise, pure,
}
use qptools.Qp.{Qp, StatCodec}
use qptools.Trees.Listing.{does_not_fit, is_start}
use qptools.Trees.Proxy.{Info, Os, Proxy, World, stat_of, entry_file, direct_list}

-- What a read copied, the entries that are left, and the error.
pub record InfoPage : Type 0 where
  pub bytes : List ℕ
  pub left : List Info
  pub error : Option Error

module _ (qp : Qp) (codec : StatCodec) {L : Type 0} (os : Os L) where
  -- the loop of ReadAt
  unfoldable pub fill_infos : Proxy → (room copied : ℕ) → List Info → InfoPage
  fill_infos dir room copied [] = record { bytes = []; left = []; error = none }
  fill_infos dir room copied (f ∷ rest) =
      let s = stat_of qp os (entry_file dir f) f in
      let page = fill_infos dir room (copied + codec.size s) rest in
      if ltb (room - copied) (codec.size s)
      then record {
        bytes = [];
        left = f ∷ rest;
        error = if copied == 0 then some does_not_fit else none;
      }
      else elim (codec.marshal s) [
        | failure e ↦ record { bytes = []; left = f ∷ rest; error = some e }
        | value b ↦ record page { bytes = b ++ page.bytes }
      ]

  -- what ReadAt does after DirectList
  abbrev pub copy_infos : (room : ℕ) → Act (List Info × World L) (List ℕ × Option Error)
  copy_infos room (infos, w) =
      let page = fill_infos w.file room 0 infos in (ok (page.bytes, page.error), (page.left, w))

  abbrev pub copy_listed :
      (room : ℕ) (old : List Info)
      → Outcome (List Info) × World L
      → Outcome (List ℕ × Option Error) × (List Info × World L)
  copy_listed room old (ok infos, w) = copy_infos room (infos, w)
  copy_listed room old (err e, w) = (err e, (old, w))
  copy_listed room old (panicked, w) = (panicked, (old, w))
  copy_listed room old (blocked, w) = (blocked, (old, w))

  -- ReadAt(p, offset), for a buffer of `room` bytes
  unfoldable pub read_entries : (room : ℕ) → ℤ → Act (List Info × World L) (List ℕ × Option Error)
  read_entries room offset (infos, w) =
      if is_start offset
      then copy_listed room infos (direct_list qp os w)
      else copy_infos room (infos, w)

-- WriteAt(p, offset) and Close()
unfoldable pub write_entries : {S : Type 0} (p : List ℕ) (offset : ℤ) → Act S ℕ
write_entries p offset = raise (reason "cannot write to directory")

unfoldable pub close_entries : {S : Type 0} → Act S (Unit {0})
close_entries = pure tt
