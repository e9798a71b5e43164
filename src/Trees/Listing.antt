-- ===== src/Trees/Listing.antt =====
-- ListHandle of fileserver/trees/listhandle.go: the reading of a directory. The directory that is
-- listed is an argument, the interface Lister of fileserver/trees/interfaces.go.
pub mod Laws
pub mod Pages
mod Tests
use qptools.Prelude.{
  ℕ, zero, suc, ◌+◌, ◌-◌, String, Bool, true, false, Option, none, some, List, [], ◌∷◌, ◌++◌, ltb,
  ◌==◌, if◌then◌else◌, ℤ, pos, negsuc,
}
use qptools.Act.{
  Act, Error, reason, Outcome, ok, err, panicked, blocked, value, failure, pure, raise, ◌>>=◌, ◌>>◌,
}
use qptools.Qp.{Stat, StatCodec}

-- Lister, and AccessLogger if the directory `logs`
pub record Lister (W : Type 0) : Type 0 where
  pub list : (user : String) → Act W (List Stat)
  pub logs : Bool
  pub accessed : Act W (Unit {0})
  pub closed : Act W (Unit {0})

pub record ListHandle : Type 0 where
  pub user : String
  pub list : List Stat

abbrev pub does_not_fit : Error
does_not_fit = reason "read: message size too small: stat does not fit"

-- What a read copied, the stats that are left, and the error.
pub record Page : Type 0 where
  pub bytes : List ℕ
  pub left : List Stat
  pub error : Option Error

abbrev pub is_start : ℤ → Bool
is_start (pos n) = n == 0
is_start (negsuc n) = false

-- what update makes of the outcome of List
abbrev pub store :
    {W : Type 0} → ListHandle → Outcome (List Stat) × W → Outcome (Unit {0}) × (ListHandle × W)
store h (ok ss, w) = (ok tt, (record h { list = ss }, w))
store h (err e, w) = (err e, (h, w))
store h (panicked, w) = (panicked, (h, w))
store h (blocked, w) = (blocked, (h, w))

module _ (codec : StatCodec) where
  -- the loop of ReadAt, into a buffer of `room` bytes
  unfoldable pub fill : (room copied : ℕ) → List Stat → Page
  fill room copied [] = record { bytes = []; left = []; error = none }
  fill room copied (s ∷ rest) =
      let page = fill room (copied + codec.size s) rest in
      if ltb (room - copied) (codec.size s)
      then record {
        bytes = [];
        left = s ∷ rest;
        error = if copied == 0 then some does_not_fit else none;
      }
      else elim (codec.marshal s) [
        | failure e ↦ record { bytes = []; left = s ∷ rest; error = some e }
        | value b ↦ record page { bytes = b ++ page.bytes }
      ]

  module _ {W : Type 0} (dir : Lister W) where
    -- update()
    abbrev pub update : Act (ListHandle × W) (Unit {0})
    update (h, w) = store h (dir.list h.user w)

    -- a.Accessed() or a.Closed(), if the directory has them
    abbrev pub log : Act W (Unit {0}) → Act (ListHandle × W) (Unit {0})
    log m (h, w) = if dir.logs then (let (r, w') = m w in (r, (h, w'))) else (ok tt, (h, w))

    abbrev pub copy_page : (room : ℕ) → Act (ListHandle × W) (List ℕ × Option Error)
    copy_page room (h, w) =
        let page = fill room 0 h.list in
        (ok (page.bytes, page.error), (record h { list = page.left }, w))

    -- ReadAt(p, offset), for a buffer of `room` bytes
    unfoldable pub read_listing : (room : ℕ) → ℤ → Act (ListHandle × W) (List ℕ × Option Error)
    unfolding ◌>>=◌
    read_listing room offset = do
      if is_start offset then update else pure tt
      log dir.accessed
      copy_page room

    -- Close()
    unfoldable pub close_listing : Act (ListHandle × W) (Unit {0})
    close_listing = log dir.closed

-- WriteAt(p, offset)
unfoldable pub write_listing : {S : Type 0} (p : List ℕ) (offset : ℤ) → Act S ℕ
write_listing p offset = raise (reason "cannot write to directory")
