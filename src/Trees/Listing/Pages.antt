-- ===== src/Trees/Listing/Pages.antt =====
-- A directory that a client reads to its end: ReadAll of client/wrapper.go, whose reads a ListHandle
-- answers, and Readdir of what came.
use qptools.Prelude.{ℕ, ◌≡◌, Option, none, some, List, pos}
use qptools.Act.{Act, Error, ok, pure, raise, ◌>>=◌}
use qptools.Qp.{StatCodec}
use qptools.Client.Connection.{Connection}
use qptools.Trees.Listing.{Lister, ListHandle, read_listing}

-- The data of a read that did not fail.
abbrev pub data_of : {S : Type 0} → List ℕ × Option Error → Act S (List ℕ)
data_of (b, none) = pure b
data_of (b, some e) = raise e

module _ (codec : StatCodec) {W : Type 0} (dir : Lister W) (room fid : ℕ) where
  -- The reads of a fid are those of a ListHandle.
  pub record Lists (conn : Connection (ListHandle × W)) : Type 0 where
    pub size : (s : ListHandle × W) → conn.max_size s ≡ room
    pub reads :
        (offset count : ℕ) (s : ListHandle × W)
        → conn.read fid offset count s ≡ (read_listing codec dir count (pos offset) >>= data_of) s

  -- Accessed() returns.
  pub data Quiet : Type 0 where
    quiet : ((w : W) → (w' : W) × (dir.accessed w ≡ (ok tt, w'))) → Quiet
