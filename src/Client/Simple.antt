-- ===== src/Client/Simple.antt =====
-- SimpleClient of client/simple.go: whole files by their paths, over any implementation of the
-- interface Fid. The fid of its root is an argument, and is nil before the setup.
pub mod Laws
pub mod Kept
mod Tests
use Prim.Native.String.{String}
use text.Mathlib.Text.{◌==◌ as str_eq}
use qptools.Prelude.{
  ℕ, zero, suc, ◌+◌, ◌-◌, ◌*◌, ◌%◌, ◌^◌, Bool, true, false, not, ◌&&◌, Option, none, some, List, [],
  ◌∷◌, ◌++◌, ltb, ◌==◌, if◌then◌else◌, length, take, drop, bit_or, pos,
}
use qptools.Act.{
  Act, Error, reason, Outcome, ok, err, panicked, blocked, Result, value, failure, pure, raise,
  panic, block, gets, require, ◌>>=◌, ◌>>◌,
}
use qptools.Qp.{Qp, Stat, StatCodec}
use qptools.Utils.{uint16}
use qptools.Trees.Slice.{Slice}
use qptools.Client.Rpc.{Peer, Client, no_such_path, new_client}
use qptools.Client.Fid.{negotiate_version, attach_fid, stop_client}
use qptools.Client.Connection.{Connection}
use qptools.Client.Wrapped.{read_all, write_to}
use qptools.Client.Paths.{split, filled, last, but_last, dir, base}

abbrev pub invalid_path : Error
invalid_path = reason "invalid path"

abbrev pub unknown_protocol : Error
unknown_protocol = reason "unknown protocol"

abbrev pub not_started : Error
not_started = reason "client not started"

abbrev pub invalid_rename : Error
invalid_rename = reason "invalid rename"

-- emptyStat(), with a new name
abbrev pub renamed_stat : Qp → String → Stat
renamed_stat qp name = record {
  kind = 2 ^ 16 - 1;
  dev = 2 ^ 32 - 1;
  qid = record { kind = 0; version = 0; path = 0 };
  mode = qp.mode_mask;
  atime = 2 ^ 32 - 1;
  mtime = 2 ^ 32 - 1;
  length = 2 ^ 64 - 1;
  name = name;
  uid = "";
  gid = "";
  muid = "";
}

module _ {S A : Type 0} where
  -- the outcome of a body whose deferred call has run; an error of that is not looked at
  abbrev pub after : Outcome A → Outcome (Unit {0}) × S → Outcome A × S
  after o (ok t, s) = (o, s)
  after o (err e, s) = (o, s)
  after o (panicked, s) = (panicked, s)
  after o (blocked, s) = (blocked, s)

  abbrev pub deferred : Act S (Unit {0}) → Outcome A × S → Outcome A × S
  deferred d (ok a, s) = after (ok a) (d s)
  deferred d (err e, s) = after (err e) (d s)
  deferred d (panicked, s) = after panicked (d s)
  deferred d (blocked, s) = (blocked, s)

  -- defer d(); m()
  unfoldable pub deferring : Act S (Unit {0}) → Act S A → Act S A
  deferring d m s = deferred d (m s)

-- The loop of List: a slice that ends behind the bytes may still end inside their array, which goes
-- on with `spare`.
abbrev pub two : List ℕ → Option ℕ
two (lo ∷ hi ∷ b) = some (uint16 lo hi)
two _ = none

module _ (codec : StatCodec) (spare : List ℕ) {S : Type 0} where
  unfoldable pub decode_each : (fuel : ℕ) (b : List ℕ) → Act S (List Stat)
  decode_each zero b = block
  decode_each (suc fuel) [] = pure []
  decode_each (suc fuel) (x ∷ b) = elim (two ((x ∷ b) ++ spare)) [
    | none ↦ panic
    | some l ↦
        let end = (2 + l) % 2 ^ 16 in
        if ltb (length ((x ∷ b) ++ spare)) end
        then panic
        else elim (codec.unmarshal (take end ((x ∷ b) ++ spare))) [
          | failure e ↦ raise e
          | value s ↦
              if ltb (length (x ∷ b)) end
              then panic
              else (do ss ← decode_each fuel (drop end (x ∷ b)); pure (s ∷ ss))
        ]
  ]

-- whether all names but the last are the same
unfoldable pub same_directory : List String → List String → Bool
same_directory (s ∷ s' ∷ ss) (t ∷ t' ∷ ts) = str_eq s t && same_directory (s' ∷ ss) (t' ∷ ts)
same_directory _ _ = true

-- the last of the names, of which Split returns one at least
abbrev pub last_of : List String → String
last_of names = elim (last names) [ none ↦ "" | some s ↦ s ]

module _ {S : Type 0} (conn : Connection S) where
  -- walkTo(file); the root is not nil
  unfoldable pub walk_path : (root : ℕ) (file : String) → Act S ℕ
  unfolding ◌>>=◌
  walk_path root file = do
    let names = filled (split file)
    require (not (length names == 0)) invalid_path
    (fid, qids) ← conn.walk root names
    elim fid [ none ↦ raise no_such_path | some f ↦ pure f ]

  abbrev pub at_path : {A : Type 0} → (root : Option ℕ) → String → (ℕ → Act S A) → Act S A
  at_path none file m = raise not_started
  at_path (some root) file m = walk_path root file >>= m

  -- a method that clunks the fid at its end
  abbrev pub with_path : {A : Type 0} → (root : Option ℕ) → String → (ℕ → Act S A) → Act S A
  with_path root file m = at_path root file (λ f. deferring (conn.clunk f) (m f))

  -- Stat(file)
  unfoldable pub stat_file : (root : Option ℕ) (file : String) → Act S Stat
  stat_file root file = with_path root file conn.stat

  -- Remove(name)
  unfoldable pub remove_path : (root : Option ℕ) (name : String) → Act S (Unit {0})
  remove_path root name = at_path root name conn.remove

  module _ (qp : Qp) where
    -- Read(file): what was read comes beside an error too
    unfoldable pub read_file :
        (fuel : ℕ) (root : Option ℕ) (file : String) → Act S (List ℕ × Option Error)
    unfolding ◌>>=◌
    read_file fuel root file =
        with_path root file λ f. do conn.open_mode f qp.oread; read_all conn fuel f

    -- Write(content, file)
    unfoldable pub write_file :
        (fuel : ℕ) (content : Slice) (root : Option ℕ) (file : String) → Act S (Unit {0})
    unfolding ◌>>=◌
    write_file fuel content root file = with_path root file λ f. do
      conn.open_mode f qp.owrite
      (n, e) ← write_to conn qp.write_overhead fuel f content (pos 0)
      elim e [ none ↦ pure tt | some why ↦ raise why ]

    -- List(file)
    unfoldable pub list_files :
        (codec : StatCodec) (spare : List ℕ) (fuel : ℕ) (root : Option ℕ) (file : String)
        → Act S (List Stat)
    unfolding ◌>>=◌
    list_files codec spare fuel root file = with_path root file λ f. do
      conn.open_mode f qp.oread
      (b, e) ← read_all conn fuel f
      elim e [ none ↦ decode_each codec spare (suc (length b)) b | some why ↦ raise why ]

    -- Create(name, directory)
    unfoldable pub create_file :
        (root : Option ℕ) (name : String) (directory : Bool) → Act S (Unit {0})
    unfolding ◌>>=◌
    create_file root name directory = with_path root (dir name) λ f. do
      conn.make f (base name) (if directory then bit_or 493 qp.dmdir else 493) qp.oread
      pure tt

    -- Rename(oldname, newname)
    unfoldable pub rename_file : (root : Option ℕ) (old_name new_name : String) → Act S (Unit {0})
    unfolding ◌>>=◌
    rename_file none old_name new_name = raise not_started
    rename_file (some root) old_name new_name = do
      let old_names = split old_name
      let new_names = split new_name
      require (length old_names == length new_names) invalid_rename
      require (same_directory old_names new_names) invalid_rename
      with_path (some root) old_name λ f. conn.write_stat f (renamed_stat qp (last_of new_names))

-- setup(username, servicename): the message size and the root's fid
unfoldable pub setup :
    (qp : Qp) {W : Type 0} (peer : Peer W) (user service : String) → Act (Client W) (ℕ × ℕ)
unfolding ◌>>=◌
setup qp peer user service = do
  (msgsize, version) ← negotiate_version qp peer (128 * 1024) qp.version
  require (str_eq version qp.version) unknown_protocol
  (root, qid) ← attach_fid qp peer none user service
  pure (msgsize, root)

-- Connect(rw, username, servicename)
unfoldable pub connect :
    (qp : Qp) {W : Type 0} (peer : Peer W) (world : W) (user service : String)
    → Outcome (ℕ × ℕ) × Client W
connect qp peer world user service = setup qp peer user service (new_client world)

-- Dial(network, address, username, servicename), for what net.Dial returned: the client that is kept
-- comes beside an error of the setup too
unfoldable pub dial :
    (qp : Qp) {W : Type 0} (peer : Peer W) (called : Result W) (user service : String)
    → Outcome (ℕ × ℕ) × Option (Client W)
dial qp peer (failure e) user service = (err e, none)
dial qp peer (value world) user service =
    let (r, c) = connect qp peer world user service in (r, some c)

-- Stop(): the client is forgotten
unfoldable pub stop :
    (qp : Qp) {W : Type 0} (peer : Peer W) (client : Option (Client W))
    → Outcome (Unit {0}) × Option (Client W)
stop qp peer none = (ok tt, none)
stop qp peer (some c) = forgotten (stop_client qp peer c)
  where
    forgotten :
        {W : Type 0} → Outcome (Unit {0}) × Client W → Outcome (Unit {0}) × Option (Client W)
    forgotten (ok t, c) = (ok tt, none)
    forgotten (r, c) = (r, some c)
