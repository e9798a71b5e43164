-- ===== src/Client/Connection.antt =====
-- The interface Fid of client/connection.go, on the numbers of the fids, and its implementation by
-- ClientFid of client/client.go.
use qptools.Prelude.{ℕ, String, Option, List}
use qptools.Act.{Act}
use qptools.Qp.{Qp, Qid, Stat}
use qptools.Client.Rpc.{Peer, Client}
use qptools.Client.Fid.{
  walk_fid, open_fid, create_fid, read_once, write_once, stat_fid, write_stat_fid, clunk_fid,
  remove_fid,
}

-- A walk that ended early returns no fid, its qids, and ErrNoSuchFile.
pub record Connection (S : Type 0) : Type 0 where
  pub max_size : S → ℕ
  pub walk : (fid : ℕ) (names : List String) → Act S (Option ℕ × List Qid)
  pub open_mode : (fid mode : ℕ) → Act S (Qid × ℕ)
  pub make : (fid : ℕ) (name : String) (perm mode : ℕ) → Act S (Qid × ℕ)
  pub read : (fid offset count : ℕ) → Act S (List ℕ)
  pub write : (fid offset : ℕ) (bytes : List ℕ) → Act S ℕ
  pub stat : (fid : ℕ) → Act S Stat
  pub write_stat : (fid : ℕ) (stat : Stat) → Act S (Unit {0})
  pub clunk : (fid : ℕ) → Act S (Unit {0})
  pub remove : (fid : ℕ) → Act S (Unit {0})

abbrev pub client_connection : Qp → {W : Type 0} → Peer W → Connection (Client W)
client_connection qp peer = record {
  max_size = λ c. c.transport.msgsize;
  walk = walk_fid qp peer;
  open_mode = open_fid qp peer;
  make = create_fid qp peer;
  read = read_once qp peer;
  write = write_once qp peer;
  stat = stat_fid qp peer;
  write_stat = write_stat_fid qp peer;
  clunk = clunk_fid qp peer;
  remove = remove_fid qp peer;
}
