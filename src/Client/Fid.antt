-- ===== src/Client/Fid.antt =====
-- The methods of Client and ClientFid of client/client.go.
pub mod Laws
use qptools.Prelude.{
  ℕ, ◌+◌, ◌-◌, String, Bool, true, false, Option, none, some, List, [], ◌∷◌, map, ◌==◌,
  if◌then◌else◌, length,
}
use qptools.Prelude.Maps.{Map, nat_key}
use qptools.Act.{Act, Error, reason, pure, raise, panic, gets, modify, attempt, ignore, ◌>>=◌, ◌>>◌}
use qptools.Qp.{
  Qp, Qid, Stat, Request, Reply, r_error, r_version, r_auth, r_attach, r_flush, r_walk, r_open,
  r_create, r_read, r_write, r_clunk, r_remove, r_stat, r_write_stat,
}
use qptools.Client.Transport.{
  Transport, take_any, take_tag, kill_channel, pending_tags, fail_with, set_message_size,
  set_greedy_decoding,
}
use qptools.Client.Rpc.{
  Peer, Client, pool, no_such_path, on_transport, new_fid, rm_fid, or_drop, check, send, call,
}

-- The type assertions on responses.
abbrev pub as_version : Reply → Option (ℕ × String)
as_version (r_version n v) = some (n, v)
as_version _ = none

abbrev pub as_auth : Reply → Option Qid
as_auth (r_auth q) = some q
as_auth _ = none

abbrev pub as_attach : Reply → Option Qid
as_attach (r_attach q) = some q
as_attach _ = none

abbrev pub as_walk : Reply → Option (List Qid)
as_walk (r_walk qs) = some qs
as_walk _ = none

abbrev pub as_open : Reply → Option (Qid × ℕ)
as_open (r_open q n) = some (q, n)
as_open _ = none

abbrev pub as_create : Reply → Option (Qid × ℕ)
as_create (r_create q n) = some (q, n)
as_create _ = none

abbrev pub as_read : Reply → Option (List ℕ)
as_read (r_read b) = some b
as_read _ = none

abbrev pub as_write : Reply → Option ℕ
as_write (r_write n) = some n
as_write _ = none

abbrev pub as_clunk : Reply → Option (Unit {0})
as_clunk r_clunk = some tt
as_clunk _ = none

abbrev pub as_remove : Reply → Option (Unit {0})
as_remove r_remove = some tt
as_remove _ = none

abbrev pub as_stat : Reply → Option Stat
as_stat (r_stat s) = some s
as_stat _ = none

abbrev pub as_write_stat : Reply → Option (Unit {0})
as_write_stat r_write_stat = some tt
as_write_stat _ = none

module _ (qp : Qp) {W : Type 0} (peer : Peer W) where
  -- Flush(oldtag): the response is not looked at
  unfoldable pub flush_tag : ℕ → Act (Client W) (Unit {0})
  unfolding ◌>>=◌
  flush_tag old = do t ← on_transport (take_any qp.notag); send peer (Request.flush t old); pure tt

  unfoldable pub flush_each : List ℕ → Act (Client W) (Unit {0})
  unfolding ◌>>=◌
  flush_each [] = pure tt
  flush_each (t ∷ ts) = do
    ignore (flush_tag t)
    ignore (on_transport (kill_channel t))
    flush_each ts

  -- FlushAll()
  unfoldable pub flush_all : Act (Client W) (Unit {0})
  unfolding ◌>>=◌
  flush_all = do tags ← gets (λ c. pending_tags c.transport); flush_each tags

  -- Version(msgsize, version): the version that is asked for is always that of package qp
  unfoldable pub negotiate_version : (msgsize : ℕ) (version : String) → Act (Client W) (ℕ × String)
  unfolding ◌>>=◌
  negotiate_version msgsize version = do
    on_transport (take_tag qp.notag)
    resp ← send peer (Request.version qp.notag msgsize qp.version)
    agreed ← check as_version resp
    on_transport (set_message_size msgsize)
    on_transport (set_greedy_decoding true)
    pure agreed

  -- Auth(user, service)
  unfoldable pub auth_fid : (user service : String) → Act (Client W) (ℕ × Qid)
  unfolding ◌>>=◌
  auth_fid user service = do
    t ← on_transport (take_any qp.notag)
    nfid ← new_fid qp.nofid
    or_drop nfid (do
      resp ← send peer (Request.auth t nfid user service)
      qid ← check as_auth resp
      pure (nfid, qid))

  -- Attach(authfid, user, service)
  unfoldable pub attach_fid :
      (authfid : Option ℕ) (user service : String) → Act (Client W) (ℕ × Qid)
  unfolding ◌>>=◌
  attach_fid authfid user service = do
    t ← on_transport (take_any qp.notag)
    nfid ← new_fid qp.nofid
    or_drop nfid (do
      let afid : ℕ = elim authfid [ none ↦ qp.nofid | some a ↦ a ]
      resp ← send peer (Request.attach t nfid afid user service)
      qid ← check as_attach resp
      pure (nfid, qid))

  -- Walk(names): an error of Send returns without rmFid. The error for a walk that ended early comes
  -- with its qids, and is `none` here.
  unfoldable pub walk_fid : (fid : ℕ) (names : List String) → Act (Client W) (Option ℕ × List Qid)
  unfolding ◌>>=◌
  walk_fid fid names = do
    t ← on_transport (take_any qp.notag)
    nfid ← new_fid qp.nofid
    resp ← send peer (Request.walk t fid nfid names)
    qids ← or_drop nfid (check as_walk resp)
    if length qids == length names
        then pure (some nfid, qids)
        else (do rm_fid nfid; pure (none, qids))

  unfoldable pub clunk_fid : (fid : ℕ) → Act (Client W) (Unit {0})
  unfolding ◌>>=◌
  clunk_fid fid = do call peer qp.notag (λ t. Request.clunk t fid) as_clunk; rm_fid fid

  unfoldable pub remove_fid : (fid : ℕ) → Act (Client W) (Unit {0})
  unfolding ◌>>=◌
  remove_fid fid = do call peer qp.notag (λ t. Request.remove t fid) as_remove; rm_fid fid

  unfoldable pub open_fid : (fid mode : ℕ) → Act (Client W) (Qid × ℕ)
  unfolding ◌>>=◌
  open_fid fid mode = call peer qp.notag (λ t. Request.open_file t fid mode) as_open

  unfoldable pub create_fid : (fid : ℕ) (name : String) (perm mode : ℕ) → Act (Client W) (Qid × ℕ)
  unfolding ◌>>=◌
  create_fid fid name perm mode =
      call peer qp.notag (λ t. Request.create t fid name perm mode) as_create

  unfoldable pub read_once : (fid offset count : ℕ) → Act (Client W) (List ℕ)
  unfolding ◌>>=◌
  read_once fid offset count = call peer qp.notag (λ t. Request.read t fid offset count) as_read

  unfoldable pub write_once : (fid offset : ℕ) (bytes : List ℕ) → Act (Client W) ℕ
  unfolding ◌>>=◌
  write_once fid offset bytes = call peer qp.notag (λ t. Request.write t fid offset bytes) as_write

  unfoldable pub stat_fid : (fid : ℕ) → Act (Client W) Stat
  unfolding ◌>>=◌
  stat_fid fid = call peer qp.notag (λ t. Request.stat t fid) as_stat

  unfoldable pub write_stat_fid : (fid : ℕ) (stat : Stat) → Act (Client W) (Unit {0})
  unfolding ◌>>=◌
  write_stat_fid fid stat = call peer qp.notag (λ t. Request.write_stat t fid stat) as_write_stat

  unfoldable pub clunk_each : List ℕ → Act (Client W) (Unit {0})
  unfolding ◌>>=◌
  clunk_each [] = pure tt
  clunk_each (f ∷ fs) = do ignore (clunk_fid f); clunk_each fs

  -- Stop(): the fids that are in use at its start
  unfoldable pub stop_client : Act (Client W) (Unit {0})
  unfolding ◌>>=◌
  stop_client = do
    fids ← gets (λ c. map (λ entry. entry.1) (pool c))
    clunk_each fids
    modify (λ c. record c { fids = none })
    on_transport (fail_with none)
    pure tt
