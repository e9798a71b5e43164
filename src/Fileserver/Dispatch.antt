-- ===== src/Fileserver/Dispatch.antt =====
-- `received` of fileserver/fileserver.go: a request is registered and given to its handler. The
-- version, auth, attach and flush handlers run at once, and the others in goroutines of their own.
use qptools.Prelude.{ℕ, ◌++◌, Bool, true, false, [], ◌∷◌, length, Option, none, some}
use qptools.Act.{Act, value, failure, pure, gets, modify, attempt, ◌>>=◌, ◌>>◌}
use qptools.Qp.{
  Request as Message, version, auth, attach, flush, walk, open_file, create, read, write, clunk,
  remove, stat, write_stat, unsupported, get_tag,
}
use qptools.Fileserver.State.{Request, Server, Host, unsupported_message}
use qptools.Fileserver.Wire.{register, send_error}
use qptools.Fileserver.Handlers

-- whether `received` starts the handler by a go statement
unfoldable pub is_spawned : Message → Bool
is_spawned (version _ _ _) = false
is_spawned (auth _ _ _ _) = false
is_spawned (attach _ _ _ _ _) = false
is_spawned (flush _ _) = false
is_spawned (unsupported _) = false
is_spawned _ = true

module _ {W : Type 0} where
  -- a new requestState, that is not cancelled
  unfoldable pub allocate : (tag : ℕ) → Act (Server W) Request
  allocate tag = do
    id ← gets (λ s. length s.cancelled)
    modify (λ s. record s { cancelled = s.cancelled ++ false ∷ [] })
    pure (record { id = id; tag = tag })

module _ {W : Type 0} (host : Host W) where
  -- the handler of a message
  unfoldable pub handle : Message → Request → Act (Server W) (Unit {0})
  handle (version t size v) rs = Handlers.version host t size v rs
  handle (auth t afid user service) rs = Handlers.auth host afid user rs
  handle (attach t fid afid user service) rs = Handlers.attach host fid afid user service rs
  handle (flush t old) rs = Handlers.flush host old rs
  handle (walk t fid new names) rs = Handlers.walk host fid new names rs
  handle (open_file t fid mode) rs = Handlers.open_file host fid mode rs
  handle (create t fid name perms mode) rs = Handlers.create host fid name perms mode rs
  handle (read t fid offset count) rs = Handlers.read host fid offset count rs
  handle (write t fid offset bytes) rs = Handlers.write host fid offset bytes rs
  handle (clunk t fid) rs = Handlers.clunk host fid rs
  handle (remove t fid) rs = Handlers.remove host fid rs
  handle (stat t fid) rs = Handlers.stat host fid rs
  handle (write_stat t fid st) rs = Handlers.write_stat host fid st rs
  handle (unsupported t) rs = send_error host rs unsupported_message

  -- the switch of received
  unfoldable pub dispatch : Message → Request → Act (Server W) (Option Request)
  dispatch m rs = elim (is_spawned m) [ true ↦ pure (some rs) | false ↦ do handle m rs; pure none ]

  -- received(m): it returns the request whose handler is to run in a goroutine, if there is one.
  unfoldable pub received : Message → Act (Server W) (Option Request)
  received m = do
    rs ← allocate (get_tag m)
    registered ← attempt (register host rs)
    elim registered [ failure e ↦ do send_error host rs e; pure none | value _ ↦ dispatch m rs ]
