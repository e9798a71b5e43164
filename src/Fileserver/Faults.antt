-- ===== src/Fileserver/Faults.antt =====
-- Where the locks of fileserver/fileserver.go are taken twice, and where a panic is not recovered.
use qptools.Prelude.{ℕ, ◌≡◌, true, false, some, arith}
use qptools.Prelude.Maps.{lookup, delete, nat_key}
use qptools.Act.{Act, Error, ok, panicked, blocked, attempt, ◌>>=◌}
use qptools.Qp.{Reply, unsupported}
use qptools.Fileserver.Walk.{FidState}
use qptools.Fileserver.State.{Request, Session, Server, Host, Protocol, new}
use qptools.Fileserver.Wire.{
  is_cancelled, on_session, with_fid_lock, cleanup, record_error, unlock_error, die, after_panic,
  handle_panic, serialize, transmit, respond, send_error, answer, register,
}
use qptools.Fileserver.Fids.{read_fid}
use qptools.Fileserver.Handlers.{holding_fids, after_fids, with_fid, with_held_fid}
use qptools.Fileserver.Dispatch.{received, allocate, dispatch, handle, is_spawned}
use qptools.Fileserver.Respond.{IsEncodable, Fits, response_of}

module _ {W : Type 0} (host : Host W) (rs : Request) where
  -- die, where fidLock is held
  die_locked :
      (e : Error) (s : Server W)
      → s.session.fid_lock ≡ true
      → ((die host e s).0 ≡ blocked) × ((die host e s).1.session.fid_lock ≡ true)
  unfolding die record_error unlock_error on_session cleanup with_fid_lock
  die_locked e s h = ground arith

  -- The answer of a handler that holds fidLock, where the write fails.
  respond_locked :
      (reply : Reply) (s : Server W) {p : Protocol} (e : Error)
      → s.session.fid_lock ≡ true
      → s.proto ≡ some p
      → IsEncodable host (response_of rs reply)
      → Fits host s (response_of rs reply)
      → is_cancelled rs s ≡ false
      → host.write s.sent (response_of rs reply) ≡ some e
      → ((respond host rs reply s).0 ≡ blocked)
        × ((respond host rs reply s).1.session.fid_lock ≡ true)
  unfolding respond serialize transmit
  respond_locked reply s e held pr c f live fails =
      ground (arith, die_locked e (record s { tags = delete rs.tag s.tags }))

  -- The bug: where a handler answers while it holds fidLock, as auth, attach, clunk and remove
  -- do, with a response that is encoded, fits and is not cancelled, and the write fails, the
  -- handler blocks and the lock stays held.
  pub held_answer_deadlocks :
      (body : Act (Session W) Reply) (reply : Reply) (s : Server W) {p : Protocol} (e : Error)
      (t : Session W)
      → s.session.fid_lock ≡ false
      → body (record s.session { fid_lock = true }) ≡ (ok reply, t)
      → t.fid_lock ≡ true
      → s.proto ≡ some p
      → IsEncodable host (response_of rs reply)
      → Fits host s (response_of rs reply)
      → is_cancelled rs s ≡ false
      → host.write s.sent (response_of rs reply) ≡ some e
      → ((holding_fids (answer host rs body) s).0 ≡ blocked)
        × ((holding_fids (answer host rs body) s).1.session.fid_lock ≡ true)
  unfolding holding_fids answer after_fids attempt on_session ◌>>=◌
  held_answer_deadlocks body reply s e t free returns kept pr c f live fails =
      rw (free, returns)
        (let d = respond_locked reply (record s { session = t }) e kept pr c f live fails in
          ground arith)

  -- While fidLock is held by a handler that never ends, every handler that looks up a fid blocks
  -- and changes nothing.
  pub locked_blocks :
      (fid : ℕ) (rest : FidState → Act (Server W) (Unit {0})) (s : Server W)
      → s.session.fid_lock ≡ true
      → (with_fid host fid rs rest s ≡ (blocked, s))
        × (with_held_fid host fid rs rest s ≡ (blocked, s))
  unfolding with_fid with_held_fid holding_fids handle_panic after_panic read_fid on_session ◌>>=◌
  locked_blocks fid rest s held = ground arith

-- The bug: a message of an unknown type before the version is negotiated panics in received,
-- outside of any handler that would recover it.
pub unsupported_crashes :
    {W : Type 0} (host : Host W) (tag : ℕ) (world : W)
    → (received host (unsupported tag) (new world)).0 ≡ panicked
unfolding received allocate register dispatch handle is_spawned send_error respond serialize new
    attempt lookup ◌>>=◌
unsupported_crashes host tag world = ground arith
