-- ===== src/Fileserver/Handlers.antt =====
-- The handlers of fileserver/fileserver.go, from a request to its answer, and `received`, which
-- starts them.
pub mod Effects
pub mod Handled
pub mod Reset
pub mod Faulty
use qptools.Prelude.{
  ℕ, String, Bool, true, false, not, ◌&&◌, Option, none, some, List, [], ◌∷◌, ltb, ◌==◌,
  if◌then◌else◌, set, length, ◌++◌, is_some,
}
use text.Mathlib.Text.{◌==◌ as str_eq}
use qptools.Prelude.Maps.{Map, lookup, insert, delete, nat_key}
use qptools.Act.{
  Act, Error, reason, Outcome, ok, err, panicked, blocked, Result, value, failure, pure, raise,
  panic, block, gets, modify, attempt, ◌>>=◌, ◌>>◌,
}
use qptools.Qp.{Qp, Request as Message, get_tag, Reply, r_version, r_flush}
use qptools.Qp
use qptools.Fileserver.Walk.{FidState}
use qptools.Fileserver.State.{
  Request, Session, Server, Host, Protocol, nine_p2000, min_size, invalid_fid, auth_not_supported,
  unknown_fid, unsupported_message, message_size_too_small, incorrect_tag_for_version,
  messages_during_version,
}
use qptools.Fileserver.Wire.{
  on_session, cleanup, die, handle_panic, register, respond, send_error, answer,
}
use qptools.Fileserver.Fids.{find_fid, read_fid, update_fid, auth_body, attach_body, walk_body}
use qptools.Fileserver.Files.{
  open_body, create_body, read_body, write_body, clunk_body, remove_body, stat_body,
  write_stat_body,
}

module _ {W : Type 0} where
  -- Unlocks, unless the handler is blocked.
  unfoldable pub after_fids : Outcome (Unit {0}) → Act (Server W) (Unit {0})
  after_fids blocked s = (blocked, s)
  after_fids r s = (r, record s { session = record s.session { fid_lock = false } })

  -- fs.fidLock.Lock(); defer fs.fidLock.Unlock(), for a handler that answers while it holds the lock
  unfoldable pub holding_fids : Act (Server W) (Unit {0}) → Act (Server W) (Unit {0})
  holding_fids m s =
      if s.session.fid_lock
      then (blocked, s)
      else (let (r, s') = m (record s { session = record s.session { fid_lock = true } }) in
          after_fids r s')

  unfoldable pub after_state : ℕ → Outcome (Unit {0}) → Act (Server W) (Unit {0})
  after_state fid blocked s = (blocked, s)
  after_state fid r s = (r, (on_session (update_fid fid (λ g. record g { locked = false })) s).1)

  -- state.Lock(); defer state.Unlock()
  unfoldable pub holding_state :
      ℕ → FidState → Act (Server W) (Unit {0}) → Act (Server W) (Unit {0})
  holding_state fid f m s =
      if f.locked
      then (blocked, s)
      else (let (r, s') = m ((on_session (update_fid fid (λ g. record g { locked = true })) s).1) in
          after_state fid r s')

  -- what flush does to the request that holds a tag
  unfoldable pub cancel_tag : (old_tag : ℕ) → Act (Server W) (Unit {0})
  cancel_tag old_tag = do
    older ← gets (λ s. lookup old_tag s.tags)
    elim older [
      | none ↦ pure tt
      | some old ↦
          modify (λ s. record s {
            cancelled = set s.cancelled old.id true;
            tags = delete old_tag s.tags;
          })
    ]

module _ {W : Type 0} (host : Host W) where
  open host use {qp}

  -- The message size that a version request leads to; none where it is too small.
  unfoldable pub negotiate : (requested : ℕ) → Option ℕ
  negotiate requested =
      if ltb host.suggested_message_size requested
      then some host.suggested_message_size
      else if ltb requested min_size
      then none
      else some requested

  -- The version string of the answer.
  unfoldable pub version_string : (requested : String) → String
  version_string requested = if str_eq requested qp.version then qp.version else qp.unknown_version

  -- version, once the size is agreed: tags, fids, protocol and decoder are reset
  unfoldable pub reset_session : (msg_size : ℕ) → Act (Server W) (Unit {0})
  reset_session msg_size = do
    modify (λ s. record s { tags = [] })
    on_session (cleanup host)
    modify (λ s. record s {
      proto = some nine_p2000;
      msg_size = msg_size;
      decoder = record { message_size = msg_size; greedy = true };
    })

  unfoldable pub version :
      (tag message_size : ℕ) (requested : String) → Request → Act (Server W) (Unit {0})
  version tag message_size requested rs = handle_panic host (
      if not (tag == qp.notag)
      then send_error host rs incorrect_tag_for_version
      else elim (negotiate message_size) [
        | none ↦ send_error host rs message_size_too_small
        | some msg_size ↦ do
          reset_session msg_size
          decoder ← gets (λ s. s.decoder)
          elim (host.reset decoder) [
            | some e ↦ do
              die host (reason "could not reset decoder")
              send_error host rs messages_during_version
            | none ↦ respond host rs (r_version msg_size (version_string requested))
          ]
      ])

  unfoldable pub auth : (auth_fid : ℕ) (username : String) → Request → Act (Server W) (Unit {0})
  auth auth_fid username rs = handle_panic host (
      if auth_fid == qp.nofid then send_error host rs invalid_fid else elim host.auth_file [
        | none ↦ send_error host rs auth_not_supported
        | some file ↦ holding_fids (answer host rs (auth_body host file auth_fid username))
      ])

  unfoldable pub attach :
      (fid auth_fid : ℕ) (username service : String) → Request → Act (Server W) (Unit {0})
  attach fid auth_fid username service rs = handle_panic host (
      if fid == qp.nofid
      then send_error host rs invalid_fid
      else holding_fids (answer host rs (attach_body host fid auth_fid username service)))

  unfoldable pub flush : (old_tag : ℕ) → Request → Act (Server W) (Unit {0})
  flush old_tag rs = handle_panic host (do cancel_tag old_tag; respond host rs r_flush)

  unfoldable pub walk :
      (fid new_fid : ℕ) (names : List String) → Request → Act (Server W) (Unit {0})
  walk fid new_fid names rs = handle_panic host (
      if new_fid == qp.nofid
      then send_error host rs invalid_fid
      else answer host rs (walk_body host fid new_fid names))

  -- The start that the handlers of one fid share: the fidState, or an error.
  unfoldable pub with_fid :
      (fid : ℕ) → Request → (FidState → Act (Server W) (Unit {0})) → Act (Server W) (Unit {0})
  with_fid fid rs rest = handle_panic host (do
    known ← on_session (read_fid fid)
    elim known [ none ↦ send_error host rs unknown_fid | some f ↦ rest f ])

  -- The same, for the handlers that hold fidLock from the lookup to the end.
  unfoldable pub with_held_fid :
      (fid : ℕ) → Request → (FidState → Act (Server W) (Unit {0})) → Act (Server W) (Unit {0})
  with_held_fid fid rs rest = handle_panic host (
      holding_fids (do
        known ← gets (λ s. find_fid fid s.session.fids)
        elim known [ none ↦ send_error host rs unknown_fid | some f ↦ rest f ]))

  unfoldable pub open_file : (fid mode : ℕ) → Request → Act (Server W) (Unit {0})
  open_file fid mode rs =
      with_fid fid rs λ f. holding_state fid f (answer host rs (open_body host f fid mode))

  unfoldable pub create :
      (fid : ℕ) (name : String) (permissions mode : ℕ) → Request → Act (Server W) (Unit {0})
  create fid name permissions mode rs =
      with_fid fid rs
        λ f. holding_state fid f (answer host rs (create_body host f fid name permissions mode))

  unfoldable pub read : (fid offset count : ℕ) → Request → Act (Server W) (Unit {0})
  read fid offset count rs = with_fid fid rs λ f. do
    msg_size ← gets (λ s. s.msg_size)
    answer host rs (read_body host f msg_size offset count)

  unfoldable pub write : (fid offset : ℕ) (bytes : List ℕ) → Request → Act (Server W) (Unit {0})
  write fid offset bytes rs = with_fid fid rs λ f. answer host rs (write_body host f offset bytes)

  unfoldable pub clunk : (fid : ℕ) → Request → Act (Server W) (Unit {0})
  clunk fid rs = with_held_fid fid rs λ f. answer host rs (clunk_body host f fid)

  unfoldable pub remove : (fid : ℕ) → Request → Act (Server W) (Unit {0})
  remove fid rs = with_held_fid fid rs λ f. answer host rs (remove_body host f fid)

  unfoldable pub stat : (fid : ℕ) → Request → Act (Server W) (Unit {0})
  stat fid rs = with_fid fid rs λ f. answer host rs (stat_body host f)

  unfoldable pub write_stat : (fid : ℕ) (stat : Qp.Stat) → Request → Act (Server W) (Unit {0})
  write_stat fid stat rs =
      with_fid fid rs λ f. holding_state fid f (answer host rs (write_stat_body host f stat))
