-- ===== src/Fileserver/Wire.antt =====
-- How fileserver/fileserver.go ends a connection, registers requests and answers them: cleanup, die,
-- handlePanic, register, serialize, respond and sendError.
pub mod Effect
pub mod Fault
use qptools.Prelude.{
  ℕ, ◌+◌, ◌%◌, ◌^◌, String, Bool, true, false, Option, none, some, List, [], ◌∷◌, ◌++◌, ltb, ◌==◌,
  if◌then◌else◌, get_elem?, set,
}
use qptools.Prelude.Maps.{Map, lookup, insert, delete, nat_key}
use qptools.Act.{
  Act, Error, message, reason, Outcome, ok, err, panicked, blocked, Result, value, failure, pure,
  raise, panic, block, gets, modify, attempt, ignore, within, ◌>>=◌, ◌>>◌,
}
use qptools.Qp.{Qp, Response, Reply, r_error}
use qptools.Trees.{Tree}
use qptools.Fileserver.Walk.{FidState}
use qptools.Fileserver.State.{
  Request, Sent, Protocol, Session, Server, Host, could_not_send_err, handler_panic, tag_in_use,
  response_too_big,
}

-- lock.Lock(); defer lock.Unlock(): a lock that is held blocks for ever, as its holder is the same
-- goroutine; it is released after a return and after a panic.
unfoldable pub unlock_after : {W A : Type 0} → Outcome A → Session W → Session W
unlock_after blocked s = s
unlock_after r s = record s { fid_lock = false }

-- errorLock.Lock(); defer errorLock.Unlock(), in the same way
unfoldable pub unlock_error : {W : Type 0} → Outcome (Unit {0}) → Act (Server W) (Unit {0})
unlock_error blocked s = (blocked, s)
unlock_error r s = (r, record s { error_lock = false })

module _ {W : Type 0} where
  unfoldable pub with_fid_lock : {A : Type 0} → Act (Session W) A → Act (Session W) A
  unfolding ◌>>=◌ unlock_after
  with_fid_lock m s =
      if s.fid_lock
      then (blocked, s)
      else (let (r, s') = m (record s { fid_lock = true }) in (r, unlock_after r s'))

  unfoldable pub on_world : {A : Type 0} → Act W A → Act (Session W) A
  unfolding within
  on_world = within (λ s. s.world) (λ w s. record s { world = w })

  unfoldable pub on_session : {A : Type 0} → Act (Session W) A → Act (Server W) A
  unfolding within
  on_session = within (λ s. s.session) (λ t s. record s { session = t })

  -- the body of the loop of cleanup: a fid whose lock is held blocks
  unfoldable pub close_fid : Tree W → FidState → Act W (Unit {0})
  unfolding ◌>>=◌ ignore
  close_fid tree f =
      if f.locked then block else elim f.handle [ none ↦ pure tt | some h ↦ ignore (tree.close h) ]

  unfoldable pub close_fids : Tree W → Map ℕ FidState → Act W (Unit {0})
  unfolding ◌>>=◌ close_fid
  close_fids tree [] = pure tt
  close_fids tree ((fid, f) ∷ fids) = do close_fid tree f; close_fids tree fids

  unfoldable pub close_all : Tree W → Option (Map ℕ FidState) → Act W (Unit {0})
  unfolding ◌>>=◌
  close_all tree none = pure tt
  close_all tree (some fids) = close_fids tree fids

module _ {W : Type 0} (host : Host W) where
  unfoldable pub cleanup : Act (Session W) (Unit {0})
  unfolding ◌>>=◌ with_fid_lock on_world close_all
  cleanup = with_fid_lock (do
    fids ← gets (λ s. s.fids)
    on_world (close_all host.tree fids)
    modify (λ s. record s { fids = some [] }))

  -- what die does with errorLock: the first error is kept
  unfoldable pub record_error : Error → Act (Server W) (Unit {0})
  unfolding ◌>>=◌ on_session cleanup
  record_error e = do
    modify (λ s. record s {
      error = elim s.error [ none ↦ some e | some first ↦ some first ];
      error_cnt = (s.error_cnt + 1) % 2 ^ 32;
    })
    on_session cleanup

  -- die(err)
  unfoldable pub die : Error → Act (Server W) (Unit {0})
  unfolding ◌>>=◌ record_error unlock_error
  die e s =
      if s.error_lock
      then (blocked, s)
      else (let (r, s') = record_error e (record s { error_lock = true }) in unlock_error r s')

  -- handlePanic(), once the handler has ended
  unfoldable pub after_panic : Outcome (Unit {0}) → Act (Server W) (Unit {0})
  unfolding ◌>>=◌ die
  after_panic (ok a) s = (ok a, s)
  after_panic (err e) s = (err e, s)
  after_panic panicked s = die handler_panic s
  after_panic blocked s = (blocked, s)

  -- defer fs.handlePanic()
  unfoldable pub handle_panic : Act (Server W) (Unit {0}) → Act (Server W) (Unit {0})
  handle_panic m s = let (r, s') = m s in after_panic r s'

  -- register(rs, true): a request on a tag in use cancels the older one and takes its place
  unfoldable pub register : Request → Act (Server W) (Unit {0})
  unfolding ◌>>=◌
  register rs = if rs.tag == host.qp.notag then pure tt else (do
    older ← gets (λ s. lookup rs.tag s.tags)
    elim older [
      | some old ↦ do
        modify (λ s. record s {
          cancelled = set s.cancelled old.id true;
          tags = insert rs.tag rs s.tags;
        })
        raise tag_in_use
      | none ↦ modify (λ s. record s { tags = insert rs.tag rs s.tags })
    ])

-- What serialize returns: the message, encoded, or one of its errors. The bytes themselves are made
-- by package qp, so an encoded message is the message.
pub data Encoding : Type 0 where
  encoded : Encoding
  msg_too_big : Encoding
  failed : Error → Encoding

-- rs.cancelled
abbrev pub is_cancelled : {W : Type 0} → Request → Server W → Bool
is_cancelled rs s = elim (get_elem? s.cancelled rs.id) [ none ↦ false | some b ↦ b ]

module _ {W : Type 0} (host : Host W) where
  -- serialize(m), without the header that it writes in front; a nil protocol panics
  unfoldable pub serialize : Response → Act (Server W) Encoding
  unfolding ◌>>=◌
  serialize m = do
    proto ← gets (λ s. s.proto)
    size ← gets (λ s. s.msg_size)
    elim proto [
      | none ↦ panic
      | some _ ↦ elim (host.qp.message_type m) [
        | some e ↦ pure (failed e)
        | none ↦
            if ltb size (host.qp.encoded_size m + host.qp.header_size)
            then pure msg_too_big
            else elim (host.qp.marshal m) [ some e ↦ pure (failed e) | none ↦ pure encoded ]
      ]
    ]

  -- what respond does with the encoded message: it writes it unless the request was cancelled, and
  -- forgets the tag
  unfoldable pub transmit : Request → Response → Act (Server W) (Unit {0})
  unfolding ◌>>=◌ die
  transmit rs m = do
    dropped ← gets (is_cancelled rs)
    if dropped then pure tt else (do
      sent ← gets (λ s. s.sent)
      modify (λ s. record s { tags = delete rs.tag s.tags })
      elim (host.write sent m) [
        | none ↦
            modify
              (λ s. record s { sent = s.sent ++ (record { request = rs.id; response = m }) ∷ [] })
        | some e ↦ die host e
      ])

  -- the error response that stands in for a message that is too big
  unfoldable pub too_big : Request → Act (Server W) (Unit {0})
  too_big rs = do
    e ← serialize (record { tag = rs.tag; reply = r_error (message response_too_big) })
    elim e [ encoded ↦ pure tt | _ ↦ die host could_not_send_err ]

  -- respond(rs, m)
  unfoldable pub respond : Request → Reply → Act (Server W) (Unit {0})
  respond rs reply = do
    let m : Response = record { tag = rs.tag; reply = reply }
    e ← serialize m
    elim e [ encoded ↦ transmit rs m | msg_too_big ↦ too_big rs | failed why ↦ die host why ]

  -- sendError(rs, err.Error())
  unfoldable pub send_error : Request → Error → Act (Server W) (Unit {0})
  send_error rs e = respond rs (r_error (message e))

  -- The end of a handler: the error of its body is sent, or its response is.
  unfoldable pub answer : Request → Act (Session W) Reply → Act (Server W) (Unit {0})
  answer rs body = do
    r ← attempt (on_session body)
    elim r [ value reply ↦ respond rs reply | failure e ↦ send_error rs e ]
