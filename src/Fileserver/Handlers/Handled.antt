-- ===== src/Fileserver/Handlers/Handled.antt =====
-- The effect of every handler on the requests, the tags and the connection, in one statement.
use qptools.Prelude.{
  ℕ, ◌≡◌, refl, String, true, Option, none, some, [], ◌==◌, set, Option-cases, Bool-cases, inl, inr,
}
use qptools.Prelude.Maps.{lookup, delete, nat_key}
use qptools.Act.{Act, Error, reason, modify, gets, ◌>>=◌, ◌>>◌}
use qptools.Qp.{
  r_version, r_flush, Request as Message, version, auth, attach, flush, walk, open_file, create,
  read, write, clunk, remove, stat, write_stat, unsupported,
}
use qptools.Fileserver.State.{Request, Server, Host, Decoder, nine_p2000, messages_during_version}
use qptools.Fileserver.Wire.{on_session, cleanup, die, respond, send_error}
use qptools.Fileserver.Wire.Effect.{
  Wire, wire, Answered, Answers, Quiet, Quiet-bind, Quiet-bind-Answers, Quiet-gets,
  Quiet-on_session, Quiet-die, respond-Answers, send_error-Answers, Answers-continue,
  wire-handle_panic,
}
use qptools.Fileserver.Handlers
use qptools.Fileserver.Handlers.{cancel_tag, reset_session, negotiate, version_string}
use qptools.Fileserver.Handlers.Effects.{
  auth-Answers, attach-Answers, walk-Answers, open_file-Answers, create-Answers, read-Answers,
  write-Answers, clunk-Answers, remove-Answers, stat-Answers, write_stat-Answers,
}
use qptools.Fileserver.Dispatch.{handle}

-- What a handler may do to other requests, before it answers its own: nothing; forget all tags, as
-- version does; or cancel the request that holds a tag, as flush does.
pub data Begun (w w' : Wire) : Type 0 where
  same : w' ≡ w → Begun w w'
  reset : w' ≡ record w { tags = [] } → Begun w w'
  flushed :
      (tag : ℕ) (old : Request)
      → lookup tag w.tags ≡ some old
      → w' ≡ record w { cancelled = set w.cancelled old.id true; tags = delete tag w.tags }
      → Begun w w'

pub record Handled (rs : Request) (w w'' : Wire) : Type 0 where
  pub between : Wire
  pub begun : Begun w between
  pub answered : Answered rs between w''

module _ {W : Type 0} (host : Host W) (rs : Request) where
  Answers-Handled :
      (m : Act (Server W) (Unit {0}))
      → Answers rs m
      → (s : Server W) → Handled rs (wire s) (wire (m s).1)
  Answers-Handled m a s = record { between = wire s; begun = same refl; answered = a.at s }

  reset_tail :
      (size : ℕ)
      → Quiet (
          on_session (cleanup host)
          >> modify (λ s. record s {
            proto = some nine_p2000;
            msg_size = size;
            decoder = record { message_size = size; greedy = true };
          }))
  unfolding modify
  reset_tail size = Quiet-bind _ _ (Quiet-on_session _) λ _. record { at = λ s. refl }

  wire-reset_session :
      (size : ℕ) (s : Server W) → wire (reset_session host size s).1 ≡ record (wire s) { tags = [] }
  unfolding reset_session ◌>>=◌
  wire-reset_session size s = (reset_tail size).at (record s { tags = [] })

  -- the answer of version, after the reset
  version_end-Answers :
      (size : ℕ) (v : String) (o : Option Error)
      → Answers rs (elim o [
        | some e ↦ do
          die host (reason "could not reset decoder")
          send_error host rs messages_during_version
        | none ↦ respond host rs (r_version size (version_string host v))
      ])
  version_end-Answers size v none = respond-Answers host rs _
  version_end-Answers size v (some e) =
      Quiet-bind-Answers _ _ (Quiet-die host _) λ _. send_error-Answers host rs _

  after_reset :
      (size : ℕ) (v : String) (s : Server W)
      → Answered rs
          (record (wire s) { tags = [] })
          (wire
            ((do
              reset_session host size
              decoder ← gets (λ s. s.decoder)
              elim (host.reset decoder) [
                | some e ↦ do
                  die host (reason "could not reset decoder")
                  send_error host rs messages_during_version
                | none ↦ respond host rs (r_version size (version_string host v))
              ])
              s).1)
  unfolding ◌>>=◌
  after_reset size v s =
      let (r, t) = reset_session host size s in
      Answers-continue r _ t (record (wire s) { tags = [] }) (wire-reset_session size s)
        λ _.
          Quiet-bind-Answers {A = Decoder} _ _ (Quiet-gets _)
            λ decoder. version_end-Answers size v (host.reset decoder)

  version-Handled :
      (tag size : ℕ) (v : String) (s : Server W)
      → Handled rs (wire s) (wire (Handlers.version host tag size v rs s).1)
  unfolding Handlers.version
  version-Handled tag size v s =
      rw (wire-handle_panic host) (elim (Bool-cases (tag == host.qp.notag)) [
        | inr wrong ↦ rw wrong (Answers-Handled _ (send_error-Answers host rs _) s)
        | inl right ↦ elim (Option-cases (negotiate host size)) [
          | inl small ↦ rw (right, small) (Answers-Handled _ (send_error-Answers host rs _) s)
          | inr (n, agreed) ↦
              rw (right, agreed)
                (record {
                  between = record (wire s) { tags = [] };
                  begun = reset refl;
                  answered = after_reset n v s;
                })
        ]
      ])

  -- The first half of flush: the request that holds the tag is cancelled.
  flush_first : (old_tag : ℕ) (s : Server W) → Begun (wire s) (wire (cancel_tag old_tag s).1)
  unfolding cancel_tag ◌>>=◌
  flush_first old_tag s = elim (Option-cases (lookup old_tag s.tags)) [
    | inl e ↦ rw (e, cancel_tag) (same refl)
    | inr (old, e) ↦ rw (e, cancel_tag) (flushed old_tag old e refl)
  ]

  -- The second half of flush: the flush request itself is answered.
  pub flush-Answered :
      (old_tag : ℕ) (s : Server W)
      → Answered rs (wire (cancel_tag old_tag s).1) (wire (Handlers.flush host old_tag rs s).1)
  unfolding Handlers.flush ◌>>=◌
  flush-Answered old_tag s = rw (wire-handle_panic host) (
      let (r, t) = cancel_tag {W = W} old_tag s in
      Answers-continue r _ t (wire t) refl (λ _. respond-Answers host rs r_flush))

  flush-Handled :
      (old_tag : ℕ) (s : Server W) → Handled rs (wire s) (wire (Handlers.flush host old_tag rs s).1)
  flush-Handled old_tag s = record {
    between = wire (cancel_tag old_tag s).1;
    begun = flush_first old_tag s;
    answered = flush-Answered old_tag s;
  }

  -- Every handler, on every path, panics and blocked locks included: it first does nothing to
  -- other requests, forgets all tags, or cancels the holder of one tag; then it writes at most
  -- one response, for its own request, frees no tag but its own, and writes nothing if its
  -- request was cancelled.
  pub handle-Handled :
      (m : Message) (s : Server W) → Handled rs (wire s) (wire (handle host m rs s).1)
  unfolding handle
  handle-Handled (version t size v) s = version-Handled t size v s
  handle-Handled (auth t afid user service) s = Answers-Handled _ (auth-Answers host rs afid user) s
  handle-Handled (attach t fid afid user service) s =
      Answers-Handled _ (attach-Answers host rs fid afid user service) s
  handle-Handled (flush t old) s = flush-Handled old s
  handle-Handled (walk t fid new names) s = Answers-Handled _ (walk-Answers host rs fid new names) s
  handle-Handled (open_file t fid mode) s = Answers-Handled _ (open_file-Answers host rs fid mode) s
  handle-Handled (create t fid name perms mode) s =
      Answers-Handled _ (create-Answers host rs fid name perms mode) s
  handle-Handled (read t fid offset count) s =
      Answers-Handled _ (read-Answers host rs fid offset count) s
  handle-Handled (write t fid offset bytes) s =
      Answers-Handled _ (write-Answers host rs fid offset bytes) s
  handle-Handled (clunk t fid) s = Answers-Handled _ (clunk-Answers host rs fid) s
  handle-Handled (remove t fid) s = Answers-Handled _ (remove-Answers host rs fid) s
  handle-Handled (stat t fid) s = Answers-Handled _ (stat-Answers host rs fid) s
  handle-Handled (write_stat t fid st) s = Answers-Handled _ (write_stat-Answers host rs fid st) s
  handle-Handled (unsupported t) s = Answers-Handled _ (send_error-Answers host rs _) s
