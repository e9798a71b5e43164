-- ===== src/Client/Transport.antt =====
-- Transport of client/transport.go: the tags of pending requests and the channels on which their
-- responses arrive. A channel is an address; what it was given stands in `channels`. Of the encoder
-- and the decoder, which are package qp's, the settings are kept.
pub mod Laws
mod Tests
use qptools.Prelude.{
  ℕ, zero, suc, ◌+◌, ◌%◌, ◌^◌, Bool, true, false, not, ◌&&◌, Option, none, some, List, [], ◌∷◌,
  ◌++◌, map, ltb, ◌==◌, is_some, if◌then◌else◌, length, set,
}
use qptools.Prelude.Maps.{Map, lookup, insert, delete, nat_key}
use qptools.Act.{Act, Error, reason, Outcome, ok, err, panicked, blocked}

-- A channel with room for one message: it is open and empty, or closed after a message or a nil. As
-- the tag is deleted where its channel is closed, a channel in the queue is empty, and a send on it
-- does not block.
pub data Channel (M : Type 0) : Type 0 where
  empty : Channel M
  closed : Option M → Channel M

-- What the decoder reads: a message with its tag, or an error.
pub data Incoming (M : Type 0) : Type 0 where
  arrived : (tag : ℕ) → M → Incoming M
  broken : Error → Incoming M

pub record Transport (M : Type 0) : Type 0 where
  pub queue : Map ℕ ℕ
  pub channels : List (Channel M)
  pub next_tag : ℕ
  pub error : Option Error
  pub error_cnt : ℕ
  pub msgsize : ℕ
  -- the MessageSize of the encoder and the decoder, and the decoder's Greedy
  pub codec_size : ℕ
  pub greedy : Bool

abbrev pub already_in_use : Error
already_in_use = reason "tag already in use"

abbrev pub no_such_tag : Error
no_such_tag = reason "tag does not exist"

abbrev pub pool_depleted : Error
pool_depleted = reason "tag pool depleted"

abbrev pub unexpectedly_depleted : Error
unexpectedly_depleted = reason "unexpected tag pool depletion"

-- c.nextTag++, past the tag NOTAG
abbrev pub advance : (notag tag : ℕ) → ℕ
advance notag tag = if (tag + 1) % 2 ^ 16 == notag then 0 else (tag + 1) % 2 ^ 16

module _ {M : Type 0} where
  -- c.queue[t] = make(chan qp.Message, 1)
  abbrev pub make_channel : ℕ → Transport M → Transport M
  make_channel t c = record c {
    queue = insert t (length c.channels) c.queue;
    channels = c.channels ++ empty ∷ [];
  }

  -- ch <- m; close(ch); delete(c.queue, t)
  abbrev pub finish : (t ch : ℕ) → Option M → Transport M → Transport M
  finish t ch m c = record c { queue = delete t c.queue; channels = set c.channels ch (closed m) }

  unfoldable pub get_channel : ℕ → Act (Transport M) (Option ℕ)
  get_channel t c = (ok (lookup t c.queue), c)

  -- killChannel(t), which is Ditch(t)
  unfoldable pub kill_channel : ℕ → Act (Transport M) (Unit {0})
  kill_channel t c = elim (lookup t c.queue) [
    | none ↦ (err no_such_tag, c)
    | some ch ↦ (ok tt, finish t ch none c)
  ]

  -- received(m), for a message with the tag `t`
  unfoldable pub response_received : ℕ → M → Act (Transport M) (Unit {0})
  response_received t m c = elim (lookup t c.queue) [
    | none ↦ (err no_such_tag, c)
    | some ch ↦ (ok tt, finish t ch (some m) c)
  ]

  -- the loop of Tag, for the rounds that are left
  unfoldable pub find_tag : (notag rounds : ℕ) → Act (Transport M) ℕ
  find_tag notag zero c = (err unexpectedly_depleted, c)
  find_tag notag (suc rounds) c =
      let t = c.next_tag in
      let c' = record c { next_tag = advance notag t } in
      elim (lookup t c.queue) [
        | none ↦ (ok t, make_channel t c')
        | some ch ↦ find_tag notag rounds c'
      ]

  -- Tag()
  unfoldable pub take_any : (notag : ℕ) → Act (Transport M) ℕ
  take_any notag c =
      if ltb 65535 (length c.queue)
      then (err pool_depleted, c)
      else if length c.queue == 65535 && not (is_some (lookup notag c.queue))
      then (err pool_depleted, c)
      else find_tag notag 65535 c

  -- TakeTag(t)
  unfoldable pub take_tag : ℕ → Act (Transport M) (Unit {0})
  take_tag t c =
      if is_some (lookup t c.queue) then (err already_in_use, c) else (ok tt, make_channel t c)

  -- PendingTags()
  abbrev pub pending_tags : Transport M → List ℕ
  pending_tags c = map (λ entry. entry.0) c.queue

  -- die(err); Stop is die(nil)
  unfoldable pub fail_with : Option Error → Act (Transport M) (Option Error)
  fail_with e c =
      let first : Option Error = elim c.error [ none ↦ e | some old ↦ some old ] in
      (ok first, record c { error = first; error_cnt = (c.error_cnt + 1) % 2 ^ 32 })

  -- one round of Serve, once the message is handled
  abbrev pub serve_next :
      Act (Transport M) (Option Error)
      → Outcome (Unit {0}) × Transport M
      → Outcome (Option Error) × Transport M
  serve_next rest (ok a, c) = rest c
  serve_next rest (err e, c) = fail_with (some e) c
  serve_next rest (panicked, c) = (panicked, c)
  serve_next rest (blocked, c) = (blocked, c)

  -- SetMessageSize(ms), SetGreedyDecoding(g) and MessageSize()
  unfoldable pub set_message_size : ℕ → Act (Transport M) (Unit {0})
  set_message_size ms c = (ok tt, record c { msgsize = ms; codec_size = ms })

  unfoldable pub set_greedy_decoding : Bool → Act (Transport M) (Unit {0})
  set_greedy_decoding g c = (ok tt, record c { greedy = g })

  unfoldable pub message_size : Act (Transport M) ℕ
  message_size c = (ok c.msgsize, c)

  -- Serve(), on what the decoder reads: a message with its tag, or an error. It waits where there is
  -- no more.
  unfoldable pub serve : List (Incoming M) → Act (Transport M) (Option Error)
  unfolding fail_with response_received
  serve [] c = if c.error_cnt == 0 then (blocked, c) else (ok c.error, c)
  serve (x ∷ xs) c =
      let rest = serve xs in
      if c.error_cnt == 0
      then elim x [
        | broken e ↦ fail_with (some e) c
        | arrived t m ↦ serve_next rest (response_received t m c)
      ]
      else (ok c.error, c)

-- NewTransport(rw)
abbrev pub new_transport : {M : Type 0} → Transport M
new_transport = record {
  queue = [];
  channels = [];
  next_tag = 0;
  error = none;
  error_cnt = 0;
  msgsize = 16384;
  codec_size = 16384;
  greedy = false;
}
