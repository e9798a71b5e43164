-- ===== src/Client/Rpc/Laws.antt =====
-- What one call leaves behind in the transport.
use qptools.Prelude.{
  ℕ, ◌<◌, ◌≡◌, refl, Option, none, some, [], ◌∷◌, ◌++◌, arith, length, get_elem?-set,
  get_elem?-append, get_elem?_lt,
}
use qptools.Prelude.Maps.{
  Map, lookup, insert, delete, nat_key, lookup-insert, lookup-delete, length-delete-le,
}
use qptools.Act.{Outcome, ok, err, panicked, blocked, attempt, or_raise, ◌>>=◌}
use qptools.Qp.{Request, get_tag, Reply}
use qptools.Client.Transport.{empty, closed, Transport, take_any, get_channel, finish}
use qptools.Client.Transport.Laws.{Taken, IsTransport, take_any-Taken}
use qptools.Client.Rpc.{Peer, Client, check, exchange, send, call}

-- A transport that can hand out a tag.
pub record IsReady {M : Type 0} (c : Transport M) : Type 0 where
  pub whole : IsTransport c
  pub next_val : c.next_tag < 65535
  pub room : length c.queue < 65535

-- The message can be written, and something arrives on its channel.
pub record IsAnswering {W : Type 0} (peer : Peer W) : Type 0 where
  pub writes : (m : Request) (w : W) → (peer.write m w).0 ≡ ok tt
  pub answers : (t : ℕ) (w : W) → (got : Option Reply) × ((peer.arrival t w).0 ≡ ok got)

-- The transport after a tag was taken and its channel closed.
abbrev closed_after : {M : Type 0} → (t : ℕ) → Option M → Transport M → Transport M → Transport M
closed_after t got c taken = finish t (length c.channels) got taken

module _ {M : Type 0} (c d : Transport M) (t : ℕ) (got : Option M) where
  round_trip-lookup :
      lookup t c.queue ≡ none
      → d.queue ≡ insert t (length c.channels) c.queue
      → (u : ℕ) → lookup u (finish t (length c.channels) got d).queue ≡ lookup u c.queue
  round_trip-lookup free q u = rw q (
      ground (
        arith,
        lookup-delete t u (insert t (length c.channels) c.queue),
        lookup-insert t u (length c.channels) c.queue,
      ))

  round_trip-IsTransport :
      IsTransport c
      → lookup t c.queue ≡ none
      → d.queue ≡ insert t (length c.channels) c.queue
      → d.channels ≡ c.channels ++ empty ∷ []
      → IsTransport (finish t (length c.channels) got d)
  round_trip-IsTransport v free q ch = record {
    open_channel = λ u a e.
        let before = v.open_channel u a (rw (round_trip-lookup free q u) at e) in
        rw ch (
          ground (
            arith,
            before,
            get_elem?-set (c.channels ++ empty ∷ []) (length c.channels) a (closed got),
            get_elem?-append c.channels empty a,
            get_elem?_lt c.channels a empty before,
          ));
    apart = λ u w a e f.
        v.apart u w a (rw (round_trip-lookup free q u) at e) (rw (round_trip-lookup free q w) at f);
  }

module _ {W : Type 0} (peer : Peer W) where
  -- What a call does after its tag: the message is written, something arrives, and the tag is free.
  exchange_lem :
      (m : Request) (ch : ℕ) (c : Client W)
      → IsAnswering peer
      → (w : W) × (got : Option Reply) × ((peer.arrival (get_tag m) (peer.write m c.world).1).0
          ≡ ok got)
        × (exchange peer m ch c
            ≡ (ok got, record c { transport = finish (get_tag m) ch got c.transport; world = w }))
  unfolding exchange attempt ◌>>=◌
  exchange_lem m ch c answering =
      let w₁ = (peer.write m c.world).1 in
      let (got, e) = answering.answers (get_tag m) w₁ in
      ((peer.arrival (get_tag m) w₁).1, got, e, ground (arith, answering.writes m c.world, e))

  tag_of :
      (c : Transport Reply) (r : Outcome ℕ × Transport Reply)
      → Taken c r
      → (t : ℕ) × (d : Transport Reply) × (r ≡ (ok t, d)) × Taken c (ok t, d)
  tag_of c (ok t, d) h = (t, d, refl, h)
  tag_of c (err _, d) h = elim h [ ]
  tag_of c (panicked, d) h = elim h [ ]
  tag_of c (blocked, d) h = elim h [ ]

  -- Tag, on a transport that can hand one out.
  pub tag_lem :
      (c : Transport Reply)
      → IsReady c
      → (t : ℕ) × (d : Transport Reply) × (take_any 65535 c ≡ (ok t, d)) × Taken c (ok t, d)
  tag_lem c v = tag_of c (take_any 65535 c) (take_any-Taken c v.next_val v.room)

  finish-IsReady :
      (c d : Transport Reply) (t : ℕ) (got : Option Reply)
      → IsReady c
      → Taken c (ok t, d)
      → IsReady (finish t (length c.channels) got d)
  unfolding delete insert
  finish-IsReady c d t got v h = record {
    whole = round_trip-IsTransport c d t got v.whole h.1 h.2 h.3;
    next_val = h.4;
    room =
        rw h.2 (
          ground
            (arith, length-delete-le t c.queue, length-delete-le t (delete t c.queue), v.room));
  }

  -- Send, on the tag that Tag has handed out, whatever was done to the fids in between: something
  -- arrives, and every tag is pending, or not, as it was before the call of Tag.
  pub send_lem :
      (m : Request) (c d : Transport Reply) (t : ℕ) (fids : Option (Map ℕ ℕ)) (w₀ : W)
      → IsAnswering peer
      → IsReady c
      → Taken c (ok t, d)
      → get_tag m ≡ t
      → (w : W) × (got : Option Reply) × ((peer.arrival t (peer.write m w₀).1).0 ≡ ok got)
        × (send peer m (record { fids = fids; transport = d; world = w₀ }) ≡ (
          ok got,
          record { fids = fids; transport = finish t (length c.channels) got d; world = w },
        ))
        × IsReady (finish t (length c.channels) got d)
        × ((u : ℕ) → lookup u (finish t (length c.channels) got d).queue ≡ lookup u c.queue)
  unfolding send get_channel ◌>>=◌
  send_lem m c d t fids w₀ answering v h tagged =
      let before : Client W = record { fids = fids; transport = d; world = w₀ } in
      let here : (lookup (get_tag m) d.queue ≡ some (length c.channels)) =
        rw (tagged, h.2) (ground (arith, lookup-insert t t (length c.channels) c.queue)) in
      let (w, got, arrives, same) = exchange_lem m (length c.channels) before answering in
      (
        w,
        got,
        rw tagged at arrives,
        ground (arith, here, same, tagged),
        finish-IsReady c d t got v h,
        round_trip-lookup c d t got h.1 h.2,
      )

check-state :
    {W A : Type 0} (parse : Reply → Option A) (got : Option Reply) (c : Client W)
    → (check parse got c).1 ≡ c
unfolding check or_raise ◌>>=◌
check-state parse none c = refl
check-state parse (some reply) c = ground arith

call_steps :
    {W A : Type 0} (peer : Peer W) (request : ℕ → Request) (parse : Reply → Option A)
    (c s : Client W) (t : ℕ) (d : Transport Reply) (got : Option Reply)
    → take_any 65535 c.transport ≡ (ok t, d)
    → send peer (request t) (record c { transport = d }) ≡ (ok got, s)
    → call peer 65535 request parse c ≡ ((check parse got s).0, s)
unfolding call ◌>>=◌
call_steps peer request parse c s t d got took sent =
    rw (took, sent) (ground (arith, check-state parse got s))

-- A call, of a request that carries its tag, on a transport that can hand one out, to a peer that
-- lets every message be written and answered: its result is that of the checks of what arrived on a
-- tag that was free; the fids are untouched, and every tag is pending, or not, as it was before.
pub call_lem :
    {W A : Type 0} (peer : Peer W) (request : ℕ → Request) (parse : Reply → Option A) (c : Client W)
    → IsAnswering peer
    → IsReady c.transport
    → ((t : ℕ) → get_tag (request t) ≡ t)
    → let (r, c') = call peer 65535 request parse c in
      (t : ℕ) × (w : W) × (got : Option Reply) × (lookup t c.transport.queue ≡ none)
      × ((peer.arrival t w).0 ≡ ok got)
      × (r ≡ (check parse got c').0)
      × (c'.fids ≡ c.fids)
      × IsReady c'.transport
      × ((u : ℕ) → lookup u c'.transport.queue ≡ lookup u c.transport.queue)
call_lem peer request parse c answering ready tagged =
    let (t, d, took, h) = tag_lem peer c.transport ready in
    let (w, got, arrives, sent, ready', same) =
      send_lem peer (request t) c.transport d t c.fids c.world answering ready h (tagged t) in
    rw (call_steps peer request parse c _ t d got took sent)
      (t, (peer.write (request t) c.world).1, got, h.1, arrives, refl, refl, ready', same)
