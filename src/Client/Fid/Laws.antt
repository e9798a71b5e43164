-- ===== src/Client/Fid/Laws.antt =====
-- What the calls that make a fid leave in the pool, with the tags.
use qptools.Prelude.{
  ℕ, ◌<◌, ◌≡◌, ◌≢◌, refl, ◌∙◌, String, Option, none, some, List, arith, ◌==◌, ==_iff, if◌then◌else◌,
  length, inl, inr, Option-cases, Bool-cases,
}
use qptools.Prelude.Maps.{Map, lookup, insert, delete, nat_key, lookup-insert, lookup-delete}
use qptools.Act.{
  Act, Error, Outcome, ok, err, panicked, blocked, pure, attempt, or_raise, ◌>>=◌, ◌>>◌,
}
use qptools.Qp.{Qp, Qid, Request, get_tag, Reply, r_walk}
use qptools.Client.Transport.{
  Transport, take_any, finish, get_channel, fail_with, set_message_size, set_greedy_decoding,
}
use qptools.Client.Rpc.{Peer, Client, pool, new_fid, rm_fid, or_drop, check, send, exchange}
use qptools.Client.Rpc.Laws.{IsReady, IsAnswering, tag_lem, send_lem}
use qptools.Client.Rpc.Pool.{new_fid_lem}
use qptools.Client.Fid.{as_walk, walk_fid, negotiate_version}

-- What a walk does after its response `got` has arrived.
abbrev rest_of_walk :
    {W : Type 0} → ℕ → List String → Option Reply → Act (Client W) (Option ℕ × List Qid)
rest_of_walk f names got = do
  qids ← or_drop f (check as_walk got)
  if length qids == length names then pure (some f, qids) else (do rm_fid f; pure (none, qids))

-- How a walk ends that was given the fid `f`: it returns it, with a qid for each name; or it returns
-- no fid, or an error, and the pool is as it was.
abbrev pub Walked :
    (f : ℕ) (names : List String) (fids after : Map ℕ ℕ) → Outcome (Option ℕ × List Qid) → Type 0
Walked f names fids after (ok (some g, qids)) =
    (g ≡ f)
    × (length qids ≡ length names)
    × ((u : ℕ) → lookup u after ≡ (if f == u then some f else lookup u fids))
Walked f names fids after (ok (none, qids)) =
    (length qids ≢ length names) × ((u : ℕ) → lookup u after ≡ lookup u fids)
Walked f names fids after (err e) = (u : ℕ) → lookup u after ≡ lookup u fids
Walked f names fids after panicked = ⊥
Walked f names fids after blocked = ⊥

put_back :
    (f u : ℕ) (fids : Map ℕ ℕ)
    → lookup f fids ≡ none
    → lookup u (delete f (insert f f fids)) ≡ lookup u fids
put_back f u fids free =
    ground (arith, lookup-delete f u (insert f f fids), lookup-insert f u f fids)

rest_of_walk_lem :
    {W : Type 0} (f : ℕ) (names : List String) (got : Option Reply) (c : Client W) (fids : Map ℕ ℕ)
    → c.fids ≡ some (insert f f fids)
    → lookup f fids ≡ none
    → Walked f names fids (pool (rest_of_walk f names got c).1) (rest_of_walk f names got c).0
      × ((rest_of_walk f names got c).1.transport ≡ c.transport)
unfolding or_drop check rm_fid attempt or_raise ◌>>=◌
rest_of_walk_lem f names none c fids known free = (λ u. rw known (put_back f u fids free), refl)
rest_of_walk_lem f names (some (r_walk qids)) c fids known free =
    elim (Bool-cases (length qids == length names)) [
      | inl all ↦
          rw all ((refl, (==_iff _ _).0 all, λ u. rw known (lookup-insert f u f fids)), refl)
      | inr fewer ↦ rw fewer ((ground arith, λ u. rw known (put_back f u fids free)), refl)
    ]
rest_of_walk_lem f names (some other) c fids known free =
    (λ u. rw known (put_back f u fids free), refl)

pool_of : {W : Type 0} (c : Client W) (fids : Map ℕ ℕ) → c.fids ≡ some fids → pool c ≡ fids
pool_of c fids e = ground arith

walk_steps :
    {W : Type 0} (qp : Qp) (peer : Peer W) (fid : ℕ) (names : List String) (c c₂ s : Client W)
    (t f : ℕ) (d : Transport Reply) (got : Option Reply)
    → take_any qp.notag c.transport ≡ (ok t, d)
    → new_fid qp.nofid (record c { transport = d }) ≡ (ok f, c₂)
    → send peer (Request.walk t fid f names) c₂ ≡ (ok got, s)
    → walk_fid qp peer fid names c ≡ rest_of_walk f names got s
unfolding walk_fid ◌>>=◌
walk_steps qp peer fid names c c₂ s t f d got took new sent = rw (took, new, sent) refl

module _ {W : Type 0} (qp : Qp) (peer : Peer W) (ninety : qp.notag ≡ 65535) where
  -- A walk, NOTAG being 65535, to a peer that lets every message be written and answered, on a
  -- transport that can hand out a tag and with a fid left: the call returns; it gives out a fid that
  -- was free, with a qid for each name, or leaves the pool as it was; and every tag is pending, or
  -- not, as it was before.
  pub walk_fid_lem :
      (fid : ℕ) (names : List String) (c : Client W) (fids : Map ℕ ℕ)
      → IsAnswering peer
      → IsReady c.transport
      → c.fids ≡ some fids
      → length fids < qp.nofid
      → let (r, c') = walk_fid qp peer fid names c in
        (f : ℕ) × (lookup f fids ≡ none)
        × (f < qp.nofid)
        × Walked f names fids (pool c') r
        × IsReady c'.transport
        × ((u : ℕ) → lookup u c'.transport.queue ≡ lookup u c.transport.queue)
  walk_fid_lem fid names c fids answering ready known room =
      let (t, d, took, h) = tag_lem peer c.transport ready in
      let c₁ : Client W = record c { transport = d } in
      let (f, got_fid, lt, free) = new_fid_lem qp.nofid c₁ fids known room in
      let (w, got, arrives, sent, ready', same) =
        send_lem peer (Request.walk t fid f names) c.transport d t (some (insert f f fids)) c.world
          answering ready h refl in
      let s : Client W = record c {
        fids = some (insert f f fids);
        transport = finish t (length c.transport.channels) got d;
        world = w;
      } in
      let (ends, still) = rest_of_walk_lem f names got s fids refl free in
      rw (walk_steps qp peer fid names c _ s t f d got (rw ninety took) got_fid sent, still)
        (f, free, lt, ends, ready', same)

module _ {W : Type 0} (qp : Qp) (peer : Peer W) where
  -- Send, where the message cannot be written: the error is that of the transport, and the fids are
  -- untouched.
  send_unwritten :
      (m : Request) (c : Client W) (ch : ℕ) (e : Error)
      → lookup (get_tag m) c.transport.queue ≡ some ch
      → (peer.write m c.world).0 ≡ err e
      → (e' : Error) × ((send peer m c).0 ≡ err e') × ((send peer m c).1.fids ≡ c.fids)
  unfolding send exchange get_channel fail_with attempt ◌>>=◌
  send_unwritten m c ch e here fails = elim (Option-cases c.transport.error) [
    | inl first ↦ (e, ground (arith, here, fails, first), ground (arith, here, fails, first))
    | inr (old, first) ↦
        (old, ground (arith, here, fails, first), ground (arith, here, fails, first))
  ]

  walk_breaks :
      (fid : ℕ) (names : List String) (c c₂ : Client W) (t f : ℕ) (d : Transport Reply) (e : Error)
      → take_any qp.notag c.transport ≡ (ok t, d)
      → new_fid qp.nofid (record c { transport = d }) ≡ (ok f, c₂)
      → (send peer (Request.walk t fid f names) c₂).0 ≡ err e
      → ((walk_fid qp peer fid names c).0 ≡ err e)
        × ((walk_fid qp peer fid names c).1.fids
            ≡ (send peer (Request.walk t fid f names) c₂).1.fids)
  unfolding walk_fid ◌>>=◌
  walk_breaks fid names c c₂ t f d e took new out =
      (rw (took, new, out) refl, rw (took, new, out) refl)

  -- The bug: a walk, NOTAG being 65535, on a transport that can hand out a tag and with a fid left,
  -- where no message can be written, returns an error and leaves its new fid in the pool, unlike Auth
  -- and Attach.
  pub walk_fid_leak :
      (fid : ℕ) (names : List String) (c : Client W) (fids : Map ℕ ℕ)
      → qp.notag ≡ 65535
      → IsReady c.transport
      → c.fids ≡ some fids
      → length fids < qp.nofid
      → ((m : Request) (w : W) → (e : Error) × ((peer.write m w).0 ≡ err e))
      → let (r, c') = walk_fid qp peer fid names c in
        (e : Error) × (f : ℕ) × (r ≡ err e) × (lookup f fids ≡ none) × (lookup f (pool c') ≡ some f)
  walk_fid_leak fid names c fids ninety ready known room cut =
      let (t, d, took, h) = tag_lem peer c.transport ready in
      let (f, got_fid, lt, free) =
        new_fid_lem qp.nofid (record c { transport = d }) fids known room in
      let c₂ : Client W = record c { fids = some (insert f f fids); transport = d } in
      let m : Request = Request.walk t fid f names in
      let (e, fails) = cut m c.world in
      let here : (lookup t d.queue ≡ some (length c.transport.channels)) =
        rw h.2
          (ground (arith, lookup-insert t t (length c.transport.channels) c.transport.queue)) in
      let (e', out, pooled) = send_unwritten m c₂ (length c.transport.channels) e here fails in
      let (ends, kept) = walk_breaks fid names c c₂ t f d e' (rw ninety took) got_fid out in
      (
        e',
        f,
        ends,
        free,
        rw (pool_of (walk_fid qp peer fid names c).1 (insert f f fids) (kept ∙ pooled))
            (ground (arith, lookup-insert f f f fids)),
      )

-- A deviation from the comment: after a version call that succeeded, the message size in force is
-- the one that was asked for, whatever the server has agreed to.
pub negotiate_version_size :
    {W : Type 0} (qp : Qp) (peer : Peer W) (msgsize : ℕ) (version : String) (c : Client W)
    (agreed : ℕ) (v : String)
    → (negotiate_version qp peer msgsize version c).0 ≡ ok (agreed, v)
    → ((negotiate_version qp peer msgsize version c).1.transport.msgsize ≡ msgsize)
      × ((negotiate_version qp peer msgsize version c).1.transport.codec_size ≡ msgsize)
unfolding negotiate_version set_message_size set_greedy_decoding ◌>>=◌
negotiate_version_size qp peer msgsize version c agreed v e = ground arith
