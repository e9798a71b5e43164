-- ===== src/Fileserver/System/Inv.antt =====
-- The invariant that ties the tags, the cancelled requests and the responses together.
use qptools.Prelude.{
  get_elem?-set, ℕ, ◌+◌, ◌≤◌, ◌≡◌, refl, ap, true, false, some, List, [], ◌∷◌, ◌++◌, map, arith,
  length, get_elem?, set, length-set,
}
use qptools.Prelude.Maps.{lookup, delete, nat_key, lookup-delete}
use qptools.Qp.{Response}
use qptools.Fileserver.State.{Request, Sent}
use qptools.Fileserver.Wire.Effect.{Wire, Answered, silent, wrote, lost}
use qptools.Fileserver.Handlers.Handled.{Begun, same, reset, flushed, Handled}
use qptools.Fileserver.System.{count}

abbrev pub sent_ids : Wire → List ℕ
sent_ids w = map (λ x. x.request) w.sent

-- `ids` are the requests that a handler is still to answer. A tag in use belongs to a request with
-- that tag, which is not cancelled; no request holds two tags; and a request that has an answer, or
-- is to have one, has been received and gets one at most.
pub record Inv (w : Wire) (ids : List ℕ) : Type 0 where
  pub own : (t : ℕ) (r : Request) → lookup t w.tags ≡ some r → r.tag ≡ t
  pub live :
      (t : ℕ) (r : Request) → lookup t w.tags ≡ some r → get_elem? w.cancelled r.id ≡ some false
  pub apart :
      (t u : ℕ) (r q : Request)
      → lookup t w.tags ≡ some r
      → lookup u w.tags ≡ some q
      → r.id ≡ q.id
      → t ≡ u
  pub once : (i : ℕ) → count i (sent_ids w) + count i ids ≤ 1
  pub known : (i : ℕ) → length w.cancelled ≤ i → count i (sent_ids w) + count i ids ≡ 0

pub count-append : (i : ℕ) (xs ys : List ℕ) → count i (xs ++ ys) ≡ count i xs + count i ys
count-append i [] ys = omega arith
count-append i (x ∷ xs) ys = ground (arith, count-append i xs ys)

pub sent_ids-append :
    (xs : List Sent) (x : Sent)
    → map (λ y. y.request) (xs ++ x ∷ []) ≡ map (λ y. y.request) xs ++ x.request ∷ []
sent_ids-append [] x = refl
sent_ids-append (y ∷ xs) x = ap (◌∷◌ y.request) (sent_ids-append xs x)

-- One more answer.
pub count-sent :
    (i : ℕ) (xs : List Sent) (x : Sent)
    → count i (map (λ y. y.request) (xs ++ x ∷ []))
      ≡ count i (map (λ y. y.request) xs) + count i (x.request ∷ [])
count-sent i xs x =
    rw (sent_ids-append xs x) (count-append i (map (λ y. y.request) xs) (x.request ∷ []))

module _ {w : Wire} {ids : List ℕ} where
  -- Tags may be forgotten.
  delete-Inv : (t : ℕ) → Inv w ids → Inv (record w { tags = delete t w.tags }) ids
  delete-Inv t v = record {
    own = λ u r e. ground (arith, lookup-delete t u w.tags, v.own u r);
    live = λ u r e. ground (arith, lookup-delete t u w.tags, v.live u r);
    apart = λ u u' r q e f g.
        ground (arith, lookup-delete t u w.tags, lookup-delete t u' w.tags, v.apart u u' r q);
    once = v.once;
    known = v.known;
  }

  reset-Inv : Inv w ids → Inv (record w { tags = [] }) ids
  unfolding lookup
  reset-Inv v = record {
    own = λ u r e. cc;
    live = λ u r e. cc;
    apart = λ u u' r q e f g. cc;
    once = v.once;
    known = v.known;
  }

  flush-Inv :
      (t : ℕ) (old : Request)
      → lookup t w.tags ≡ some old
      → Inv w ids
      → Inv (record w { cancelled = set w.cancelled old.id true; tags = delete t w.tags }) ids
  flush-Inv t old held v = record {
    own = λ u r e. ground (arith, lookup-delete t u w.tags, v.own u r);
    live = λ u r e. ground (
      arith,
      lookup-delete t u w.tags,
      v.live u r,
      v.apart t u old r held,
      get_elem?-set w.cancelled old.id r.id true,
    );
    apart = λ u u' r q e f g.
        ground (arith, lookup-delete t u w.tags, lookup-delete t u' w.tags, v.apart u u' r q);
    once = v.once;
    known = λ i le. v.known i (rw (length-set w.cancelled old.id true) at le);
  }

pub Begun-Inv : {w w' : Wire} {ids : List ℕ} → Begun w w' → Inv w ids → Inv w' ids
Begun-Inv (same e) v = rw e v
Begun-Inv (reset e) v = rw e (reset-Inv v)
Begun-Inv (flushed t old held e) v = rw e (flush-Inv t old held v)

-- The handler is done, and has not answered.
drop-Inv : (i : ℕ) {w : Wire} {ids : List ℕ} → Inv w (i ∷ ids) → Inv w ids
drop-Inv i v = record {
  own = v.own;
  live = v.live;
  apart = v.apart;
  once = λ j. ground (arith, v.once j);
  known = λ j le. ground (arith, v.known j le);
}

answer-Inv :
    (i : ℕ) (m : Response) {w : Wire} {ids : List ℕ}
    → Inv w (i ∷ ids)
    → Inv (record w { sent = w.sent ++ (record { request = i; response = m }) ∷ [] }) ids
answer-Inv i m {w} v = record {
  own = v.own;
  live = v.live;
  apart = v.apart;
  once = λ j. ground (arith, v.once j, count-sent j w.sent (record { request = i; response = m }));
  known = λ j le.
      ground (arith, v.known j le, count-sent j w.sent (record { request = i; response = m }));
}

pub Answered-Inv :
    {rs : Request} {w w' : Wire} {ids : List ℕ}
    → Answered rs w w'
    → Inv w (rs.id ∷ ids)
    → Inv w' ids
Answered-Inv {rs} (silent e) v = rw e (drop-Inv rs.id v)
Answered-Inv {rs} (wrote m d e) v = rw e (delete-Inv rs.tag (answer-Inv rs.id m v))
Answered-Inv {rs} (lost d e) v = rw e (delete-Inv rs.tag (drop-Inv rs.id v))

pub Handled-Inv :
    {rs : Request} {w w' : Wire} {ids : List ℕ} → Handled rs w w' → Inv w (rs.id ∷ ids) → Inv w' ids
Handled-Inv h v = Answered-Inv h.answered (Begun-Inv h.begun v)

-- The order of the outstanding requests does not matter.
pub reorder-Inv :
    {w : Wire} {ids ids' : List ℕ} → ((i : ℕ) → count i ids' ≡ count i ids) → Inv w ids → Inv w ids'
reorder-Inv {w} {ids} {ids'} e v = record {
  own = v.own;
  live = v.live;
  apart = v.apart;
  once = λ j. omega (arith, v.once j, e j);
  known = λ j le. omega (arith, v.known j le, e j);
}
