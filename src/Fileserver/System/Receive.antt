-- ===== src/Fileserver/System/Receive.antt =====
-- `received` keeps the invariant: a new request is live, and takes its tag from an older one only as
-- that is cancelled.
use qptools.Prelude.{
  get_elem?-set, get_elem?-append, get_elem?_lt, ℕ, ◌<◌, ◌≡◌, true, false, none, some, List, [],
  ◌∷◌, ◌++◌, arith, length, length-append, length-set,
}
use qptools.Prelude.Maps.{lookup, nat_key, lookup-insert}
use qptools.Fileserver.State.{Request}
use qptools.Fileserver.Wire.Effect.{Wire}
use qptools.Fileserver.System.Kept.{Kept, begin, claimed, taken}
use qptools.Fileserver.System.Inv.{Inv, Handled-Inv, reorder-Inv}

module _ {w : Wire} {ids : List ℕ} (rs : Request) (new : rs.id ≡ length w.cancelled) where
  begin-Inv : Inv w ids → Inv (begin rs w) (rs.id ∷ ids)
  begin-Inv v = record {
    own = v.own;
    live = λ t r e. ground (
      arith,
      v.live t r e,
      get_elem?-append w.cancelled false r.id,
      get_elem?_lt w.cancelled r.id false,
    );
    apart = v.apart;
    once = λ i. ground (arith, v.once i, v.known i);
    known = λ i le. ground (arith, length-append w.cancelled (false ∷ []), v.known i);
  }

  old_lt : (t : ℕ) (r : Request) → Inv w ids → lookup t w.tags ≡ some r → r.id < length w.cancelled
  old_lt t r v e = get_elem?_lt w.cancelled r.id false (v.live t r e)

  claimed-Inv : lookup rs.tag w.tags ≡ none → Inv w ids → Inv (claimed rs w) (rs.id ∷ ids)
  claimed-Inv free v =
      let b = begin-Inv v in
      record {
        own = λ t r e. ground (arith, lookup-insert rs.tag t rs w.tags, v.own t r);
        live = λ t r e. ground (
          arith,
          lookup-insert rs.tag t rs w.tags,
          b.live t r,
          get_elem?-append w.cancelled false rs.id,
        );
        apart = λ t u r q e f g. ground (
          arith,
          lookup-insert rs.tag t rs w.tags,
          lookup-insert rs.tag u rs w.tags,
          v.apart t u r q,
          old_lt t r v,
          old_lt u q v,
        );
        once = b.once;
        known = b.known;
      }

  taken-Inv :
      (old : Request)
      → lookup rs.tag w.tags ≡ some old
      → Inv w ids
      → Inv (taken rs old w) (rs.id ∷ ids)
  taken-Inv old held v =
      let b = begin-Inv v in
      record {
        own = λ t r e. ground (arith, lookup-insert rs.tag t rs w.tags, v.own t r);
        live = λ t r e. ground (
          arith,
          lookup-insert rs.tag t rs w.tags,
          b.live t r,
          v.apart rs.tag t old r held,
          old_lt rs.tag old v held,
          get_elem?-append w.cancelled false rs.id,
          get_elem?-set (w.cancelled ++ false ∷ []) old.id rs.id true,
          get_elem?-set (w.cancelled ++ false ∷ []) old.id r.id true,
        );
        apart = λ t u r q e f g. ground (
          arith,
          lookup-insert rs.tag t rs w.tags,
          lookup-insert rs.tag u rs w.tags,
          v.apart t u r q,
          old_lt t r v,
          old_lt u q v,
        );
        once = b.once;
        known = λ i le. b.known i (rw (length-set (w.cancelled ++ false ∷ []) old.id true) at le);
      }

pub Inv-Kept : Kept Inv
Inv-Kept = record {
  at_begin = λ w ids rs new v. begin-Inv rs new v;
  at_claimed = λ w ids rs new free v. claimed-Inv rs new free v;
  at_taken = λ w ids rs old new held v. taken-Inv rs new old held v;
  at_handled = λ w w' ids rs h v. Handled-Inv h v;
  at_reorder = λ w ids ids' e v. reorder-Inv e v;
}
