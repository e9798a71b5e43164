-- ===== src/Fileserver/System/Flushed.antt =====
-- A request that was cancelled, by flush or by a newer request on its tag, is never answered again.
use qptools.Prelude.{
  get_elem?-set, get_elem?-append, get_elem?_lt, ℕ, ◌≡◌, refl, Bool, true, false, some, List, [],
  ◌∷◌, ◌++◌, arith, get_elem?,
}
use qptools.Prelude.Maps.{lookup, nat_key}
use qptools.Fileserver.State.{Request, Server, Host}
use qptools.Fileserver.Wire.Effect.{Wire, wire, Answered, silent, wrote, lost}
use qptools.Fileserver.Handlers
use qptools.Fileserver.Handlers.{cancel_tag}
use qptools.Act.{◌>>=◌}
use qptools.Fileserver.Handlers.Handled.{Begun, same, reset, flushed, flush-Answered}
use qptools.Fileserver.System.{Job, System, Reach, count, answers}
use qptools.Fileserver.System.Inv.{sent_ids, count-sent}
use qptools.Fileserver.System.Kept.{Kept, Reach-Kept}

-- Request `i` is cancelled, and has `n` answers.
abbrev Hushed : ℕ → ℕ → Wire → List ℕ → Type 0
Hushed i n w ids = (get_elem? w.cancelled i ≡ some true) × (count i (sent_ids w) ≡ n)

module _ (i n : ℕ) {w : Wire} where
  Begun-Hushed : {w' : Wire} → Begun w w' → Hushed i n w [] → Hushed i n w' []
  Begun-Hushed (same e) h = rw e h
  Begun-Hushed (reset e) h = rw e h
  Begun-Hushed (flushed t old held e) h =
      rw e (ground (arith, get_elem?-set w.cancelled old.id i true), h.1)

  Answered-Hushed :
      {rs : Request} {w' : Wire} → Answered rs w w' → Hushed i n w [] → Hushed i n w' []
  Answered-Hushed (silent e) h = rw e h
  Answered-Hushed {rs} (wrote m d e) h =
      rw e (h.0, ground (arith, count-sent i w.sent (record { request = rs.id; response = m })))
  Answered-Hushed (lost d e) h = rw e h

grown :
    (i : ℕ) (cs : List Bool)
    → get_elem? cs i ≡ some true
    → get_elem? (cs ++ false ∷ []) i ≡ some true
grown i cs h = ground (arith, get_elem?-append cs false i, get_elem?_lt cs i true)

Hushed-Kept : (i n : ℕ) → Kept (Hushed i n)
Hushed-Kept i n = record {
  at_begin = λ w ids rs new h. (grown i w.cancelled h.0, h.1);
  at_claimed = λ w ids rs new free h. (grown i w.cancelled h.0, h.1);
  at_taken = λ w ids rs old new held h. (
    ground
        (arith, get_elem?-set (w.cancelled ++ false ∷ []) old.id i true, grown i w.cancelled h.0),
    h.1,
  );
  at_handled = λ w w' ids rs d h. Answered-Hushed i n d.answered (Begun-Hushed i n d.begun h);
  at_reorder = λ w ids ids' e h. h;
}

-- A request that is cancelled stays cancelled and gets no further response, in whatever way the
-- server goes on.
pub cancelled-silent :
    {W : Type 0} (host : Host W) (s t : System W) (i : ℕ)
    → get_elem? s.server.cancelled i ≡ some true
    → Reach host s t
    → (answers i t.server ≡ answers i s.server) × (get_elem? t.server.cancelled i ≡ some true)
cancelled-silent host s t i gone r =
    let h = Reach-Kept (Hushed-Kept i (answers i s.server)) host r (gone, refl) in (h.1, h.0)

module _ {W : Type 0} (host : Host W) (old_tag : ℕ) (rs old : Request) (s : Server W) where
  flush-Hushed :
      lookup old_tag s.tags ≡ some old
      → get_elem? s.cancelled old.id ≡ some false
      → Hushed old.id (answers old.id s) (wire (Handlers.flush host old_tag rs s).1) []
  unfolding cancel_tag ◌>>=◌
  flush-Hushed held live =
      Answered-Hushed old.id (answers old.id s) (flush-Answered host rs old_tag s)
        (rw (held, cancel_tag) (ground (arith, get_elem?-set s.cancelled old.id old.id true), refl))

  -- If a tag is held by a request that is not cancelled, then after a Tflush of that tag has been
  -- handled the request gets no further response, in whatever way the server goes on.
  pub flush-silent :
      (jobs : List Job) (t : System W)
      → lookup old_tag s.tags ≡ some old
      → get_elem? s.cancelled old.id ≡ some false
      → Reach host (record { server = (Handlers.flush host old_tag rs s).1; jobs = jobs }) t
      → answers old.id t.server ≡ answers old.id s
  flush-silent jobs t held live r =
      (Reach-Kept (Hushed-Kept old.id (answers old.id s)) host r (flush-Hushed held live)).1
