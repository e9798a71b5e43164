-- ===== src/Client/Tests.antt =====
-- Concrete peers, and the theorems on them.
use qptools.Prelude.{
  ℕ, zero, suc, ap, ◌<◌, ◌≡◌, refl, Option, none, some, List, [], ◌∷◌, ◌++◌, arith, length, take,
  drop, length-take, length-drop, pos,
}
use qptools.Prelude.Maps.{Map, lookup, nat_key}
use qptools.Act.{reason, Outcome, ok, err, panicked}
use qptools.Qp.{Qp, Qid, Request, Reply, r_walk}
use qptools.Tests.{constants}
use qptools.Trees.Slice.{Slice}
use qptools.Client.Rpc.{Peer, Client, pool, new_client, check, call}
use qptools.Client.Rpc.Laws.{IsReady, IsAnswering, call_lem}
use qptools.Client.Fid.{as_walk, walk_fid}
use qptools.Client.Fid.Laws.{Walked, walk_fid_lem}
use qptools.Client.Connection.{Connection}
use qptools.Client.Wrapped.{read_all, write_to}
use qptools.Client.Wrapped.Reads.{Serves, read_all_lem}
use qptools.Client.Wrapped.Writes.{IsTaking, write_to_ragged}

abbrev pub qp : Qp
qp = constants (λ m. 20)

-- A peer that answers every message with one qid, and one that takes none.
abbrev a_qid : Qid
a_qid = record { kind = 0; version = 1; path = 7 }

abbrev walker : Peer (Unit {0})
walker = record { write = λ m w. (ok tt, w); arrival = λ t w. (ok (some (r_walk (a_qid ∷ []))), w) }

abbrev cut_off : Peer (Unit {0})
cut_off = record walker { write = λ m w. (err (reason "broken pipe"), w) }

walker-IsAnswering : IsAnswering walker
walker-IsAnswering = record {
  writes = λ m w. refl;
  answers = λ t w. (some (r_walk (a_qid ∷ [])), refl);
}

-- A client whose fid 0 is in use.
abbrev in_use : Map ℕ ℕ
in_use = (0, 0) ∷ []

abbrev attached : Client (Unit {0})
attached = record (new_client tt) { fids = some in_use }

attached-IsReady : IsReady attached.transport
unfolding lookup
attached-IsReady = record {
  whole = record { open_channel = λ t ch e. ground arith; apart = λ t u ch e f. ground arith };
  next_val = omega arith;
  room = omega arith;
}

abbrev called : Outcome (List Qid) × Client (Unit {0})
called = call walker 65535 (λ t. Request.walk t 0 1 ("notes" ∷ [])) as_walk attached

call_lem_example :
    (t : ℕ) × (w : Unit {0}) × (got : Option Reply) × (lookup t attached.transport.queue ≡ none)
    × ((walker.arrival t w).0 ≡ ok got)
    × (called.0 ≡ (check as_walk got called.1).0)
    × (called.1.fids ≡ attached.fids)
    × IsReady called.1.transport
    × ((u : ℕ) → lookup u called.1.transport.queue ≡ lookup u attached.transport.queue)
call_lem_example =
    call_lem walker (λ t. Request.walk t 0 1 ("notes" ∷ [])) as_walk attached walker-IsAnswering
      attached-IsReady (λ t. refl)

abbrev walked : Outcome (Option ℕ × List Qid) × Client (Unit {0})
walked = walk_fid qp walker 0 ("notes" ∷ []) attached

walk_fid_lem_example :
    (f : ℕ) × (lookup f in_use ≡ none)
    × (f < qp.nofid)
    × Walked f ("notes" ∷ []) in_use (pool walked.1) walked.0
    × IsReady walked.1.transport
    × ((u : ℕ) → lookup u walked.1.transport.queue ≡ lookup u attached.transport.queue)
walk_fid_lem_example =
    walk_fid_lem qp walker refl 0 ("notes" ∷ []) attached in_use walker-IsAnswering attached-IsReady
      refl (omega arith)

abbrev broken_walk : Outcome (Option ℕ × List Qid) × Client (Unit {0})
broken_walk = walk_fid qp cut_off 0 ("notes" ∷ []) attached

-- A fid whose content is served in pieces of at most `size` bytes.
abbrev pub reader : (size : ℕ) (content : List ℕ) → Connection (Unit {0})
reader size content = record {
  max_size = λ s. size;
  walk = λ fid names s. (ok (some 1, []), s);
  open_mode = λ fid mode s. (ok (a_qid, 0), s);
  make = λ fid name perm mode s. (ok (a_qid, 0), s);
  read = λ fid offset count s. (ok (take count (drop offset content)), s);
  write = λ fid offset b s. (ok (length b), s);
  stat = λ fid s. (err (reason "no stat"), s);
  write_stat = λ fid stat s. (ok tt, s);
  clunk = λ fid s. (ok tt, s);
  remove = λ fid s. (ok tt, s);
}

take-length-take : (n : ℕ) (xs : List ℕ) → take n xs ≡ take (length (take n xs)) xs
take-length-take zero xs = refl
take-length-take (suc n) [] = refl
take-length-take (suc n) (x ∷ xs) = ap (◌∷◌ x) (take-length-take n xs)

pub reader-Serves :
    (size : ℕ) (content : List ℕ)
    → 0 < size
    → Serves (reader size content) 1 content (λ s. Unit {0})
reader-Serves size content h = record {
  part = λ offset s fine. (
    take size (drop offset content),
    s,
    refl,
    tt,
    take-length-take size (drop offset content),
    λ inside. omega (arith, length-take size (drop offset content), length-drop offset content),
  );
}

abbrev five : List ℕ
five = 1 ∷ 2 ∷ 3 ∷ 4 ∷ 5 ∷ []

read_all_lem_example :
    (s' : Unit {0}) × (read_all (reader 2 five) 6 1 tt ≡ (ok (five, none), s')) × Unit {0}
read_all_lem_example =
    read_all_lem (reader 2 five) 1 five (λ s. Unit {0}) (reader-Serves 2 five (omega arith))
      (omega arith) 6 tt tt (omega arith)

-- A file that keeps all that is written to it, with messages of three bytes.
abbrev writer : Connection (List ℕ)
writer = record {
  max_size = λ s. 26;
  walk = λ fid names s. (ok (none, []), s);
  open_mode = λ fid mode s. (ok (a_qid, 0), s);
  make = λ fid name perm mode s. (ok (a_qid, 0), s);
  read = λ fid offset count s. (ok [], s);
  write = λ fid offset b s. (ok (length b), s ++ b);
  stat = λ fid s. (err (reason "no stat"), s);
  write_stat = λ fid stat s. (ok tt, s);
  clunk = λ fid s. (ok tt, s);
  remove = λ fid s. (ok tt, s);
}

writer-IsTaking : IsTaking writer 1 (λ s. s)
writer-IsTaking = record { takes = λ offset b s. (refl, refl) }

abbrev six : Slice
six = record { array = 1 ∷ 2 ∷ 3 ∷ 4 ∷ 5 ∷ 6 ∷ []; len = 6 }

abbrev four_of_six : Slice
four_of_six = record six { len = 4 }

write_to_ragged_example : (write_to writer 23 5 1 four_of_six (pos 0) []).0 ≡ panicked
write_to_ragged_example =
    write_to_ragged writer 1 (λ s. s) writer-IsTaking 23 5 0 four_of_six [] (omega arith)
      (omega arith) (omega arith) (omega arith)
