-- ===== src/Trees/Broadcast/Fifo.antt =====
-- Every handle that listens gets every message once, in the order of the pushes.
use qptools.Prelude.{
  ℕ, zero, suc, ◌≡◌, refl, sym, ap, ◌∙◌, Bool, true, false, Option, none, some, List, [], ◌∷◌, ◌++◌,
  append-nil, append_assoc, arith, if◌then◌else◌, length, get_elem?, set, get_elem?-set, Bool-cases,
  inl, inr,
}
use qptools.Act.{Act, ok, pure, ◌>>=◌}
use qptools.Qp.{Qp}
use qptools.Trees.File.{File}
use qptools.Trees.Broadcast.{Listener, Broadcast, push, fetch}
use qptools.Trees.Broadcast.Laws.{
  BroadcastReach, pushed, registered, listens, added, push_each-get, reachable-BroadcastInv,
}

-- The messages, one after the other, and the reads of a handle, as many as n.
abbrev pub push_all : List (List ℕ) → Broadcast → Broadcast
push_all [] b = b
push_all (m ∷ ms) b = push_all ms (push m b).1

abbrev pub fetch_all : (h n : ℕ) → Act Broadcast (List (List ℕ))
fetch_all h zero = pure []
fetch_all h (suc n) = do m ← fetch h; ms ← fetch_all h n; pure (m ∷ ms)

-- What a listener has got in the end.
abbrev pub appended : List (List ℕ) → Option Listener → Option Listener
appended ms none = none
appended ms (some l) =
    if listens (some l) then some (record l { queue = l.queue ++ ms }) else some l

added-appended :
    (m : List ℕ) (o : Option Listener)
    → added (if listens o then 1 else 0) m o ≡ appended (m ∷ []) o
added-appended m none = refl
added-appended m (some l) = elim (Bool-cases (listens (some l))) [
  | inl yes_it_does ↦ rw yes_it_does refl
  | inr deaf ↦ rw deaf (ap (λ q. some (record l { queue = q })) (append-nil l.queue))
]

appended-append :
    (m : List ℕ) (ms : List (List ℕ)) (o : Option Listener)
    → appended ms (appended (m ∷ []) o) ≡ appended (m ∷ ms) o
appended-append m ms none = refl
appended-append m ms (some l) = elim (Bool-cases (listens (some l))) [
  | inl hearing ↦
      rw (hearing, hearing)
        (ap (λ q. some (record l { queue = q })) (append_assoc l.queue (m ∷ []) ms))
  | inr deaf ↦ rw (deaf, deaf) refl
]

appended-nil : (o : Option Listener) → appended [] o ≡ o
appended-nil none = refl
appended-nil (some l) = elim (Bool-cases (listens (some l))) [
  | inl hearing ↦ rw hearing (ap (λ q. some (record l { queue = q })) (append-nil l.queue))
  | inr deaf ↦ rw deaf refl
]

push-get :
    {qp : Qp} {file : File} (b : Broadcast) (m : List ℕ) (h : ℕ)
    → BroadcastReach qp file b
    → get_elem? (push m b).1.handles h ≡ appended (m ∷ []) (get_elem? b.handles h)
unfolding push
push-get b m h r = elim (reachable-BroadcastInv r) [
  | registered inv ↦
      rw (push_each-get h m b.files b.handles, inv h) (added-appended m (get_elem? b.handles h))
]

push_all-get :
    {qp : Qp} {file : File} (ms : List (List ℕ)) (b : Broadcast) (h : ℕ)
    → BroadcastReach qp file b
    → get_elem? (push_all ms b).handles h ≡ appended ms (get_elem? b.handles h)
push_all-get [] b h r = sym (appended-nil (get_elem? b.handles h))
push_all-get (m ∷ ms) b h r =
    push_all-get ms (push m b).1 h (pushed m r)
    ∙ ap (appended ms) (push-get b m h r)
    ∙ appended-append m ms (get_elem? b.handles h)

fetch_all_lem :
    (h : ℕ) (c : Bool) (q : List (List ℕ)) (b : Broadcast)
    → get_elem? b.handles h ≡ some (record { consumer = c; queue = q; unwanted = false })
    → (b' : Broadcast) × (fetch_all h (length q) b ≡ (ok q, b'))
unfolding fetch ◌>>=◌
fetch_all_lem h c [] b here = (b, refl)
fetch_all_lem h c (m ∷ ms) b here =
    let l : Listener = record { consumer = c; queue = ms; unwanted = false } in
    let b₁ : Broadcast = record b { handles = set b.handles h l } in
    let (b', rest) =
      fetch_all_lem h c ms b₁ (ground (arith, here, get_elem?-set b.handles h h l)) in
    (b', rw (here, rest))

-- In every state that opens, pushes, reads and closes can lead to, in any order: a handle that was
-- opened for reading and is not closed reads, after any further messages were pushed, exactly the
-- ones that it had not read yet and then these, each once and in the order of the pushes; and these
-- pushes change no handle that was not opened for reading or is closed.
pub broadcast_fifo :
    {qp : Qp} {file : File} (ms : List (List ℕ)) (b : Broadcast) (h : ℕ) (l : Listener)
    → BroadcastReach qp file b
    → get_elem? b.handles h ≡ some l
    → (listens (some l) ≡ true
        → (b' : Broadcast) × (fetch_all h (length (l.queue ++ ms)) (push_all ms b)
            ≡ (ok (l.queue ++ ms), b')))
      × (listens (some l) ≡ false → get_elem? (push_all ms b).handles h ≡ some l)
broadcast_fifo ms b h l r here =
    let after = push_all-get ms b h r ∙ ap (appended ms) here in
    (
      λ hearing.
          let open_still : (l.unwanted ≡ false) = ground (arith, hearing) in
          fetch_all_lem h l.consumer (l.queue ++ ms) (push_all ms b) (
            after
            ∙ rw hearing
                (ap (λ u. some (record l { queue = l.queue ++ ms; unwanted = u })) open_still)),
      λ deaf. after ∙ rw deaf refl,
    )
