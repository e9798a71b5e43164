-- ===== src/Trees/Broadcast/Race/Serial.antt =====
-- What a Push and a Close that run at once come to.
use qptools.Prelude.{
  ℕ, ◌≤◌, ◌≡◌, refl, sym, ap, ◌∙◌, false, some, List, ◌++◌, arith, ◌==◌, if◌then◌else◌, replicate,
  get_elem?, set, ext, Bool-cases, inl, inr,
}
use mathlib.Core.Path.{subst}
use qptools.Qp.{Qp}
use qptools.Trees.File.{File}
use qptools.Trees.Broadcast.{Listener, Broadcast, push, push_each, close_listener}
use qptools.Trees.Broadcast.Laws.{
  BroadcastReach, registered, count, added, added-zero, push_each-get, count-deregister,
  reachable-BroadcastInv,
}
use qptools.Trees.Broadcast.Race.{push_over, close_over, Race, Turn, at, start, gone, run}
use qptools.Trees.Broadcast.Race.Sound.{
  Sound, staying, get-set_other, set-gone, count-deregister_other, run-Sound,
}

module _ (m : List ℕ) (h : ℕ) (b : Broadcast) (l : Listener) where
  -- When both are over, nothing is left open.
  Sound-unique :
      (x y : Broadcast)
      → Sound m h b l (at x push_over close_over)
      → Sound m h b l (at y push_over close_over)
      → x ≡ y
  Sound-unique x y s t = λ i. record {
    file = (s.file ∙ sym t.file) i;
    files = (s.files ∙ sym t.files) i;
    handles = same i;
  }
    where
      handle : (g : ℕ) → get_elem? x.handles g ≡ get_elem? y.handles g
      handle g = elim (Bool-cases (g == h)) [
        | inl e ↦ let q : (g ≡ h) = ground (arith, e) in rw q (s.own ∙ sym t.own)
        | inr other ↦
            sym (added-zero m _) ∙ s.others g other ∙ sym (t.others g other) ∙ added-zero m _
      ]

      same : x.handles ≡ y.handles
      same = ext x.handles y.handles handle

  Sound-ended :
      (r : Race)
      → r.pushing ≡ push_over
      → r.closing ≡ close_over
      → Sound m h b l r
      → Sound m h b l (at r.broadcast push_over close_over)
  Sound-ended r p c s =
      let e : (r ≡ at r.broadcast push_over close_over) =
        λ i. record { broadcast = r.broadcast; pushing = p i; closing = c i } in
      subst (Sound m h b l) e s

  closed :
      (y : Broadcast) (l' : Listener)
      → get_elem? y.handles h ≡ some l'
      → (close_listener h y).1
        ≡ record y { files = staying h l' y.files; handles = set y.handles h (gone l') }
  unfolding close_listener
  closed y l' here = rw here refl

  module _ (here : get_elem? b.handles h ≡ some l)
      (once : count h b.files ≤ (if l.consumer then 1 else 0)) where
    pub start-Sound : Sound m h b l (start b)
    start-Sound = record {
      file = refl;
      files = refl;
      others = λ g other. refl;
      own = (l, here, refl);
      ahead = ground arith;
    }

    abbrev pushed_to : Listener
    pushed_to = record l { queue = l.queue ++ replicate (count h b.files) m }

    pushed_there : get_elem? (push_each b.files m b.handles) h ≡ some pushed_to
    pushed_there = push_each-get h m b.files b.handles ∙ ap (added (count h b.files) m) here

    count-staying_other :
        (g : ℕ) → (g == h) ≡ false → count g (staying h l b.files) ≡ count g b.files
    count-staying_other g other = elim (Bool-cases l.consumer) [
      | inl c ↦ rw c (count-deregister_other m h b l g b.files other)
      | inr c ↦ rw c refl
    ]

    count-staying : count h (staying h l b.files) ≡ 0
    count-staying = elim (Bool-cases l.consumer) [
      | inl c ↦ rw c (ground (arith, once, c, count-deregister h h b.files))
      | inr c ↦ rw c (ground (arith, once, c))
    ]

    push-close-Sound : Sound m h b l (at (close_listener h (push m b).1).1 push_over close_over)
    unfolding push
    push-close-Sound = rw (closed (push m b).1 pushed_to pushed_there) (record {
      file = refl;
      files = refl;
      others = λ g other.
          rw
            (
              get-set_other m h b l (push_each b.files m b.handles) (gone pushed_to) g other,
              push_each-get g m b.files b.handles,
            )
            (added-zero m (added (count g b.files) m (get_elem? b.handles g)));
      own = set-gone m h b l (push_each b.files m b.handles) pushed_to pushed_there refl;
      ahead = omega arith;
    })

    close-push-Sound : Sound m h b l (at (push m (close_listener h b).1).1 push_over close_over)
    unfolding push
    close-push-Sound = rw (closed b l here) (record {
      file = refl;
      files = refl;
      others = λ g other.
          rw
            (
              push_each-get g m (staying h l b.files) (set b.handles h (gone l)),
              get-set_other m h b l b.handles (gone l) g other,
              count-staying_other g other,
            )
            (added-zero m (added (count g b.files) m (get_elem? b.handles g)));
      own =
          rw
            (
              push_each-get h m (staying h l b.files) (set b.handles h (gone l)),
              set-gone m h b l b.handles l here refl,
              count-staying,
            )
            refl;
      ahead = omega arith;
    })

-- A handle is on the list once at most, and only if it was opened for reading.
pub registered_once :
    {qp : Qp} {file : File} {b : Broadcast} (h : ℕ) (l : Listener)
    → BroadcastReach qp file b
    → get_elem? b.handles h ≡ some l
    → count h b.files ≤ (if l.consumer then 1 else 0)
registered_once h l r here = elim (reachable-BroadcastInv r) [
  | registered inv ↦ ground (arith, inv h, here)
]

-- A Push and a Close of one handle, at once, in every state that opens, pushes, reads and closes can
-- lead to, and in every order of their turns: if both come to an end, the file and all its handles
-- are as after the Push and then the Close, and as after the Close and then the Push.
pub race_serial :
    {qp : Qp} {file : File} (m : List ℕ) (h : ℕ) (b : Broadcast) (l : Listener) (ts : List Turn)
    → BroadcastReach qp file b
    → get_elem? b.handles h ≡ some l
    → (run m h ts (start b)).pushing ≡ push_over
    → (run m h ts (start b)).closing ≡ close_over
    → ((run m h ts (start b)).broadcast ≡ (close_listener h (push m b).1).1)
      × ((run m h ts (start b)).broadcast ≡ (push m (close_listener h b).1).1)
race_serial m h b l ts r here pushed shut =
    let once = registered_once h l r here in
    let end = run m h ts (start b) in
    let sound =
      Sound-ended m h b l end pushed shut
        (run-Sound m h b l once ts (start b) (start-Sound m h b l here once)) in
    (
      Sound-unique m h b l end.broadcast _ sound (push-close-Sound m h b l here once),
      Sound-unique m h b l end.broadcast _ sound (close-push-Sound m h b l here once),
    )
