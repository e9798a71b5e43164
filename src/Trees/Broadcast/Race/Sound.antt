-- ===== src/Trees/Broadcast/Race/Sound.antt =====
-- What every turn of a Push and a Close that run at once keeps.
use qptools.Prelude.{
  ℕ, ◌≤◌, ◌≡◌, refl, sym, ◌∙◌, Bool, true, false, ◌&&◌, Option, some, List, [], ◌∷◌, ◌++◌, arith,
  ◌==◌, if◌then◌else◌, get_elem?, set, get_elem?-set, Bool-cases, inl, inr,
}
use qptools.Trees.Broadcast.{Listener, Broadcast, deliver, deregister}
use qptools.Trees.Broadcast.Laws.{count, added, added-suc, deliver-get, count-deregister}
use qptools.Trees.Broadcast.Race.{
  Pushing, push_ahead, looping, push_over, Closing, close_ahead, leaving, close_over, Race, Turn,
  of_push, of_close, at, gone, holds_handle, holds_file, push_turn, close_turn, run,
}

-- The handles that Push has still to reach.
abbrev pub unreached : Pushing → List ℕ → List ℕ
unreached push_ahead files = files
unreached (looping rest) files = rest
unreached push_over files = []

-- The handle that is closed: only its queue depends on the order.
abbrev pub Own : Listener → Closing → Option Listener → Type 0
Own l close_ahead o = (l' : Listener) × (o ≡ some l') × (l'.consumer ≡ l.consumer)
Own l leaving o = (o ≡ some (gone l)) × (l.consumer ≡ true)
Own l close_over o = o ≡ some (gone l)

abbrev pub is_over : Closing → Bool
is_over close_ahead = false
is_over leaving = false
is_over close_over = true

-- The handles that a Close of h leaves on the list.
abbrev pub staying : (h : ℕ) → Listener → List ℕ → List ℕ
staying h l files = if l.consumer then deregister h files else files

module _ (m : List ℕ) (h : ℕ) (b : Broadcast) (l : Listener) where
  -- A race that began with b: the other handles will have got the message as often as from Push alone.
  pub record Sound (r : Race) : Type 0 where
    pub file : r.broadcast.file ≡ b.file
    pub files : r.broadcast.files ≡ (if is_over r.closing then staying h l b.files else b.files)
    pub others :
        (g : ℕ)
        → (g == h) ≡ false
        → added
            (count g (unreached r.pushing r.broadcast.files))
            m
            (get_elem? r.broadcast.handles g)
          ≡ added (count g b.files) m (get_elem? b.handles g)
    pub own : Own l r.closing (get_elem? r.broadcast.handles h)
    pub ahead :
        count h (unreached r.pushing r.broadcast.files)
        ≤ (if is_over r.closing then 0 else count h b.files)

  own_delivered :
      (f : ℕ) (rest : List ℕ) (x : Broadcast) (c : Closing)
      → (f == h) ≡ true
      → holds_handle c ≡ false
      → Sound (at x (looping (f ∷ rest)) c)
      → Own l c (added 1 m (get_elem? x.handles h))
  own_delivered f rest x close_ahead e free s =
      let (l', here, same) = s.own in rw here (record l' { queue = l'.queue ++ m ∷ [] }, refl, same)
  own_delivered f rest x leaving e free s = absurd (cc)
  own_delivered f rest x close_over e free s = absurd (ground (arith, s.ahead))

  -- The message is delivered to a handle that is not locked.
  delivered :
      (f : ℕ) (rest : List ℕ) (x : Broadcast) (c : Closing)
      → (f == h && holds_handle c) ≡ false
      → Sound (at x (looping (f ∷ rest)) c)
      → Sound (at (record x { handles = deliver f m x.handles }) (looping rest) c)
  delivered f rest x c free s = record {
    file = s.file;
    files = s.files;
    others = λ g other. elim (Bool-cases (f == g)) [
      | inl same ↦
          rw (deliver-get f g m x.handles, same)
            (added-suc (count g rest) m (get_elem? x.handles g) ∙ (rw same at (s.others g other)))
      | inr e ↦ rw (deliver-get f g m x.handles, e) (rw e at (s.others g other))
    ];
    own = elim (Bool-cases (f == h)) [
      | inl e ↦
          rw (deliver-get f h m x.handles, e)
            (own_delivered f rest x c e (ground (arith, e, free)) s)
      | inr e ↦ rw (deliver-get f h m x.handles, e) s.own
    ];
    ahead = ground (arith, s.ahead);
  }

  push_turn-Sound :
      (x : Broadcast) (p : Pushing) (c : Closing)
      → Sound (at x p c)
      → Sound (push_turn m h p (at x p c))
  push_turn-Sound x push_ahead c s = record {
    file = s.file;
    files = s.files;
    others = s.others;
    own = s.own;
    ahead = s.ahead;
  }
  push_turn-Sound x (looping []) c s = record {
    file = s.file;
    files = s.files;
    others = s.others;
    own = s.own;
    ahead = s.ahead;
  }
  push_turn-Sound x (looping (f ∷ rest)) c s = elim (Bool-cases (f == h && holds_handle c)) [
    | inl locked ↦ rw locked s
    | inr free ↦ rw free (delivered f rest x c free s)
  ]
  push_turn-Sound x push_over c s = s

  pub get-set_other :
      (hs : List Listener) (v : Listener) (g : ℕ)
      → (g == h) ≡ false
      → get_elem? (set hs h v) g ≡ get_elem? hs g
  get-set_other hs v g other = ground (arith, get_elem?-set hs h g v, other)

  pub set-gone :
      (hs : List Listener) (l' : Listener)
      → get_elem? hs h ≡ some l'
      → l'.consumer ≡ l.consumer
      → get_elem? (set hs h (gone l')) h ≡ some (gone l)
  set-gone hs l' here same = ground (arith, get_elem?-set hs h h (gone l'), here, same)

  pub count-deregister_other :
      (g : ℕ) (fs : List ℕ) → (g == h) ≡ false → count g (deregister h fs) ≡ count g fs
  count-deregister_other g fs other = ground (arith, count-deregister h g fs, other)

  module _ (once : count h b.files ≤ (if l.consumer then 1 else 0)) where
    -- Close takes the lock of the handle.
    left-Sound :
        (x : Broadcast) (p : Pushing) (l' : Listener) (c : Bool)
        → get_elem? x.handles h ≡ some l'
        → l'.consumer ≡ c
        → l.consumer ≡ c
        → Sound (at x p close_ahead)
        → Sound (
            at
              (record x { handles = set x.handles h (gone l') })
              p
              (if c then leaving else close_over))
    left-Sound x p l' true here mine its s = record {
      file = s.file;
      files = s.files;
      others = λ g other. rw (get-set_other x.handles (gone l') g other) (s.others g other);
      own = (set-gone x.handles l' here (mine ∙ sym its), its);
      ahead = s.ahead;
    }
    left-Sound x p l' false here mine its s = record {
      file = s.file;
      files = rw its s.files;
      others = λ g other. rw (get-set_other x.handles (gone l') g other) (s.others g other);
      own = set-gone x.handles l' here (mine ∙ sym its);
      ahead = ground (arith, once, its, s.ahead);
    }

    -- Close takes the lock of the file, which Push does not hold.
    deregistered :
        (x : Broadcast) (p : Pushing)
        → holds_file p ≡ false
        → Sound (at x p leaving)
        → Sound (at (record x { files = deregister h x.files }) p close_over)
    deregistered x push_ahead e s = record {
      file = s.file;
      files = rw (s.own.1, s.files);
      others = λ g other. rw (count-deregister_other g x.files other) (s.others g other);
      own = s.own.0;
      ahead = ground (arith, once, s.ahead, count-deregister h h x.files);
    }
    deregistered x (looping rest) e s = absurd (cc)
    deregistered x push_over e s = record {
      file = s.file;
      files = rw (s.own.1, s.files);
      others = s.others;
      own = s.own.0;
      ahead = omega arith;
    }

    close_turn-Sound :
        (x : Broadcast) (p : Pushing) (c : Closing)
        → Sound (at x p c)
        → Sound (close_turn h c (at x p c))
    close_turn-Sound x p close_ahead s =
        let (l', here, same) = s.own in
        rw here (left-Sound x p l' l'.consumer here refl (sym same) s)
    close_turn-Sound x p leaving s = elim (Bool-cases (holds_file p)) [
      | inl held ↦ rw held s
      | inr free ↦ rw free (deregistered x p free s)
    ]
    close_turn-Sound x p close_over s = s

    pub run-Sound : (ts : List Turn) (r : Race) → Sound r → Sound (run m h ts r)
    unfolding run
    run-Sound [] r s = s
    run-Sound (of_push ∷ ts) r s =
        run-Sound ts _ (push_turn-Sound r.broadcast r.pushing r.closing s)
    run-Sound (of_close ∷ ts) r s =
        run-Sound ts _ (close_turn-Sound r.broadcast r.pushing r.closing s)
