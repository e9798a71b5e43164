-- ===== src/Trees/Broadcast/Laws.antt =====
-- Who is on the list of a BroadcastFile, and what a message reaches.
use qptools.Prelude.{
  ℕ, suc, ◌-◌, ◌≡◌, refl, sym, ap, Bool, true, false, not, ◌&&◌, String, Option, none, some, List,
  [], ◌∷◌, ◌++◌, append-nil, append_assoc, arith, ◌==◌, if◌then◌else◌, length, get_elem?, replicate,
  get_elem?-set, get_elem?-append, get_elem?_end, Bool-cases, Option-cases, inl, inr,
}
use qptools.Qp.{Qp}
use qptools.Trees.File.{File, can_open}
use qptools.Trees.Broadcast.{
  Listener, Broadcast, new_broadcast, hears, open_broadcast, deliver, push_each, push, fetch,
  fetch_from, deregister, close_listener,
}

-- A handle that was opened for reading and is not closed.
abbrev pub listens : Option Listener → Bool
listens none = false
listens (some l) = l.consumer && not l.unwanted

abbrev pub count : ℕ → List ℕ → ℕ
count h [] = 0
count h (f ∷ fs) = let n = count h fs in if f == h then suc n else n

-- The handles on the list are those that listen, each once.
pub data BroadcastInv (b : Broadcast) : Type 0 where
  registered :
      ((h : ℕ) → count h b.files ≡ (if listens (get_elem? b.handles h) then 1 else 0))
      → BroadcastInv b

-- What the methods do, one after the other, by whoever they are called.
pub data BroadcastReach (qp : Qp) (file : File) : Broadcast → Type 0 where
  created : BroadcastReach qp file (new_broadcast file)
  opened :
      {b : Broadcast} (now : ℕ) (user : String) (mode : ℕ)
      → BroadcastReach qp file b
      → BroadcastReach qp file (open_broadcast qp now user mode b).1
  pushed :
      {b : Broadcast} (m : List ℕ) → BroadcastReach qp file b → BroadcastReach qp file (push m b).1
  fetched :
      {b : Broadcast} (h : ℕ) → BroadcastReach qp file b → BroadcastReach qp file (fetch h b).1
  shut_down :
      {b : Broadcast} (h : ℕ)
      → BroadcastReach qp file b
      → BroadcastReach qp file (close_listener h b).1

count-append :
    (h f : ℕ) (fs : List ℕ)
    → count h (fs ++ f ∷ []) ≡ (if f == h then suc (count h fs) else count h fs)
count-append h f [] = ground arith
count-append h f (g ∷ fs) = ground (arith, count-append h f fs)

pub count-deregister :
    (h g : ℕ) (fs : List ℕ)
    → count g (deregister h fs) ≡ (if h == g then count g fs - 1 else count g fs)
unfolding deregister
count-deregister h g [] = ground arith
count-deregister h g (f ∷ fs) = ground (arith, count-deregister h g fs)

-- The messages that n pushes of one message add.
abbrev pub added : ℕ → List ℕ → Option Listener → Option Listener
added n m none = none
added n m (some l) = some (record l { queue = l.queue ++ replicate n m })

pub added-suc :
    (n : ℕ) (m : List ℕ) (o : Option Listener) → added n m (added 1 m o) ≡ added (suc n) m o
added-suc n m none = refl
added-suc n m (some l) =
    ap (λ q. some (record l { queue = q })) (append_assoc l.queue (m ∷ []) (replicate n m))

pub added-zero : (m : List ℕ) (o : Option Listener) → added 0 m o ≡ o
added-zero m none = refl
added-zero m (some l) = ap (λ q. some (record l { queue = q })) (append-nil l.queue)

pub deliver-get :
    (f h : ℕ) (m : List ℕ) (hs : List Listener)
    → get_elem? (deliver f m hs) h ≡ (if f == h then added 1 m (get_elem? hs h) else get_elem? hs h)
unfolding deliver
deliver-get f h m hs = elim (Option-cases (get_elem? hs f)) [
  | inl missing ↦ ground (arith, missing)
  | inr (l, here) ↦
      ground (arith, here, get_elem?-set hs f h (record l { queue = l.queue ++ m ∷ [] }))
]

pub push_each-get :
    (h : ℕ) (m : List ℕ) (fs : List ℕ) (hs : List Listener)
    → get_elem? (push_each fs m hs) h ≡ added (count h fs) m (get_elem? hs h)
unfolding push_each
push_each-get h m [] hs = sym (added-zero m (get_elem? hs h))
push_each-get h m (f ∷ fs) hs =
    let rest = push_each-get h m fs (deliver f m hs) in
    let first = deliver-get f h m hs in
    elim (Bool-cases (f == h)) [
      | inl same ↦ rw (rest, first, same) (added-suc (count h fs) m (get_elem? hs h))
      | inr other ↦ rw (rest, first, other) refl
    ]

listens-added : (n : ℕ) (m : List ℕ) (o : Option Listener) → listens (added n m o) ≡ listens o
listens-added n m none = refl
listens-added n m (some l) = refl

module _ (b : Broadcast)
    (inv : (h : ℕ) → count h b.files ≡ (if listens (get_elem? b.handles h) then 1 else 0)) where
  open-BroadcastInv :
      (qp : Qp) (now : ℕ) (user : String) (mode : ℕ)
      → BroadcastInv (open_broadcast qp now user mode b).1
  unfolding open_broadcast
  open-BroadcastInv qp now user mode = elim (Bool-cases (can_open qp b.file user mode)) [
    | inl may ↦ rw may (
        registered λ h. elim (Bool-cases (hears qp mode)) [
          | inl hearing ↦ rw hearing (
              ground (
                arith,
                inv h,
                count-append h (length b.handles) b.files,
                get_elem?-append b.handles
                    (record { consumer = true; queue = []; unwanted = false }) h,
                get_elem?_end b.handles h,
              ))
          | inr deaf ↦ rw deaf (
              ground (
                arith,
                inv h,
                get_elem?-append b.handles
                    (record { consumer = false; queue = []; unwanted = false }) h,
                get_elem?_end b.handles h,
              ))
        ])
    | inr refused ↦ rw refused (registered inv)
  ]

  push-BroadcastInv : (m : List ℕ) → BroadcastInv (push m b).1
  unfolding push
  push-BroadcastInv m = registered λ h.
      rw
        (
          push_each-get h m b.files b.handles,
          listens-added (count h b.files) m (get_elem? b.handles h),
        )
        (inv h)

  fetch_from-BroadcastInv :
      (h : ℕ) (c u : Bool) (q : List (List ℕ))
      → get_elem? b.handles h ≡ some (record { consumer = c; queue = q; unwanted = u })
      → BroadcastInv (fetch_from h (some (record { consumer = c; queue = q; unwanted = u })) b).1
  fetch_from-BroadcastInv h c true q here = registered inv
  fetch_from-BroadcastInv h c false [] here = registered inv
  fetch_from-BroadcastInv h c false (m ∷ ms) here = registered λ g. ground (
    arith,
    inv g,
    here,
    get_elem?-set b.handles h g (record { consumer = c; queue = ms; unwanted = false }),
  )

  fetch-BroadcastInv : (h : ℕ) → BroadcastInv (fetch h b).1
  unfolding fetch
  fetch-BroadcastInv h = elim (Option-cases (get_elem? b.handles h)) [
    | inl missing ↦ rw missing (registered inv)
    | inr (l, here) ↦ rw here (fetch_from-BroadcastInv h l.consumer l.unwanted l.queue here)
  ]

  close-BroadcastInv : (h : ℕ) → BroadcastInv (close_listener h b).1
  unfolding close_listener
  close-BroadcastInv h = elim (Option-cases (get_elem? b.handles h)) [
    | inl missing ↦ rw missing (registered inv)
    | inr (l, here) ↦ rw here (
        registered λ g. ground (
          arith,
          inv g,
          here,
          count-deregister h g b.files,
          get_elem?-set b.handles h g (record l { queue = []; unwanted = true }),
        ))
  ]

pub reachable-BroadcastInv :
    {qp : Qp} {file : File} {b : Broadcast} → BroadcastReach qp file b → BroadcastInv b
reachable-BroadcastInv created = registered λ h. refl
reachable-BroadcastInv {qp = qp} (opened {b} now user mode r) = elim (reachable-BroadcastInv r) [
  | registered inv ↦ open-BroadcastInv b inv qp now user mode
]
reachable-BroadcastInv (pushed {b} m r) = elim (reachable-BroadcastInv r) [
  | registered inv ↦ push-BroadcastInv b inv m
]
reachable-BroadcastInv (fetched {b} h r) = elim (reachable-BroadcastInv r) [
  | registered inv ↦ fetch-BroadcastInv b inv h
]
reachable-BroadcastInv (shut_down {b} h r) = elim (reachable-BroadcastInv r) [
  | registered inv ↦ close-BroadcastInv b inv h
]
