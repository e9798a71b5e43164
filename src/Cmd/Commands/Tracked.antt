-- ===== src/Cmd/Commands/Tracked.antt =====
-- The fids that are open on a connection, and the actions that leave them as they were.
use qptools.Prelude.{
  ℕ, ◌≡◌, refl, ◌∙◌, ap, Option, none, some, List, [], ◌∷◌, ◌==◌, arith, if◌then◌else◌, String,
}
use qptools.Act.{
  Act, Outcome, ok, err, panicked, blocked, pure, raise, continue, ◌>>=◌, within, modify,
}
use qptools.Qp.{Qid}
use qptools.Client.Rpc.{no_such_path}
use qptools.Act.Keeps.{Ends, Keeps, Keeps-same}
use qptools.Client.Connection.{Connection}
use qptools.Client.Simple.{deferring, deferred, after}
use qptools.Cmd.Shell.{Shell, Output, remotely, locally, print, walk}

-- The list without the first occurrence of a fid.
abbrev pub without : ℕ → List ℕ → List ℕ
without f [] = []
without f (g ∷ gs) = if g == f then gs else g ∷ without f gs

abbrev pub opened : Outcome (Option ℕ × List Qid) → List ℕ → List ℕ
opened (ok (some f, qids)) fs = f ∷ fs
opened (ok (none, qids)) fs = fs
opened (err e) fs = fs
opened panicked fs = fs
opened blocked fs = fs

module _ {S : Type 0} where
  abbrev apart : {A : Type 0} → Act S A → Act (S × List ℕ) A
  apart m (s, fs) = let (r, s') = m s in (r, (s', fs))

  abbrev closing : {A : Type 0} → ℕ → Act S A → Act (S × List ℕ) A
  closing f m (s, fs) = let (r, s') = m s in (r, (s', without f fs))

  -- The connection, with the list of the fids that Walk returned and neither Clunk nor Remove was
  -- called on.
  abbrev pub tracked : Connection S → Connection (S × List ℕ)
  tracked conn = record {
    max_size = λ s. conn.max_size s.0;
    walk = λ f names s. let (r, s') = conn.walk f names s.0 in (r, (s', opened r s.1));
    open_mode = λ f mode. apart (conn.open_mode f mode);
    make = λ f name perm mode. apart (conn.make f name perm mode);
    read = λ f offset count. apart (conn.read f offset count);
    write = λ f offset bytes. apart (conn.write f offset bytes);
    stat = λ f. apart (conn.stat f);
    write_stat = λ f s. apart (conn.write_stat f s);
    clunk = λ f. closing f (conn.clunk f);
    remove = λ f. closing f (conn.remove f);
  }

  -- the fids of the connection itself
  abbrev pub own : S × List ℕ → List ℕ
  own s = s.1

  -- the fids that are open
  abbrev pub fids : {L : Type 0} → Shell (S × List ℕ) L → List ℕ
  fids s = s.connection.1

module _ {S L : Type 0} where
  pub Keeps-locally : {A : Type 0} (m : Act L A) → Keeps (fids {S = S}) (locally m)
  unfolding locally within
  Keeps-locally m = Keeps-same (λ s. refl)

  pub Keeps-print : (o : Output) → Keeps (fids {S = S} {L = L}) (print o)
  unfolding print modify
  Keeps-print o = Keeps-same (λ s. refl)

  pub Keeps-remotely :
      {A : Type 0} {m : Act (S × List ℕ) A} → Keeps own m → Keeps (fids {L = L}) (remotely m)
  unfolding remotely within
  Keeps-remotely hm = record { at = λ s e. hm.at s.connection e }

pub without_head : (g : ℕ) (fs : List ℕ) → without g (g ∷ fs) ≡ fs
without_head g fs = ground arith

module _ {S L : Type 0} (conn : Connection S) where
  after-state :
      {A : Type 0} (o : Outcome A) (x : Outcome (Unit {0}) × Shell (S × List ℕ) L)
      → (after o x).1 ≡ x.1
  after-state o (ok t, s) = refl
  after-state o (err e, s) = refl
  after-state o (panicked, s) = refl
  after-state o (blocked, s) = refl

  abbrev clunks : ℕ → Act (Shell (S × List ℕ) L) (Unit {0})
  clunks g = remotely ((tracked conn).clunk g)

  deferred-fids :
      {A : Type 0} (g : ℕ) (r : Outcome A) (s : Shell (S × List ℕ) L)
      → Ends (deferred (clunks g) (r, s)).0
      → Ends r × (fids (deferred (clunks g) (r, s)).1 ≡ without g (fids s))
  unfolding remotely within
  deferred-fids g (ok a) s e = (tt, ap fids (after-state (ok a) (clunks g s)))
  deferred-fids {A} g (err why) s e = (tt, ap fids (after-state {A = A} (err why) (clunks g s)))
  deferred-fids {A} g panicked s e = (tt, ap fids (after-state {A = A} panicked (clunks g s)))
  deferred-fids g blocked s e = absurd e

  deferring-fids :
      {A : Type 0} (g : ℕ) {m : Act (Shell (S × List ℕ) L) A} (s : Shell (S × List ℕ) L)
      → Keeps fids m
      → Ends (deferring (clunks g) m s).0
      → fids (deferring (clunks g) m s).1 ≡ without g (fids s)
  unfolding deferring
  deferring-fids g {m} s hm e =
      let (ends, closed) = deferred-fids g (m s).0 (m s).1 e in
      closed ∙ ap (without g) (hm.at s ends)

  -- what Walk gives, for the outcome of the call
  abbrev pub walking :
      (s : Shell (S × List ℕ) L) (r : Outcome (Option ℕ × List Qid)) (t : S)
      → Outcome (ℕ × List Qid) × Shell (S × List ℕ) L
  walking s r t =
      continue r (λ x. elim x.0 [ none ↦ raise no_such_path | some g ↦ pure (g, x.1) ])
        (record s { connection = (t, opened r (fids s)) })

  -- a fid that is walked to, used and clunked
  pub Keeps-walking :
      {A : Type 0} (f : ℕ) (names : List String)
      {body : ℕ × List Qid → Act (Shell (S × List ℕ) L) A}
      → ((x : ℕ × List Qid) → Keeps fids (body x))
      → Keeps fids (walk (tracked conn) f names >>= λ x. deferring (clunks x.0) (body x))
  unfolding walk remotely within ◌>>=◌
  Keeps-walking f names {body} hm = record {
    at = λ s. settled s (conn.walk f names s.connection.0).0 (conn.walk f names s.connection.0).1;
  }
    where
      settled :
          (s : Shell (S × List ℕ) L) (r : Outcome (Option ℕ × List Qid)) (t : S)
          → Ends
              (continue
                (walking s r t).0
                (λ x. deferring (clunks x.0) (body x))
                (walking s r t).1).0
          → fids
              (continue
                (walking s r t).0
                (λ x. deferring (clunks x.0) (body x))
                (walking s r t).1).1
            ≡ fids s
      settled s (ok (some g, qids)) t e =
          deferring-fids g _ (hm (g, qids)) e ∙ without_head g (fids s)
      settled s (ok (none, qids)) t e = refl
      settled s (err why) t e = refl
      settled s panicked t e = refl
      settled s blocked t e = refl

  -- a fid that is walked to and removed
  pub Keeps-removing :
      {A : Type 0} (f : ℕ) (names : List String) {body : Unit {0} → Act (Shell (S × List ℕ) L) A}
      → ((u : Unit {0}) → Keeps fids (body u))
      → Keeps fids
          (walk (tracked conn) f names >>= λ x. remotely ((tracked conn).remove x.0) >>= body)
  unfolding walk remotely within ◌>>=◌
  Keeps-removing {A} f names {body} hm = record {
    at = λ s. settled s (conn.walk f names s.connection.0).0 (conn.walk f names s.connection.0).1;
  }
    where
      removing : ℕ → Act (Shell (S × List ℕ) L) A
      removing g = remotely ((tracked conn).remove g) >>= body

      removed :
          (g : ℕ) (s : Shell (S × List ℕ) L) (r : Outcome (Unit {0}))
          → Ends (continue r body s).0
          → fids (continue r body s).1 ≡ fids s
      removed g s (ok u) e = (hm u).at s e
      removed g s (err why) e = refl
      removed g s panicked e = refl
      removed g s blocked e = refl

      settled :
          (s : Shell (S × List ℕ) L) (r : Outcome (Option ℕ × List Qid)) (t : S)
          → Ends (continue (walking s r t).0 (λ x. removing x.0) (walking s r t).1).0
          → fids (continue (walking s r t).0 (λ x. removing x.0) (walking s r t).1).1 ≡ fids s
      settled s (ok (some g, qids)) t e =
          removed g _ (conn.remove g t).0 e ∙ without_head g (fids s)
      settled s (ok (none, qids)) t e = refl
      settled s (err why) t e = refl
      settled s panicked t e = refl
      settled s blocked t e = refl
