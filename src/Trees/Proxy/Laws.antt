-- ===== src/Trees/Proxy/Laws.antt =====
-- List and DirectList of a ProxyFile, and the fast listing as an implementation of the plain one.
use Prim.Native.String.{String}
use qptools.Prelude.{
  ℕ, ◌^◌, ◌≡◌, refl, ap, ◌∙◌, Bool-cases, inl, inr, ◌&&◌, Option, none, some, List, [], ◌∷◌, ltb,
}
use qptools.Act.{
  Act, Outcome, ok, err, panicked, blocked, pure, continue, gets, modify, within, ◌>>=◌,
}
use qptools.Act.Keeps.{
  Ends, Keeps, Keeps-same, Keeps-pure, Keeps-raise, Keeps-panic, Keeps-bind, Keeps-attempt_then,
  Keeps-require,
}
use qptools.Qp.{Qp}
use qptools.Client.Simple.{deferring, deferred, after}
use qptools.Trees.Proxy.{
  Info, Os, Proxy, World, new_proxy, entry_file, stat_of, entries, on_machine, store_info, this,
  present, update_info, current_info, is_dir, explained, direct_list, list, not_directory,
}

-- What an entry takes over from its directory.
abbrev pub seen : Proxy → String × String × String
seen pf = (pf.root, pf.user, pf.group)

abbrev pub view : {L : Type 0} → World L → String × String × String
view w = seen w.file

pub entries-seen :
    (qp : Qp) {L : Type 0} (os : Os L) (pf pf' : Proxy) (infos : List Info)
    → seen pf ≡ seen pf'
    → entries qp os pf infos ≡ entries qp os pf' infos
unfolding entries
entries-seen qp os pf pf' [] e = refl
entries-seen qp os pf pf' (info ∷ infos) e =
    let same : (stat_of qp os (entry_file pf info) info
        ≡ stat_of qp os (entry_file pf' info) info) =
      ap (λ (r, u, g). stat_of qp os (new_proxy r info.name u g) info) e in
    rw (same, entries-seen qp os pf pf' infos e) refl

module _ (qp : Qp) {L : Type 0} (os : Os L) where
  Keeps-on_machine : {A : Type 0} (m : Act L A) → Keeps view (on_machine m)
  unfolding on_machine within
  Keeps-on_machine m = Keeps-same (λ w. refl)

  Keeps-this : Keeps (view {L = L}) this
  unfolding this gets
  Keeps-this = Keeps-same (λ w. refl)

  Keeps-explained :
      {A : Type 0} (text : String) {m : Act (World L) A}
      → Keeps view m
      → Keeps view (explained qp os text m)
  unfolding explained
  Keeps-explained text hm = Keeps-attempt_then _ hm Keeps-pure (λ e. Keeps-raise _)

  Keeps-store_info : (i : Option Info) → Keeps (view {L = L}) (store_info i)
  unfolding store_info modify
  Keeps-store_info i = Keeps-same (λ w. refl)

  Keeps-update_info : Keeps view (update_info qp os)
  unfolding update_info
  Keeps-update_info = Keeps-bind Keeps-this λ pf.
      elim (Bool-cases (ltb 0 pf.caching && ltb pf.caching (2 ^ 31))) [
        | inl e ↦ rw e (Keeps-pure tt)
        | inr e ↦ rw e (
            Keeps-attempt_then _ (Keeps-on_machine _) (λ i. Keeps-store_info _)
              (λ why. Keeps-bind (Keeps-store_info none) (λ u. Keeps-raise why)))
      ]

  Keeps-present : (i : Option Info) → Keeps (view {L = L}) (present i)
  Keeps-present none = Keeps-panic
  Keeps-present (some i) = Keeps-pure i

  Keeps-is_dir : Keeps view (is_dir qp os)
  unfolding is_dir current_info
  Keeps-is_dir =
      Keeps-bind (Keeps-bind Keeps-update_info λ u. Keeps-bind Keeps-this λ pf. Keeps-present _)
        (λ i. Keeps-pure _)

  Keeps-deferring :
      {A : Type 0} {d : Act (World L) (Unit {0})} {m : Act (World L) A}
      → Keeps view d
      → Keeps view m
      → Keeps view (deferring d m)
  unfolding deferring
  Keeps-deferring {A} {d} {m} hd hm = record {
    at = λ w e. let (x, y) = settled (m w).0 (m w).1 e in x ∙ hm.at w y;
  }
    where
      last :
          {A : Type 0} (o : Outcome A) (x : Outcome (Unit {0}) × World L)
          → Ends (after o x).0
          → Ends x.0 × (view (after o x).1 ≡ view x.1)
      last o (ok t, w) e = (tt, refl)
      last o (err why, w) e = (tt, refl)
      last o (panicked, w) e = (tt, refl)
      last o (blocked, w) e = absurd e

      settled :
          (r : Outcome A) (w : World L)
          → Ends (deferred d (r, w)).0
          → (view (deferred d (r, w)).1 ≡ view w) × Ends r
      settled (ok a) w e = let (x, y) = last (ok a) (d w) e in (y ∙ hd.at w x, tt)
      settled (err why) w e = let (x, y) = last {A = A} (err why) (d w) e in (y ∙ hd.at w x, tt)
      settled panicked w e = let (x, y) = last {A = A} panicked (d w) e in (y ∙ hd.at w x, tt)
      settled blocked w e = absurd e

  pub Keeps-direct_list : Keeps view (direct_list qp os)
  unfolding direct_list
  Keeps-direct_list = Keeps-bind (Keeps-explained _ Keeps-is_dir) λ isdir.
      Keeps-bind (Keeps-require isdir not_directory) λ u. Keeps-bind Keeps-this λ pf.
        Keeps-bind (Keeps-explained _ (Keeps-on_machine _))
          λ f. Keeps-deferring (Keeps-on_machine _) (Keeps-explained _ (Keeps-on_machine _))

-- What an action returns, put through a function.
abbrev pub mapped : {A B : Type 0} → (A → B) → Outcome A → Outcome B
mapped f (ok a) = ok (f a)
mapped f (err e) = err e
mapped f panicked = panicked
mapped f blocked = blocked

-- The second action does what the first does and returns the function of what that returns, for a
-- directory with the given root and owners.
pub record Mirrors {L A B : Type 0} (start : String × String × String) (f : A → B)
    (m : Act (World L) A) (n : Act (World L) B) : Type 0 where
  pub at : (w : World L) → view w ≡ start → n w ≡ (mapped f (m w).0, (m w).1)

module _ {L A B : Type 0} where
  after-mapped :
      (f : A → B) (o : Outcome A) (x : Outcome (Unit {0}) × World L)
      → after (mapped f o) x ≡ (mapped f (after o x).0, (after o x).1)
  after-mapped f o (ok t, w) = refl
  after-mapped f o (err e, w) = refl
  after-mapped f o (panicked, w) = refl
  after-mapped f o (blocked, w) = refl

  deferred-mapped :
      (f : A → B) (d : Act (World L) (Unit {0})) (r : Outcome A) (w : World L)
      → deferred d (mapped f r, w) ≡ (mapped f (deferred d (r, w)).0, (deferred d (r, w)).1)
  deferred-mapped f d (ok a) w = after-mapped f (ok a) (d w)
  deferred-mapped f d (err e) w = after-mapped f (err e) (d w)
  deferred-mapped f d panicked w = after-mapped f panicked (d w)
  deferred-mapped f d blocked w = refl

module _ {L A B : Type 0} {start : String × String × String} {f : A → B} where
  Mirrors-this :
      {m : Proxy → Act (World L) A} {n : Proxy → Act (World L) B}
      → ((pf : Proxy) → seen pf ≡ start → Mirrors start f (m pf) (n pf))
      → Mirrors start f (this >>= m) (this >>= n)
  unfolding this gets ◌>>=◌
  Mirrors-this h = record { at = λ w e. (h w.file e).at w e }

  Mirrors-continue :
      {C : Type 0} (r : Outcome C) (m : C → Act (World L) A) (n : C → Act (World L) B)
      → ((c : C) → Mirrors start f (m c) (n c))
      → (w : World L) → (Ends r → view w ≡ start)
      → continue r n w ≡ (mapped f (continue r m w).0, (continue r m w).1)
  Mirrors-continue (ok c) m n h w e = (h c).at w (e tt)
  Mirrors-continue (err why) m n h w e = refl
  Mirrors-continue panicked m n h w e = refl
  Mirrors-continue blocked m n h w e = refl

  Mirrors-bind :
      {C : Type 0} {k : Act (World L) C} {m : C → Act (World L) A} {n : C → Act (World L) B}
      → Keeps view k
      → ((c : C) → Mirrors start f (m c) (n c))
      → Mirrors start f (k >>= m) (k >>= n)
  unfolding ◌>>=◌
  Mirrors-bind {k} {m} {n} hk h = record {
    at = λ w e. Mirrors-continue (k w).0 m n h (k w).1 (λ ends. hk.at w ends ∙ e);
  }

  Mirrors-pure : {m : Act (World L) A} → Mirrors start f m (m >>= λ a. pure (f a))
  unfolding pure ◌>>=◌
  Mirrors-pure {m} = record { at = λ w e. settled (m w).0 (m w).1 }
    where
      settled : (r : Outcome A) (w : World L) → continue r (λ a. pure (f a)) w ≡ (mapped f r, w)
      settled (ok a) w = refl
      settled (err e) w = refl
      settled panicked w = refl
      settled blocked w = refl

  Mirrors-deferring :
      (d : Act (World L) (Unit {0})) {m : Act (World L) A} {n : Act (World L) B}
      → Mirrors start f m n
      → Mirrors start f (deferring d m) (deferring d n)
  unfolding deferring
  Mirrors-deferring d {m} {n} h = record {
    at = λ w e. ap (deferred d) (h.at w e) ∙ deferred-mapped f d (m w).0 (m w).1;
  }

module _ (qp : Qp) {L : Type 0} (os : Os L) where
  pub list-Mirrors :
      (pf : Proxy) (user : String)
      → Mirrors (seen pf) (entries qp os pf) (direct_list qp os) (list qp os user)
  unfolding direct_list list
  list-Mirrors pf user = Mirrors-bind (Keeps-explained qp os _ (Keeps-is_dir qp os)) λ isdir.
      Mirrors-bind (Keeps-require isdir not_directory) λ u. Mirrors-this λ pf' e.
        Mirrors-bind (Keeps-explained qp os _ (Keeps-on_machine qp os _))
          λ f. Mirrors-deferring (on_machine (os.close f)) (renamed pf' e f)
    where
      renamed :
          (pf' : Proxy)
          → seen pf' ≡ seen pf
          → (f : ℕ)
          → Mirrors
              (seen pf)
              (entries qp os pf)
              (explained qp os "could not read directory listing: " (on_machine (os.read_dir f)))
              (explained qp os "could not read directory listing: " (on_machine (os.read_dir f))
                >>= λ infos. pure (entries qp os pf' infos))
      renamed pf' e f =
          let same : (entries qp os pf' ≡ entries qp os pf) =
            λ i infos. entries-seen qp os pf' pf infos e i in
          rw same Mirrors-pure
