-- ===== src/Trees/Memory/Actions.antt =====
-- Actions on the store: new objects, and one action after another.
use qptools.Prelude.{
  ℕ, ◌+◌, ◌*◌, ◌≡◌, String, Bool, true, false, Option, some, [], arith, if◌then◌else◌,
}
use qptools.Prelude.Maps.{lookup, nat_key, text_key, lookup-insert}
use qptools.Act.{Act, Outcome, ok, err, panicked, blocked, continue, pure, ◌>>=◌}
use qptools.Trees.Dir.{Dir, on_elements}
use qptools.Trees.File.{File, next_id}
use qptools.Trees.Memory.{Memory, is_even, store_dir, store_file, new_id}
use qptools.Trees.Memory.Whole.{
  HasEntries, IsWhole, Grows, Grows_trans, Returned, Yielded, no_address, Yielded-none, IsSafe,
  Stays, put_dir-IsWhole, put_dir-Grows, put_file-IsWhole, put_file-Grows,
}

pub new_id-IsSafe : IsSafe no_address new_id
unfolding new_id next_id
new_id-IsSafe = record {
  whole = λ s w. record { entries = w.entries; listed = w.listed; handled = w.handled };
  grows = λ s w f p. p;
  yields = λ s w. Yielded-none (new_id s).0 s;
}

even_address : (n : ℕ) → is_even (2 * n) ≡ true
even_address n = ground arith

odd_address : (n : ℕ) → is_even (2 * n + 1) ≡ false
odd_address n = ground arith

empty_lookup :
    (d : Dir) → d.entries ≡ [] → (name : String) (f : ℕ) → lookup name d.entries ≡ some f → ⊥
unfolding lookup
empty_lookup d none_there name f i = cc (rw none_there at i)

pub store_dir-IsSafe : (d : Dir) → d.entries ≡ [] → IsSafe some (store_dir d)
unfolding store_dir
store_dir-IsSafe d none_there = record {
  whole = λ s w.
      let p =
        put_dir-IsWhole (2 * s.next) d s w
          (λ name f i. absurd (empty_lookup d none_there name f i)) in
      record { entries = p.entries; listed = p.listed; handled = p.handled };
  grows = λ s w. put_dir-Grows (2 * s.next) d s;
  yields = λ s w.
      rw (even_address s.next) (ground (arith, lookup-insert (2 * s.next) (2 * s.next) d s.dirs));
}

pub store_file-IsSafe : (x : File) → IsSafe some (store_file x)
unfolding store_file
store_file-IsSafe x = record {
  whole = λ s w.
      let p = put_file-IsWhole (2 * s.next + 1) x s w in
      record { entries = p.entries; listed = p.listed; handled = p.handled };
  grows = λ s w. put_file-Grows (2 * s.next + 1) x s;
  yields = λ s w.
      rw (odd_address s.next)
        (ground (arith, lookup-insert (2 * s.next + 1) (2 * s.next + 1) x s.files));
}

IsSafe-continue :
    {A B : Type 0} (g : A → Option ℕ) (k : B → Option ℕ) (r : Outcome A) (f : A → Act Memory B)
    (s : Memory)
    → IsWhole s
    → Yielded g r s
    → ((a : A)
        → Returned (g a) s
        → IsWhole (f a s).1 × Grows s (f a s).1 × Yielded k (f a s).0 (f a s).1)
    → IsWhole (continue r f s).1
      × Grows s (continue r f s).1
      × Yielded k (continue r f s).0 (continue r f s).1
IsSafe-continue g k (ok a) f s w y h = h a y
IsSafe-continue g k (err e) f s w y h = (w, λ f p. p, tt)
IsSafe-continue g k panicked f s w y h = (w, λ f p. p, tt)
IsSafe-continue g k blocked f s w y h = (w, λ f p. p, tt)

pub IsSafe-bind :
    {A B : Type 0} {g : A → Option ℕ} {k : B → Option ℕ} {m : Act Memory A} (f : A → Act Memory B)
    → IsSafe g m
    → ((a : A) (s : Memory)
        → IsWhole s
        → Returned (g a) s
        → IsWhole (f a s).1 × Grows s (f a s).1 × Yielded k (f a s).0 (f a s).1)
    → IsSafe k (m >>= f)
unfolding ◌>>=◌
IsSafe-bind {g} {k} {m} f hm hf = record {
  whole = λ s w. (both s w).0;
  grows = λ s w. Grows_trans s (m s).1 (continue (m s).0 f (m s).1).1 (hm.grows s w) (both s w).1;
  yields = λ s w. (both s w).2;
}
  where
    both :
        (s : Memory)
        → IsWhole s
        → IsWhole (continue (m s).0 f (m s).1).1
          × Grows (m s).1 (continue (m s).0 f (m s).1).1
          × Yielded k (continue (m s).0 f (m s).1).0 (continue (m s).0 f (m s).1).1
    both s w =
        IsSafe-continue g k (m s).0 f (m s).1 (hm.whole s w) (hm.yields s w)
          (λ a y. hf a (m s).1 (hm.whole s w) y)

-- a call on the files of a directory, and what follows it
pub elements_then :
    {A B : Type 0} (g : A → Option ℕ) (k : B → Option ℕ) (m : Act Memory A)
    (f : A → Act (Dir × Memory) B) (d : Dir) (s : Memory)
    → IsSafe g m
    → IsWhole s
    → HasEntries d s
    → ((a : A) (t : Memory)
        → IsWhole t
        → Grows s t
        → HasEntries d t
        → Returned (g a) t
        → Stays k t (f a (d, t)))
    → Stays k s ((on_elements m >>= f) (d, s))
unfolding ◌>>=◌
elements_then {A} g k m f d s hm w h next =
    settled (m s).0 (m s).1 (hm.whole s w) (hm.grows s w) (hm.yields s w)
  where
    settled :
        (r : Outcome A) (t : Memory)
        → IsWhole t
        → Grows s t
        → Yielded g r t
        → Stays k s (continue r f (d, t))
    settled (ok a) t v grown y =
        let st = next a t v grown (λ name x i. grown x (h name x i)) y in
        record {
          whole = st.whole;
          grows = Grows_trans s t (f a (d, t)).1.1 grown st.grows;
          entries = st.entries;
          yields = st.yields;
        }
    settled (err e) t v grown y = record {
      whole = v;
      grows = grown;
      entries = λ name x i. grown x (h name x i);
      yields = tt;
    }
    settled panicked t v grown y = record {
      whole = v;
      grows = grown;
      entries = λ name x i. grown x (h name x i);
      yields = tt;
    }
    settled blocked t v grown y = record {
      whole = v;
      grows = grown;
      entries = λ name x i. grown x (h name x i);
      yields = tt;
    }

pub pure-IsSafe : {A : Type 0} (a : A) → IsSafe no_address (pure a)
unfolding pure
pure-IsSafe a = record { whole = λ s w. w; grows = λ s w f p. p; yields = λ s w. tt }

-- The same, where what follows does not depend on an address.
pub IsSafe-then :
    {A B : Type 0} {k : B → Option ℕ} {m : Act Memory A} (f : A → Act Memory B)
    → IsSafe no_address m
    → ((a : A) → IsSafe k (f a))
    → IsSafe k (m >>= f)
IsSafe-then f hm hf =
    IsSafe-bind f hm λ a s w y. ((hf a).whole s w, (hf a).grows s w, (hf a).yields s w)

pub IsSafe-if :
    {A : Type 0} {g : A → Option ℕ} (b : Bool) (m n : Act Memory A)
    → IsSafe g m
    → IsSafe g n
    → IsSafe g (if b then m else n)
IsSafe-if true m n hm hn = hm
IsSafe-if false m n hm hn = hn
