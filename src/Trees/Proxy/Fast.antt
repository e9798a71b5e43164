-- ===== src/Trees/Proxy/Fast.antt =====
-- The fast listing of a ProxyFile, against the ListHandle over its List.
use Prim.Native.String.{String}
use qptools.Prelude.{
  ℕ, ◌+◌, ◌-◌, ◌≡◌, refl, sym, ap, Option, false, Bool-cases, inl, inr, List, [], ◌∷◌, ◌++◌, ltb, ℤ,
}
use qptools.Act.{Error, Outcome, ok, err, panicked, blocked, pure, ◌>>=◌, ◌>>◌}
use qptools.Act.Keeps.{Ends}
use qptools.Qp.{Qp, Stat, StatCodec}
use qptools.Client.Simple.Kept.{Result-cases}
use qptools.Trees.Listing.{
  Lister, ListHandle, Page, fill, read_listing, store, log, copy_page, is_start,
}
use qptools.Trees.Proxy.{Info, Os, Proxy, World, entry_file, stat_of, entries, direct_list, list}
use qptools.Trees.Proxy.Laws.{seen, entries-seen, mapped, list-Mirrors, Keeps-direct_list}
use qptools.Trees.Proxy.Listing.{InfoPage, fill_infos, copy_infos, copy_listed, read_entries}

-- The Lister that a ProxyFile is; it is no AccessLogger.
abbrev pub lister : Qp → {L : Type 0} → Os L → Lister (World L)
lister qp os = record { list = list qp os; logs = false; accessed = pure tt; closed = pure tt }

module _ (qp : Qp) (codec : StatCodec) {L : Type 0} (os : Os L) where
  before : List ℕ → Page → Page
  before b p = record p { bytes = b ++ p.bytes }

  page_of : Proxy → InfoPage → Page
  page_of pf p = record { bytes = p.bytes; left = entries qp os pf p.left; error = p.error }

  fill-entries :
      (pf : Proxy) (room copied : ℕ) (infos : List Info)
      → fill codec room copied (entries qp os pf infos)
        ≡ page_of pf (fill_infos qp codec os pf room copied infos)
  unfolding fill fill_infos page_of entries before
  fill-entries pf room copied [] = refl
  fill-entries pf room copied (f ∷ rest) =
      let s = stat_of qp os (entry_file pf f) f in
      let more = fill-entries pf room (copied + codec.size s) rest in
      elim (Bool-cases (ltb (room - copied) (codec.size s))) [
        | inl small ↦ rw small refl
        | inr fits ↦ elim (Result-cases (codec.marshal s)) [
          | inl (b, e) ↦ rw (fits, e) (ap (before b) more)
          | inr (why, e) ↦ rw (fits, e) refl
        ]
      ]

  -- What update and the copy make of a listing.
  served :
      (room : ℕ) (user : String) (old : List Stat)
      → Outcome (List Stat) × World L
      → Outcome (List ℕ × Option Error) × (ListHandle × World L)
  served room user old x =
      ((λ s. store (record { user = user; list = old }) x)
          >> (log codec (lister qp os) (pure tt) >> copy_page codec (lister qp os) room))
        (record { user = user; list = old }, x.1)

  -- the fast handle, as a ListHandle
  abbrev pub as_listing :
      (user : String)
      → Outcome (List ℕ × Option Error) × (List Info × World L)
      → Outcome (List ℕ × Option Error) × (ListHandle × World L)
  as_listing user (r, (infos, w)) =
      (r, (record { user = user; list = entries qp os w.file infos }, w))

  copied :
      (room : ℕ) (user : String) (infos : List Info) (w : World L)
      → copy_page codec
          (lister qp os)
          room
          (record { user = user; list = entries qp os w.file infos }, w)
        ≡ as_listing user (copy_infos qp codec os room (infos, w))
  unfolding page_of
  copied room user infos w = rw (fill-entries w.file room 0 infos) refl

  read_entries_start :
      (room : ℕ) (user : String) (infos : List Info) (w w' : World L) (r : Outcome (List Info))
      → (Ends r → seen w'.file ≡ seen w.file)
      → Ends (copy_listed qp codec os room infos (r, w')).0
      → served room user (entries qp os w.file infos) (mapped (entries qp os w.file) r, w')
        ≡ as_listing user (copy_listed qp codec os room infos (r, w'))
  unfolding served pure ◌>>=◌
  read_entries_start room user infos w w' (ok infos') same e =
      rw (entries-seen qp os w.file w'.file infos' (sym (same tt))) (copied room user infos' w')
  read_entries_start room user infos w w' (err why) same e =
      rw (entries-seen qp os w.file w'.file infos (sym (same tt))) refl
  read_entries_start room user infos w w' panicked same e =
      rw (entries-seen qp os w.file w'.file infos (sym (same tt))) refl
  read_entries_start room user infos w w' blocked same e = absurd e

  -- The fast listing of a ProxyFile is the plain one: a read of its handle returns the bytes and the
  -- error of the read of a ListHandle that lists the ProxyFile by its List, unless a call of the
  -- operating system blocks for ever, and the two handles then have the same files left.
  pub read_entries_lem :
      (room : ℕ) (offset : ℤ) (user : String) (infos : List Info) (w : World L)
      → Ends (read_entries qp codec os room offset (infos, w)).0
      → read_listing codec
          (lister qp os)
          room
          offset
          (record { user = user; list = entries qp os w.file infos }, w)
        ≡ as_listing user (read_entries qp codec os room offset (infos, w))
  unfolding read_entries read_listing served pure ◌>>=◌
  read_entries_lem room offset user infos w e = elim (Bool-cases (is_start offset)) [
    | inl start ↦
        let listed = (list-Mirrors qp os w.file user).at w refl in
        let first =
          read_entries_start room user infos w (direct_list qp os w).1 (direct_list qp os w).0
            ((Keeps-direct_list qp os).at w) (rw start at e) in
        rw (start, listed) first
    | inr later ↦ rw later (copied room user infos w)
  ]
