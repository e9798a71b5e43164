-- ===== src/Trees/File/Laws.antt =====
-- What opening, cutting, writing and reading a synthetic file do.
use text.Mathlib.Text.{◌==◌ as str_eq}
use qptools.Prelude.{
  get_elem?-take, ext, ℕ, ◌+◌, ◌≤◌, ◌≡◌, ◌≢◌, ◌⊎◌, String, true, false, Option, none, some, List,
  arith, bit_and, length, take, pos,
}
use qptools.Act.{Error, ok, err}
use qptools.Qp.{Qp, IsNineP}
use qptools.Trees.Perm.{has_bit, bits_of, perm_check}
use qptools.Trees.Slice.{Slice, contents, view}
use qptools.Trees.Slice.Laws.{IsSlice, target, write_slice_lem, read_slice-write_slice}
use qptools.Trees.File.{
  File, Handle, permission_refused, can_open, set_length, truncates, open_synthetic, read_at,
  write_at,
}

module _ (qp : Qp) (nine : IsNineP qp) (f : File) (user : String) where
  -- The constants being those of 9P2000: an open that succeeds gives a handle that writes only if the
  -- user has the write bit, and one that reads only if the user has the read bit, or opened the file
  -- for execution and has the execute bit. One that fails changes nothing.
  pub open_synthetic_perms :
      (now mode : ℕ)
      → let (r, f') = open_synthetic qp now user mode f in
        let bits = bits_of (str_eq f.uid user) false in
        ((h : Handle)
          → r ≡ ok h
          → (h.is_writable ≡ true → has_bit f.permissions (1 + bits) ≡ true)
            × (h.is_readable ≡ true
                → (has_bit f.permissions (2 + bits) ≡ true)
                  ⊎ (bit_and mode 3 ≡ 3) × (has_bit f.permissions bits ≡ true)))
        × ((e : Error) → r ≡ err e → (e ≡ permission_refused) × (f' ≡ f))
  unfolding open_synthetic can_open perm_check
  open_synthetic_perms now mode = (
    λ h e. ground (arith, nine.oread_val, nine.owrite_val, nine.ordwr_val, nine.oexec_val),
    λ e r. ground arith,
  )

  -- The bug: the constants being those of 9P2000, opening a file that has content for execution, with
  -- truncation, throws the content away if the user has the execute bit, without the write bit; and
  -- opening it for reading and writing, with truncation, keeps it.
  pub open_synthetic_truncation :
      (now : ℕ) (c : Slice)
      → f.content ≡ some c
      → (has_bit f.permissions (bits_of (str_eq f.uid user) false) ≡ true
          → (open_synthetic qp now user 19 f).1.content ≡ none)
        × ((open_synthetic qp now user 18 f).1.content ≡ some c)
  unfolding open_synthetic can_open perm_check truncates
  open_synthetic_truncation now c some_c = (
    λ x.
        ground
          (arith, nine.oread_val, nine.owrite_val, nine.ordwr_val, nine.oexec_val, nine.otrunc_val),
    ground
        (arith, nine.oread_val, nine.owrite_val, nine.ordwr_val, nine.oexec_val, nine.otrunc_val),
  )

cut :
    (c : Option Slice) (n : ℕ)
    → n ≤ (contents c).len
    → IsSlice c
    → view (contents (elim c [ none ↦ none | some s ↦ some (record s { len = n }) ]))
      ≡ take n (view (contents c))
cut none n le v = ext _ _ λ i. ground arith
cut (some s) n le v = ext (take n s.array) (take n (take s.len s.array)) λ i. ground (
  arith,
  get_elem?-take n s.array i,
  get_elem?-take n (take s.len s.array) i,
  get_elem?-take s.len s.array i,
)

module _ (f : File) where
  -- For content whose length is within its capacity, SetLength either succeeds, for a user who may
  -- write, and keeps the first bytes of the content, or changes nothing.
  pub set_length_cuts :
      (qp : Qp) (now : ℕ) (user : String) (n : ℕ)
      → IsSlice f.content
      → let (r, f') = set_length qp now user n f in
        (r ≡ ok tt)
          × (can_open qp f user qp.owrite ≡ true)
          × (n ≤ (contents f.content).len)
          × (view (contents f'.content) ≡ take n (view (contents f.content)))
          × IsSlice f'.content
        ⊎ ((r ≢ ok tt) × (f' ≡ f))
  unfolding set_length
  set_length_cuts qp now user n v = ground (arith, cut f.content n)

  -- For content whose length is within its capacity: what a handle writes at an offset that is not
  -- negative is what it reads back where it was written, and the content stays within its capacity.
  pub read_at-write_at :
      (h : Handle) (now later : ℕ) (bytes : List ℕ) (offset : ℕ)
      → IsSlice f.content
      → let (r, f') = write_at h now bytes (pos offset) f in
        (r ≡ ok (length bytes))
        × IsSlice f'.content
        × ((read_at h later (length bytes) (pos (target h.append_only f.content offset)) f').0
            ≡ ok bytes)
  unfolding write_at read_at
  read_at-write_at h now later bytes offset v = ground (
    arith,
    write_slice_lem h.append_only f.content bytes offset v,
    read_slice-write_slice h.append_only f.content bytes offset v,
  )
