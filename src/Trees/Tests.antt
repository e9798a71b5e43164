-- ===== src/Trees/Tests.antt =====
-- Concrete files, and the theorems on them.
use qptools.Prelude.{
  ℕ, ◌-◌, ◌≡◌, refl, ◌⊎◌, ◌&&◌, true, false, Option, some, [], ◌∷◌, arith, bit_and, if◌then◌else◌,
  get_elem?, ltb, leb, pos,
}
use qptools.Act.{Error, Outcome, ok, err}
use qptools.Qp.{Qp, IsNineP}
use qptools.Trees.Perm.{has_bit}
use qptools.Trees.Slice.{Slice, contents, view, write_slice}
use qptools.Trees.Slice.Laws.{IsSlice, write_slice_lem}
use qptools.Trees.File.{
  File, Handle, permission_refused, new_file, open_synthetic, read_at, write_at,
}
use qptools.Trees.File.Laws.{open_synthetic_perms, read_at-write_at}
use qptools.Tests.{constants}

abbrev qp : Qp
qp = constants (λ m. 20)

nine : IsNineP qp
nine = record {
  oread_val = refl;
  owrite_val = refl;
  ordwr_val = refl;
  oexec_val = refl;
  otrunc_val = refl;
}

-- Four bytes, in an array of six.
abbrev four : Slice
four = record { array = 1 ∷ 2 ∷ 3 ∷ 4 ∷ 0 ∷ 0 ∷ []; len = 4 }

-- A file that its owner may read, write and execute, and others execute.
abbrev notes : File
notes = record (new_file 7 100 "notes" 449 "glenda" "glenda") { content = some four }

abbrev writing : Handle
writing = record { user = "glenda"; is_readable = true; is_writable = true; append_only = false }

abbrev overwritten : Outcome ℕ × Option Slice
overwritten = write_slice false (some four) (8 ∷ 9 ∷ []) (pos 3)

write_slice_lem_example :
    (overwritten.0 ≡ ok 2)
    × IsSlice overwritten.1
    × ((i : ℕ)
        → get_elem? (view (contents overwritten.1)) i ≡ (
            if leb 3 i && ltb i 5 then get_elem? (8 ∷ 9 ∷ []) (i - 3) else get_elem? (view four) i))
write_slice_lem_example = write_slice_lem false (some four) (8 ∷ 9 ∷ []) 3 (omega arith)

abbrev opened_notes : Outcome Handle × File
opened_notes = open_synthetic qp 101 "rob" 3 notes

open_synthetic_perms_example :
    ((h : Handle)
      → opened_notes.0 ≡ ok h
      → (h.is_writable ≡ true → has_bit 449 1 ≡ true)
        × (h.is_readable ≡ true
            → (has_bit 449 2 ≡ true) ⊎ (bit_and 3 3 ≡ 3) × (has_bit 449 0 ≡ true)))
    × ((e : Error) → opened_notes.0 ≡ err e → (e ≡ permission_refused) × (opened_notes.1 ≡ notes))
open_synthetic_perms_example = open_synthetic_perms qp nine notes "rob" 101 3

abbrev written : Outcome ℕ × File
written = write_at writing 101 (8 ∷ 9 ∷ []) (pos 9) notes

read_at-write_at_example :
    (written.0 ≡ ok 2)
    × IsSlice written.1.content
    × ((read_at writing 102 2 (pos 4) written.1).0 ≡ ok (8 ∷ 9 ∷ []))
read_at-write_at_example = read_at-write_at notes writing 101 102 (8 ∷ 9 ∷ []) 9 (omega arith)
