-- ===== src/Trees/Slice/Laws.antt =====
-- What a write leaves in a slice, byte by byte, and that it is read back.
use qptools.Prelude.{
  get_elem?-take, get_elem?-drop, get_elem?_end, ext, ℕ, zero, suc, ◌+◌, ◌-◌, ◌*◌, ◌≤◌, ◌<◌, ◌≡◌,
  refl, ap, Bool, ◌&&◌, ◌||◌, Option, none, some, List, [], ◌∷◌, arith, min, ltb, leb,
  if◌then◌else◌, length, get_elem?, take, drop, replicate, length-take, length-replicate, pos,
}
use qptools.Act.{ok}
use qptools.Trees.Slice.{
  Slice, copy_at, view, contents, read_slice, grow, copy_to, put, write_slice,
}

-- The length of a slice is within its capacity.
abbrev pub IsSlice : Option Slice → Type 0
IsSlice c = (contents c).len ≤ length (contents c).array

pub get_elem?-copy_at :
    (n : ℕ) (xs bytes : List ℕ) (i : ℕ)
    → get_elem? (copy_at n xs bytes) i ≡ (
        if leb n i && ltb i (n + length bytes) && ltb i (length xs)
        then get_elem? bytes (i - n)
        else get_elem? xs i)
unfolding copy_at
get_elem?-copy_at n [] bytes i = ground arith
get_elem?-copy_at (suc n) (x ∷ xs) bytes zero = ground arith
get_elem?-copy_at (suc n) (x ∷ xs) bytes (suc i) = ground (arith, get_elem?-copy_at n xs bytes i)
get_elem?-copy_at zero (x ∷ xs) [] i = ground arith
get_elem?-copy_at zero (x ∷ xs) (b ∷ bytes) zero = ground arith
get_elem?-copy_at zero (x ∷ xs) (b ∷ bytes) (suc i) =
    ground (arith, get_elem?-copy_at zero xs bytes i)

pub length-copy_at : (n : ℕ) (xs bytes : List ℕ) → length (copy_at n xs bytes) ≡ length xs
unfolding copy_at
length-copy_at n [] bytes = refl
length-copy_at (suc n) (x ∷ xs) bytes = ap suc (length-copy_at n xs bytes)
length-copy_at zero (x ∷ xs) [] = refl
length-copy_at zero (x ∷ xs) (b ∷ bytes) = ap suc (length-copy_at zero xs bytes)

-- The array that a write of bytes up to `l` beyond the capacity is given.
abbrev fresh_array : Slice → (offset l : ℕ) → List ℕ
fresh_array s offset l =
    copy_at 0 (replicate (if ltb l 10240 then 10240 else l * 2) 0) (take offset (view s))

length-fresh_array : (s : Slice) (offset l : ℕ) → l ≤ length (fresh_array s offset l)
length-fresh_array s offset l =
    let n = if ltb l 10240 then 10240 else l * 2 in
    ground
      (arith, length-copy_at 0 (replicate n 0) (take offset (view s)), length-replicate {A = ℕ} n 0)

fresh_array-get :
    (s : Slice) (offset l i : ℕ)
    → s.len ≤ length s.array
    → offset ≤ s.len
    → offset ≤ l
    → i < offset
    → get_elem? (fresh_array s offset l) i ≡ get_elem? s.array i
fresh_array-get s offset l i v le lo lt =
    let n = if ltb l 10240 then 10240 else l * 2 in
    ground (
      arith,
      get_elem?-copy_at 0 (replicate n 0) (take offset (view s)) i,
      length-replicate {A = ℕ} n 0,
      length-take offset (view s),
      length-take s.len s.array,
      get_elem?-take offset (view s) i,
      get_elem?-take s.len s.array i,
    )

-- The bytes behind a slice after it has grown: those before the write are kept.
grow_lem :
    (c : Option Slice) (offset l : ℕ)
    → IsSlice c
    → offset ≤ (contents c).len
    → offset ≤ l
    → IsSlice (grow c offset l)
      × ((contents (grow c offset l)).len
          ≡ (if ltb (contents c).len l then l else (contents c).len))
      × ((i : ℕ)
          → i < offset
          → get_elem? (contents (grow c offset l)).array i ≡ get_elem? (contents c).array i)
      × (l ≤ (contents c).len → grow c offset l ≡ c)
unfolding grow
grow_lem c offset l v le lo = (
  ground (arith, length-fresh_array (contents c) offset l),
  ground arith,
  λ i lt. ground (arith, fresh_array-get (contents c) offset l i v le lo lt),
  λ fits. ground arith,
)

copy_to_lem :
    (c : Option Slice) (offset i : ℕ) (bytes : List ℕ)
    → IsSlice c
    → offset + length bytes ≤ (contents c).len
    → IsSlice (copy_to c offset bytes)
      × (get_elem? (view (contents (copy_to c offset bytes))) i ≡ (
          if leb offset i && ltb i (offset + length bytes)
          then get_elem? bytes (i - offset)
          else get_elem? (view (contents c)) i))
unfolding copy_to
copy_to_lem none offset i bytes v le = (ground arith, ground arith)
copy_to_lem (some s) offset i bytes v le = (
  ground (arith, length-copy_at offset s.array (take (s.len - offset) bytes)),
  ground (
    arith,
    get_elem?-take s.len (copy_at offset s.array (take (s.len - offset) bytes)) i,
    get_elem?-take s.len s.array i,
    get_elem?-copy_at offset s.array (take (s.len - offset) bytes) i,
    length-take (s.len - offset) bytes,
    get_elem?-take (s.len - offset) bytes (i - offset),
  ),
)

-- The offset that a write goes to.
abbrev pub target : (append_only : Bool) → Option Slice → (offset : ℕ) → ℕ
target append_only c offset =
    if append_only || ltb (contents c).len offset then (contents c).len else offset

pub put_lem :
    (c : Option Slice) (offset i : ℕ) (bytes : List ℕ)
    → IsSlice c
    → offset ≤ (contents c).len
    → IsSlice (put c offset bytes)
      × (get_elem? (view (contents (put c offset bytes))) i ≡ (
          if leb offset i && ltb i (offset + length bytes)
          then get_elem? bytes (i - offset)
          else get_elem? (view (contents c)) i))
unfolding put
put_lem c offset i bytes v le =
    let g = grow_lem c offset (length bytes + offset) v le (omega arith) in
    let k =
      copy_to_lem (grow c offset (length bytes + offset)) offset i bytes g.0
        (ground (arith, g.1)) in
    (
      k.0,
      ground (
        arith,
        k.1,
        g.1,
        g.2 i,
        g.3,
        get_elem?-take (contents c).len (contents c).array i,
        get_elem?-take (contents (grow c offset (length bytes + offset))).len
            (contents (grow c offset (length bytes + offset))).array i,
        get_elem?_end (contents c).array i,
      ),
    )

put-len :
    (c : Option Slice) (offset : ℕ) (bytes : List ℕ)
    → IsSlice c
    → offset ≤ (contents c).len
    → offset + length bytes ≤ (contents (put c offset bytes)).len
unfolding put copy_to
put-len c offset bytes v le =
    let g = grow_lem c offset (length bytes + offset) v le (omega arith) in ground (arith, g.1)

target_le : (a : Bool) (c : Option Slice) (offset : ℕ) → target a c offset ≤ (contents c).len
target_le a c offset = ground arith

-- A write at an offset that is not negative reports all its bytes, keeps the length within the
-- capacity, and changes the bytes from the offset on, or from the end if the offset lies beyond it or
-- the file is append-only; every other byte stays, also where the array is replaced by a larger one.
pub write_slice_lem :
    (append_only : Bool) (c : Option Slice) (bytes : List ℕ) (offset : ℕ)
    → IsSlice c
    → let (r, c') = write_slice append_only c bytes (pos offset) in
      let at = target append_only c offset in
      (r ≡ ok (length bytes))
      × IsSlice c'
      × ((i : ℕ)
          → get_elem? (view (contents c')) i ≡ (
              if leb at i && ltb i (at + length bytes)
              then get_elem? bytes (i - at)
              else get_elem? (view (contents c)) i))
unfolding write_slice
write_slice_lem append_only c bytes offset v =
    let at = target append_only c offset in
    let le = target_le append_only c offset in
    (refl, (put_lem c at 0 bytes v le).0, λ i. (put_lem c at i bytes v le).1)

read_put :
    (c : Option Slice) (at i : ℕ) (bytes : List ℕ)
    → IsSlice c
    → at ≤ (contents c).len
    → get_elem?
        (take
          (min (length bytes) ((contents (put c at bytes)).len - at))
          (drop at (view (contents (put c at bytes)))))
        i
      ≡ get_elem? bytes i
read_put c at i bytes v le =
    let s = contents (put c at bytes) in
    ground (
      arith,
      put-len c at bytes v le,
      get_elem?-take (min (length bytes) (s.len - at)) (drop at (view s)) i,
      get_elem?-drop at (view s) i,
      (put_lem c at (at + i) bytes v le).1,
      get_elem?_end bytes i,
    )

-- What was written at an offset that is not negative is read back where it was written: at the
-- offset, or at the old end if the offset lies beyond it or the file is append-only.
pub read_slice-write_slice :
    (append_only : Bool) (c : Option Slice) (bytes : List ℕ) (offset : ℕ)
    → IsSlice c
    → read_slice
        (write_slice append_only c bytes (pos offset)).1
        (length bytes)
        (pos (target append_only c offset))
      ≡ ok bytes
unfolding write_slice read_slice
read_slice-write_slice append_only c bytes offset v =
    let at = target append_only c offset in
    let le = target_le append_only c offset in
    ground (
      arith,
      put-len c at bytes v le,
      ext
          (take (min (length bytes) ((contents (put c at bytes)).len - at))
            (drop at (view (contents (put c at bytes)))))
          bytes (λ i. read_put c at i bytes v le),
    )
