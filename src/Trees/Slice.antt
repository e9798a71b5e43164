-- ===== src/Trees/Slice.antt =====
-- The byte slices behind SyntheticHandle and DetachedHandle of fileserver/trees/: a slice is a length
-- and the array that it shares, up to its capacity.
pub mod Laws
use qptools.Prelude.{
  ℕ, zero, suc, ◌+◌, ◌-◌, ◌*◌, ◌≤◌, Bool, ◌||◌, Option, none, some, List, [], ◌∷◌, min, ltb,
  if◌then◌else◌, length, take, drop, replicate, ℤ, pos, negsuc,
}
use qptools.Act.{Act, Outcome, ok, panicked}

pub record Slice : Type 0 where
  pub array : List ℕ
  pub len : ℕ

-- copy(xs[n:], bytes)
unfoldable pub copy_at : (n : ℕ) (xs bytes : List ℕ) → List ℕ
copy_at n [] bytes = []
copy_at (suc n) (x ∷ xs) bytes = x ∷ copy_at n xs bytes
copy_at zero (x ∷ xs) [] = x ∷ xs
copy_at zero (x ∷ xs) (b ∷ bytes) = b ∷ copy_at zero xs bytes

-- What a slice holds.
abbrev pub view : Slice → List ℕ
view s = take s.len s.array

-- A nil slice is empty.
abbrev pub contents : Option Slice → Slice
contents none = record { array = []; len = 0 }
contents (some s) = s

-- ReadAt into a buffer of `count` bytes: a negative offset is out of the bounds of the slice.
unfoldable pub read_slice : Option Slice → (count : ℕ) → ℤ → Outcome (List ℕ)
read_slice c count (negsuc k) = panicked
read_slice c count (pos offset) =
    let s = contents c in
    if ltb s.len offset
    then ok []
    else ok (take (min count (s.len - offset)) (drop offset (view s)))

-- The slice that a write of bytes up to `l` goes to: a new array, the old one with a new length, or
-- the slice as it is.
unfoldable pub grow : Option Slice → (offset l : ℕ) → Option Slice
grow c offset l =
    let s = contents c in
    if ltb (length s.array) l
    then some (record {
      array = copy_at 0 (replicate (if ltb l 10240 then 10240 else l * 2) 0) (take offset (view s));
      len = l;
    })
    else if ltb s.len l
    then some (record s { len = l })
    else c

-- copy(content[offset:], bytes)
unfoldable pub copy_to : Option Slice → (offset : ℕ) (bytes : List ℕ) → Option Slice
copy_to none offset bytes = none
copy_to (some s) offset bytes =
    some (record s { array = copy_at offset s.array (take (s.len - offset) bytes) })

-- A write at an offset within the slice.
unfoldable pub put : Option Slice → (offset : ℕ) (bytes : List ℕ) → Option Slice
unfolding grow copy_to
put c offset bytes = copy_to (grow c offset (length bytes + offset)) offset bytes

-- WriteAt: the offset is moved to the end if it lies beyond it or the file is append-only. A negative
-- offset panics, and may have made the slice longer before.
unfoldable pub write_slice :
    (append_only : Bool) → Option Slice → List ℕ → ℤ → Outcome ℕ × Option Slice
unfolding put
write_slice append_only c bytes (pos offset) =
    let s = contents c in
    (ok (length bytes), put c (if append_only || ltb s.len offset then s.len else offset) bytes)
write_slice append_only c bytes (negsuc k) =
    let s = contents c in
    if append_only
    then (ok (length bytes), put c s.len bytes)
    else if ltb (length s.array) (length bytes - suc k)
    then (panicked, c)
    else if ltb s.len (length bytes - suc k)
    then (panicked, some (record s { len = length bytes - suc k }))
    else (panicked, c)
