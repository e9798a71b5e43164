-- ===== src/Client/Rpc/Pool.antt =====
-- The pool of fids: getFid, and the new fids of the methods.
use qptools.Prelude.{
  ℕ, zero, suc, ◌+◌, ◌≤◌, ◌<◌, ◌≡◌, true, none, some, arith, ◌==◌, is_some, length, inl, inr,
  Option-cases, Bool-cases,
}
use qptools.Prelude.Maps.{Map, lookup, insert, nat_key, pigeonhole}
use qptools.Act.{ok, attempt, ◌>>=◌}
use qptools.Client.Rpc.{Client, first_free, get_fid, new_fid}

-- The loop of getFid stops at the first fid that is free, or finds all of them taken.
pub first_free_lem :
    (rounds i : ℕ) (fids : Map ℕ ℕ)
    → ((f : ℕ)
        → first_free rounds i fids ≡ some f
        → (i ≤ f)
          × (f < i + rounds)
          × (lookup f fids ≡ none)
          × ((j : ℕ) → i ≤ j → j < f → is_some (lookup j fids) ≡ true))
      × (first_free rounds i fids ≡ none
          → (j : ℕ) → i ≤ j
          → j < i + rounds
          → is_some (lookup j fids) ≡ true)
unfolding first_free
first_free_lem zero i fids = (λ f e. ground arith, λ e j a b. ground arith)
first_free_lem (suc rounds) i fids =
    let ih = first_free_lem rounds (suc i) fids in
    (
      λ f e. elim (Option-cases (lookup i fids)) [
        | inl free ↦
            let here : (i ≡ f) = ground arith in
            (
              omega (arith, here),
              omega (arith, here),
              rw (← here) free,
              λ j a b. absurd (omega (arith, here)),
            )
        | inr (v, used) ↦
            let later = ih.0 f (ground arith) in
            (
              omega (arith, later),
              omega (arith, later),
              later.2,
              λ j a b. elim (Bool-cases (i == j)) [
                | inl same ↦ ground arith
                | inr other ↦ later.3 j (ground arith) b
              ],
            )
      ],
      λ e j a b. elim (Option-cases (lookup i fids)) [
        | inl free ↦ ground arith
        | inr (v, used) ↦ elim (Bool-cases (i == j)) [
          | inl same ↦ ground arith
          | inr other ↦ ih.1 (ground arith) j (ground arith) (ground arith)
        ]
      ],
    )

-- While fewer fids are in use than there are, and the client was not stopped, getFid returns the
-- smallest one that is free, and puts it into the pool.
pub get_fid_lem :
    {W : Type 0} (nofid : ℕ) (c : Client W) (fids : Map ℕ ℕ)
    → c.fids ≡ some fids
    → length fids < nofid
    → (f : ℕ) × (get_fid nofid c ≡ (ok f, record c { fids = some (insert f f fids) }))
      × (f < nofid)
      × (lookup f fids ≡ none)
      × ((j : ℕ) → j < f → is_some (lookup j fids) ≡ true)
unfolding get_fid
get_fid_lem nofid c fids known room =
    let l = first_free_lem nofid 0 fids in
    elim (Option-cases (first_free nofid 0 fids)) [
      | inl full ↦ absurd (
          omega (
            arith,
            pigeonhole nofid (λ i. i) fids (λ i j a b e. e)
                (λ i a. l.1 full i (omega arith) (omega arith)),
          ))
      | inr (f, found) ↦
          let at = l.0 f found in
          (f, ground (arith, known, found), omega (arith, at), at.2, λ j b. at.3 j (omega arith) b)
    ]

-- The nfid that the methods get where a fid is free.
pub new_fid_lem :
    {W : Type 0} (nofid : ℕ) (c : Client W) (fids : Map ℕ ℕ)
    → c.fids ≡ some fids
    → length fids < nofid
    → (f : ℕ) × (new_fid nofid c ≡ (ok f, record c { fids = some (insert f f fids) }))
      × (f < nofid)
      × (lookup f fids ≡ none)
unfolding new_fid attempt ◌>>=◌
new_fid_lem nofid c fids known room =
    let (f, got, lt, free, least) = get_fid_lem nofid c fids known room in
    (f, ground (arith, got), lt, free)
