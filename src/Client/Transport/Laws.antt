-- ===== src/Client/Transport/Laws.antt =====
-- Tag finds a free tag whenever there is one, and a response reaches the request that has its tag.
use qptools.Prelude.{
  get_elem?-set, ℕ, zero, suc, ◌+◌, ◌%◌, ◌<◌, ◌≡◌, ◌≢◌, refl, ◌⊎◌, true, none, some, [], ◌∷◌, ◌++◌,
  arith, is_some, length, get_elem?, inl, inr, Option-cases,
}
use qptools.Prelude.Maps.{lookup, insert, nat_key, lookup-delete, pigeonhole}
use qptools.Act.{Outcome, ok}
use qptools.Client.Transport.{
  empty, closed, Transport, advance, find_tag, take_any, response_received,
}

-- The tag that the loop comes to in round `i`.
abbrev nth_tag : (start i : ℕ) → ℕ
nth_tag start i = (start + i) % 65535

nth_tag_apart : (start i j : ℕ) → i < 65535 → j < 65535 → nth_tag start i ≡ nth_tag start j → i ≡ j
nth_tag_apart start i j a b e = omega arith

nth_tag-advance :
    (start i : ℕ) → start < 65535 → nth_tag (advance 65535 start) i ≡ nth_tag start (suc i)
nth_tag-advance start i lt = ground arith

-- A tag was handed out: it is not NOTAG, it was free, and now it alone is new, with an empty channel
-- of its own.
abbrev pub Taken : {M : Type 0} → Transport M → Outcome ℕ × Transport M → Type 0
Taken c (ok t, c') =
    (t < 65535)
    × (lookup t c.queue ≡ none)
    × (c'.queue ≡ insert t (length c.channels) c.queue)
    × (c'.channels ≡ c.channels ++ empty ∷ [])
    × (c'.next_tag < 65535)
Taken c (_, c') = ⊥

module _ {M : Type 0} where
  -- The tags of the later rounds, and that of the first.
  in_use_from :
      (n : ℕ) (c : Transport M) (ch : ℕ)
      → c.next_tag < 65535
      → lookup c.next_tag c.queue ≡ some ch
      → ((i : ℕ)
          → suc i < n
          → is_some (lookup (nth_tag (advance 65535 c.next_tag) i) c.queue) ≡ true)
      → (i : ℕ) → i < n
      → is_some (lookup (nth_tag c.next_tag i) c.queue) ≡ true
  in_use_from n c ch lt used full zero a =
      let e : (nth_tag c.next_tag 0 ≡ c.next_tag) = omega arith in rw (e, used) refl
  in_use_from n c ch lt used full (suc i) a = rw (← nth_tag-advance c.next_tag i lt) (full i a)

  -- The loop hands a tag out, or all the tags that it comes to are in use.
  find_tag-cases :
      (n : ℕ) (c : Transport M)
      → c.next_tag < 65535
      → Taken c (find_tag 65535 n c)
        ⊎ ((i : ℕ) → i < n → is_some (lookup (nth_tag c.next_tag i) c.queue) ≡ true)
  unfolding find_tag
  find_tag-cases zero c lt = inr (λ i a. ground arith)
  find_tag-cases (suc n) c lt = elim (Option-cases (lookup c.next_tag c.queue)) [
    | inl free ↦ rw (free, find_tag) (inl (lt, free, refl, refl, ground arith))
    | inr (ch, used) ↦
        let next : Transport M = record c { next_tag = advance 65535 c.next_tag } in
        rw (used, find_tag)
          (elim (find_tag-cases n next (ground arith)) [
            | inl taken ↦ inl taken
            | inr full ↦ inr (in_use_from (suc n) c ch lt used (λ i a. full i (omega arith)))
          ])
  ]

  -- While fewer than 65535 tags are pending and the next tag to try is not NOTAG, Tag hands out a tag
  -- that is free and not NOTAG, gives it an empty channel of its own, and the next tag to try is
  -- not NOTAG again.
  pub take_any-Taken :
      (c : Transport M) → c.next_tag < 65535 → length c.queue < 65535 → Taken c (take_any 65535 c)
  unfolding take_any
  take_any-Taken c lt room = elim (find_tag-cases 65535 c lt) [
    | inl taken ↦ ground arith
    | inr full ↦
        ground
          (arith, pigeonhole 65535 (nth_tag c.next_tag) c.queue (nth_tag_apart c.next_tag) full)
  ]

  -- A channel that is in the queue belongs to one tag, and has been given nothing yet.
  pub record IsTransport (c : Transport M) : Type 0 where
    pub open_channel :
        (t ch : ℕ) → lookup t c.queue ≡ some ch → get_elem? c.channels ch ≡ some empty
    pub apart : (t u ch : ℕ) → lookup t c.queue ≡ some ch → lookup u c.queue ≡ some ch → t ≡ u

module _ {M : Type 0} (c : Transport M) (v : IsTransport c) where
  -- If each channel in the queue is open and belongs to one tag: a response on a pending tag is put
  -- into the channel of that tag and of no other, which is closed; its tag is free again, the other
  -- tags stay pending, and their channels stay open and apart.
  pub response_received_lem :
      (t ch : ℕ) (m : M)
      → lookup t c.queue ≡ some ch
      → let (r, c') = response_received t m c in
        (r ≡ ok tt)
        × (get_elem? c'.channels ch ≡ some (closed (some m)))
        × (lookup t c'.queue ≡ none)
        × ((u : ℕ) → t ≢ u → lookup u c'.queue ≡ lookup u c.queue)
        × IsTransport c'
  unfolding response_received
  response_received_lem t ch m used =
      rw (used, response_received)
        (
          refl,
          ground
              (arith, get_elem?-set c.channels ch ch (closed (some m)), v.open_channel t ch used),
          ground (arith, lookup-delete t t c.queue),
          λ u far. ground (arith, lookup-delete t u c.queue),
          record {
            open_channel = λ u d e. ground (
              arith,
              lookup-delete t u c.queue,
              v.open_channel u d,
              v.apart t u ch,
              get_elem?-set c.channels ch d (closed (some m)),
            );
            apart = λ u w d e f.
                ground (arith, lookup-delete t u c.queue, lookup-delete t w c.queue, v.apart u w d);
          },
        )
