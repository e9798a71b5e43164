-- ===== src/Client/Wrapped/Writes.antt =====
-- WriteAt: it writes everything where its chunks divide the length, and panics where they do not.
use qptools.Prelude.{
  ℕ, zero, suc, ◌+◌, ◌-◌, ◌%◌, ◌^◌, ◌≤◌, ◌<◌, ◌≡◌, ◌≢◌, refl, ap, ◌∙◌, List, ◌++◌, arith, ltb,
  if◌then◌else◌, length, take, drop, length-take, length-drop, pos, inl, inr, Bool-cases,
}
use native.Mathlib.Nat.{mod-eq-sub-mod}
use qptools.Act.{ok, panicked, attempt, ◌>>=◌}
use qptools.Trees.Slice.{Slice}
use qptools.Client.Connection.{Connection}
use qptools.Client.Wrapped.{Round, chunk_size, write_round, write_loop, write_to}

-- A peer that takes all the bytes of every write, and what it was given so far.
pub record IsTaking {S : Type 0} (conn : Connection S) (fid : ℕ) (log : S → List ℕ) : Type 0 where
  pub takes :
      (offset : ℕ) (b : List ℕ) (s : S)
      → ((conn.write fid offset b s).0 ≡ ok (length b))
        × (log (conn.write fid offset b s).1 ≡ log s ++ b)

module _ {S : Type 0} (conn : Connection S) (fid : ℕ) (log : S → List ℕ)
    (all : IsTaking conn fid log) where
  -- One round with a full chunk, which may reach into the capacity.
  round_lem :
      (ms offset : ℕ) (p : Slice) (s : S)
      → 0 < ms
      → ms ≤ length p.array
      → ((write_round conn fid ms offset p s).0 ≡ (
          if ltb p.len ms
          then panicked
          else ok (
              Round.further
                ((offset + ms) % 2 ^ 64)
                (record { array = drop ms p.array; len = p.len - ms }))))
        × (log (write_round conn fid ms offset p s).1 ≡ log s ++ take ms p.array)
  unfolding write_round attempt ◌>>=◌
  round_lem ms offset p s some_bytes fits =
      let size : (length (take ms p.array) ≡ ms) = ground (arith, length-take ms p.array) in
      let t = all.takes offset (take ms p.array) s in
      (ground (arith, size, t.0), ground (arith, size, t))

  -- The last chunk reaches beyond the array.
  round_beyond :
      (ms offset : ℕ) (p : Slice) (s : S)
      → length p.array < ms
      → write_round conn fid ms offset p s ≡ (panicked, s)
  unfolding write_round ◌>>=◌
  round_beyond ms offset p s beyond = ground arith

  loop_step :
      (fuel ms offset o : ℕ) (p p' : Slice) (s : S)
      → p.len ≢ 0
      → (write_round conn fid ms offset p s).0 ≡ ok (Round.further o p')
      → write_loop conn (suc fuel) fid ms offset p s
        ≡ write_loop conn fuel fid ms o p' (write_round conn fid ms offset p s).1
  unfolding write_loop ◌>>=◌
  loop_step fuel ms offset o p p' s more e = ground (arith, e)

  loop_panics :
      (fuel ms offset : ℕ) (p : Slice) (s : S)
      → p.len ≢ 0
      → (write_round conn fid ms offset p s).0 ≡ panicked
      → (write_loop conn (suc fuel) fid ms offset p s).0 ≡ panicked
  unfolding write_loop ◌>>=◌
  loop_panics fuel ms offset p s more e = ground (arith, e)

  -- A length that they do not divide.
  loop_ragged :
      (fuel ms offset : ℕ) (p : Slice) (s : S)
      → 0 < ms
      → p.len % ms ≢ 0
      → p.len ≤ length p.array
      → p.len < fuel
      → (write_loop conn fuel fid ms offset p s).0 ≡ panicked
  loop_ragged zero ms offset p s pos_ms ragged fits enough = absurd (omega arith)
  loop_ragged (suc fuel) ms offset p s pos_ms ragged fits enough =
      let more : (p.len ≢ 0) = λ e. ragged (rw e (grind arith)) in
      elim (Bool-cases (ltb (length p.array) ms)) [
        | inl beyond ↦
            loop_panics fuel ms offset p s more
              (ap (λ r. r.0) (round_beyond ms offset p s (ground arith)))
        | inr inside ↦
            let round = round_lem ms offset p s pos_ms (ground arith) in
            elim (Bool-cases (ltb p.len ms)) [
              | inl last ↦ loop_panics fuel ms offset p s more (ground (arith, round.0))
              | inr next ↦
                  let p' : Slice = record { array = drop ms p.array; len = p.len - ms } in
                  rw
                    (loop_step fuel ms offset ((offset + ms) % 2 ^ 64) p p' s more
                      (ground (arith, round.0)))
                    (loop_ragged fuel ms ((offset + ms) % 2 ^ 64) p'
                      (write_round conn fid ms offset p s).1 pos_ms
                      (λ e. ragged (mod-eq-sub-mod (ground arith) ∙ e))
                      (omega (arith, length-drop ms p.array)) (omega arith))
            ]
      ]

  -- The bug: WriteAt, to a peer that takes all the bytes of every message, of a slice that fits its
  -- array and whose length is not a multiple of the chunk size, which is not zero, panics, with more
  -- rounds than there are bytes: the last chunk is cut beyond the end of what is left.
  pub write_to_ragged :
      (overhead fuel off : ℕ) (p : Slice) (s : S)
      → p.len ≤ length p.array
      → 0 < chunk_size overhead (conn.max_size s) p.len
      → p.len % chunk_size overhead (conn.max_size s) p.len ≢ 0
      → p.len < fuel
      → (write_to conn overhead fuel fid p (pos off) s).0 ≡ panicked
  unfolding write_to ◌>>=◌
  write_to_ragged overhead fuel off p s fits some_bytes ragged enough =
      let ms = chunk_size overhead (conn.max_size s) p.len in
      rw (loop_ragged fuel ms off p s some_bytes ragged fits enough) refl
