-- ===== src/Client/Wrapped.antt =====
-- WrappedFid of client/wrapper.go, over any implementation of the interface Fid. A slice that is
-- written is its array, up to the capacity, and its length.
pub mod Reads
pub mod Writes
pub mod Kept
use qptools.Prelude.{
  ℕ, zero, suc, ◌+◌, ◌-◌, ◌%◌, ◌^◌, Bool, true, false, Option, none, some, List, [], ◌∷◌, ◌++◌, ltb,
  ◌==◌, if◌then◌else◌, length, take, drop, ℤ, pos, negsuc, int64, add64,
}
use qptools.Act.{
  Act, Error, eof, reason, Outcome, ok, err, value, failure, pure, raise, panic, block, gets,
  attempt, ◌>>=◌,
}
use qptools.Qp.{Stat, StatCodec}
use qptools.Utils.{readdir}
use qptools.Trees.Slice.{Slice}
use qptools.Client.Connection.{Connection}

abbrev pub negative_read : Error
negative_read = reason "cannot read from negative offset"

abbrev pub short_write : Error
short_write = reason "short write"

abbrev pub not_negative : ℤ → Outcome ℤ
not_negative (pos n) = ok (pos n)
not_negative (negsuc n) = err (reason "negative offset invalid")

-- Seek(offset, whence): the new offset, if there is no error
unfoldable pub seek : (cur offset : ℤ) (whence : ℕ) → Outcome ℤ
seek cur offset whence =
    if whence == 2
    then err (reason "cannot seek from end of file")
    else not_negative (if whence == 1 then add64 offset cur else offset)

-- How a round of WriteAt ends: with an error, or with the offset and the bytes that are left.
pub data Round : Type 0 where
  stopped : (offset : ℕ) → Error → Round
  further : (offset : ℕ) → Slice → Round

-- the size of a chunk
abbrev pub chunk_size : (overhead max_size len : ℕ) → ℕ
chunk_size overhead max_size len =
    let ms = (max_size + 2 ^ 32 - overhead) % 2 ^ 32 in
    if ltb (len % 2 ^ 32) ms then len % 2 ^ 32 else ms

module _ {S : Type 0} where
  -- p[:ms], which reaches into the capacity
  abbrev pub chunk : (ms : ℕ) → Slice → Act S (List ℕ)
  chunk ms p = if ltb (length p.array) ms then panic else pure (take ms p.array)

  -- p = p[n:]
  abbrev pub rest_from : (n : ℕ) → Slice → Act S Slice
  rest_from n p =
      if ltb p.len n then panic else pure (record { array = drop n p.array; len = p.len - n })

module _ {S : Type 0} (conn : Connection S) where
  -- ReadAt(p, off), for a buffer of `count` bytes: the bytes that came
  unfoldable pub read_from : (fid count : ℕ) → ℤ → Act S (List ℕ)
  read_from fid count (negsuc k) = raise negative_read
  read_from fid count (pos off) = do
    b ← conn.read fid off (count % 2 ^ 32)
    if length b == 0 then raise eof else pure b

  -- Read(p), with the offset before it: the new offset comes back beside the outcome
  unfoldable pub read_next : (fid count : ℕ) (cur : ℤ) → Act S (ℤ × Outcome (List ℕ))
  read_next fid count cur = do
    r ← attempt (read_from fid count cur)
    elim r [ value b ↦ pure (add64 cur (pos (length b)), ok b) | failure e ↦ pure (cur, err e) ]

  -- the loop of ReadAll, with what it has read; it returns that beside an error too
  unfoldable pub read_loop : (fuel fid offset : ℕ) (got : List ℕ) → Act S (List ℕ × Option Error)
  read_loop zero fid offset got = block
  read_loop (suc fuel) fid offset got = do
    size ← gets conn.max_size
    r ← attempt (conn.read fid offset size)
    elim r [
      | failure e ↦ pure (got, some e)
      | value [] ↦ pure (got, none)
      | value (b ∷ bs) ↦ read_loop fuel fid ((offset + length (b ∷ bs)) % 2 ^ 64) (got ++ b ∷ bs)
    ]

  unfoldable pub read_all : (fuel fid : ℕ) → Act S (List ℕ × Option Error)
  read_all fuel fid = read_loop fuel fid 0 []

  -- Readdir(), for what the array of ReadAll holds behind its bytes: the stats before an error come
  -- with it
  unfoldable pub read_dir :
      (codec : StatCodec) (spare : List ℕ) (fuel fid : ℕ) → Act S (List Stat × Option Error)
  read_dir codec spare fuel fid = do
    (b, e) ← read_all fuel fid
    elim e [ some why ↦ raise why | none ↦ λ s. (readdir codec spare b, s) ]

  -- one round of the loop of WriteAt
  unfoldable pub write_round : (fid ms offset : ℕ) → Slice → Act S Round
  write_round fid ms offset p = do
    b ← chunk ms p
    r ← attempt (conn.write fid offset b)
    elim r [
      | failure e ↦ pure (Round.stopped offset e)
      | value n ↦
          if n == 0
          then pure (Round.stopped offset short_write)
          else (do p' ← rest_from n p; pure (Round.further ((offset + n) % 2 ^ 64) p'))
    ]

  -- the loop: where it stops, and why
  unfoldable pub write_loop : (fuel fid ms offset : ℕ) (p : Slice) → Act S (ℕ × Option Error)
  write_loop zero fid ms offset p = block
  write_loop (suc fuel) fid ms offset p = elim (p.len == 0) [
    | true ↦ pure (offset, none)
    | false ↦ do
      r ← write_round fid ms offset p
      elim r [
        | Round.stopped o e ↦ pure (o, some e)
        | Round.further o p' ↦ write_loop fuel fid ms o p'
      ]
  ]

  -- WriteAt(p, off): the number of bytes that were written, and an error
  unfoldable pub write_to : (overhead fuel fid : ℕ) (p : Slice) → ℤ → Act S (ℕ × Option Error)
  write_to overhead fuel fid p (negsuc k) = pure (0, some negative_read)
  write_to overhead fuel fid p (pos off) = do
    size ← gets conn.max_size
    (stop, e) ← write_loop fuel fid (chunk_size overhead size p.len) off p
    pure ((stop + 2 ^ 64 - off) % 2 ^ 64, e)

  -- Write(p), with the offset before it
  unfoldable pub write_next :
      (overhead fuel fid : ℕ) (p : Slice) (cur : ℤ) → Act S (ℤ × ℕ × Option Error)
  write_next overhead fuel fid p cur = do
    (n, e) ← write_to overhead fuel fid p cur
    pure (add64 cur (pos n), n, e)

  -- Close()
  unfoldable pub close_fid : (fid : ℕ) → Act S (Unit {0})
  close_fid fid = conn.clunk fid
