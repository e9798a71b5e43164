-- ===== src/Trees/Broadcast.antt =====
-- BroadcastFile and BroadcastHandle of fileserver/trees/broadcastfile.go. The handles are addresses:
-- `handles` is the store. A method runs as one step, without its locks; a read that waits for a
-- message blocks. A Push and a Close that run at once, with their locks, are in the child Race.
pub mod Laws
pub mod Fifo
pub mod Race
mod Tests
use qptools.Prelude.{
  ℕ, zero, suc, Bool, true, false, not, ◌&&◌, ◌||◌, String, Option, none, some, List, [], ◌∷◌, ◌++◌,
  ◌==◌, ltb, if◌then◌else◌, length, get_elem?, set, bit_and,
}
use qptools.Act.{
  Act, Error, reason, Outcome, ok, err, panicked, blocked, pure, raise, gets, modify, ◌>>=◌, ◌>>◌,
}
use qptools.Qp.{Qp}
use qptools.Trees.File.{File, permission_refused, can_open}

abbrev pub read_terminated : Error
read_terminated = reason "read terminated"

abbrev pub message_too_big : Error
message_too_big = reason "message bigger than requested read"

-- BroadcastHandle
pub record Listener : Type 0 where
  pub consumer : Bool
  pub queue : List (List ℕ)
  pub unwanted : Bool

-- BroadcastFile
pub record Broadcast : Type 0 where
  pub file : File
  pub files : List ℕ
  pub handles : List Listener

-- NewBroadcastFile, with the SyntheticFile that it makes
abbrev pub new_broadcast : File → Broadcast
new_broadcast file = record { file = file; files = []; handles = [] }

-- mode & 3, reading
unfoldable pub hears : Qp → (mode : ℕ) → Bool
hears qp mode =
    bit_and mode 3 == qp.oread || bit_and mode 3 == qp.oexec || bit_and mode 3 == qp.ordwr

-- Open(user, mode)
unfoldable pub open_broadcast : (qp : Qp) (now : ℕ) (user : String) (mode : ℕ) → Act Broadcast ℕ
open_broadcast qp now user mode b =
    let h = length b.handles in
    let l : Listener = record { consumer = hears qp mode; queue = []; unwanted = false } in
    if not (can_open qp b.file user mode) then (err permission_refused, b) else (
      ok h,
      record {
        file = record b.file { atime = now };
        files = if hears qp mode then b.files ++ h ∷ [] else b.files;
        handles = b.handles ++ l ∷ [];
      },
    )

-- h.push(m)
unfoldable pub deliver : (h : ℕ) (m : List ℕ) → List Listener → List Listener
deliver h m hs = elim (get_elem? hs h) [
  | none ↦ hs
  | some l ↦ set hs h (record l { queue = l.queue ++ m ∷ [] })
]

unfoldable pub push_each : (files : List ℕ) (m : List ℕ) → List Listener → List Listener
push_each [] m hs = hs
push_each (h ∷ files) m hs = push_each files m (deliver h m hs)

-- Push(m)
unfoldable pub push : (m : List ℕ) → Act Broadcast (Unit {0})
push m b = (ok tt, record b { handles = push_each b.files m b.handles })

-- WriteAt(m, offset)
unfoldable pub write_message : (m : List ℕ) → Act Broadcast ℕ
unfolding ◌>>=◌
write_message m = do push m; pure (length m)

-- fetch()
abbrev pub fetch_from : (h : ℕ) → Option Listener → Act Broadcast (List ℕ)
fetch_from h none b = (panicked, b)
fetch_from h (some l) b = if l.unwanted then (err read_terminated, b) else elim l.queue [
  | [] ↦ (blocked, b)
  | m ∷ ms ↦ (ok m, record b { handles = set b.handles h (record l { queue = ms }) })
]

unfoldable pub fetch : (h : ℕ) → Act Broadcast (List ℕ)
fetch h b = fetch_from h (get_elem? b.handles h) b

-- ReadAt(p, offset), for a buffer of `room` bytes
unfoldable pub read_message : (h room : ℕ) → Act Broadcast (List ℕ)
unfolding ◌>>=◌
read_message h room = do m ← fetch h; if ltb room (length m) then raise message_too_big else pure m

-- deregister(h): the first entry that is h
unfoldable pub deregister : (h : ℕ) → List ℕ → List ℕ
deregister h [] = []
deregister h (f ∷ files) = let rest = deregister h files in if f == h then files else f ∷ rest

-- Close()
abbrev pub shut : (h : ℕ) → Option Listener → Act Broadcast (Unit {0})
shut h none b = (panicked, b)
shut h (some l) b = (
  ok tt,
  record b {
    files = if l.consumer then deregister h b.files else b.files;
    handles = set b.handles h (record l { queue = []; unwanted = true });
  },
)

unfoldable pub close_listener : (h : ℕ) → Act Broadcast (Unit {0})
close_listener h b = shut h (get_elem? b.handles h) b
