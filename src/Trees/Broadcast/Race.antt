-- ===== src/Trees/Broadcast/Race.antt =====
-- A Push and a Close of fileserver/trees/broadcastfile.go that run at once, with the locks that they
-- take. A turn of a goroutine takes one lock, if that is free, and does what follows up to the next
-- one; a goroutine that has to wait stays where it is. The lock of the file is held between turns by
-- a Push only, for reading, and that of the handle by a Close only.
pub mod Sound
pub mod Serial
pub mod Ends
pub mod Stuck
use qptools.Prelude.{
  ℕ, Bool, true, false, ◌&&◌, Option, none, some, List, [], ◌∷◌, ◌==◌, if◌then◌else◌, get_elem?,
  set,
}
use qptools.Trees.Broadcast.{Listener, Broadcast, deliver, deregister}

-- Where Push is: before f.RLock(), or in its loop, with the handles that are left.
pub data Pushing : Type 0 where
  push_ahead : Pushing
  looping : (rest : List ℕ) → Pushing
  push_over : Pushing

-- Where Close is: before the lock of the handle, or, with that lock, before f.Lock() of deregister.
pub data Closing : Type 0 where
  close_ahead : Closing
  leaving : Closing
  close_over : Closing

pub record Race : Type 0 where
  pub broadcast : Broadcast
  pub pushing : Pushing
  pub closing : Closing

pub data Turn : Type 0 where
  of_push : Turn
  of_close : Turn

abbrev pub at : Broadcast → Pushing → Closing → Race
at x p c = record { broadcast = x; pushing = p; closing = c }

abbrev pub start : Broadcast → Race
start b = at b push_ahead close_ahead

-- a reader of the file's lock
abbrev pub holds_file : Pushing → Bool
holds_file push_ahead = false
holds_file (looping rest) = true
holds_file push_over = false

abbrev pub holds_handle : Closing → Bool
holds_handle close_ahead = false
holds_handle leaving = true
holds_handle close_over = false

-- queue = nil, unwanted = true
abbrev pub gone : Listener → Listener
gone l = record l { queue = []; unwanted = true }

-- Push(m), against a Close of the handle h
abbrev pub push_turn : (m : List ℕ) (h : ℕ) → Pushing → Race → Race
push_turn m h push_ahead r = record r { pushing = looping r.broadcast.files }
push_turn m h (looping []) r = record r { pushing = push_over }
push_turn m h (looping (f ∷ rest)) r = if f == h && holds_handle r.closing then r else record r {
  broadcast = record r.broadcast { handles = deliver f m r.broadcast.handles };
  pushing = looping rest;
}
push_turn m h push_over r = r

abbrev pub leave : (h : ℕ) → Option Listener → Race → Race
leave h none r = r
leave h (some l) r = record r {
  broadcast = record r.broadcast { handles = set r.broadcast.handles h (gone l) };
  closing = if l.consumer then leaving else close_over;
}

-- Close() of the handle h
abbrev pub close_turn : (h : ℕ) → Closing → Race → Race
close_turn h close_ahead r = leave h (get_elem? r.broadcast.handles h) r
close_turn h leaving r = if holds_file r.pushing then r else record r {
  broadcast = record r.broadcast { files = deregister h r.broadcast.files };
  closing = close_over;
}
close_turn h close_over r = r

abbrev pub turn : (m : List ℕ) (h : ℕ) → Turn → Race → Race
turn m h of_push r = push_turn m h r.pushing r
turn m h of_close r = close_turn h r.closing r

-- the goroutines, in this order
unfoldable pub run : (m : List ℕ) (h : ℕ) → List Turn → Race → Race
run m h [] r = r
run m h (t ∷ ts) r = run m h ts (turn m h t r)
