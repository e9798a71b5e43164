-- ===== src/Trees/Broadcast/Tests.antt =====
-- A file that everyone may read and write, with one listener that has one message waiting.
use qptools.Prelude.{◌≡◌, ◌≢◌, ◌⊎◌, refl, true, false, List, some, [], ◌∷◌, ◌++◌, get_elem?}
use qptools.Act.{ok}
use qptools.Qp.{Qp}
use qptools.Tests.{constants}
use qptools.Trees.File.{File, new_file, can_open}
use qptools.Trees.Broadcast.{
  Listener, Broadcast, new_broadcast, open_broadcast, hears, push, push_each, deliver,
  close_listener,
}
use qptools.Trees.Broadcast.Laws.{BroadcastReach, created, opened, pushed, listens}
use qptools.Trees.Broadcast.Race.{Turn, of_push, of_close, push_over, close_over, start, run}
use qptools.Trees.Broadcast.Race.Ends.{deadlocked}
use qptools.Trees.Broadcast.Race.Serial.{race_serial}
use qptools.Trees.Broadcast.Race.Stuck.{race_outcomes, race_deadlocks}
use qptools.Trees.Broadcast.Fifo.{push_all, fetch_all, broadcast_fifo}

abbrev qp : Qp
qp = constants (λ m. 20)

abbrev chat : File
chat = new_file 7 100 "chat" 511 "glenda" "glenda"

-- Opened for reading and writing, before the first message.
abbrev joined : Broadcast
joined = (open_broadcast qp 101 "glenda" 2 (new_broadcast chat)).1

abbrev waiting : Broadcast
waiting = (push (1 ∷ []) joined).1

waiting-BroadcastReach : BroadcastReach qp chat waiting
waiting-BroadcastReach = pushed (1 ∷ []) (opened 101 "glenda" 2 created)

abbrev listener : Listener
listener = record { consumer = true; queue = (1 ∷ []) ∷ []; unwanted = false }

broadcast_fifo_example :
    (listens (some listener) ≡ true
      → (b' : Broadcast) × (fetch_all 0 3 (push_all ((2 ∷ []) ∷ (3 ∷ []) ∷ []) waiting)
          ≡ (ok ((1 ∷ []) ∷ (2 ∷ []) ∷ (3 ∷ []) ∷ []), b')))
    × (listens (some listener) ≡ false
        → get_elem? (push_all ((2 ∷ []) ∷ (3 ∷ []) ∷ []) waiting).handles 0 ≡ some listener)
unfolding open_broadcast hears can_open push push_each deliver
broadcast_fifo_example =
    broadcast_fifo ((2 ∷ []) ∷ (3 ∷ []) ∷ []) waiting 0 listener waiting-BroadcastReach refl

-- Push takes the lock of the file, and delivers the message before Close comes.
abbrev in_turn : List Turn
in_turn = of_push ∷ of_push ∷ of_push ∷ of_close ∷ of_close ∷ []

race_serial_example :
    ((run (2 ∷ []) 0 in_turn (start waiting)).broadcast
      ≡ (close_listener 0 (push (2 ∷ []) waiting).1).1)
    × ((run (2 ∷ []) 0 in_turn (start waiting)).broadcast
        ≡ (push (2 ∷ []) (close_listener 0 waiting).1).1)
unfolding open_broadcast hears can_open push push_each deliver run
race_serial_example =
    race_serial (2 ∷ []) 0 waiting listener in_turn waiting-BroadcastReach refl refl refl

-- Close waits for Push, which has no handle left.
abbrev late : List Turn
late = of_push ∷ of_push ∷ of_close ∷ []

race_outcomes_example :
    ((deadlocked 0
          (run (2 ∷ []) 0 late (start waiting)).pushing
          (run (2 ∷ []) 0 late (start waiting)).closing
        ≡ false)
      × (more : List Turn) × ((run (2 ∷ []) 0 (late ++ more) (start waiting)).pushing ≡ push_over)
      × ((run (2 ∷ []) 0 (late ++ more) (start waiting)).closing ≡ close_over))
    ⊎ ((deadlocked 0
            (run (2 ∷ []) 0 late (start waiting)).pushing
            (run (2 ∷ []) 0 late (start waiting)).closing
          ≡ true)
        × ((more : List Turn)
            → ((run (2 ∷ []) 0 (late ++ more) (start waiting)).pushing ≢ push_over)
              × ((run (2 ∷ []) 0 (late ++ more) (start waiting)).closing ≢ close_over)))
unfolding open_broadcast hears can_open push push_each deliver
race_outcomes_example = race_outcomes (2 ∷ []) 0 waiting listener late waiting-BroadcastReach refl

race_deadlocks_example :
    ((run (2 ∷ []) 0 (of_push ∷ of_close ∷ of_push ∷ []) (start waiting)).pushing ≢ push_over)
    × ((run (2 ∷ []) 0 (of_push ∷ of_close ∷ of_push ∷ []) (start waiting)).closing ≢ close_over)
unfolding open_broadcast hears can_open push push_each deliver
race_deadlocks_example =
    race_deadlocks (2 ∷ []) 0 waiting listener (of_push ∷ []) waiting-BroadcastReach refl refl
