-- ===== src/Tests/Requests.antt =====
-- The server at work: requests, answers and the faults in between, on a concrete server.
use qptools.Prelude.{arith, ◌≡◌, refl, true, false, some, List, [], ◌∷◌}
use qptools.Prelude.Maps.{lookup, nat_key}
use qptools.Act.{eof, reason, Outcome, ok, blocked}
use qptools.Act.Returns.{Yields}
use qptools.Fileserver.Walk.{walk_to}
use qptools.Fileserver.Walk.Laws.{WalkOk, walk_to-WalkOk}
use qptools.Fileserver.Wire.{answer}
use qptools.Fileserver.Wire.Effect.{wire}
use qptools.Fileserver.Handlers
use qptools.Fileserver.Handlers.{negotiate, reset_session, holding_fids, with_fid, with_held_fid}
use qptools.Fileserver.Handlers.Handled.{Handled, handle-Handled}
use qptools.Fileserver.Handlers.Reset.{reset_session_lem}
use qptools.Fileserver.Dispatch.{handle}
use qptools.Fileserver.System.{System, run, here, next, answers}
use qptools.Fileserver.System.Flushed.{flush-silent}
use qptools.Fileserver.Serve.{Event, test, arrived, broken, handler, Service, serve, first_test}
use qptools.Fileserver.Faults.{held_answer_deadlocks}
use qptools.Qp.{Qp, Qid, Stat, Response, Reply, r_stat}
use qptools.Qp.{Request as Message, r_clunk, r_read, r_open}
use qptools.Qp
use qptools.Fileserver.State.{Request, nine_p2000, Server}
use qptools.Tests.{endless, host, cut_off, first, second, at_root, talking, busy}

abbrev flushed_server : Server (Unit {0})
flushed_server = (Handlers.flush host 5 second busy).1

abbrev after_flush : System (Unit {0})
after_flush = record { server = (handle host (Qp.stat 5 1) first flushed_server).1; jobs = [] }

flush-silent_example : answers 0 after_flush.server ≡ answers 0 busy
unfolding lookup
flush-silent_example =
    flush-silent host 5 second first busy ((record { message = Qp.stat 5 1; request = first }) ∷ [])
      after_flush refl refl
      (next here (run (record { message = Qp.stat 5 1; request = first }) flushed_server [] []))

-- A message whose handler runs after the next test, and then the end of the input.
abbrev one_request : List Event
one_request = test ∷ arrived (Qp.stat 5 1) ∷ test ∷ handler 0 ∷ broken eof ∷ []

abbrev served : Service (Unit {0})
served = serve host one_request (first_test tt)

handle-Handled_example :
    Handled second (wire busy) (wire (handle host (Qp.flush 6 5) second busy).1)
handle-Handled_example = handle-Handled host second (Qp.flush 6 5) busy

walk_to-WalkOk_example :
    Yields
      (WalkOk at_root ("usr" ∷ ".." ∷ "lib" ∷ []))
      (walk_to endless at_root ("usr" ∷ ".." ∷ "lib" ∷ []) tt).0
walk_to-WalkOk_example = walk_to-WalkOk endless at_root ("usr" ∷ ".." ∷ "lib" ∷ []) tt

abbrev was_reset : Server (Unit {0})
was_reset = (reset_session host 4096 busy).1

reset_session_lem_example :
    ((reset_session host 4096 busy).0 ≡ ok tt)
    × (was_reset.session.fids ≡ some [])
    × (was_reset.session.fid_lock ≡ false)
    × (was_reset.tags ≡ [])
    × (was_reset.proto ≡ some nine_p2000)
    × (was_reset.msg_size ≡ 4096)
    × (was_reset.decoder.message_size ≡ 4096)
    × (was_reset.sent ≡ [])
    × (was_reset.cancelled ≡ false ∷ false ∷ [])
reset_session_lem_example =
    reset_session_lem host (λ h w. tt) 4096 busy
      (record { fids_free = refl; each_free = (refl, (refl, tt)) })

abbrev dying : Outcome (Unit {0}) × Server (Unit {0})
dying = holding_fids (answer cut_off first (λ s. (ok r_clunk, s))) busy

held_answer_deadlocks_example : (dying.0 ≡ blocked) × (dying.1.session.fid_lock ≡ true)
held_answer_deadlocks_example =
    held_answer_deadlocks cut_off first (λ s. (ok r_clunk, s)) r_clunk busy (reason "closed")
      (record talking { fid_lock = true }) refl refl refl refl
      (record { typed = refl; marshalled = refl }) (omega arith) refl refl

abbrev stuck : Server (Unit {0})
stuck = record busy { session = record talking { fid_lock = true } }
