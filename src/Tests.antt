-- ===== src/Tests.antt =====
-- Concrete servers and requests.
mod Requests
mod Files
use qptools.Prelude.{
  ℕ, zero, suc, ◌+◌, ◌-◌, ◌^◌, ◌≤◌, ◌<◌, arith, ◌≡◌, ◌≢◌, ◌↔◌, ◌⊎◌, refl, true, false, Option, none,
  some, List, [], ◌∷◌, length, get_elem?, is_some, bit_and,
}
use qptools.Prelude.Maps.{lookup, delete, nat_key}
use qptools.Act.{
  Error, reason, Outcome, ok, err, panicked, blocked, within, require, or_raise, attempt, ignore,
  ◌>>=◌,
}
use qptools.Act.Returns.{Yields}
use qptools.Fileserver.Walk.{walk_to}
use qptools.Fileserver.Walk.Laws.{WalkOk, walk_to-WalkOk}
use qptools.Fileserver.SetStat.{max16, max32, max64, refusal, requested, set_stat}
use qptools.Fileserver.SetStat.Laws.{Keeps, KeepsText, set_stat_refused, set_stat_root_panics}
use qptools.Fileserver.Wire.{is_cancelled, on_world, respond, answer}
use qptools.Fileserver.Wire.Effect.{wire}
use qptools.Fileserver.Fids.{find_fid, fresh, delete_fid, root_of, attach_body}
use qptools.Fileserver.Files.{
  readable, read_count, read_result, read_body, forget, clunk_body, open_body,
}
use qptools.Fileserver.Handlers
use qptools.Fileserver.Handlers.{negotiate, reset_session, holding_fids, with_fid, with_held_fid}
use qptools.Fileserver.Handlers.Handled.{Handled, handle-Handled}
use qptools.Fileserver.Handlers.Reset.{negotiate_bounds, reset_session_lem}
use qptools.Fileserver.Dispatch.{received, handle}
use qptools.Fileserver.System.{System, spawn, receive, run, here, next, count, answers}
use qptools.Fileserver.System.Kept.{job_ids}
use qptools.Fileserver.System.Flushed.{cancelled-silent, flush-silent}
use qptools.Fileserver.Respond.{response_of, respond-fitting, respond_too_big}
use qptools.Fileserver.Faults.{held_answer_deadlocks, locked_blocks, unsupported_crashes}
use qptools.Fileserver.Effects.{read_body_bound, find_fid-clunk, open_body_fids, attach_body_leak}
use qptools.Qp.{Qp, Qid, Stat, Response, Reply, r_stat}
use qptools.Qp.{Request as Message, r_clunk, r_read, r_open}
use qptools.Qp
use qptools.Trees.{Tree}
use qptools.Fileserver.Walk.{FidState}
use qptools.Fileserver.State.{Request, nine_p2000, Session, Server, Host, new}

-- The constants of 9P2000. A response counts as large as its size, and `wide` bytes with a Stat.
abbrev pub constants : (Response → ℕ) → Qp
constants size = record {
  notag = 2 ^ 16 - 1;
  nofid = 2 ^ 32 - 1;
  oread = 0;
  owrite = 1;
  ordwr = 2;
  oexec = 3;
  otrunc = 16;
  mode_mask = 2 ^ 32 - 1;
  dmdir = 2 ^ 31;
  dmappend = 2 ^ 30;
  qtdir = 128;
  qtfile = 0;
  qtauth = 8;
  version = "9P2000";
  unknown_version = "unknown";
  header_size = 7;
  read_overhead = 11;
  write_overhead = 23;
  encoded_size = size;
  message_type = λ m. none;
  marshal = λ m. none;
}

abbrev pub a_qid : Qid
a_qid = record { kind = 128; version = 0; path = 1 }

abbrev pub a_stat : Stat
a_stat = record {
  kind = 0;
  dev = 0;
  qid = a_qid;
  mode = 420;
  atime = 0;
  mtime = 0;
  length = 5;
  name = "/";
  uid = "glenda";
  gid = "glenda";
  muid = "glenda";
}

-- What a read of a file with one byte returns.
abbrev pub few : ℕ → List ℕ
few zero = []
few (suc n) = 42 ∷ []

pub few_le : (n : ℕ) → length (few n) ≤ n
few_le zero = omega arith
few_le (suc n) = omega arith

-- A stat message counts as 9000 bytes, and any other as 20.
abbrev pub wide : Reply → ℕ
wide (r_stat st) = 9000
wide _ = 20

-- A tree of directories, each of which holds every name; a cut of a length is refused.
abbrev pub endless : Tree (Unit {0})
endless = record {
  name = λ f w. (ok "x", w);
  open_file = λ f user mode w. (ok 9, w);
  qid = λ f w. (ok a_qid, w);
  stat = λ f w. (ok a_stat, w);
  set_length = λ f user n w. (err (reason "read-only"), w);
  set_name = λ f user n w. (ok tt, w);
  set_owner = λ f user u g w. (ok tt, w);
  set_mode = λ f user m w. (ok tt, w);
  is_dir = λ f w. (ok true, w);
  can_remove = λ f w. (ok true, w);
  arrived = λ f user w. (ok none, w);
  has_dir = λ f. true;
  walk = λ d user n w. (ok (some (suc d)), w);
  create = λ d user n perms w. (ok (suc d), w);
  remove = λ d user n w. (ok tt, w);
  rename = λ d user n m w. (ok tt, w);
  read_at = λ h n off w. (ok (few n, none), w);
  write_at = λ h bytes off w. (ok (length bytes), w);
  close = λ h w. (ok tt, w);
  is_authenticator = λ h. false;
  authenticated = λ h user service w. (ok false, w);
}

abbrev pub a_host : (Response → ℕ) → Option Error → Host (Unit {0})
a_host size fault = record {
  qp = constants size;
  tree = endless;
  suggested_message_size = 8192;
  auth_file = none;
  roots = [];
  default_root = some 0;
  write = λ sent m. fault;
  reset = λ d. none;
}

abbrev pub host : Host (Unit {0})
host = a_host (λ m. wide m.reply) none

-- The same server behind a connection that is closed.
abbrev pub cut_off : Host (Unit {0})
cut_off = a_host (λ m. wide m.reply) (some (reason "closed"))

abbrev pub first : Request
first = record { id = 0; tag = 5 }

abbrev pub second : Request
second = record { id = 1; tag = 6 }

abbrev pub at_root : FidState
at_root = record { location = 0 ∷ []; handle = none; mode = 0; username = "glenda"; locked = false }

abbrev pub opened : FidState
opened = record at_root { handle = some 9 }

-- After the version message, with two fids and two requests.
abbrev pub talking : Session (Unit {0})
talking = record { fids = some ((1, at_root) ∷ (2, opened) ∷ []); fid_lock = false; world = tt }

abbrev pub busy : Server (Unit {0})
busy = record {
  session = talking;
  cancelled = false ∷ false ∷ [];
  tags = (5, first) ∷ (6, second) ∷ [];
  sent = [];
  msg_size = 8192;
  proto = some nine_p2000;
  decoder = record { message_size = 8192; greedy = true };
  error = none;
  error_cnt = 0;
  error_lock = false;
}
