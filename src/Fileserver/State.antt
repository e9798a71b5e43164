-- ===== src/Fileserver/State.antt =====
-- The state of a FileServer of fileserver/fileserver.go, and what it is given: its configuration,
-- the connection that it writes to, and the decoder of package qp.
use qptools.Prelude.{ℕ, String, Bool, false, Option, none, List, []}
use qptools.Prelude.Maps.{Map}
use qptools.Act.{Error, reason}
use qptools.Qp.{Qp, Response}
use qptools.Trees.{Tree}
use qptools.Fileserver.Walk.{FidState}

-- A *requestState: its address, and the tag, which never changes. Whether it is cancelled stands in
-- `Server.cancelled`, at that address.
pub record Request : Type 0 where
  pub id : ℕ
  pub tag : ℕ

-- A message that was written to the connection, beside the request that it answers.
pub record Sent : Type 0 where
  pub request : ℕ
  pub response : Response

-- The one protocol that the server negotiates.
pub data Protocol : Type 0 where
  nine_p2000 : Protocol

-- The fields of qp.Decoder that the server sets.
pub record Decoder : Type 0 where
  pub message_size : ℕ
  pub greedy : Bool

-- The fids and the file tree behind them. `fids` is a nil map until the first version message, and
-- `fid_lock` tells whether FileServer.fidLock is held for writing.
pub record Session (W : Type 0) : Type 0 where
  pub fids : Option (Map ℕ FidState)
  pub fid_lock : Bool
  pub world : W

-- The internal state of a FileServer. `sent` is what the connection has been given, oldest first, and
-- `error_lock` tells whether FileServer.errorLock is held.
pub record Server (W : Type 0) : Type 0 where
  pub session : Session W
  pub cancelled : List Bool
  pub tags : Map ℕ Request
  pub sent : List Sent
  pub msg_size : ℕ
  pub proto : Option Protocol
  pub decoder : Decoder
  pub error : Option Error
  pub error_cnt : ℕ
  pub error_lock : Bool

-- The exported fields of a FileServer, with the tree behind the roots. `write` is the error of
-- RW.Write after the messages given, and `reset` that of Decoder.Reset.
pub record Host (W : Type 0) : Type 0 where
  pub qp : Qp
  pub tree : Tree W
  pub suggested_message_size : ℕ
  pub auth_file : Option ℕ
  pub roots : Map String ℕ
  pub default_root : Option ℕ
  pub write : List Sent → Response → Option Error
  pub reset : Decoder → Option Error

-- The constants of the package.
abbrev pub max_message_size : ℕ
max_message_size = 10485760

abbrev pub min_size : ℕ
min_size = 256

-- New(rw, defaultRoot, roots), before the first message
unfoldable pub new : {W : Type 0} → W → Server W
new world = record {
  session = record { fids = none; fid_lock = false; world = world };
  cancelled = [];
  tags = [];
  sent = [];
  msg_size = 0;
  proto = none;
  decoder = record { message_size = max_message_size; greedy = false };
  error = none;
  error_cnt = 0;
  error_lock = false;
}

abbrev pub could_not_send_err : Error
could_not_send_err = reason "could not send error"

abbrev pub handler_panic : Error
handler_panic = reason "handler panicked"

-- The strings that the server sends by itself, as errors.
abbrev pub fid_in_use : Error
fid_in_use = reason "fid already in use"

abbrev pub tag_in_use : Error
tag_in_use = reason "tag already in use"

abbrev pub auth_not_supported : Error
auth_not_supported = reason "authentication not supported"

abbrev pub auth_required : Error
auth_required = reason "authentication required"

abbrev pub no_such_service : Error
no_such_service = reason "no such service"

abbrev pub invalid_fid : Error
invalid_fid = reason "invalid fid for operation"

abbrev pub unknown_fid : Error
unknown_fid = reason "unknown fid"

abbrev pub fid_not_open : Error
fid_not_open = reason "fid is not open"

abbrev pub invalid_file_name : Error
invalid_file_name = reason "invalid file name"

abbrev pub not_open_for_read : Error
not_open_for_read = reason "file not opened for reading"

abbrev pub not_open_for_write : Error
not_open_for_write = reason "file not opened for writing"

abbrev pub unsupported_message : Error
unsupported_message = reason "message not supported"

abbrev pub afid_not_auth_file : Error
afid_not_auth_file = reason "afid is not a valid auth file"

abbrev pub permission_denied : Error
permission_denied = reason "permission denied"

abbrev pub response_too_big : Error
response_too_big = reason "response too big"

abbrev pub message_size_too_small : Error
message_size_too_small = reason "version: message size too small"

abbrev pub incorrect_tag_for_version : Error
incorrect_tag_for_version = reason "version: tag must be NOTAG"

abbrev pub messages_during_version : Error
messages_during_version = reason "version: messages sent during version negotiation"

abbrev pub open_write_on_dir : Error
open_write_on_dir = reason "open: cannot open dir for write"
