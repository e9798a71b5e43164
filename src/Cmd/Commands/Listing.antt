-- ===== src/Cmd/Commands/Listing.antt =====
-- The command ls on a directory.
use Prim.Native.String.{String}
use qptools.Prelude.{List, length}
use qptools.Qp.{Qp, Stat}
use qptools.Client.Connection.{Connection}
use qptools.Cmd.Shell.{perm_to_string, Output, listed, Shell}

abbrev pub entry : Qp → Stat → Output
entry qp s = listed (perm_to_string qp s.mode) s.qid.version s.length s.name
