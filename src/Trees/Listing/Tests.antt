-- ===== src/Trees/Listing/Tests.antt =====
-- A directory with two files, read one file at a time.
use qptools.Prelude.{true, none, [], pos}
use qptools.Act.{reason, ok, err, ◌>>=◌}
use qptools.Utils.Tests.{codec, two_stats}
use qptools.Client.Connection.{Connection}
use qptools.Trees.Listing.{Lister, ListHandle, read_listing}
use qptools.Trees.Listing.Pages.{data_of}

abbrev lister : Lister (Unit {0})
lister = record {
  list = λ user w. (ok two_stats, w);
  logs = true;
  accessed = λ w. (ok tt, w);
  closed = λ w. (ok tt, w);
}

abbrev served : Connection (ListHandle × Unit {0})
served = record {
  max_size = λ s. 5;
  walk = λ fid names s. (ok (none, []), s);
  open_mode = λ fid mode s. (err (reason "already open"), s);
  make = λ fid name perm mode s. (err (reason "already open"), s);
  read = λ fid offset count. read_listing codec lister count (pos offset) >>= data_of;
  write = λ fid offset b s. (err (reason "cannot write to directory"), s);
  stat = λ fid s. (err (reason "no stat"), s);
  write_stat = λ fid stat s. (ok tt, s);
  clunk = λ fid s. (ok tt, s);
  remove = λ fid s. (ok tt, s);
}

abbrev unread : ListHandle
unread = record { user = "glenda"; list = [] }
