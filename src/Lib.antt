-- ===== src/Lib.antt =====
-- qptools: a 9P2000 file server (fileserver/), in-memory file trees (fileserver/trees/), a client
-- (client/) and commands (cmd/).
--
-- Modelled here are the file server and, as an interface, the file tree behind it; the synthetic
-- files and directories of such a tree, the handle that lists one, and the files and directories
-- that wrap others, or are files of the operating system; the client, from the tags of its
-- transport to whole files by their paths; and the interactive client cmd/9pc, with all its commands.
-- - Act: the effects of the Go code. A call changes a state and returns a value, returns an
--   error, panics, or blocks for ever on a lock that its own goroutine holds. Act.Keeps: what an
--   action leaves as it is.
-- - Qp: what the source uses of github.com/kennylevinsen/qp, as a parameter.
-- - Trees: the interfaces of fileserver/trees/utils.go, as a record of operations on a world.
-- - Trees.Perm: PermCheck of fileserver/trees/utils.go.
-- - Trees.Slice: the byte slice behind a handle, with its capacity; Trees.File: SyntheticFile and
--   SyntheticHandle of fileserver/trees/syntheticfile.go, and DetachedHandle of
--   fileserver/trees/detachedhandle.go.
-- - Trees.Dir: SyntheticDir of fileserver/trees/syntheticdir.go; Trees.Dir.Laws has its abstract
--   view, a map from names to files.
-- - Trees.Listing: ListHandle of fileserver/trees/listhandle.go.
-- - Trees.Mix, Trees.Broadcast and Trees.Locked: MixDir, BroadcastFile with its handles, and
--   LockedFile, of fileserver/trees/mixdir.go, broadcastfile.go and lockedfile.go. How these are
--   used is a relation: the calls in any order.
-- - Trees.Broadcast.Race: a Push and a Close of broadcastfile.go at once, with the locks that they
--   take: the turns of the two are a list.
-- - Trees.Memory: these directories, files and handles in one store, as a tree for the server; it
--   begins as the directory that cmd/ramfs/main.go serves.
-- - Trees.Proxy: ProxyFile of fileserver/trees/proxyfile.go, with the operating system as a
--   parameter; Trees.Proxy.Listing: its proxyFileListHandle.
-- - Utils: Readdir of utils/utils.go.
-- - Fileserver.Path and Fileserver.SetStat: fileserver/utils.go (FilePath, setStat).
-- - Fileserver.Walk: walkTo of fileserver/fileserver.go.
-- - Fileserver.State: FileServer, fidState and requestState. A request is its address: whether it
--   is cancelled stands in a list, at that address. `sent` is what was written to the connection.
-- - Fileserver.Wire: cleanup, die, handlePanic, register, serialize, respond and sendError.
-- - Fileserver.Fids and Fileserver.Files: what the handlers do with fids and files.
-- - Fileserver.Handlers: the handlers, from version to writeStat, with their locks.
-- - Fileserver.Dispatch: received.
-- - Fileserver.System: the server with its goroutines, as a step relation. A step receives a
--   message or runs one of the handlers that were started, in any order.
-- - Fileserver.Serve: the loop of Serve beside those goroutines, on a list of events: a test of
--   errorCnt, what ReadMessage returns, or the run of a handler.
-- - Client.Transport: the tags, the channels, the settings and Serve of client/transport.go.
-- - Client.Rpc: Send of client/transport.go, the pool of fids of client/client.go, and the pattern
--   of its methods; Client.Fid: the methods of Client and ClientFid.
-- - Client.Connection: the interface Fid of client/connection.go, as a record of operations on
--   a state, and ClientFid as its implementation.
-- - Client.Wrapped: client/wrapper.go, over any implementation of Fid.
-- - Client.Paths and Client.Simple: client/simple.go, with what it uses of strings and path.
-- - Cmd.Parse: parseCommandLine of cmd/9pc/parse.go.
-- - Cmd.Shell: what the commands of cmd/9pc/main.go share (parsepath, permToString, readdir, heldFid,
--   the output); Cmd.Sorting: the order of ls; Cmd.Commands: the commands; Cmd.Main: the map cmds,
--   the loop of main and its setup. Cmd.Commands.Tracked is a connection that also counts its fids.
--
-- How they interact: received registers a request on its tag and runs its handler or starts it; a
-- handler looks its fid up, calls the tree and ends in respond or sendError, which drop the answer
-- if the request was cancelled, and otherwise write it and free the tag. version resets all of
-- this. In the client a method takes a tag, sends its message on it, waits for what arrives on the
-- tag's channel, and checks that; Auth, Attach and Walk take a fid from the pool before. What the
-- server sends, and the loop of Serve meanwhile, are the parameter `Peer`. WrappedFid and
-- SimpleClient only use the interface Fid; what their theorems need of an implementation is a
-- hypothesis: reads that return parts of a content, writes that are taken whole.
-- Trees.Listing.Pages has such an implementation, a directory that is listed. The commands of 9pc
-- use Fid in the same way, and the machine they run on, with what kingpin makes of their arguments,
-- is the parameter `Host`; what they print is a list of records.
--
-- Bounds: numbers are natural numbers; a wrap-around is written out where the source has a fixed
-- width (errorCnt, the count of Twrite, the offset of a read or write, Version, Opens, the chunk of
-- a write, the length of a stat in List). The loops of the server go over a list of names or over
-- the fids; those of Tag and getFid run the number of times of the source. The loops of ReadAll and
-- WriteAt, and those of cat and get, run on fuel that the caller gives, and block when it is used
-- up: a caller who gives more rounds than there are bytes, files or chunks gives enough. The sort of
-- ls has a round for each file. Readdir and the loop of List have one round more than there are
-- bytes.
--
-- Not modelled: what runs between the statements of two handlers at once (a handler is one step),
-- the log output, the bytes of a message (package qp), two calls of the client at once, the locks
-- of a BroadcastFile but for a Push and a Close at once, and of a ProxyFile, the times before 1970,
-- confirm of cmd/9pc/main.go (nothing calls it), its flags and the texts that it prints, and what
-- cmd/ramfs and cmd/exportfs do with their arguments and sockets. A loop over a map goes in the
-- order of the model's list.
pub mod Act
pub mod Client
pub mod Cmd
pub mod Fileserver
pub mod Prelude
pub mod Qp
pub mod Tests
pub mod Trees
pub mod Utils
