-- ===== src/Lib.antt =====
-- cs-sync, a folder sync service: internal/reconcile compares a baseline with the trees of two sides
-- and queues operations, internal/apply carries them out on disk or on a bucket, and
-- internal/remote sends them to another host, over the frames of internal/wire. internal/guard holds
-- back passes that delete too much, and internal/endpoint reads the addresses.
--
-- Model: entries and trees (internal/model/entry.go). A tree is an association list by path; a Go map
-- has no order, and an `int64` or `uint64` that is only compared is the number of its bit pattern.
--
-- Reconcile: `Reconcile` and its helpers (internal/reconcile/reconcile.go), Reconcile/Ops the operations
-- and their builders, Reconcile/Rename `detectRenames` (rename.go). The time in the name of a conflict
-- copy is the parameter `stamp`, one text for each path. Reconcile/Merge, Reconcile/Kept,
-- Reconcile/Oneway and Reconcile/Paths are about the new baseline, lost edits, one-way passes and the
-- paths visited.
--
-- Guard: `CheckSource`, `Budget.Check` and the freeze and approve files (internal/guard/guard.go);
-- what the file system does with these files in a pass is a `Disk`, of which any look, removal or write may
-- fail. Guard/Retry is `RetryState`, Guard/Backoff `Backoff` with its 64-bit shift written out. Time is a number
-- of nanoseconds.
--
-- Endpoint: `Parse` and `HostPort` (internal/endpoint/endpoint.go), over bytes, with `strings.TrimSpace`
-- for ASCII white space and `strconv.Atoi` for numbers of any length.
--
-- Wire: the messages (internal/wire/wire.go); Wire/Frame `Send`, `Recv`, `seal` and `open` (crypto.go).
-- The payload that encoding/gob makes is taken as given, and the cipher is a parameter that opens what
-- it sealed.
--
-- Os: the calls of the operating system over an unknown world, as a record of which any call may
-- fail; Os/Paths path/filepath on Unix; Os/Keeps the rules to carry an invariant through a sequence of
-- calls.
--
-- Remote: the network leg. Remote/Receiver is `handle` of internal/remote/receiver.go from the first
-- frame behind the handshake on, with `finishFile`, `mkdir` and `writeAclCSV`, and `Write` of
-- internal/loopmark/loopmark.go; Remote/Resolve is `full`. A slice out of range is the answer `panic`. `curMeta`, which
-- gob decodes into for the whole connection, is a part of the state.
-- Remote/Keeps and Remote/Calls carry an invariant of the world through these calls, Remote/Confined
-- through frames and connections, and Remote/Verified is about `finishFile`. Remote/Link, Remote/Connect,
-- Remote/Sender, Remote/Baseline, Remote/Batch and Remote/Pass are `roundtrip`, `connect`, `sendOp` with
-- `sendFile`, `applyToBaseline`, and the loop and the rest of `Pass` of internal/remote/sender.go for a cs-sync host as the target;
-- Remote/Gated and Remote/Ordered are about its gates and its batch, and Remote/Whole about `sendFile`. The blocks that the reads of a
-- file give are taken when it is opened.
--
-- Apply: `Apply` and `applyOneRustFS` (internal/apply); Apply/Copy is `copyEntry`, and Apply/Safe is about
-- copies that fail. The tools for ACLs and rclone are parameters.
--
-- Service: of main.go the part of `doPass` with a secondary from the resync of ACLs on, whose calls of
-- internal/state are the parameter `StateFiles`, any of which may fail, with
-- `forceOneway`, `applyOrdered`, `syncExistingFolderACLs`, `populateACL` and `sanitizeName`; Service/Acls is
-- `chooseACLSource` and `aclCSVMatches`.
--
-- Service/Modes is the part of `runCmd` that maps the mode and the endpoints to the roles of the two
-- sides and the backup leg; an exit with a message is the value `reject`, with one constructor of
-- `UsageError` for each message, and Service/Modes/Aimed is about the direction of the roles.
--
-- Watch: `isBackupdataPath` and the options of internal/watch/watch.go. Watch/Emit is `emit`, which the two
-- watchers share, one `select` at a time, against a reader that may take the pending reason
-- between any two; Watch/Debounce is `debounceLoop` over events with their times, in the order in which the
-- loop receives them; Watch/Walk is `addRecursive` of both watchers over a tree of directories, and the
-- round of `pollLoop` (watch_eventport_illumossolaris.go) after one event.
--
-- Zfs: the snapshot slots of zfs.go, `findSlot`, `rotate`, `prune` and `recoverCycle`, over the operations of
-- the record `Zfs`; Zfs/Slots is what renames and deletions do to the slots, Zfs/Rotated is about a rotation,
-- and Zfs/Recovery and Zfs/Recovered are about the repair of an interrupted cycle. Zfs/Command is the rest of the
-- commands of zfs.go, over `Host`: the runs of the zfs program by their arguments, the files of approvals and
-- status, the clock and the outside tools, and the parsing of the output (`listSnaps`, `changed`, `fixTree`,
-- `consistencyOf` of freezebin.go); its `zfs_of` fills the record `Zfs`. Zfs/Conf is the chunked property of
-- pveconf.go; its loops over stored chunks have no bound in the source, so they take a number of chunks as
-- fuel: a property ends at the first chunk that is unset, so a number above the chunks stored is enough.
-- Zfs/Conf/Props is about the names and the chunks, and Zfs/Conf/Stored about what is read back. Zfs/Guests is
-- `pveConfs` with `encodeConf` and `decodeConf`, where gzip with base64 is a part of `Host`, and Zfs/Guests/Decoded is
-- about the texts it gives. Zfs/Quiet says which commands leave the listings
-- alone. Zfs/Cycle is `cycle` for a backup on the same host, and Zfs/Cycle/Confirmed is about it.
--
-- Zfs over the network (zfsnet.go, internal/wire/zfs.go): Zfs/Backup is `planBackup`, with
-- Zfs/Backup/Base about its plans; Zfs/Session is the backup's side of a connection behind the handshake, the
-- frames of `handle` with `receiveStream` as a state of the session, and Zfs/Session/Rotates is about the
-- rotation; Zfs/Lan is the primary's side, `dial`, `streamTo`, `cycleRemote` and `confOnlyRemote`, over the
-- connection `Lan`, with Zfs/Lan/Streamed about the changes it makes to the primary. A hello is decoded afresh
-- for each frame.
--
-- Zfscheck: `ParentDataset` and `CheckAndPrepare` (internal/zfscheck/zfscheck.go) over the runs of the zfs program,
-- and Zfscheck/Parent about their answers.
--
-- Webhook: the handler of internal/rustfs/webhook.go with `ParseWebhookPayload`, where JSON, the unescaping of keys and the
-- split of an address are parameters; Webhook/Guarded is about the requests that have an effect.
--
-- Every other loop is structural recursion over the frames, operations, paths, events, snapshots or blocks
-- it is given, and needs no fuel. Not modelled: the parsing of flags and the watch loop of main.go, the loops
-- of `zfsCmd` and `zfsreceiveCmd`, the pveconf command, the transfers and the scan of
-- internal/rustfs, the RustFS target of the sender, scanning, the state files, the limiter, locks and
-- logging, most of which is I/O.
--
-- Examples applies the theorems at concrete inputs.
pub mod Prelude
pub mod Model
pub mod Reconcile
pub mod Guard
pub mod Endpoint
pub mod Os
pub mod Wire
pub mod Remote
pub mod Apply
pub mod Service
pub mod Webhook
pub mod Zfs
pub mod Zfscheck
pub mod Watch
pub mod Examples
