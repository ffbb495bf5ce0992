-- ===== src/Lib.antt =====
-- PMux, internal/: the operation journal, the audit log, the governance of mutations, the state store
-- and the update of the proxy.
--
-- PMux is a program of one host that manages an upstream proxy. The commands that IsMutation names run
-- under governance (internal/runtime/governance.go): Execute takes a lock
-- (internal/adapter/lock/lock.go), opens a transaction of the operation journal
-- (internal/journal/journal.go), runs the command of the router, closes the transaction and appends a
-- record to the audit log (internal/audit/audit.go). Both logs are files of JSON lines, of which an
-- append first cuts off a torn last line, and into which texts go redacted
-- (internal/redact/redact.go). Errors carry codes that become exit codes
-- (internal/pmuxerr/error.go). What PMux keeps between runs are the documents of the state store
-- (internal/state), each replaced as a whole and recovered from its backups. An update of the proxy
-- (internal/adapter/updater) writes a record before each of its steps, from which a later run recovers.
--
-- The files:
--   Base          bytes, lists, association lists for Go's maps, with their lemmas.
--   Redact        internal/redact/redact.go: IsSensitiveKey, Mask, Known and Map.
--   Pmuxerr       internal/pmuxerr/error.go: errors as trees of causes, New, Wrap, Capability and
--                 ExitCode. Result is Go's pair of a value and an error.
--   Files         trimTornTail and append of journal.go and audit.go, which differ in codes and
--                 messages only (Messages). Each system call fails or not by a record of faults
--                 (TrimFaults, AppendFaults), and a failing write may have written some bytes.
--   Journal       internal/journal/journal.go: the events, fold, requirePending and nextSequence.
--   Journal/Store the methods of Journal: readEvents, append, Begin, Record, setState with Commit,
--                 Rollback, Interrupt and Fail, and Pending. Journal/Store/Spec has the abstract map
--                 of transactions that the methods refine.
--   Audit         internal/audit/audit.go: Prepare, Append and Entries. Audit/Wire is a concrete encoding.
--   Lock          internal/adapter/lock/lock.go: TryAcquire, Acquire, Release and WithMutation. A round
--                 is one turn of Acquire, and the rounds are a list.
--   Governance    internal/runtime/governance.go: IsMutation and the codes. Governance/Run is Execute,
--                 one function for each part of it behind a call; Governance/Recovery is
--                 recoverInterruptedPending.
--   Models        internal/adapter/models/catalog.go: entries and aggregates. Models/Discovery is
--                 the discovery, Models/Browsing is Filter, Models/Catalog the methods with the cache.
--   Health        internal/adapter/service/health/health.go: WaitReady. A Round is one turn of its loop,
--                 with the clock's readings, the probe's answer and the end of the wait; the rounds
--                 are a list, and without an answer after the last WaitReady is still polling.
--   State         internal/state/types.go: the documents and their validation. State/Disk has the files and
--                 the system calls of store.go, State/Store what its methods share for a document,
--                 State/Methods the methods themselves; the other children are proofs.
--   Fs            internal/adapter/fs: private files that are replaced, created and appended to, and their
--                 backups, over the files and system calls of State/Disk.
--   Updater       internal/adapter/updater/recovery.go: the record of a pending update; Updater/Recover is
--                 the recovery, Updater/Stages and Updater/Proxy the part of UpdateProxy in engine.go
--                 that replaces the version and rolls it back. A pointer is a file that holds its
--                 target, over the files and system calls of State/Disk; the other children are proofs.
--   Tests         runs at concrete inputs, and the theorems applied.
--
-- How the model stands for the code:
--   A method takes the state before and gives its result and the state after. The mutexes make each
--   method one step. What is outside comes as an argument: encoding/json, time and crypto/rand as an
--   Encoding, of which IsFaithful and IsTotal say what is relied on (Journal/Wire has a concrete one
--   that is both), and system calls as faults. A file that is missing is none.
--   In State, Fs and Updater each system call takes the next of a list of outcomes (World), none for
--   success; where the list ends, the calls succeed. Calls of the service manager, of the client that
--   checks the proxy, and of the stage hook are calls of this kind too. Paths are clean, files are regular,
--   and a directory is the files below it. Reads stop at 16 MiB for a document and at 1 MiB for the record
--   of an update.
--   Sequences are uint64 and wrap around (u64). Times are nanoseconds, 0 the zero time. The backward
--   scan of trimTornTail runs on fuel, the length of the file, which is enough since every round moves
--   its end down by at least one byte. Sorting with sort.Slice is insertion sort, which has the same
--   result where the keys are distinct.
--   A Go map is an association list; the order in which Go visits it has no effect on the code that
--   is modelled.
--
-- Of the system calls, ReadAt of a block inside a file gives the block or an error, in TrimPartialLine
-- one that is not io.EOF; a Stat of append that fails on a missing file is as one whose flush of the
-- directory succeeds. Exit codes of commands and versions of records are natural numbers, so negative
-- ones are left out. IsFaithful asks encoding/json to give back every text, which it does for UTF-8; Go
-- replaces other bytes, and a masked text holds such bytes where the mask cuts a character.
--
-- Not modelled: permissions, which chmod sets and nothing reads again; redact.URL, which rests on
-- net/url; strings.ToLower and strings.TrimSpace outside ASCII; of the updater the preparation of a release,
-- the update of PMux itself, timeouts and the Result; and the other parts of the program, among them the
-- router, the other adapters and the terminal interface.
pub mod Audit
pub mod Base
pub mod Files
pub mod Fs
pub mod Governance
pub mod Health
pub mod Journal
pub mod Lock
pub mod Models
pub mod Pmuxerr
pub mod Redact
pub mod State
pub mod Tests
pub mod Updater
