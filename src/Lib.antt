-- ===== src/Lib.antt =====
-- ChunkGate, a proxy before S3-compatible storage that cuts objects into chunks and stores each
-- chunk once per tenant: a model of its core and the theorems on it.
--
-- Prelude, Errors and Effects hold what the other files share: Boolean tests, lists, integers with
-- the wrap-around of `int64`, Go maps as association lists, `strings` and `strconv` (Chars, Strings,
-- Decimal), the runes of a text (Runes), threads on a shared state under a schedule (Threads), the errors of all packages as one
-- type, and runs that poll a context and change a state. A context is its answers to `ctx.Err()` in
-- turn.
--
-- Limits (internal/limits/reservations.go, disk.go) is the counter of reserved scratch bytes:
-- Reservations for one caller, Concurrent for the interleavings of the compare-and-swap loops of any
-- number of threads, DiskGuard for the check of the free space, whose amount is an argument. Semaphore
-- has the semaphores of reservations.go as threads, and Slots how many hold them.
--
-- Chunker (internal/chunker/chunker.go) cuts a stream. Options has `New`, the mask and the gear
-- table; Reader has readers, as the results of their calls of `Read` in turn, and the small-file
-- prefix; Builtin has the rolling hash engine and Stream the FastCDC loop, `Stream` and `Split`. Cuts
-- is the reference: the chunks as a function of the bytes alone. The third-party FastCDC engine is an
-- argument, with what it documents as a hypothesis where a theorem needs it. `nextPowerOfTwo` runs on
-- 64 rounds of fuel, enough for every size up to 2 ^ 62; above, the source's loop does not end, and `New`
-- gives none here; `bytes.NewReader` is read by as many rounds
-- as it has bytes.
--
-- Metadata (internal/metadata/store.go, memory.go) is the in-memory store: Types its records, Memory the
-- objects and the counts of references to blocks, Sessions the multipart sessions. Counts, Invariant and
-- Steps carry the invariant of the counts through each method, Runs through any sequence of calls;
-- Garbage is about the blocks that the collector is given, View about what a key leads to. Shards
-- (internal/metadata/shards.go) names the file of a tenant's shard.
--
-- Object (internal/object/service.go, internal/backend/backend.go) is the service over a block store,
-- which is an argument: Service has `Put`, `Delete` and `Stat`, Open has `Open`, `OpenRange` and
-- `ReadChunks`. Slices, Pieces and Ranges are about the bytes of a range, Select about selected chunks.
-- Blocks has the interface of a backend that works; Stored is about the blocks that `Put` leaves in one,
-- and Upload joins chunker, store and backend: what is put and then read. Ops (internal/ops/metrics.go)
-- has the counters that the service updates, Ops/Drain (drain.go) the draining of uploads as threads, with
-- Shutdown on what `Wait` means.
--
-- Backend (internal/backend/fs.go) is the store of blocks in files: FileStore its methods over a map from
-- paths to contents, FileLaws that it keeps the promises of Blocks, and its encryption, whose cipher is an
-- argument; Isolation is about two tenants.
--
-- Api (internal/api) is what the server decides from a request, below the reading and writing of HTTP:
-- Routes (server.go, routes.go, auth.go) where a request leads, with Guards on what it has passed before;
-- Validation (validation.go) the tests of names, with BucketNames; Cors (cors.go), with Preflight; Ranges
-- (ranges.go), with RangeLaws and RangeHeaders; Objects and Uploads (object_handlers.go, operations.go) the
-- handlers of objects over the service, with Reads on what they send and Balance on what they count; Parts
-- (multipart_handlers.go) the list of parts of a completion; Responses the statuses of errors.
--
-- Delta (internal/deltaclient/client.go) is the companion client's rebuilding of an object from its cache:
-- Rebuild has it over a map from paths to contents, Chunks and Rebuilt are about what it writes.
--
-- Multipart (internal/multipart/manager.go) is the manager of multipart uploads over Limits and Metadata:
-- Manager has its types and its calls of the limits, Sessions the life of a session, Parts the upload of a
-- part, Cleanup the loading and the sweeping of sessions; Rollback is about the undoing of a reservation.
--
-- Gc is the garbage collector (internal/gc/sweeper.go) in Sweeper, over the in-memory store and any block
-- store, with Accounts on what a sweep reports and Deletes on its deletions; and `DoWithRetry` (internal/backend/retry.go) in Retry,
-- with Attempts on how often it calls. A sweep runs on fuel, the batches of each tenant, and its outcome
-- tells where that ran out.
--
-- SHA-256 and MD5 are arguments. Time is a number, and each method takes the readings of the clock, the
-- random ids and the answers of the context and the file system. Not modelled: the reading and writing of
-- HTTP, XML and JSON, which are libraries' work, and the handlers of the companion API and of multipart
-- uploads around the calls of the manager; request signing; the SQL stores, whose statements a database
-- runs; the clients of the storage services; the companion client's requests; configuration and the commands.
mod Prelude
pub mod Errors
pub mod Effects
pub mod Limits
pub mod Chunker
pub mod Metadata
pub mod Ops
pub mod Object
pub mod Backend
pub mod Api
pub mod Delta
pub mod Multipart
pub mod Gc
