-- ===== src/Lib.antt =====
-- The core of the acoustics daemon: the ring of audio samples between the one producer and its readers,
-- the registry of background jobs, the heads and assets on the disk with their deletes and recovery, the
-- framing of the streams, and the validators and clocks that all of them share.
--
-- Prelude: shared names, lists measured by native numbers, Boolean tests, windows of a log, UTF-8
--   (Prelude/Utf8, Prelude/Utf8/Text, Prelude/Utf8/Valid), masks (Prelude/Bits), and signed integers (Prelude/Ints).
--
-- AudioBuffer: modules/audio_buffer.rs. `Inner` is the shared record; `push`, `peek_into`, `advance` and
--   `seek_latest` are the methods of the same names. Sequential states the ring as an append-only log
--   of which the last `capacity` samples are there. Concurrent has the same calls as single loads and
--   stores in any interleaving of the writer and a reader; Seqlock proves the invariant under which a
--   peek that says `Ready` is right. Memory is sequentially consistent there: what the
--   Acquire, Release and fences of the code establish on weaker memory is not modelled.
--
-- JobRegistry: modules/file_mgr/job_registry.rs, with the job types of modules/common/workspace.rs. State
--   is what the mutex guards; Admission has `try_acquire`, `try_acquire_lease` and `release_lease`,
--   Events has `update_progress`, `append_log`, `terminate` and `subscribe_events`, and Handle the
--   methods and the drop of `JobHandle`. Each takes the lock once, so concurrent callers are a
--   sequence of operations (Runs). A hash map is a list of entries; ids, instants and stamps are
--   numbers that the operations take as arguments. The throttle's window is a duration of the
--   configuration; the float division that yields it is not modelled. Counters wrap at 2^64 and event
--   numbers saturate at 2^64 - 1, as in the code. Shrinks and Narrows say that all operations but an
--   admission only take jobs and references away; Exclusion, Caps, Ring, Retention, Ended, LogLines and
--   Throttle prove what the registry promises. Ring/History lists the events that the operations are to
--   make, apart from the rings; Records, Steps, Admits and LastEvents compare the rings with it. A
--   panic in the cut of a log line comes before the lock, and leaves all but the count of cut lines.
--
-- Common: modules/common. LogTruncate is log_truncate.rs, AssetPath asset_path.rs, Ids ids.rs, Time
--   time.rs, Hex hex.rs, and HeadHeader head_header.rs with the beginning of `load_inner` in
--   modules/inference/head.rs. A string is its bytes; where it matters that they are UTF-8, it is a
--   `Text` (Prelude/Utf8/Text, compared with `str::from_utf8` in Prelude/Utf8/Valid), and a slice
--   off a character boundary panics.
--
-- Framing: modules/proto/framing.rs and modules/stream_io/framing.rs. A reader is the bytes still to come
--   and how the stream ends. The frame types and the codec that are generated from the .proto files
--   are parameters; that the codec decodes what it encodes is a hypothesis where it is needed.
--
-- HeadRotation: modules/file_mgr/head_rotation.rs, with the records of modules/common/workspace.rs and
--   the cell of modules/file_mgr/cache.rs. The directory of a workspace is a record, and each call of
--   the file system one step that may fail before or after its effect, or at which the process may
--   die. A call that has returned is taken to be durable. Triples has the rules for a claim about every
--   end of a run, Sound what a sound index is, Commit, Publish and Delete the operations, Succeeds
--   a publication without failures, and Sessions any sequence of them with failures and restarts.
--
-- Effects: the calls of the file system that StagedDelete, ActiveHead and WorkspaceAssets make, each of
--   which may fail before or after its effect, or end the process. Triples is about every end of a
--   run, Clean about runs without a failure.
--
-- StagedDelete: modules/file_mgr/staging.rs, with its callers in registry.rs and dataset.rs and the sweep of
--   recovery.rs (`walk_staging`). `Staging` is what the disk has of one delete: the target, the tombstone,
--   the stage directory and the payload. `drain_dir` walks the entries of a directory. Tombstones has the
--   names of the files, Drain and Unfailed what a batch removes, Atomic, Keeps and Life any history with
--   failures and restarts, Settles and Recovers what a run without failures achieves.
--
-- ActiveHead: modules/file_mgr/active_head_writer.rs (Stage), with the worker of `post_active` in
--   modules/api/routes/active.rs, and `recover_active_head` with what it calls in
--   modules/file_mgr/recovery.rs (Recovery). `Active` is the directory active/, with the pointer, the
--   generations and the staged ones, and the generation that is served. A file is its bytes, and a
--   manifest is there if it can be read and parsed. What `read_dir` lists, fresh ids and the time are
--   arguments; the SHA-256 and whether the inference takes a head are parameters of which nothing is
--   assumed. Steps says what each call may do, Checks, Activates and Recovers what the operations
--   find, and Life any history of activations and restarts.
--
-- WorkspaceAssets: modules/file_mgr/dataset.rs, with `publish_core` of modules/file_mgr/cache.rs. The paths
--   of the four trees stand in WorkspaceAssets itself; Mutations has `upload_workspace_file` and
--   `start_workspace_asset_delete` with their two ways to delete. `Workspace` is the revision in
--   workspace.json, the one in the cached core, and what stands at each path; the revision's time,
--   metrics and the drain are left out. The answers of the job registry, whether workspace.json exists,
--   and what `read_dir` lists are arguments. Paths is about what a path is parsed to; Revisions, Keeps,
--   Commits, Logs and Life are about the order of the revision and the bytes in any history, and
--   Uploads is about an upload in which nothing fails. Heads has the status of a head of
--   modules/common/workspace.rs. A `create_dir_all` is one call here.
--
-- LogPage: modules/file_mgr/log_page.rs. `Lines` is what the buffered reader yields, with the end of the
--   file or an I/O error last; `serde_json::from_str` is a parameter of which nothing is assumed. Pages
--   says what a page holds, Cursor that pages follow each other without loss.
--
-- MicArbitrator: modules/audio_io/mic_arbitrator.rs, the choice of a candidate (`resolve_desired_idx`) and of
--   a slot (`pick_slot`, and `choose_slot` for what `process_period` does with it). The type of the floats
--   and its `partial_cmp`, `>` and `*` are parameters of which nothing is assumed; instants and
--   durations are numbers. Switches is about the dwell, Sticky about the candidate.
--
-- Loops are structural recursion on the list or the index that they walk. The loop of batches in
-- StagedDelete has the source's own cap of 1000000, or a cap that the caller gives where the source has
-- none; Settles shows that a batch for each 256 entries is enough.
--
-- Not modelled: device, file and network I/O, the neural pipelines and their libraries, the HTTP
-- routes, and the daemon's start-up.
pub mod Prelude
pub mod Effects
pub mod AudioBuffer
pub mod Common
pub mod Framing
pub mod HeadRotation
pub mod JobRegistry
pub mod LogPage
pub mod MicArbitrator
pub mod StagedDelete
pub mod ActiveHead
pub mod WorkspaceAssets
