-- ===== src/Lib.antt =====
-- A model of the storage hub of virtual files: the write-ahead log of file operations with its
-- recovery, the caches of a storage pool, the files that are stored masked or encrypted, the lock
-- of a user under maintenance, the rows of the index, and the paths that are taken from users and
-- from the visitors of shares.
--
-- The parts and how they interact. An operation on a user's files is logged before it touches the
-- storage, marked when the storage and the index have been changed, and completed in the end. At a
-- start, recovery reads the unfinished rows in order, locks their users, and brings files and index
-- of each together again. Beside that, a pool has two caches of whole files: one takes writes, hands
-- them to the primary storage later and then leaves the content to the other, which keeps what was
-- read within a capacity and a time to live. A visitor of a share asks for paths below its root.
--
-- Which file models which part:
-- - Wal/Status, Wal/Operation: `WalStatus` and `WalOperation` of src/vfs/wal/mod.rs.
-- - Wal/Journal: the rows (src/vfs/wal/entity.rs) and the operations of `VfsWalManager` that change
--   them. A statement of the database may fail; the field `faults` says which of the next ones do.
-- - Wal/Recovery and the modules below it: the recovery of each operation. The scoped engine, the
--   pool, the index and the settings are the interface `RecoveryEngine` of Wal/Engine. Wal/Io is
--   the monad of calls that may fail and whose changes stay when a later call fails.
--   Wal/Recovery/Laws states which of its calls only read.
-- - Wal/Replay: `recover_one`, `replay_issue` and `recover_all`.
-- - Maintenance: src/vfs/maintenance_mode.rs.
-- - Cache/Policy: src/vfs/cache/policy.rs. Cache/ReadCache: src/vfs/cache/read_cache.rs.
-- - Settings: the protected root of src/business/services/user_settings.rs. Types:
--   src/vfs/types.rs.
-- - Prelude: texts as lists of code points, tables for the concurrent maps, signed integers, paths.
-- - Cache/WriteCache: src/vfs/cache/write_cache.rs. Its records are shared by the map of entries and
--   by the flushes at work, so they lie in a heap and the map holds their indices. A function stands
--   for what happens while the lock of a record is held; `enqueue` and `flush_entry` run these in
--   the order of the code, and other calls can be put between them. Cache/WriteCache/Tasks has the
--   marks and the tasks for index and quota, Enqueue and Flush the way of a write in and out, Load
--   what a start finds on the disk.
-- - Share: src/utils/share_access.rs, the paths that a visitor of a share may ask for.
-- - Protected: src/vfs/protected.rs and the readers of src/vfs/scoped/protected.rs. Header and Meta
--   have the two records of a payload, Mask and Obfuscate the masking by blocks, Encrypt the
--   encryption and its table of codes, Payload the encoding and the decoding of ranges, Read the
--   way from a row of the index to the bytes of a range. The ciphers, the pool of threads, hex and
--   JSON are records of functions, each with a record of what is relied on.
-- - FileIndex: src/business/services/file_index_service.rs over a list of rows. Upsert is the
--   insertion and update of one row, Relocate moves rows with what is below them, Delete removes
--   them.
-- - Scoped: src/vfs/scoped/internal.rs, the paths that a user's engine takes, and the path in the
--   storage that it makes of them.
--
-- Bounds and fuel. Counters of bytes are `u64` with their wrap-around. The loop of
-- `ensure_capacity` runs on fuel, one more than there are entries; each round removes one, so the
-- fuel is never used up. Times are seconds since 1970 as natural numbers; a sum of a time and a
-- configured span is computed as an `i64`, and one that comes out negative is 0, which is before
-- every time of the clock. Changes of a quota are `i64` whose sum wraps around, as in a release build.
--
-- Not modelled: the database beyond the statements on the index, the other services
-- (src/business/services), OpenDAL and the routing to pools (src/vfs/pool.rs, src/vfs/hub.rs),
-- platform bindings, thumbnails, media and compression, which are third-party calls or pure I/O; the
-- rest of the scoped engine (src/vfs/scoped), which recovery sees through its interface; and the
-- configuration. The text of an error leaves out the id of a row that is not found or already
-- completed.
pub mod Prelude
pub mod Types
pub mod Settings
pub mod Cache
pub mod Maintenance
pub mod Wal
pub mod Share
pub mod Protected
pub mod FileIndex
pub mod Scoped
