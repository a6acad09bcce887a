-- ===== src/Lib.antt =====
-- LinDB is a time series database. This library is about its codecs, its storage layer and how
-- shards are placed:
--   * Stream: pkg/stream, the codec of varints and fixed-width integers. `Stream.Writer` and
--     `Stream.Reader` are writer.go and encoding.go, and reader.go; a buffer is the list of its bytes.
--   * Bit: pkg/bit, the writer and the reader of single bits, over pkg/bufioutil/buffer.go.
--   * Encoding: pkg/encoding. `Encoding.Xor` is xor.go, `Encoding.Tsd` tsd.go and `Encoding.Delta`
--     delta_bit_packing.go, all on top of Bit; the last also writes through Stream.
--   * Kv: the metadata of the LSM store, kv/version, and the jobs over it, kv. `Kv.Level` is level.go
--     and file_meta.go, `Kv.Version` version.go, `Kv.Log`, `Kv.EditLog` log.go, edit_log.go and
--     compact.go, `Kv.FamilyVersion` family_version.go and snapshot.go, `Kv.VersionSet` (with
--     `Journal`) version_set.go and the clean-up of manifest files in kv/store.go, `Kv.Table` the
--     pairs of kv/table/builder.go, `Kv.MergedIterator` kv/table/iterator.go,
--     `Kv.CompactJob` kv/compact_job.go, `Kv.Family` kv/family.go and
--     kv/flusher.go.
--   * Queue: pkg/queue. `Queue.Segment` is segment/segment.go on the pages of page/mpage.go,
--     `Queue.SeqRange` and `Queue.Store` are segment/factory.go and queue.go, `Queue.FanOut` fanout.go.
--     `Queue.Store.Log` and `Queue.FanOut.Log` are about the messages that were appended.
--   * Replication: replication/sequence.go and replicator.go, which send what a consumer of a queue
--     has not consumed to the loop of storage/handler/writer.go.
--   * Coordinator: `Coordinator.ShardAssign` is coordinator/database/shard_assign.go.
--   * Base: tests, lists, maps, sets, words and bit operations that the others share.
--
-- A flush or a compaction job writes sst files and commits an edit log. The version set appends the
-- edit log to the manifest and installs a new version of the family; readers hold snapshots, which
-- keep the files of their version. A restart replays the manifest. Messages wait in a queue until
-- each storage node has acknowledged them.
--
-- Conventions. An integer is its bit pattern; an `int` has 64 bits. A Go map is an association list
-- without duplicate keys, and a loop over a map visits it in the list's order. Errors are values; a
-- panic is the `none` of an outer Option. A pointer to a version is the version's id, and the memory
-- of a family maps ids to versions. Locks make the operations of a version set and of a family
-- atomic, so each is one step. What the file system and `rand` answer is an argument, and so is what
-- a failed write or sync leaves in a manifest.
--
-- Bounds. Loops are structural recursions on lists or on the number of rounds. The reader of varints
-- has 10 rounds, and `uvarint` has room for 10 bytes, which any uint64 fits. Counts of snapshots
-- stay below 2 ^ 31 and levels below 2 ^ 31, where a statement says so. The loops over the bits of a
-- number have as many rounds as it has bits, 64 at most. The loops of a decoder's client have fuel,
-- one round more than there are values, which the round trips show to be enough. The binary search
-- for a segment has a round for each segment, which is shown to be enough. A queue stays below
-- 2 ^ 63 messages.
--
-- Not modelled: the framing of manifest records, the bytes of an sst file behind its pairs, the
-- table cache, directory listing and file names, goroutines and timers, the mapping of files
-- of a queue, the streams of the replication; and the parts of LinDB above
-- the store (memory database, indexes, queries, SQL, RPC, coordination over etcd).
pub mod Base
pub mod Stream
pub mod Kv
pub mod Bit
pub mod Coordinator
pub mod Encoding
pub mod Queue
pub mod Replication
