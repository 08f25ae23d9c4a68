-- ===== src/Lib.antt =====
-- Holo: a virtual tape library. Its Rust data plane (data-plane/src) is what is modelled here.
--
-- The parts, and the files that model them:
--   * iscsi/cdb_wire.rs frames a command and its response on a stream (Wire). A reader is a list of
--     bytes that are left, so that a round trip also says what is consumed.
--   * iscsi/cdb_changer.rs moves cartridges between slots, import/export ports and drives (Changer),
--     and keeps the inventory in files that several processes share (iscsi/cdb_server.rs,
--     Changer/Shared). The state is that of `TapeState`, as maps from addresses to labels, and the
--     files' texts with whether they can be read and written.
--   * scsi_tape/reservation.rs says which initiator may use a drive (Reservation). Its operations are
--     actions on `ReservationState` that may fail; `serve` is one core command of
--     scsi_tape/commands_core.rs, and a session is a list of them.
--   * scsi_tape/command_chain.rs moves the tape (Tape): SPACE, LOCATE, READ POSITION, the block
--     index and the capacity tests, on those fields of `TapeState` that they use.
--   * iscsi/cdb_drive.rs reads the drive's commands from their CDBs (Drive): PERSISTENT RESERVE IN and
--     OUT (Drive/Reserve), which lead to the commands of Reservation and report its state, the unit
--     attentions that each initiator has (scsi_tape/state.rs) and the answers that
--     iscsi/cdb_server.rs gives by them (Drive/Attention), the partitions of a medium and their
--     capacity (Drive/Partitions), and the text of attribute values (Drive/Hex).
--   * storage/blk_map.rs says which stored record has which logical blocks (Storage/BlkMap), and
--     storage/map_lookup.rs leads from a block to the ids of that map (Storage/MapLookup). Each has
--     a cached list of records beside an append log; a store is the cache and the file of one path,
--     and its operations give the store after them (Storage/BlkMap/Store, Storage/MapLookup/Store).
--     The file is that of storage/segment.rs by its sequence number and payload
--     (Storage/MetadataFile); Storage/Segment has its bytes, with the two copies of its header.
--     storage/data_path.rs reads through both maps (Storage/DataPath).
--   * storage/segment_index.rs says which data segment takes the next blob (Storage/SegmentIndex):
--     the index, its file and the files of the segments (Storage/SegmentIndex/Files), the ids that
--     blobs get, and the cached index with its flush in two steps, between which others may write
--     to it (Storage/SegmentIndex/Cache).
--   * storage/data_path.rs keeps the blobs in a segment (Storage/DataBlob): the scans of a file for
--     them, and append and read by way of a cached list of them (Storage/DataBlob/Store).
--   * storage/dedup.rs counts the references to payloads that are stored once (Storage/Dedup), again
--     with a cached list beside an append log (Storage/Dedup/Store), new entries
--     (Storage/Dedup/Store/Inserts) and references that go (Storage/Dedup/Store/References).
--   * storage/compression.rs stores a block's payload (Storage/Compression), and storage/reclaim.rs
--     keeps the list of what may be reclaimed (Storage/Reclaim).
--   * scsi_tape/sense.rs reports an error to the initiator (Scsi/Sense), and storage/space_guard.rs
--     admits a write by an estimate of its bytes (Storage/SpaceGuard).
--   * storage/metadata.rs writes a checkpoint and storage/runtime_state.rs the filemarks and the
--     retention flags, under the checksum of storage/layout.rs (Storage/Checkpoint,
--     Storage/RuntimeState, Storage/Checksum).
--   * scsi_tape/error.rs, storage/metadata.rs and storage/space_guard.rs give the errors (Scsi/Error,
--     Storage/Error), whose message texts are left out.
--
-- Prelude has what the parts share: tests on numbers, lists, `BTreeMap` as an ascending association
-- list (Prelude/OrdMap), texts as lists of code points with their UTF-8 bytes, words as byte lists,
-- and `Result` with methods that may fail (Prelude/Outcome), which give back the state beside the
-- error, since what was written before an error stays written.
--
-- Numbers are natural numbers; where the program adds on 64 bits the saturation or the wrap-around
-- is written out. `usize` has 64 bits. The loops recurse on a list, on a count, or on the rest of a
-- payload, but for two that run on fuel: the scan of a data segment, whose steps are as long as its
-- headers say, with a step for each byte of the payload and one more, which is enough since a blob
-- takes more than one byte; and the binary search for a blob, with a step for each blob, which is
-- enough since the part of the list that is searched gets shorter with every step.
--
-- A hash map gives its values in an order of its own: where the block map and the map lookup read a
-- log into one and list it, the order is a parameter (`HashOrder`), and Storage/BlkMap/Log/Orders has
-- what holds for every order. A drive command comes with what the synchronisation before it and the
-- handler behind it do to the queues of unit attentions (Drive/Attention): attentions that are
-- pushed, mounts and unmounts, which clear the queues of every initiator.
--
-- Not code of the repository, and parameters: LZ4 and zlib (Storage/Compression), the checksum
-- of the crc32c package (Storage/Segment, Storage/DataBlob), and what the operating system answers
-- for the shared files. The fingerprint of the blake3 package is a field of an entry here. Not
-- modelled: the cache of read-ahead jobs, the open readers, locks and flushes, log output and
-- telemetry events, streamed segment files, the write of a logical block with its recovery,
-- compaction and offline reclaim, the rest of the drive's commands, and all that is not Rust.
mod Prelude
pub mod Storage
pub mod Scsi
pub mod Reservation
pub mod Wire
pub mod Changer
pub mod Tape
pub mod Drive
