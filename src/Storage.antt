-- ===== src/Storage.antt =====
-- The storage engine of the data plane: data-plane/src/storage.
pub mod Error
pub mod Compression
pub mod Reclaim
pub mod SpaceGuard
pub mod Checksum
pub mod Checkpoint
pub mod RuntimeState
pub mod MetadataFile
pub mod Segment
pub mod SegmentIndex
pub mod BlkMap
pub mod MapLookup
pub mod DataBlob
pub mod Dedup
pub mod DataPath
