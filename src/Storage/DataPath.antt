-- ===== src/Storage/DataPath.antt =====
-- Where a logical block stands: data-plane/src/storage/data_path.rs.
pub mod Resolve
mod Examples
use holo.Prelude.{ℕ, Option, none, some, List}
use holo.Storage.BlkMap.{BlkMapRecord}
use holo.Storage.BlkMap.Records.{RecordIndex}
use holo.Storage.MapLookup.{MapLookupRecord}

-- `locate_active_record` for the ids of the lookup record, if there is one.
unfoldable pub follow :
    List BlkMapRecord → RecordIndex → ℕ → Option MapLookupRecord → Option BlkMapRecord
follow records index block none = none
follow records index block (some lookup) =
    holo.Storage.BlkMap.Records.locate records index block lookup.blk_map_ref_start
      lookup.blk_map_ref_end

-- The first two steps of `read_logical_block`, on the cached maps.
unfoldable pub resolve :
    List MapLookupRecord → List BlkMapRecord → RecordIndex → ℕ → Option BlkMapRecord
resolve lookups records index block =
    follow records index block (holo.Storage.MapLookup.locate lookups block)
