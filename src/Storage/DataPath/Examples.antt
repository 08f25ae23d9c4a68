-- ===== src/Storage/DataPath/Examples.antt =====
-- Runs of the two maps: data-plane/src/storage/data_path.rs.
use holo.Prelude.{
  ℕ, ◌+◌, ◌≡◌, refl, Bool, true, false, Option, none, some, List, [], ◌∷◌, if◌then◌else◌,
}
use holo.Storage.Compression.{raw}
use holo.Storage.BlkMap.{BlkMapRecord, BlkMapState, active, stale, no_checksum, logical_end}
use holo.Storage.BlkMap.Records.{build_record_index}
use holo.Storage.BlkMap.Records.Ranges.{IsMap}
use holo.Storage.BlkMap.Records.Access.{holder}
use holo.Storage.BlkMap.Records.Index.{is_indexed-build_record_index}
use holo.Storage.MapLookup.{MapLookupRecord, rebuild_from}
use holo.Storage.DataPath.{resolve}
use holo.Storage.DataPath.Resolve.{resolve-rebuild_from}

abbrev entry : ℕ → BlkMapState → ℕ → ℕ → BlkMapRecord
entry id state start len = record {
  record_id = id;
  logical_start = start;
  logical_len = len;
  physical_segment_id = 1;
  physical_offset = 0;
  filemark_count = 0;
  state = state;
  dedup_entry_id = 0;
  compression = raw;
  compressed_len = len;
  payload_checksum = 0;
  payload_checksum_algorithm = no_checksum;
}

abbrev entries : List BlkMapRecord
entries = entry 1 active 0 4 ∷ entry 4 stale 4 6 ∷ entry 2 active 10 5 ∷ []

abbrev lookups : List MapLookupRecord
lookups =
    record {
      lookup_id = 1;
      logical_min = 0;
      logical_max = 3;
      blk_map_ref_start = 1;
      blk_map_ref_end = 1;
    }
    ∷ record {
      lookup_id = 2;
      logical_min = 10;
      logical_max = 14;
      blk_map_ref_start = 2;
      blk_map_ref_end = 2;
    }
    ∷ []

entries-IsMap : IsMap entries
unfolding holo.Storage.BlkMap.Log.Written.ascending holo.Storage.BlkMap.Records.Ranges.apart
    holo.Storage.BlkMap.Records.is_active logical_end holo.Prelude.saturating_add
entries-IsMap = record { in_order = refl; disjoint = refl }

resolve-rebuild_from_example :
    resolve lookups entries (build_record_index entries) 12 ≡ holder entries 12
unfolding rebuild_from holo.Storage.MapLookup.rebuild_active holo.Storage.BlkMap.Records.is_active
    holo.Prelude.checked_add
resolve-rebuild_from_example =
    resolve-rebuild_from entries (build_record_index entries) lookups 12 entries-IsMap
      (is_indexed-build_record_index entries) refl

-- Block 12 is found through the maps, block 6 is not.
found : holder entries 12 ≡ some (entry 2 active 10 5)
unfolding holder holo.Prelude.find holo.Storage.BlkMap.Records.covers
    holo.Storage.BlkMap.Records.is_active logical_end holo.Prelude.saturating_add
found = refl
