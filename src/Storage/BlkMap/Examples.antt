-- ===== src/Storage/BlkMap/Examples.antt =====
-- Runs of the block map: data-plane/src/storage/blk_map.rs.
use mathlib.Core.List.{Permᴰ}
use mathlib.Core.List.Permᴰ
use holo.Prelude.{
  ℕ, ◌+◌, ◌≤◌, ◌<◌, ◌≡◌, refl, ◌==◌, ltb, leb, Bool, true, false, Option, none, some, List, [], ◌∷◌,
  ◌++◌, All, length, drop, arith, if◌then◌else◌,
}
use holo.Prelude.Outcome.{ok}
use holo.Storage.MetadataFile.{MetadataFile}
use holo.Storage.Compression.{zlib}
use holo.Storage.BlkMap.{
  BlkMapRecord, active, stale, crc32c, no_checksum, logical_end, encode, decode,
}
use holo.Storage.BlkMap.Codec.{IsRecord, decode-encode}
use holo.Storage.BlkMap.Log.{
  HashOrder, latest_entries, log_prefix, decode_payload, encode_log_payload, insert_after,
  sort_by_start,
}
use holo.Storage.BlkMap.Log.Written.{
  IsReadAs, latest_entries-encode_log_payload, decode_payload-encode_log_payload,
}
use holo.Storage.BlkMap.Log.Orders.{IsHashOrder}
use holo.Storage.BlkMap.Records.{
  overlaps, insert_record, build_record_index, locate, stale_updates, replace_all, covers,
}
use holo.Storage.BlkMap.Records.Ranges.{IsMap, insert_record-IsMap}
use holo.Storage.BlkMap.Records.Access.{holder, with_id, locate-holder}
use holo.Storage.BlkMap.Records.Index.{is_indexed-build_record_index}
use holo.Storage.BlkMap.Records.Stale.{stale_batch, unless_target}
use holo.Storage.BlkMap.Store.{CachedBlkMap, append_blk_map_record}
use holo.Storage.BlkMap.Store.Append.{IsSynced, IsAppended, append_blk_map_record-IsAppended}

abbrev entry : ℕ → ℕ → ℕ → BlkMapRecord
entry id start len = record {
  record_id = id;
  logical_start = start;
  logical_len = len;
  physical_segment_id = 1;
  physical_offset = 512;
  filemark_count = 0;
  state = active;
  dedup_entry_id = 0;
  compression = zlib;
  compressed_len = 100;
  payload_checksum = 77;
  payload_checksum_algorithm = crc32c;
}

abbrev entries : List BlkMapRecord
entries = entry 1 0 4 ∷ entry 2 10 5 ∷ []

abbrev new_entry : BlkMapRecord
new_entry = entry 0 4 6

entry-IsRecord :
    (id start len : ℕ)
    → id < 18446744073709551616
    → start < 18446744073709551616
    → len < 4294967296
    → IsRecord (entry id start len)
entry-IsRecord id start len h k l = record {
  id_bound = h;
  start_bound = k;
  len_bound = l;
  segment_bound = omega arith;
  offset_bound = omega arith;
  filemarks_bound = omega arith;
  dedup_bound = omega arith;
  compressed_bound = omega arith;
  checksum_bound = omega arith;
  disabled_zero = refl;
}

entries-AllRecord : All IsRecord entries
entries-AllRecord = (
  entry-IsRecord 1 0 4 (omega arith) (omega arith) (omega arith),
  (entry-IsRecord 2 10 5 (omega arith) (omega arith) (omega arith), tt),
)

entries-IsMap : IsMap entries
unfolding holo.Storage.BlkMap.Log.Written.ascending holo.Storage.BlkMap.Records.Ranges.apart
    holo.Storage.BlkMap.Records.is_active logical_end holo.Prelude.saturating_add
entries-IsMap = record { in_order = refl; disjoint = refl }

entries_read : latest_entries 59 (drop 4 (encode_log_payload entries)) ≡ ok entries
unfolding holo.Storage.BlkMap.Log.Written.distinct holo.Storage.BlkMap.Log.RoundTrip.has_id
    holo.Prelude.any
entries_read = latest_entries-encode_log_payload entries entries-AllRecord refl (omega arith)

-- A hash map that gives its values last to first.
unfoldable turned : HashOrder
turned [] = []
turned (r ∷ rs) = turned rs ++ r ∷ []

turned-Permᴰ : (rs : List BlkMapRecord) → Permᴰ (turned rs) rs
unfolding turned
turned-Permᴰ [] = Permᴰ.refl []
turned-Permᴰ (r ∷ rs) =
    Permᴰ.trans (Permᴰ.middle r (turned rs) [])
      (Permᴰ.cons refl (Permᴰ.trans (Permᴰ.append-nil (turned rs)) (turned-Permᴰ rs)))

turned-IsHashOrder : IsHashOrder turned
turned-IsHashOrder = record { each_once = turned-Permᴰ }

decode_payload-encode_log_payload_example : IsReadAs turned (encode_log_payload entries) entries
unfolding holo.Storage.BlkMap.Log.Written.distinct holo.Storage.BlkMap.Log.RoundTrip.has_id
    holo.Prelude.any
decode_payload-encode_log_payload_example =
    decode_payload-encode_log_payload turned entries turned-IsHashOrder entries-AllRecord refl
      (omega arith)

decode-encode_example : decode (encode (entry 2 10 5)) ≡ ok (entry 2 10 5)
decode-encode_example =
    decode-encode (entry 2 10 5) (entry-IsRecord 2 10 5 (omega arith) (omega arith) (omega arith))

locate-holder_example :
    locate entries (build_record_index entries) 12 2 2 ≡ with_id 2 2 (holder entries 12)
locate-holder_example =
    locate-holder entries (build_record_index entries) 12 2 2 entries-IsMap
      (is_indexed-build_record_index entries 2)

stale_batch_example :
    IsMap (sort_by_start (replace_all (stale_updates (2 ∷ []) entries) entries))
    × (holder (sort_by_start (replace_all (stale_updates (2 ∷ []) entries) entries)) 12
        ≡ unless_target (2 ∷ []) (holder entries 12))
unfolding holo.Storage.BlkMap.Log.Written.distinct holo.Storage.BlkMap.Log.RoundTrip.has_id
    holo.Prelude.any
stale_batch_example = stale_batch (2 ∷ []) entries 12 entries-IsMap refl

abbrev log_file : MetadataFile
log_file = record { stamp = 7; header_len = 96; sequence = 2; payload = encode_log_payload entries }

abbrev log_cache : CachedBlkMap
log_cache = record {
  stamp = 7;
  sequence = 2;
  records = entries;
  record_index = build_record_index entries;
  next_record_id = 3;
  log_version = 3;
}

log-IsSynced : IsSynced false log_file log_cache entries
unfolding holo.Storage.BlkMap.Records.max_id encode_log_payload
    holo.Storage.MetadataFile.starts_with
log-IsSynced = record {
  stamped = refl;
  current = refl;
  prefixed = refl;
  read = entries_read;
  same_records = Permᴰ.refl entries;
  ranges = entries-IsMap;
  indexed = is_indexed-build_record_index entries;
  next = omega arith;
}

append_blk_map_record-IsAppended_example :
    IsAppended turned turned false log_file log_cache new_entry entries
unfolding encode_log_payload holo.Storage.BlkMap.Log.encode_all encode holo.Prelude.Bytes.le_bytes
    logical_end holo.Prelude.saturating_add overlaps holo.Storage.BlkMap.Records.partition_point
    holo.Prelude.find holo.Storage.BlkMap.Records.is_active
    holo.Storage.BlkMap.Records.overlaps_previous holo.Storage.BlkMap.Records.overlaps_next
    holo.Storage.BlkMap.Store.Append.numbered
append_blk_map_record-IsAppended_example =
    append_blk_map_record-IsAppended turned turned false log_file log_cache new_entry entries
      turned-IsHashOrder log-IsSynced
      (entry-IsRecord 3 4 6 (omega arith) (omega arith) (omega arith)) refl refl refl (omega arith)
      (omega arith)
