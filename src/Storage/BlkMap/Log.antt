-- ===== src/Storage/BlkMap/Log.antt =====
-- The payload of a block map file, the old table or the log: data-plane/src/storage/blk_map.rs.
pub mod Orders
pub mod RoundTrip
pub mod Written
use Prim.Native.Nat.{zero, suc}
use holo.Prelude.{
  ℕ, ◌+◌, ◌-◌, ◌/◌, ◌%◌, leb, ◌==◌, Bool, true, false, not, ◌&&◌, ◌||◌, List, [], ◌∷◌, ◌++◌, length,
  take, drop, if◌then◌else◌,
}
use holo.Prelude.Bytes.{of_le}
use holo.Prelude.Outcome.{Result, ok, err, and_then, ensure}
use holo.Storage.Error.{StorageError, corrupt, metadata_budget_exceeded}
use holo.Storage.MetadataFile.{starts_with}
use holo.Storage.BlkMap.{BlkMapRecord, encode, decode}

abbrev pub max_maintenance_metadata_records : ℕ
max_maintenance_metadata_records = 65536

unfoldable pub checked_metadata_record_count : ℕ → Result StorageError ℕ
checked_metadata_record_count count =
    and_then (ensure (leb count max_maintenance_metadata_records) metadata_budget_exceeded)
      λ _. ok count

-- `b"BMV3"` and `b"BMV2"`.
abbrev pub log_prefix : List ℕ
log_prefix = 66 ∷ 77 ∷ 86 ∷ 51 ∷ []

abbrev pub log_prefix_v2 : List ℕ
log_prefix_v2 = 66 ∷ 77 ∷ 86 ∷ 50 ∷ []

abbrev any_prefix : List ℕ
any_prefix = 66 ∷ 77 ∷ 86 ∷ []

-- `latest.insert(record.record_id, record)`.
unfoldable pub put_latest : BlkMapRecord → List BlkMapRecord → List BlkMapRecord
put_latest r [] = r ∷ []
put_latest r (x ∷ latest) =
    let rest = put_latest r latest in if x.record_id == r.record_id then r ∷ latest else x ∷ rest

unfoldable pub insert_after : BlkMapRecord → List BlkMapRecord → List BlkMapRecord
insert_after r [] = r ∷ []
insert_after r (x ∷ xs) =
    let rest = insert_after r xs in
    if leb x.logical_start r.logical_start then x ∷ rest else r ∷ x ∷ xs

-- `sort_by_key` on the logical start, which keeps the order of equal starts.
unfoldable pub sort_into : List BlkMapRecord → List BlkMapRecord → List BlkMapRecord
sort_into sorted [] = sorted
sort_into sorted (r ∷ rs) = sort_into (insert_after r sorted) rs

abbrev pub sort_by_start : List BlkMapRecord → List BlkMapRecord
sort_by_start rs = sort_into [] rs

-- The loop over the records of a log.
unfoldable pub decode_latest :
    ℕ → ℕ → List ℕ → List BlkMapRecord → Result StorageError (List BlkMapRecord)
decode_latest zero size bytes latest = ok latest
decode_latest (suc count) size bytes latest =
    and_then (ensure (leb size (length bytes)) corrupt) λ _.
      and_then (decode (take size bytes))
        λ r. decode_latest count size (drop size bytes) (put_latest r latest)

-- The order in which a hash map gives the values that were put into it one after another.
abbrev pub HashOrder : Type 0
HashOrder = List BlkMapRecord → List BlkMapRecord

-- The latest record of each id, behind the choice of the version.
unfoldable pub latest_entries : ℕ → List ℕ → Result StorageError (List BlkMapRecord)
latest_entries size bytes = and_then (ensure (length bytes % size == 0) corrupt) λ _.
    and_then (checked_metadata_record_count (length bytes / size))
      λ count. decode_latest count size bytes []

-- `into_values`, in the order of the hash map, and the sort by the start.
unfoldable pub decode_entries : HashOrder → ℕ → List ℕ → Result StorageError (List BlkMapRecord)
decode_entries into_values size bytes =
    and_then (latest_entries size bytes) λ latest. ok (sort_by_start (into_values latest))

unfoldable pub decode_log_payload : HashOrder → List ℕ → Result StorageError (List BlkMapRecord)
decode_log_payload into_values payload =
    if starts_with log_prefix payload
    then decode_entries into_values 59 (drop 4 payload)
    else if starts_with log_prefix_v2 payload
    then decode_entries into_values 58 (drop 4 payload)
    else err corrupt

-- The loop over the records of a table.
unfoldable pub decode_table : ℕ → ℕ → List ℕ → Result StorageError (List BlkMapRecord)
decode_table zero size bytes = ok []
decode_table (suc count) size bytes = and_then (ensure (leb size (length bytes)) corrupt) λ _.
    and_then (decode (take size bytes))
      λ r. and_then (decode_table count size (drop size bytes)) λ rest. ok (r ∷ rest)

abbrev decode_counted : ℕ → List ℕ → Result StorageError (List BlkMapRecord)
decode_counted zero bytes = ok []
decode_counted (suc n) bytes =
    let count = suc n in
    and_then (ensure (leb count (length bytes)) corrupt) λ _.
      and_then (ensure (length bytes % count == 0) corrupt) λ _.
        let size = length bytes / count in
        and_then (ensure (size == 41 || size == 58) corrupt) λ _. decode_table count size bytes

unfoldable pub decode_legacy_payload : List ℕ → Result StorageError (List BlkMapRecord)
decode_legacy_payload payload = and_then (ensure (leb 8 (length payload)) corrupt) λ _.
    and_then (checked_metadata_record_count (of_le (take 8 payload)))
      λ count. decode_counted count (drop 8 payload)

unfoldable pub decode_payload : HashOrder → List ℕ → Result StorageError (List BlkMapRecord)
decode_payload into_values payload =
    if length payload == 0
    then ok []
    else if starts_with log_prefix payload || starts_with log_prefix_v2 payload
    then decode_log_payload into_values payload
    else if starts_with any_prefix payload
    then err corrupt
    else decode_legacy_payload payload

unfoldable pub encode_all : List BlkMapRecord → List ℕ
encode_all [] = []
encode_all (r ∷ rs) = encode r ++ encode_all rs

unfoldable pub encode_log_payload : List BlkMapRecord → List ℕ
encode_log_payload records = log_prefix ++ encode_all records

unfoldable pub block_map_log_version : List ℕ → ℕ
block_map_log_version payload =
    if starts_with log_prefix payload then 3 else if starts_with log_prefix_v2 payload then 2 else 0
