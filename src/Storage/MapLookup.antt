-- ===== src/Storage/MapLookup.antt =====
-- The lookup map from logical blocks to ids of the block map: data-plane/src/storage/map_lookup.rs.
-- The order in which a hash map gives its values is taken to be that of their first insertion.
pub mod Store
pub mod Rebuild
use Prim.Native.Nat.{zero, suc}
use holo.Prelude.{
  ℕ, ◌+◌, ◌-◌, ◌/◌, ◌%◌, ltb, leb, ◌==◌, max, Bool, true, false, not, ◌&&◌, ◌||◌, Option, none,
  some, List, [], ◌∷◌, ◌++◌, length, take, drop, get_elem?, if◌then◌else◌, saturating_add,
  checked_add,
}
use holo.Prelude.Bytes.{le_bytes, of_le}
use holo.Prelude.Outcome.{Result, ok, err, and_then, ensure, ok_or}
use holo.Storage.Error.{StorageError, corrupt, metadata_budget_exceeded}
use holo.Storage.MetadataFile.{starts_with}
use holo.Storage.BlkMap.{BlkMapRecord, field}
use holo.Storage.BlkMap.Log.{checked_metadata_record_count}
use holo.Storage.BlkMap.Records.{is_active}

pub record MapLookupRecord : Type 0 where
  pub lookup_id : ℕ
  pub logical_min : ℕ
  pub logical_max : ℕ
  pub blk_map_ref_start : ℕ
  pub blk_map_ref_end : ℕ

unfoldable pub encode : MapLookupRecord → List ℕ
encode r =
    le_bytes 8 r.lookup_id
    ++ (le_bytes 8 r.logical_min
        ++ (le_bytes 8 r.logical_max
            ++ (le_bytes 8 r.blk_map_ref_start ++ (le_bytes 8 r.blk_map_ref_end ++ []))))

unfoldable pub decode : List ℕ → Result StorageError MapLookupRecord
decode buf = and_then (ensure (leb 40 (length buf)) corrupt) λ _. ok (record {
  lookup_id = field 0 8 buf;
  logical_min = field 8 8 buf;
  logical_max = field 16 8 buf;
  blk_map_ref_start = field 24 8 buf;
  blk_map_ref_end = field 32 8 buf;
})

-- `b"LPV2"`.
abbrev pub log_prefix : List ℕ
log_prefix = 76 ∷ 80 ∷ 86 ∷ 50 ∷ []

unfoldable pub put_latest : MapLookupRecord → List MapLookupRecord → List MapLookupRecord
put_latest r [] = r ∷ []
put_latest r (x ∷ latest) =
    let rest = put_latest r latest in if x.lookup_id == r.lookup_id then r ∷ latest else x ∷ rest

unfoldable pub insert_after : MapLookupRecord → List MapLookupRecord → List MapLookupRecord
insert_after r [] = r ∷ []
insert_after r (x ∷ xs) =
    let rest = insert_after r xs in if leb x.logical_min r.logical_min then x ∷ rest else r ∷ x ∷ xs

-- `sort_by_key` on the first block, which keeps the order of equal ones.
unfoldable pub sort_into : List MapLookupRecord → List MapLookupRecord → List MapLookupRecord
sort_into sorted [] = sorted
sort_into sorted (r ∷ rs) = sort_into (insert_after r sorted) rs

unfoldable pub decode_latest :
    ℕ → List ℕ → List MapLookupRecord → Result StorageError (List MapLookupRecord)
decode_latest zero bytes latest = ok latest
decode_latest (suc count) bytes latest = and_then (ensure (leb 40 (length bytes)) corrupt) λ _.
    and_then (decode (take 40 bytes)) λ r. decode_latest count (drop 40 bytes) (put_latest r latest)

-- The order in which a hash map gives the values that were put into it one after another.
abbrev pub HashOrder : Type 0
HashOrder = List MapLookupRecord → List MapLookupRecord

unfoldable pub decode_log_payload : HashOrder → List ℕ → Result StorageError (List MapLookupRecord)
decode_log_payload into_values payload = and_then (ensure (leb 4 (length payload)) corrupt) λ _.
    let size = length payload - 4 in
    and_then (ensure (size % 40 == 0) corrupt) λ _.
      and_then (checked_metadata_record_count (size / 40)) λ count.
        and_then (decode_latest count (drop 4 payload) [])
          λ latest. ok (sort_into [] (into_values latest))

unfoldable pub decode_table : ℕ → List ℕ → Result StorageError (List MapLookupRecord)
decode_table zero bytes = ok []
decode_table (suc count) bytes = and_then (ensure (leb 40 (length bytes)) corrupt) λ _.
    and_then (decode (take 40 bytes))
      λ r. and_then (decode_table count (drop 40 bytes)) λ rest. ok (r ∷ rest)

unfoldable pub decode_legacy_payload : List ℕ → Result StorageError (List MapLookupRecord)
decode_legacy_payload payload = and_then (ensure (leb 8 (length payload)) corrupt) λ _.
    and_then (checked_metadata_record_count (of_le (take 8 payload))) λ count.
      and_then (ensure (leb count ((length payload - 8) / 40)) corrupt)
        λ _. decode_table count (drop 8 payload)

unfoldable pub decode_payload : HashOrder → List ℕ → Result StorageError (List MapLookupRecord)
decode_payload into_values payload =
    if length payload == 0
    then ok []
    else if starts_with log_prefix payload
    then decode_log_payload into_values payload
    else decode_legacy_payload payload

unfoldable pub encode_all : List MapLookupRecord → List ℕ
encode_all [] = []
encode_all (r ∷ rs) = encode r ++ encode_all rs

unfoldable pub encode_log_payload : List MapLookupRecord → List ℕ
encode_log_payload records = log_prefix ++ encode_all records

unfoldable pub max_id : List MapLookupRecord → ℕ
max_id [] = 0
max_id (r ∷ rs) = max r.lookup_id (max_id rs)

unfoldable pub next_lookup_id : List MapLookupRecord → ℕ
next_lookup_id records = saturating_add (max_id records) 1

-- `slice::partition_point` where the test holds of a prefix.
unfoldable pub partition_point : (MapLookupRecord → Bool) → List MapLookupRecord → ℕ
partition_point p [] = 0
partition_point p (x ∷ xs) = let rest = partition_point p xs in if p x then suc rest else 0

abbrev begins_by : ℕ → MapLookupRecord → Bool
begins_by block x = leb x.logical_min block

unfoldable pub reaching : ℕ → Option MapLookupRecord → Option MapLookupRecord
reaching block none = none
reaching block (some r) = if leb block r.logical_max then some r else none

abbrev before : List MapLookupRecord → ℕ → Option MapLookupRecord
before records zero = none
before records (suc i) = get_elem? records i

-- `locate_logical_block` on the cached records.
unfoldable pub locate : List MapLookupRecord → ℕ → Option MapLookupRecord
locate records block = reaching block (before records (partition_point (begins_by block) records))

unfoldable pub last : List MapLookupRecord → Option MapLookupRecord
last [] = none
last (x ∷ []) = some x
last (x ∷ y ∷ xs) = last (y ∷ xs)

abbrev is_last : Option MapLookupRecord → MapLookupRecord → Bool
is_last none r = true
is_last (some x) r = leb x.logical_min r.logical_min

unfoldable pub insert_record : List MapLookupRecord → MapLookupRecord → List MapLookupRecord
insert_record records r =
    let i = partition_point (begins_by r.logical_min) records in
    if is_last (last records) r then records ++ r ∷ [] else take i records ++ r ∷ drop i records

abbrev pub rebuilt_record : ℕ → BlkMapRecord → ℕ → MapLookupRecord
rebuilt_record id r logical_max = record {
  lookup_id = id;
  logical_min = r.logical_start;
  logical_max = logical_max;
  blk_map_ref_start = r.record_id;
  blk_map_ref_end = r.record_id;
}

-- The record of an active range, and those behind it.
unfoldable pub rebuild_active :
    ℕ
    → BlkMapRecord
    → Result StorageError (List MapLookupRecord)
    → Result StorageError (List MapLookupRecord)
rebuild_active id r behind = and_then (ensure (not (r.logical_len == 0)) corrupt) λ _.
    and_then (ok_or (checked_add r.logical_start (r.logical_len - 1)) corrupt)
      λ logical_max. and_then behind λ rest. ok (rebuilt_record id r logical_max ∷ rest)

-- The records of `rebuild_lookup_from_blk_map`, behind as many as the first number says.
unfoldable pub rebuild_from : ℕ → List BlkMapRecord → Result StorageError (List MapLookupRecord)
rebuild_from count [] = ok []
rebuild_from count (r ∷ rs) =
    let skipped = rebuild_from count rs in
    let taken = rebuild_active (count + 1) r (rebuild_from (count + 1) rs) in
    if is_active r then taken else skipped
