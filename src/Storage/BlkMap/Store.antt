-- ===== src/Storage/BlkMap/Store.antt =====
-- The cached block map of one path and its file: data-plane/src/storage/blk_map.rs. Every operation
-- gives its result and the store after it; the locks of the cache are left out.
pub mod Append
use holo.Prelude.{
  ℕ, ◌+◌, ◌/◌, leb, ◌==◌, max, Bool, true, false, not, ◌&&◌, Option, none, some, List, [], ◌∷◌,
  ◌++◌, length, if◌then◌else◌, is_some, checked_add, u64_max, any,
}
use holo.Prelude.Outcome.{
  Result, ok, err, and_then, ensure, ok_or, Exec, pure, lift, gets, modify, ◌>>=◌, ◌>>◌,
}
use holo.Storage.Error.{StorageError, corrupt, io, conflict, not_found}
use holo.Storage.MetadataFile.{
  MetadataFile, starts_with, read_segment_file_bounded, write_segment_file, append_segment_payload,
}
use holo.Storage.BlkMap.{BlkMapRecord, encode}
use holo.Storage.BlkMap.Log.{
  log_prefix, sort_by_start, HashOrder, decode_payload, encode_all, encode_log_payload,
  block_map_log_version,
}
use holo.Storage.BlkMap.Records.{
  RecordIndex, overlaps, insert_record, insert_index, build_record_index, next_record_id, locate,
  last, stale_updates, replace_all,
}

pub record CachedBlkMap : Type 0 where
  pub stamp : ℕ
  pub sequence : ℕ
  pub records : List BlkMapRecord
  pub record_index : RecordIndex
  pub next_record_id : ℕ
  pub log_version : ℕ

-- The cache and the file of one path, with the order that hash maps have here.
pub record BlkMapStore : Type 0 where
  pub into_values : HashOrder
  pub trust_hot_cache : Bool
  pub file : Option MetadataFile
  pub cache : Option CachedBlkMap

abbrev pub Op : Type 0 → Type 0
Op A = Exec StorageError BlkMapStore A

-- `ok_or_else(NotFound)` on the cache's entry of the path.
unfoldable pub cached : Op CachedBlkMap
cached s = (ok_or s.cache not_found, s)

unfoldable pub cached_of : ℕ → ℕ → List BlkMapRecord → ℕ → CachedBlkMap
cached_of stamp sequence records log_version = record {
  stamp = stamp;
  sequence = sequence;
  records = records;
  record_index = build_record_index records;
  next_record_id = next_record_id records;
  log_version = log_version;
}

abbrev is_stamped : Option CachedBlkMap → ℕ → Bool
is_stamped none stamp = false
is_stamped (some c) stamp = c.stamp == stamp

-- Reading the file into the cache.
unfoldable pub reload : MetadataFile → Op (Unit {0})
reload f s =
    elim (and_then (read_segment_file_bounded (some f)) λ g.
      and_then (decode_payload s.into_values g.payload)
        λ records. ok (cached_of g.stamp g.sequence records (block_map_log_version g.payload))) [
          | ok c ↦ (ok tt, record s { cache = some c })
          | err e ↦ (err e, s)
        ]

unfoldable pub refresh : Option MetadataFile → Op (Unit {0})
refresh none s = (err io, s)
refresh (some f) s =
    let read = reload f s in if is_stamped s.cache f.stamp then (ok tt, s) else read

unfoldable pub ensure_cache_fresh : Op (Unit {0})
ensure_cache_fresh s =
    let fresh = refresh s.file s in
    if s.trust_hot_cache && is_some s.cache then (ok tt, s) else fresh

unfoldable pub load_blk_map_records : Op (ℕ × List BlkMapRecord)
load_blk_map_records = ensure_cache_fresh >> cached >>= λ c. pure (c.sequence, c.records)

unfoldable pub locate_active_record : ℕ → ℕ → ℕ → Op (Option BlkMapRecord)
locate_active_record block first end =
    ensure_cache_fresh >> cached >>= λ c. pure (locate c.records c.record_index block first end)

unfoldable pub assign_id : CachedBlkMap → BlkMapRecord → Result StorageError BlkMapRecord
assign_id c r = elim (r.record_id == 0) [
  | true ↦
      and_then (ensure (not (c.next_record_id == u64_max)) conflict)
        λ _. ok (record r { record_id = c.next_record_id })
  | false ↦ ok r
]

-- The checks before a record is appended, and the id that it gets.
unfoldable pub admit : CachedBlkMap → BlkMapRecord → Result StorageError BlkMapRecord
admit c r = and_then (ensure (not (overlaps c.records r)) conflict) λ _. assign_id c r

abbrev sequence_of : List BlkMapRecord → ℕ
sequence_of records = max (length records / 1024) 1

-- Whole files written over the old one.
unfoldable pub write_log : List BlkMapRecord → Op (Unit {0})
write_log records s = (
  ok tt,
  record s {
    file = some (write_segment_file (sequence_of records) (encode_log_payload records) s.file);
  },
)

-- An old file is rewritten as a log and read again.
unfoldable pub rewrite_legacy : CachedBlkMap → Op (Unit {0})
rewrite_legacy c = if c.log_version == 3 then pure tt else write_log c.records >> ensure_cache_fresh

abbrev pub keep_file : Result StorageError MetadataFile → Op ℕ
keep_file (ok f) s = (ok f.sequence, record s { file = some f })
keep_file (err e) s = (err e, s)

unfoldable pub append_to_file : List ℕ → Op ℕ
append_to_file bytes s = keep_file (append_segment_payload log_prefix bytes s.file) s

abbrev stamp_of : BlkMapStore → CachedBlkMap → ℕ
stamp_of s c =
    if s.trust_hot_cache then c.stamp else elim s.file [ none ↦ c.stamp | some f ↦ f.stamp ]

-- The cache after a record has been appended to the file.
unfoldable pub cache_record : ℕ → BlkMapRecord → Op BlkMapRecord
cache_record sequence r s = elim s.cache [
  | none ↦ (err not_found, s)
  | some c ↦ elim (checked_add r.record_id 1) [
    | none ↦ (err conflict, record s { cache = some (record c { sequence = sequence }) })
    | some next ↦ (
      ok r,
      record s {
        cache = some (record {
          stamp = stamp_of s c;
          sequence = sequence;
          records = insert_record c.records r;
          record_index = insert_index c.records c.record_index r;
          next_record_id = max c.next_record_id next;
          log_version = 3;
        });
      },
    )
  ]
]

unfoldable pub append_blk_map_record : BlkMapRecord → Op BlkMapRecord
append_blk_map_record r = ensure_cache_fresh >> cached >>= λ c. lift (admit c r) >>= λ admitted.
    rewrite_legacy c >> append_to_file (encode admitted) >>= λ sequence.
    cache_record sequence admitted

abbrev cache_of_file : ℕ → List BlkMapRecord → Option MetadataFile → Option CachedBlkMap
cache_of_file sequence records none = none
cache_of_file sequence records (some f) = some (cached_of f.stamp sequence records 3)

unfoldable pub update_cache : ℕ → List BlkMapRecord → Op (Unit {0})
update_cache sequence records s = elim (cache_of_file sequence records s.file) [
  | none ↦ (err io, s)
  | some c ↦ (ok tt, record s { cache = some c })
]

unfoldable pub persist_blk_map_records : List BlkMapRecord → Op (Unit {0})
persist_blk_map_records records = write_log records >> update_cache (sequence_of records) records

unfoldable pub ensure_log_format : List BlkMapRecord → Op (Unit {0})
ensure_log_format records s = elim (read_segment_file_bounded s.file) [
  | err e ↦ (err e, s)
  | ok f ↦
      let rewritten = persist_blk_map_records records s in
      if starts_with log_prefix f.payload then (ok tt, s) else rewritten
]

-- The number of different ids: the size of the set made from the slice.
unfoldable pub count_distinct : List ℕ → ℕ
count_distinct [] = 0
count_distinct (id ∷ ids) =
    let rest = count_distinct ids in if any (λ other. other == id) ids then rest else rest + 1

unfoldable pub mark_blk_map_stale_batch : List ℕ → Op (List BlkMapRecord)
mark_blk_map_stale_batch [] = pure []
mark_blk_map_stale_batch (id ∷ ids) = load_blk_map_records >>= λ (sequence, records).
    let updated = stale_updates (id ∷ ids) records in
    lift (ensure (length updated == count_distinct (id ∷ ids)) not_found)
    >> ensure_log_format records
    >> append_to_file (encode_all updated)
    >>= λ sequence'.
        update_cache sequence' (sort_by_start (replace_all updated records)) >> pure updated

-- `updated.pop()`, the last of the batch.
abbrev pop : List BlkMapRecord → Option BlkMapRecord
pop updated = last updated

unfoldable pub mark_blk_map_stale : ℕ → Op BlkMapRecord
mark_blk_map_stale id =
    mark_blk_map_stale_batch (id ∷ []) >>= λ updated. lift (ok_or (pop updated) not_found)
