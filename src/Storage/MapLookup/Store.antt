-- ===== src/Storage/MapLookup/Store.antt =====
-- The cached lookup map of one path and its file: data-plane/src/storage/map_lookup.rs. Every
-- operation gives its result and the store after it; the locks of the cache are left out.
use holo.Prelude.{
  ℕ, ◌==◌, max, Bool, true, false, not, ◌&&◌, Option, none, some, List, length, if◌then◌else◌,
  is_some, checked_add, u64_max,
}
use holo.Prelude.Outcome.{Result, ok, err, and_then, ensure, ok_or, Exec, pure, lift, ◌>>=◌, ◌>>◌}
use holo.Storage.Error.{StorageError, io, conflict, not_found}
use holo.Storage.MetadataFile.{
  MetadataFile, starts_with, read_segment_file_bounded, write_segment_file, append_segment_payload,
}
use holo.Storage.BlkMap.{BlkMapRecord}
use holo.Storage.MapLookup.{
  MapLookupRecord, encode, log_prefix, HashOrder, decode_payload, encode_log_payload,
  next_lookup_id, locate, insert_record, rebuild_from,
}

pub record CachedLookup : Type 0 where
  pub stamp : ℕ
  pub sequence : ℕ
  pub records : List MapLookupRecord
  pub next_lookup_id : ℕ
  pub is_log_format : Bool

-- The cache and the file of one path, with the order that hash maps have here.
pub record LookupStore : Type 0 where
  pub into_values : HashOrder
  pub trust_hot_cache : Bool
  pub file : Option MetadataFile
  pub cache : Option CachedLookup

abbrev pub Op : Type 0 → Type 0
Op A = Exec StorageError LookupStore A

unfoldable pub cached : Op CachedLookup
cached s = (ok_or s.cache not_found, s)

unfoldable pub cached_of : ℕ → ℕ → List MapLookupRecord → Bool → CachedLookup
cached_of stamp sequence records is_log_format = record {
  stamp = stamp;
  sequence = sequence;
  records = records;
  next_lookup_id = next_lookup_id records;
  is_log_format = is_log_format;
}

abbrev is_stamped : Option CachedLookup → ℕ → Bool
is_stamped none stamp = false
is_stamped (some c) stamp = c.stamp == stamp

abbrev keep_cache : Result StorageError CachedLookup → Op (Unit {0})
keep_cache (ok c) s = (ok tt, record s { cache = some c })
keep_cache (err e) s = (err e, s)

-- Reading the file into the cache.
unfoldable pub read_cache : HashOrder → MetadataFile → Result StorageError CachedLookup
read_cache into_values f = and_then (read_segment_file_bounded (some f)) λ g.
    and_then (decode_payload into_values g.payload)
      λ records. ok (cached_of g.stamp g.sequence records (starts_with log_prefix g.payload))

unfoldable pub refresh : Option MetadataFile → Op (Unit {0})
refresh none s = (err io, s)
refresh (some f) s =
    let read = keep_cache (read_cache s.into_values f) s in
    if is_stamped s.cache f.stamp then (ok tt, s) else read

unfoldable pub ensure_cache_fresh : Op (Unit {0})
ensure_cache_fresh s =
    let fresh = refresh s.file s in
    if s.trust_hot_cache && is_some s.cache then (ok tt, s) else fresh

unfoldable pub load_lookup_records : Op (ℕ × List MapLookupRecord)
load_lookup_records = ensure_cache_fresh >> cached >>= λ c. pure (c.sequence, c.records)

unfoldable pub locate_logical_block : ℕ → Op (Option MapLookupRecord)
locate_logical_block block = ensure_cache_fresh >> cached >>= λ c. pure (locate c.records block)

unfoldable pub assign_id : CachedLookup → MapLookupRecord → Result StorageError MapLookupRecord
assign_id c r = elim (r.lookup_id == 0) [
  | true ↦
      and_then (ensure (not (c.next_lookup_id == u64_max)) conflict)
        λ _. ok (record r { lookup_id = c.next_lookup_id })
  | false ↦ ok r
]

unfoldable pub write_log : List MapLookupRecord → Op (Unit {0})
write_log records s = (
  ok tt,
  record s {
    file = some (write_segment_file (length records) (encode_log_payload records) s.file);
  },
)

unfoldable pub rewrite_legacy : CachedLookup → Op (Unit {0})
rewrite_legacy c = if c.is_log_format then pure tt else write_log c.records >> ensure_cache_fresh

abbrev keep_file : Result StorageError MetadataFile → Op ℕ
keep_file (ok f) s = (ok f.sequence, record s { file = some f })
keep_file (err e) s = (err e, s)

unfoldable pub append_to_file : List ℕ → Op ℕ
append_to_file bytes s = keep_file (append_segment_payload log_prefix bytes s.file) s

abbrev stamp_of : LookupStore → CachedLookup → ℕ
stamp_of s c =
    if s.trust_hot_cache then c.stamp else elim s.file [ none ↦ c.stamp | some f ↦ f.stamp ]

-- The cache after a record has been appended to the file.
unfoldable pub cache_record : ℕ → MapLookupRecord → Op MapLookupRecord
cache_record sequence r s = elim s.cache [
  | none ↦ (err not_found, s)
  | some c ↦ elim (checked_add r.lookup_id 1) [
    | none ↦ (err conflict, record s { cache = some (record c { sequence = sequence }) })
    | some next ↦ (
      ok r,
      record s {
        cache = some (record {
          stamp = stamp_of s c;
          sequence = sequence;
          records = insert_record c.records r;
          next_lookup_id = max c.next_lookup_id next;
          is_log_format = true;
        });
      },
    )
  ]
]

unfoldable pub append_lookup_record : MapLookupRecord → Op MapLookupRecord
append_lookup_record r = ensure_cache_fresh >> cached >>= λ c. lift (assign_id c r) >>= λ admitted.
    rewrite_legacy c >> append_to_file (encode admitted) >>= λ sequence.
    cache_record sequence admitted

abbrev cache_of_file :
    ℕ → List MapLookupRecord → Option MetadataFile → Result StorageError CachedLookup
cache_of_file sequence records none = err io
cache_of_file sequence records (some f) = ok (cached_of f.stamp sequence records true)

unfoldable pub update_cache : ℕ → List MapLookupRecord → Op (Unit {0})
update_cache sequence records s = keep_cache (cache_of_file sequence records s.file) s

unfoldable pub persist_lookup_records : List MapLookupRecord → Op (Unit {0})
persist_lookup_records records = write_log records >> update_cache (length records) records

-- `rebuild_lookup_from_blk_map`, given the records that were loaded from the block map.
unfoldable pub rebuild_lookup_from_blk_map : List BlkMapRecord → Op ℕ
rebuild_lookup_from_blk_map records = lift (rebuild_from 0 records) >>= λ rebuilt.
    persist_lookup_records rebuilt >> pure (length rebuilt)
