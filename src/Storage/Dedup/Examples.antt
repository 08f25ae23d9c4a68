-- ===== src/Storage/Dedup/Examples.antt =====
-- A dedup log with two entries: data-plane/src/storage/dedup.rs.
use holo.Prelude.{
  none, saturating_add, ℕ, ◌+◌, ◌/◌, ◌≤◌, ◌<◌, drop, ◌≡◌, refl, true, List, [], ◌∷◌, length, map,
  arith,
}
use holo.Prelude.Bytes.{of_le, le_bytes}
use holo.Prelude.OrdMap.{text_keys, nat_keys, Map, insert, get}
use holo.Prelude.Outcome.{ok}
use holo.Storage.Compression.{codec_to_u8, codec_from_u8, raw}
use holo.Storage.MetadataFile.{starts_with, read_segment_file_bounded, MetadataFile}
use holo.Storage.Dedup.{
  decode_latest, values, decode_entry, decode_log_map, encode_entry, encode_entries,
  DedupIndexEntry, encode_log_payload,
}
use holo.Storage.Dedup.Store.{
  max_entry_id, DedupUpsertResult, index_entry, index_entries, CachedDedup, DedupStore,
  build_cached_dedup,
}
use holo.Storage.Dedup.Store.Inserts.{set_entry}
use holo.Storage.Dedup.Store.References.{
  decrement_entry, add_refs, decrement_all, rebuild_ref_counts,
}
use holo.Storage.Dedup.Store.RefCounts.{
  store_of, IsCurrent, IsDiverged, decrement_ref_counts_diverges, references_taken, recounted,
  miscounted, total,
}
use holo.Storage.Dedup.Store.Upsert.{IsSynced, IsUpserted, due, longer}
use holo.Storage.Dedup.Store.Upserted.{upsert_dedup_entry-IsUpserted}
use holo.Storage.Dedup.Codec.{IsEntry}
use holo.Storage.BlkMap.Log.{checked_metadata_record_count}
use holo.Storage.Dedup.Store.Rebuild.{IsRebuilt, rebuild_ref_counts-IsRebuilt}

abbrev stored : ℕ → ℕ → DedupIndexEntry
stored id refs = record {
  entry_id = id;
  fingerprint_hi = 11;
  fingerprint_lo = 12 + id;
  payload_checksum = 7;
  logical_len = 100;
  stored_blob_id = id;
  stored_len = 40;
  compression = raw;
  identity_version = 1;
  ref_count = refs;
}

abbrev two_entries : List DedupIndexEntry
two_entries = stored 1 2 ∷ stored 2 1 ∷ []

abbrev log_file : MetadataFile
log_file = record {
  stamp = 4;
  header_len = 96;
  sequence = 2;
  payload = encode_log_payload two_entries;
}

abbrev current : CachedDedup
current = build_cached_dedup 4 2 two_entries true

current-IsCurrent : IsCurrent log_file current
unfolding build_cached_dedup index_entries index_entry starts_with encode_log_payload
    read_segment_file_bounded encode_entries encode_entry le_bytes
current-IsCurrent = record { stamped = refl; is_log = refl; starts = refl; small = refl }

refs_counted : add_refs (1 ∷ 2 ∷ 1 ∷ 2 ∷ []) [] ≡ ok ((1, 2) ∷ (2, 2) ∷ [])
unfolding add_refs insert get
refs_counted = refl

rebuild_ref_counts-IsRebuilt_example :
    (s : DedupStore) × ((rebuild_ref_counts (1 ∷ 2 ∷ 1 ∷ 2 ∷ []) (store_of log_file current)
        ≡ (ok (length (miscounted (1 ∷ 2 ∷ 1 ∷ 2 ∷ []) current.entries)), s))
      × IsRebuilt log_file
          (map (recounted (1 ∷ 2 ∷ 1 ∷ 2 ∷ [])) current.entries)
          (miscounted (1 ∷ 2 ∷ 1 ∷ 2 ∷ []) current.entries)
          s)
rebuild_ref_counts-IsRebuilt_example =
    rebuild_ref_counts-IsRebuilt log_file current current-IsCurrent (1 ∷ 2 ∷ 1 ∷ 2 ∷ [])
      ((1, 2) ∷ (2, 2) ∷ []) refs_counted

one_each :
    decrement_all ((1, 0) ∷ (2, 1) ∷ []) (1 ∷ 2 ∷ []) two_entries
    ≡ (ok (stored 1 1 ∷ stored 2 0 ∷ []), stored 1 1 ∷ stored 2 0 ∷ [])
unfolding decrement_all decrement_entry get set_entry
one_each = refl

two_taken : (total (stored 1 1 ∷ stored 2 0 ∷ []) + 2 ≡ total two_entries) × (◌≡◌ {A = ℕ} 2 2)
two_taken =
    references_taken ((1, 0) ∷ (2, 1) ∷ []) (1 ∷ 2 ∷ []) two_entries (stored 1 1 ∷ stored 2 0 ∷ [])
      (stored 1 1 ∷ stored 2 0 ∷ []) one_each

abbrev two_kept : Map ℕ DedupIndexEntry
two_kept = (1, stored 1 2) ∷ (2, stored 2 1) ∷ []

current-IsSynced : IsSynced log_file current two_kept
unfolding decode_log_map decode_latest decode_entry checked_metadata_record_count encode_log_payload
    encode_entries encode_entry le_bytes of_le codec_from_u8 codec_to_u8 insert values
    build_cached_dedup index_entries index_entry max_entry_id saturating_add
current-IsSynced = record {
  current = current-IsCurrent;
  log = record { starts = current-IsCurrent.starts; read = refl };
  in_step = refl;
  below = omega arith;
}

stored-IsEntry : IsEntry (stored 2 2)
stored-IsEntry = record {
  id_bound = omega arith;
  hi_bound = omega arith;
  lo_bound = omega arith;
  checksum_bound = omega arith;
  logical_bound = omega arith;
  blob_bound = omega arith;
  stored_bound = omega arith;
  count_bound = omega arith;
}

room : 96 + length (encode_log_payload two_entries) + 52 ≤ 8388608
unfolding encode_log_payload encode_entries encode_entry le_bytes
room = omega arith

few : length (drop 4 (encode_log_payload two_entries)) / 52 < 65536
unfolding encode_log_payload encode_entries encode_entry le_bytes
few = omega arith

-- A payload that is there already.
upsert_dedup_entry-IsUpserted_example :
    (r : DedupUpsertResult) × ((d : CachedDedup) × IsUpserted
        (stored 2 1)
        (stored 2 2)
        (store_of log_file current)
        r
        (longer log_file (stored 2 2))
        d
        (insert 2 (stored 2 2) two_kept))
upsert_dedup_entry-IsUpserted_example =
    upsert_dedup_entry-IsUpserted log_file current two_kept current-IsSynced (stored 2 1)
      (stored 2 2) stored-IsEntry room few
      (unfold due get text_keys build_cached_dedup index_entries index_entry insert in refl)

current_decremented :
    decrement_all current.id_index (1 ∷ 2 ∷ []) current.entries
    ≡ (ok (stored 1 1 ∷ stored 2 0 ∷ []), stored 1 1 ∷ stored 2 0 ∷ [])
unfolding decrement_all decrement_entry get set_entry insert build_cached_dedup index_entries
    index_entry
current_decremented = refl

nine_unknown : get 9 current.id_index ≡ none
unfolding get insert build_cached_dedup index_entries index_entry
nine_unknown = refl

-- The third of four ids is not there.
decrement_ref_counts_diverges_example :
    IsDiverged log_file current (1 ∷ 2 ∷ []) (1 ∷ 2 ∷ 9 ∷ 1 ∷ []) (stored 1 1 ∷ stored 2 0 ∷ [])
decrement_ref_counts_diverges_example =
    decrement_ref_counts_diverges log_file current current-IsCurrent (1 ∷ 2 ∷ []) 9 (1 ∷ [])
      (stored 1 1 ∷ stored 2 0 ∷ []) (stored 1 1 ∷ stored 2 0 ∷ []) current_decremented nine_unknown
