-- ===== src/Storage/Dedup.antt =====
-- The index of payloads that are stored once: data-plane/src/storage/dedup.rs. Its entries as bytes
-- and the payloads that hold them; the fingerprint of the blake3 package is left out. A hash map is
-- an ascending one here, by keys that are lists of numbers.
pub mod Codec
pub mod Values
pub mod Store
mod Examples
use Prim.Native.Nat.{zero, suc}
use holo.Prelude.{
  ℕ, ◌+◌, ◌-◌, ◌/◌, ◌%◌, ltb, leb, ◌==◌, Bool, true, false, not, ◌&&◌, Option, none, some, List, [],
  ◌∷◌, ◌++◌, length, take, drop, if◌then◌else◌,
}
use holo.Prelude.OrdMap.{Map, insert, nat_keys}
use holo.Prelude.Bytes.{le_bytes, of_le}
use holo.Prelude.Outcome.{Result, ok, err, and_then, ensure}
use holo.Storage.Error.{StorageError, corrupt}
use holo.Storage.Compression.{CompressionCodec, codec_from_u8, codec_to_u8}
use holo.Storage.MetadataFile.{starts_with}
use holo.Storage.BlkMap.{field, byte_at}
use holo.Storage.BlkMap.Log.{checked_metadata_record_count}

pub record DedupIndexEntry : Type 0 where
  pub entry_id : ℕ
  pub fingerprint_hi : ℕ
  pub fingerprint_lo : ℕ
  pub payload_checksum : ℕ
  pub logical_len : ℕ
  pub stored_blob_id : ℕ
  pub stored_len : ℕ
  pub compression : CompressionCodec
  pub identity_version : ℕ
  pub ref_count : ℕ

abbrev pub dedup_record_size : ℕ
dedup_record_size = 52

-- `b"DDV2"`.
abbrev pub dedup_log_prefix : List ℕ
dedup_log_prefix = 68 ∷ 68 ∷ 86 ∷ 50 ∷ []

unfoldable pub encode_entry : DedupIndexEntry → List ℕ
encode_entry e =
    le_bytes 8 e.entry_id
    ++ (le_bytes 8 e.fingerprint_hi
        ++ (le_bytes 8 e.fingerprint_lo
            ++ (le_bytes 4 e.payload_checksum
                ++ (le_bytes 4 e.logical_len
                    ++ (le_bytes 8 e.stored_blob_id
                        ++ (le_bytes 4 e.stored_len
                            ++ codec_to_u8 e.compression
                              ∷ e.identity_version
                              ∷ 0
                              ∷ 0
                              ∷ le_bytes 4 e.ref_count))))))

unfoldable pub decode_entry : List ℕ → Result StorageError DedupIndexEntry
decode_entry buf = and_then (ensure (leb dedup_record_size (length buf)) corrupt) λ _.
    and_then (codec_from_u8 (byte_at 44 buf)) λ compression. ok (record {
      entry_id = field 0 8 buf;
      fingerprint_hi = field 8 8 buf;
      fingerprint_lo = field 16 8 buf;
      payload_checksum = field 24 4 buf;
      logical_len = field 28 4 buf;
      stored_blob_id = field 32 8 buf;
      stored_len = field 40 4 buf;
      compression = compression;
      identity_version = byte_at 45 buf;
      ref_count = field 48 4 buf;
    })

-- The loop over the entries of a log, into the map of the latest entry of each id.
unfoldable pub decode_latest :
    ℕ → List ℕ → Map ℕ DedupIndexEntry → Result StorageError (Map ℕ DedupIndexEntry)
decode_latest zero bytes latest = ok latest
decode_latest (suc count) bytes latest =
    and_then (ensure (leb dedup_record_size (length bytes)) corrupt) λ _.
      and_then (decode_entry (take dedup_record_size bytes))
        λ e. decode_latest count (drop dedup_record_size bytes) (insert e.entry_id e latest)

-- `into_values` and the sort by id.
unfoldable pub values : Map ℕ DedupIndexEntry → List DedupIndexEntry
values [] = []
values ((id, e) ∷ m) = e ∷ values m

unfoldable pub decode_log_map : List ℕ → Result StorageError (Map ℕ DedupIndexEntry)
decode_log_map bytes = and_then (ensure (length bytes % dedup_record_size == 0) corrupt) λ _.
    and_then (checked_metadata_record_count (length bytes / dedup_record_size))
      λ count. decode_latest count bytes []

unfoldable pub decode_log_payload : List ℕ → Result StorageError (List DedupIndexEntry)
decode_log_payload payload =
    and_then (ensure (leb 4 (length payload)) corrupt)
      λ _. and_then (decode_log_map (drop 4 payload)) λ latest. ok (values latest)

-- The loop over the entries of an old table.
unfoldable pub decode_table : ℕ → List ℕ → Result StorageError (List DedupIndexEntry)
decode_table zero bytes = ok []
decode_table (suc count) bytes =
    and_then (ensure (leb dedup_record_size (length bytes)) corrupt) λ _.
      and_then (decode_entry (take dedup_record_size bytes))
        λ e. and_then (decode_table count (drop dedup_record_size bytes)) λ rest. ok (e ∷ rest)

unfoldable pub decode_legacy_payload : List ℕ → Result StorageError (List DedupIndexEntry)
decode_legacy_payload payload = and_then (ensure (leb 8 (length payload)) corrupt) λ _.
    and_then (checked_metadata_record_count (of_le (take 8 payload))) λ count.
      and_then (ensure (leb count ((length payload - 8) / dedup_record_size)) corrupt)
        λ _. decode_table count (drop 8 payload)

unfoldable pub decode_payload : List ℕ → Result StorageError (List DedupIndexEntry)
decode_payload payload =
    if length payload == 0
    then ok []
    else if starts_with dedup_log_prefix payload
    then decode_log_payload payload
    else decode_legacy_payload payload

unfoldable pub encode_entries : List DedupIndexEntry → List ℕ
encode_entries [] = []
encode_entries (e ∷ es) = encode_entry e ++ encode_entries es

unfoldable pub encode_log_payload : List DedupIndexEntry → List ℕ
encode_log_payload entries = dedup_log_prefix ++ encode_entries entries
