-- ===== src/Storage/DataBlob/Examples.antt =====
-- Blobs in a segment: data-plane/src/storage/data_path.rs.
use holo.Prelude.Bytes.{le_bytes}
use holo.Prelude.{
  ◌+◌, ◌≤◌, u64_max, length, saturating_add, ℕ, ◌≡◌, refl, true, some, List, [], ◌∷◌, ◌++◌, arith,
}
use holo.Prelude.Outcome.{Result, ok}
use holo.Storage.Error.{StorageError}
use holo.Storage.Checksum.{checksum_from, checksum_from-lt}
use holo.Storage.Compression.{raw}
use holo.Storage.Segment.{Crc, integrity32}
use holo.Storage.DataBlob.{
  encode_data_blob_header, encode_data_blob_record, DataBlobMeta, data_log_prefix,
  scan_log_data_index,
}
use holo.Storage.DataBlob.Scan.{scan_log_data_index_total}
use holo.Storage.DataBlob.Grown.{IsBlob}
use holo.Storage.DataBlob.Search.{ids_within}
use holo.Storage.DataBlob.Store.{index_file, blob_integrity_checksum}
use holo.Storage.DataBlob.Store.Append.{file_at, added}
use holo.Storage.DataBlob.Store.Load.{IsAdded, grown, grown_blobs, append_blob-IsAdded}

-- A header that is cut short.
scan_log_data_index_total_example :
    (r : Result StorageError (List DataBlobMeta)) × (scan_log_data_index true 96
        (data_log_prefix ++ 1 ∷ 2 ∷ [])
      ≡ some r)
scan_log_data_index_total_example =
    scan_log_data_index_total true 96 (data_log_prefix ++ 1 ∷ 2 ∷ [])

abbrev sums : Crc
sums = record { extend = checksum_from }

abbrev bytes : List ℕ
bytes = 10 ∷ 20 ∷ 30 ∷ []

added-IsBlob : IsBlob (added sums 1 3 raw bytes)
added-IsBlob = record {
  id_bound = omega arith;
  logical_bound = omega arith;
  stored_bound = omega arith;
  checksum_bound = unfold blob_integrity_checksum integrity32 in checksum_from-lt 0 _ (omega arith);
  whole = refl;
}

no_blob : index_file (file_at 5 2 []) ≡ ok ([], true)
unfolding index_file
no_blob = refl

-- The first blob of a segment.
first-IsAdded : IsAdded sums 1 3 raw bytes 5 2 [] []
first-IsAdded =
    append_blob-IsAdded sums 1 3 raw bytes 5 2 [] [] no_blob (unfold ids_within in refl)
      added-IsBlob (omega arith)

abbrev first_payload : List ℕ
first_payload = (grown sums 1 3 raw bytes 5 2 []).payload

abbrev first_blobs : List DataBlobMeta
first_blobs = grown_blobs sums 1 3 raw bytes [] []

second-IsBlob : IsBlob (added sums 4 3 raw bytes)
second-IsBlob = record {
  id_bound = omega arith;
  logical_bound = omega arith;
  stored_bound = omega arith;
  checksum_bound = unfold blob_integrity_checksum integrity32 in checksum_from-lt 0 _ (omega arith);
  whole = refl;
}

few : length first_payload + length bytes + 200 ≤ u64_max
unfolding encode_data_blob_record encode_data_blob_header le_bytes
few = omega arith

-- A second blob behind it.
append_blob-IsAdded_example : IsAdded sums 4 3 raw bytes 6 3 first_payload first_blobs
append_blob-IsAdded_example =
    append_blob-IsAdded sums 4 3 raw bytes 6 3 first_payload first_blobs
      (unfold saturating_add in first-IsAdded.in_step) (unfold ids_within in refl) second-IsBlob few
