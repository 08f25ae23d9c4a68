-- ===== src/Storage/DataBlob.antt =====
-- The blobs of a data segment and how they are found again: data-plane/src/storage/data_path.rs. A
-- file is the version and the sequence of its header and its payload, with a stamp that every write
-- changes; the open readers, which only save an open, are left out.
pub mod Scan
pub mod Grown
pub mod Store
pub mod Search
mod Examples
use Prim.Native.Nat.{zero, suc}
use holo.Prelude.{
  ℕ, ◌+◌, ◌-◌, ◌/◌, ltb, leb, ◌==◌, Bool, true, false, not, ◌&&◌, Option, none, some, List, [], ◌∷◌,
  ◌++◌, length, take, drop, find, if◌then◌else◌, checked_add,
}
use holo.Prelude.Bytes.{le_bytes, of_le}
use holo.Prelude.Outcome.{Result, ok, err, and_then, ensure, ok_or}
use holo.Storage.Error.{StorageError, corrupt, io}
use holo.Storage.Compression.{CompressionCodec, codec_from_u8, codec_to_u8}
use holo.Storage.BlkMap.{field, byte_at}

abbrev pub data_blob_header_size : ℕ
data_blob_header_size = 24

-- `b"DTV2"`.
abbrev pub data_log_prefix : List ℕ
data_log_prefix = 68 ∷ 84 ∷ 86 ∷ 50 ∷ []

pub record DataBlob : Type 0 where
  pub blob_id : ℕ
  pub codec : CompressionCodec
  pub logical_len : ℕ
  pub stored_len : ℕ
  pub payload_checksum : ℕ
  pub bytes : List ℕ

pub record DataBlobMeta : Type 0 where
  pub blob_id : ℕ
  pub codec : CompressionCodec
  pub logical_len : ℕ
  pub stored_len : ℕ
  pub payload_checksum : ℕ
  pub payload_offset : ℕ
  pub v2_integrity : Bool

unfoldable pub encode_data_blob_header : ℕ → CompressionCodec → ℕ → ℕ → ℕ → List ℕ
encode_data_blob_header blob_id codec logical_len stored_len payload_checksum =
    le_bytes 8 blob_id
    ++ (codec_to_u8 codec ∷ 0 ∷ 0 ∷ 0 ∷ []
        ++ (le_bytes 4 logical_len ++ (le_bytes 4 stored_len ++ le_bytes 4 payload_checksum)))

-- `DataBlob::encode`.
unfoldable pub encode_data_blob_record : DataBlob → List ℕ
encode_data_blob_record b =
    encode_data_blob_header b.blob_id b.codec b.logical_len b.stored_len b.payload_checksum
    ++ b.bytes

unfoldable pub decode_blob_meta_from_header : List ℕ → Result StorageError DataBlobMeta
decode_blob_meta_from_header buf = and_then (codec_from_u8 (byte_at 8 buf)) λ codec. ok (record {
  blob_id = field 0 8 buf;
  codec = codec;
  logical_len = field 12 4 buf;
  stored_len = field 16 4 buf;
  payload_checksum = field 20 4 buf;
  payload_offset = 0;
  v2_integrity = false;
})

unfoldable pub checked_blob_next_offset : ℕ → ℕ → ℕ → Result StorageError ℕ
checked_blob_next_offset offset stored_len payload_end =
    and_then (ok_or (checked_add data_blob_header_size stored_len) corrupt) λ blob_len.
      and_then (ok_or (checked_add offset blob_len) corrupt)
        λ next_offset. and_then (ensure (leb next_offset payload_end) corrupt) λ _. ok next_offset

-- `read_exact` of the next bytes.
unfoldable pub read_exact : ℕ → List ℕ → Result StorageError (List ℕ)
read_exact n bytes = and_then (ensure (leb n (length bytes)) io) λ _. ok (take n bytes)

abbrev placed : Bool → ℕ → DataBlobMeta → DataBlobMeta
placed v2 offset m = record m { payload_offset = offset + data_blob_header_size; v2_integrity = v2 }

-- One header at the offset, with the offset behind its blob.
unfoldable pub scan_blob : Bool → ℕ → ℕ → List ℕ → Result StorageError (DataBlobMeta × ℕ)
scan_blob v2 payload_end offset bytes = and_then (read_exact data_blob_header_size bytes) λ header.
    and_then (decode_blob_meta_from_header header) λ m.
      and_then (checked_blob_next_offset offset m.stored_len payload_end)
        λ next. ok (placed v2 offset m, next)

-- Does the header not end within the payload?
unfoldable pub exceeds : ℕ → ℕ → Bool
exceeds offset payload_end = elim (checked_add offset data_blob_header_size) [
  | none ↦ true
  | some header_end ↦ ltb payload_end header_end
]

unfoldable pub scan_log_blob : Bool → ℕ → ℕ → List ℕ → Result StorageError (DataBlobMeta × ℕ)
scan_log_blob v2 payload_end offset bytes =
    and_then (ensure (not (exceeds offset payload_end)) corrupt)
      λ _. scan_blob v2 payload_end offset bytes

abbrev pub Scanned : Type 0
Scanned = Option (Result StorageError (List DataBlobMeta))

abbrev pub push_blob : DataBlobMeta → Scanned → Scanned
push_blob m none = none
push_blob m (some (err e)) = some (err e)
push_blob m (some (ok ms)) = some (ok (m ∷ ms))

-- The loop over the blobs of a log, on fuel; the bytes are those from the offset on.
unfoldable pub scan_from : ℕ → Bool → ℕ → ℕ → List ℕ → Scanned
scan_from zero v2 payload_end offset bytes = none
scan_from (suc fuel) v2 payload_end offset bytes = elim (ltb offset payload_end) [
  | false ↦ some (ok [])
  | true ↦ elim (scan_log_blob v2 payload_end offset bytes) [
    | err e ↦ some (err e)
    | ok (m, next) ↦ push_blob m (scan_from fuel v2 payload_end next (drop (next - offset) bytes))
  ]
]

-- The whole loop, with a step for each byte and one more.
unfoldable pub scan_log_data_index : Bool → ℕ → List ℕ → Scanned
scan_log_data_index v2 payload_offset payload =
    scan_from (length payload + 1) v2 (payload_offset + length payload) (payload_offset + 4)
      (drop 4 payload)

-- The loop over the counted blobs of an old segment.
unfoldable pub scan_counted : ℕ → Bool → ℕ → ℕ → List ℕ → Result StorageError (List DataBlobMeta)
scan_counted zero v2 payload_end offset bytes = ok []
scan_counted (suc count) v2 payload_end offset bytes =
    and_then (scan_blob v2 payload_end offset bytes) λ (m, next).
      and_then (scan_counted count v2 payload_end next (drop (next - offset) bytes))
        λ ms. ok (m ∷ ms)

unfoldable pub scan_legacy_data_index : Bool → ℕ → List ℕ → Result StorageError (List DataBlobMeta)
scan_legacy_data_index v2 payload_offset payload =
    let payload_len = length payload in
    and_then (ensure (leb 8 payload_len) corrupt) λ _.
      let count = of_le (take 8 payload) in
      and_then (ensure (leb count ((payload_len - 8) / data_blob_header_size)) corrupt) λ _.
        scan_counted count v2 (payload_offset + payload_len) (payload_offset + 8) (drop 8 payload)
