-- ===== src/Storage/DataBlob/Store.antt =====
-- The cached index of one data segment and its file: data-plane/src/storage/data_path.rs. Every
-- operation gives its result and the store after it; the locks of the cache are left out.
pub mod Append
pub mod Load
use Prim.Native.Nat.{zero, suc}
use holo.Prelude.{
  ltb, get_elem?, ◌/◌, ℕ, ◌+◌, ◌-◌, leb, ◌==◌, Bool, true, false, not, ◌&&◌, ◌||◌, Option, none,
  some, List, [], ◌∷◌, ◌++◌, length, take, drop, find, if◌then◌else◌, is_some, u32_max,
}
use holo.Prelude.Bytes.{le_bytes}
use holo.Prelude.Outcome.{
  Result, ok, err, and_then, ensure, ok_or, Exec, pure, lift, gets, modify, ◌>>=◌, ◌>>◌,
}
use holo.Storage.Error.{StorageError, corrupt, conflict, io, not_found, internal}
use holo.Storage.Compression.{CompressionCodec}
use holo.Storage.Segment.{Crc, integrity32}
use holo.Storage.MetadataFile.{
  MetadataFile, starts_with, write_segment_file, append_segment_payload,
}
use holo.Storage.DataBlob.{
  DataBlob, DataBlobMeta, encode_data_blob_record, data_log_prefix, Scanned, read_exact,
  scan_log_data_index, scan_legacy_data_index,
}

pub record CachedDataIndex : Type 0 where
  pub stamp : ℕ
  pub sequence : ℕ
  pub blobs : List DataBlobMeta
  pub is_log_format : Bool

pub record DataStore : Type 0 where
  pub trust_hot_cache : Bool
  pub file : Option MetadataFile
  pub cache : Option CachedDataIndex

abbrev pub Op : Type 0 → Type 0
Op A = Exec StorageError DataStore A

-- The header is of version 2 exactly if it has 96 bytes.
abbrev pub is_v2 : MetadataFile → Bool
is_v2 f = f.header_len == 96

-- The scan ends, so that the first case does not come up.
abbrev pub ended : Scanned → Result StorageError (List DataBlobMeta)
ended none = err internal
ended (some r) = r

abbrev pub with_format :
    Bool → Result StorageError (List DataBlobMeta) → Result StorageError (List DataBlobMeta × Bool)
with_format is_log (err e) = err e
with_format is_log (ok blobs) = ok (blobs, is_log)

unfoldable pub scan_data_index : MetadataFile → Result StorageError (List DataBlobMeta × Bool)
scan_data_index f = and_then (ensure (leb 4 (length f.payload)) io) λ _.
    if starts_with data_log_prefix f.payload
    then with_format true (ended (scan_log_data_index (is_v2 f) f.header_len f.payload))
    else with_format false (scan_legacy_data_index (is_v2 f) f.header_len f.payload)

-- What the scan of a file gives, where an empty one is a log.
unfoldable pub index_file : MetadataFile → Result StorageError (List DataBlobMeta × Bool)
index_file f = if length f.payload == 0 then ok ([], true) else scan_data_index f

abbrev is_stamped : Option CachedDataIndex → ℕ → Bool
is_stamped none stamp = false
is_stamped (some c) stamp = c.stamp == stamp

abbrev keep_index : MetadataFile → Result StorageError (List DataBlobMeta × Bool) → Op (Unit {0})
keep_index f (err e) s = (err e, s)
keep_index f (ok (blobs, is_log)) s = (
  ok tt,
  record s {
    cache =
        some (record {
          stamp = f.stamp;
          sequence = f.sequence;
          blobs = blobs;
          is_log_format = is_log;
        });
  },
)

unfoldable pub rescan : Option MetadataFile → Op (Unit {0})
rescan none s = (err io, s)
rescan (some f) s = if is_stamped s.cache f.stamp then (ok tt, s) else keep_index f (index_file f) s

unfoldable pub ensure_data_cache_fresh : Op (Unit {0})
ensure_data_cache_fresh s =
    if s.trust_hot_cache && is_some s.cache then (ok tt, s) else rescan s.file s

unfoldable pub cached : Op CachedDataIndex
cached s = (ok_or s.cache not_found, s)

-- Bytes of the file, by their offset in it; a short read is an error.
unfoldable pub read_blob_payload : MetadataFile → ℕ → ℕ → Result StorageError (List ℕ)
read_blob_payload f offset len = read_exact len (drop (offset - f.header_len) f.payload)

abbrev rewritten_as : List DataBlobMeta → MetadataFile → List ℕ → DataStore → DataStore
rewritten_as blobs f records s =
    let g = write_segment_file (length blobs) (data_log_prefix ++ records) (some f) in
    record s {
      file = some g;
      cache = some (record {
        stamp = g.stamp;
        sequence = length blobs;
        blobs = blobs;
        is_log_format = true;
      });
    }

abbrev keep_file : Result StorageError MetadataFile → Op MetadataFile
keep_file (err e) s = (err e, s)
keep_file (ok f) s = (ok f, record s { file = some f })

unfoldable pub append_to_file : List ℕ → Op MetadataFile
append_to_file record_bytes s =
    keep_file (append_segment_payload data_log_prefix record_bytes s.file) s

-- The blob's entry is pushed behind the others.
unfoldable pub cache_blob : MetadataFile → DataBlob → Op (Unit {0})
cache_blob f b s = elim s.cache [
  | none ↦ (err not_found, s)
  | some c ↦ (
    ok tt,
    record s {
      cache = some (record {
        stamp = if s.trust_hot_cache then c.stamp else f.stamp;
        sequence = f.sequence;
        blobs =
            c.blobs
            ++ record {
              blob_id = b.blob_id;
              codec = b.codec;
              logical_len = b.logical_len;
              stored_len = b.stored_len;
              payload_checksum = b.payload_checksum;
              payload_offset = (f.header_len + length f.payload) - b.stored_len;
              v2_integrity = true;
            }
              ∷ [];
        is_log_format = true;
      });
    },
  )
]

-- `binary_search_by_key` on the ids, as the standard library does it: the window of the search is
-- the list, and becomes its part from the middle on, or without as many of its last entries as stand
-- before the middle. The fuel is the length.
unfoldable pub search_window : ℕ → ℕ → List DataBlobMeta → Option DataBlobMeta
search_window zero blob_id window = none
search_window (suc fuel) blob_id [] = none
search_window (suc fuel) blob_id (m ∷ []) = if m.blob_id == blob_id then some m else none
search_window (suc fuel) blob_id (m ∷ n ∷ ms) =
    let size = length (m ∷ n ∷ ms) in
    let half = size / 2 in
    let before = search_window fuel blob_id (take (size - half) (m ∷ n ∷ ms)) in
    let behind = search_window fuel blob_id (drop half (m ∷ n ∷ ms)) in
    elim (get_elem? (m ∷ n ∷ ms) half) [
      | none ↦ none
      | some middle ↦ if ltb blob_id middle.blob_id then before else behind
    ]

unfoldable pub find_blob : ℕ → List DataBlobMeta → Option DataBlobMeta
find_blob blob_id blobs = search_window (length blobs) blob_id blobs

module _ (crc : Crc) where
  unfoldable pub blob_integrity_checksum : ℕ → ℕ → List ℕ → ℕ
  blob_integrity_checksum blob_id logical_len bytes =
      integrity32 crc (le_bytes 8 blob_id ++ (le_bytes 4 logical_len ++ bytes))

  abbrev pub blob_of : DataBlobMeta → List ℕ → DataBlob
  blob_of m bytes = record {
    blob_id = m.blob_id;
    codec = m.codec;
    logical_len = m.logical_len;
    stored_len = m.stored_len;
    payload_checksum = blob_integrity_checksum m.blob_id m.logical_len bytes;
    bytes = bytes;
  }

  -- The records of an old segment's blobs, read from its file.
  unfoldable pub encode_blobs : MetadataFile → List DataBlobMeta → Result StorageError (List ℕ)
  encode_blobs f [] = ok []
  encode_blobs f (m ∷ ms) = and_then (read_blob_payload f m.payload_offset m.stored_len) λ bytes.
      and_then (encode_blobs f ms) λ rest. ok (encode_data_blob_record (blob_of m bytes) ++ rest)

  unfoldable pub persist_data_blobs_as_log : List DataBlobMeta → Op (Unit {0})
  persist_data_blobs_as_log blobs s = elim s.file [
    | none ↦ (err io, s)
    | some f ↦ elim (encode_blobs f blobs) [
      | err e ↦ (err e, s)
      | ok records ↦ (ok tt, rewritten_as blobs f records s)
    ]
  ]

  unfoldable pub rewrite_legacy : CachedDataIndex → Op (Unit {0})
  rewrite_legacy c =
      if c.is_log_format
      then pure tt
      else persist_data_blobs_as_log c.blobs >> ensure_data_cache_fresh

  abbrev pub new_blob : ℕ → CompressionCodec → ℕ → List ℕ → DataBlob
  new_blob blob_id codec logical_len encoded_payload = record {
    blob_id = blob_id;
    codec = codec;
    logical_len = logical_len;
    stored_len = length encoded_payload;
    payload_checksum = blob_integrity_checksum blob_id logical_len encoded_payload;
    bytes = encoded_payload;
  }

  -- `append_data_blob` on the segment that it has chosen, with the id that it has chosen. It gives
  -- the length of the payload.
  unfoldable pub append_blob : ℕ → CompressionCodec → ℕ → List ℕ → Op ℕ
  append_blob blob_id codec logical_len encoded_payload =
      let b = new_blob blob_id codec logical_len encoded_payload in
      ensure_data_cache_fresh >> cached >>= λ c.
      rewrite_legacy c
      >> lift (ensure (leb (length encoded_payload) u32_max) conflict)
      >> append_to_file (encode_data_blob_record b)
      >>= λ f. cache_blob f b >> pure (length f.payload)

  -- The check of the bytes that were read, and the blob.
  unfoldable pub checked_blob : DataBlobMeta → List ℕ → Result StorageError DataBlob
  checked_blob m bytes =
      and_then
        (ensure
          (not (
            m.v2_integrity
            && not (m.payload_checksum == blob_integrity_checksum m.blob_id m.logical_len bytes)))
          corrupt)
        λ _. ok (record {
          blob_id = m.blob_id;
          codec = m.codec;
          logical_len = m.logical_len;
          stored_len = m.stored_len;
          payload_checksum = m.payload_checksum;
          bytes = bytes;
        })

  unfoldable pub read_blob :
      ℕ → List DataBlobMeta → Option MetadataFile → Result StorageError DataBlob
  read_blob blob_id blobs file = and_then (ok_or (find_blob blob_id blobs) not_found) λ m.
      and_then (ok_or file io) λ f.
        and_then (read_blob_payload f m.payload_offset m.stored_len) λ bytes. checked_blob m bytes

  unfoldable pub load_blob_by_id : ℕ → Op DataBlob
  load_blob_by_id blob_id = ensure_data_cache_fresh >> cached >>= λ c.
      gets (λ s. s.file) >>= λ file. lift (read_blob blob_id c.blobs file)
