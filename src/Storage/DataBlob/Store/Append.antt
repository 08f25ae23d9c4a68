-- ===== src/Storage/DataBlob/Store/Append.antt =====
-- A blob appended to a segment's file and to its cached index, and read back:
-- data-plane/src/storage/data_path.rs.
use holo.Prelude.{
  ℕ, ◌+◌, ◌-◌, ◌≤◌, ◌≡◌, refl, sym, ap, ◌∙◌, leb, le→leb, ◌==◌, Bool, true, false, none, some, List,
  [], ◌∷◌, ◌++◌, length, length-append, arith, if◌then◌else◌, saturating_add, u32_max,
}
use holo.Prelude.Outcome.{Result, ok, err, ensure, ◌>>=◌, and_then_inv}
use holo.Storage.Error.{StorageError, io}
use holo.Storage.Compression.{CompressionCodec}
use holo.Storage.Segment.{Crc}
use holo.Storage.MetadataFile.{
  MetadataFile, starts_with, write_segment_file, append_segment_payload,
}
use holo.Storage.BlkMap.Log.RoundTrip.{starts_with_long}
use holo.Storage.DataBlob.{
  DataBlob, DataBlobMeta, encode_data_blob_record, data_log_prefix, Scanned, scan_log_data_index,
  scan_from,
}
use holo.Storage.DataBlob.Grown.{meta_of, length-record}
use holo.Storage.DataBlob.Store.{
  CachedDataIndex, DataStore, with_format, ended, scan_data_index, index_file, rescan,
  ensure_data_cache_fresh, cached, append_to_file, cache_blob, rewrite_legacy, new_blob,
  append_blob,
}

-- A file with a header of version 2.
abbrev pub file_at : ℕ → ℕ → List ℕ → MetadataFile
file_at stamp sequence payload = record {
  stamp = stamp;
  header_len = 96;
  sequence = sequence;
  payload = payload;
}

-- What an append finds before its record.
abbrev pub base : List ℕ → List ℕ
base [] = data_log_prefix
base (b ∷ payload) = b ∷ payload

abbrev pub grown_file : ℕ → ℕ → List ℕ → DataBlob → MetadataFile
grown_file stamp sequence payload b =
    file_at (stamp + 1) (saturating_add sequence 1) (base payload ++ encode_data_blob_record b)

-- An indexed log is empty, or has the prefix and is scanned to its blobs.
abbrev pub IsLog : List ℕ → List DataBlobMeta → Type 0
IsLog payload blobs =
    (starts_with data_log_prefix payload ≡ true)
    × (scan_log_data_index true 96 payload ≡ some (ok blobs))

ended_inv : (r : Scanned) (ms : List DataBlobMeta) → ended r ≡ ok ms → r ≡ some (ok ms)
ended_inv none ms h = absurd (ground arith)
ended_inv (some r) ms h = ap some h

log_inv :
    (log legacy : Result StorageError (List DataBlobMeta)) (b : Bool) (ms : List DataBlobMeta)
    → (if b then with_format true log else with_format false legacy) ≡ ok (ms, true)
    → (b ≡ true) × (log ≡ ok ms)
log_inv (ok l) legacy true ms h = (refl, ground arith)
log_inv (err e) legacy true ms h = absurd (ground arith)
log_inv log (ok l) false ms h = absurd (ground arith)
log_inv log (err e) false ms h = absurd (ground arith)

no_blobs : scan_log_data_index true 96 data_log_prefix ≡ some (ok [])
unfolding scan_log_data_index scan_from
no_blobs = refl

appended_payload :
    (stamp sequence : ℕ) (payload : List ℕ) (blobs : List DataBlobMeta)
    → scan_data_index (file_at stamp sequence payload) ≡ ok (blobs, true)
    → IsLog payload blobs
unfolding scan_data_index
appended_payload stamp sequence payload blobs h =
    let (u, (long, h')) = and_then_inv (ensure (leb 4 (length payload)) io) _ (blobs, true) h in
    let (starts, read) =
      log_inv (ended (scan_log_data_index true 96 payload)) _ (starts_with data_log_prefix payload)
        blobs h' in
    (starts, ended_inv (scan_log_data_index true 96 payload) blobs read)

pub base-IsLog :
    (stamp sequence : ℕ) (payload : List ℕ) (blobs : List DataBlobMeta)
    → index_file (file_at stamp sequence payload) ≡ ok (blobs, true)
    → IsLog (base payload) blobs
unfolding index_file
base-IsLog stamp sequence [] blobs h =
    let none_yet : blobs ≡ [] = ground (arith, h) in
    (unfold starts_with in refl, no_blobs ∙ ap (λ l. some (ok l)) (sym none_yet))
base-IsLog stamp sequence (x ∷ payload) blobs h =
    appended_payload stamp sequence (x ∷ payload) blobs (filled h)
  where
    filled :
        (if length (x ∷ payload) == 0
            then ok ([], true)
            else scan_data_index (file_at stamp sequence (x ∷ payload)))
          ≡ ok (blobs, true)
        → scan_data_index (file_at stamp sequence (x ∷ payload)) ≡ ok (blobs, true)
    filled e = ground (arith, e)

pub indexed_log :
    (stamp sequence : ℕ) (payload : List ℕ) (blobs : List DataBlobMeta)
    → IsLog payload blobs
    → index_file (file_at stamp sequence payload) ≡ ok (blobs, true)
unfolding index_file scan_data_index
indexed_log stamp sequence [] blobs h = absurd (unfold starts_with in ground (arith, h.0))
indexed_log stamp sequence (x ∷ payload) blobs h =
    let long : leb 4 (length (x ∷ payload)) ≡ true =
      le→leb _ _ (starts_with_long data_log_prefix (x ∷ payload) h.0) in
    let filled : (length (x ∷ payload) == 0) ≡ false = ground arith in rw (filled, long, h.0, h.1)

append_file :
    (stamp sequence : ℕ) (payload : List ℕ) (b : DataBlob) (blobs : List DataBlobMeta)
    → IsLog (base payload) blobs
    → append_segment_payload data_log_prefix
        (encode_data_blob_record b)
        (some (file_at stamp sequence payload))
      ≡ ok (grown_file stamp sequence payload b)
unfolding append_segment_payload write_segment_file
append_file stamp sequence [] b blobs h = refl
append_file stamp sequence (x ∷ payload) b blobs h =
    let filled : (length (x ∷ payload) == 0) ≡ false = ground arith in
    let long : leb 4 (length (x ∷ payload)) ≡ true =
      le→leb _ _ (starts_with_long data_log_prefix (x ∷ payload) h.0) in
    rw (filled, long, h.0)

-- The store of one segment whose cache is not trusted over the file's stamp.
abbrev pub store_of : MetadataFile → CachedDataIndex → DataStore
store_of f c = record { trust_hot_cache = false; file = some f; cache = some c }

-- The cached index is that of the file.
abbrev pub index_of : MetadataFile → List DataBlobMeta → CachedDataIndex
index_of f blobs = record {
  stamp = f.stamp;
  sequence = f.sequence;
  blobs = blobs;
  is_log_format = true;
}

pub fresh :
    (f : MetadataFile) (c : CachedDataIndex)
    → c.stamp ≡ f.stamp
    → ensure_data_cache_fresh (store_of f c) ≡ (ok tt, store_of f c)
unfolding ensure_data_cache_fresh rescan
fresh f c h = ground (arith, h)

module _ (crc : Crc) (blob_id logical_len : ℕ) (codec : CompressionCodec) (encoded : List ℕ) where
  abbrev pub added : DataBlob
  added = new_blob crc blob_id codec logical_len encoded

  pub append_runs :
      (stamp sequence : ℕ) (payload : List ℕ) (blobs : List DataBlobMeta)
      → IsLog (base payload) blobs
      → length encoded ≤ u32_max
      → append_blob crc blob_id codec logical_len encoded (
          store_of
            (file_at stamp sequence payload)
            (index_of (file_at stamp sequence payload) blobs))
        ≡ (
          ok (length (base payload ++ encode_data_blob_record added)),
          store_of (grown_file stamp sequence payload added) (
              index_of
                (grown_file stamp sequence payload added)
                (blobs ++ meta_of true (96 + length (base payload)) added ∷ [])),
        )
  unfolding append_blob cached rewrite_legacy append_to_file cache_blob ◌>>=◌
  append_runs stamp sequence payload blobs h n =
      let f = file_at stamp sequence payload in
      let r = encode_data_blob_record added in
      let offset : (96 + length (base payload ++ r)) - length encoded
          ≡ 96 + length (base payload) + 24 =
        omega (arith, length-append (base payload) r, length-record added) in
      rw
        (
          fresh f (index_of f blobs) refl,
          le→leb (length encoded) u32_max n,
          append_file stamp sequence payload added blobs h,
          offset,
        )
        refl
