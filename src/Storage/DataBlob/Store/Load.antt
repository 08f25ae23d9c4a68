-- ===== src/Storage/DataBlob/Store/Load.antt =====
-- Blobs read after an append: data-plane/src/storage/data_path.rs.
use Prim.Native.Nat.{zero, suc}
use holo.Prelude.{
  saturating_add, ℕ, ◌+◌, ◌-◌, ◌≤◌, ◌≡◌, refl, sym, ap, ◌∙◌, leb, le→leb, leb→le, ◌==◌, true,
  Option, none, some, List, [], ◌∷◌, ◌++◌, length, take, drop, find, length-append, arith, u64_max,
}
use holo.Prelude.Bytes.{le_bytes}
use holo.Prelude.Outcome.{ok, ensure, ok_or, ◌>>=◌, and_then_inv, ensure_inv}
use holo.Storage.Error.{io, not_found}
use holo.Storage.Compression.{CompressionCodec}
use holo.Storage.Segment.{Crc}
use holo.Storage.MetadataFile.{MetadataFile}
use holo.Storage.BlkMap.Log.RoundTrip.{take-append}
use holo.Storage.BlkMap.Log.RoundTrip.{starts_with-append, starts_with_long}
use holo.Storage.DataBlob.{
  DataBlob, DataBlobMeta, encode_data_blob_record, encode_data_blob_header, data_log_prefix,
  read_exact,
}
use holo.Storage.DataBlob.Grown.{IsBlob, meta_of, scan_log_data_index-append, length-record}
use holo.Storage.DataBlob.Search.{id_test, ids_within, find_blob-find, new_id, ids_within-append}
use holo.Storage.DataBlob.Store.{
  index_file, cached, read_blob_payload, find_blob, append_blob, checked_blob, read_blob,
  load_blob_by_id, blob_integrity_checksum,
}
use holo.Storage.DataBlob.Store.Append.{
  file_at, base, grown_file, base-IsLog, indexed_log, store_of, index_of, fresh, added, append_runs,
}

read_exact_inv :
    (n : ℕ) (xs bytes : List ℕ) → read_exact n xs ≡ ok bytes → (n ≤ length xs) × (take n xs ≡ bytes)
unfolding read_exact
read_exact_inv n xs bytes h =
    let (u, (long, taken)) = and_then_inv (ensure (leb n (length xs)) io) _ bytes h in
    (leb→le n (length xs) (ensure_inv _ io u long), ground (arith, taken))

read_exact_of : (n : ℕ) (xs : List ℕ) → n ≤ length xs → read_exact n xs ≡ ok (take n xs)
unfolding read_exact
read_exact_of n xs h = rw (le→leb n (length xs) h)

read_more :
    (k n : ℕ) (p r bytes : List ℕ)
    → read_exact n (drop k p) ≡ ok bytes
    → read_exact n (drop k (p ++ r)) ≡ ok bytes
read_more zero n p r bytes h =
    let (long, taken) = read_exact_inv n p bytes h in
    read_exact_of n (p ++ r) (omega (arith, length-append p r))
    ∙ ap ok (take-append n p r long ∙ taken)
read_more (suc k) zero [] r bytes h =
    let (long, taken) = read_exact_inv zero [] bytes h in
    read_exact_of zero (drop (suc k) r) (omega arith) ∙ ap ok taken
read_more (suc k) (suc n) [] r bytes h =
    absurd (omega (arith, (read_exact_inv (suc n) [] bytes h).0))
read_more (suc k) n (x ∷ p) r bytes h = read_more k n p r bytes h

drop_past : (k : ℕ) (xs ys : List ℕ) → drop (length xs + k) (xs ++ ys) ≡ drop k ys
drop_past k [] ys = let e : 0 + k ≡ k = omega arith in rw e refl
drop_past k (x ∷ xs) ys =
    let e : suc (length xs) + k ≡ suc (length xs + k) = omega arith in rw e (drop_past k xs ys)

take_all : (xs : List ℕ) → take (length xs) xs ≡ xs
take_all [] = refl
take_all (x ∷ xs) = ap (◌∷◌ x) (take_all xs)

drop-record : (b : DataBlob) → drop 24 (encode_data_blob_record b) ≡ b.bytes
unfolding encode_data_blob_record encode_data_blob_header le_bytes
drop-record b = refl

find_last :
    (id : ℕ) (m : DataBlobMeta) (ms : List DataBlobMeta)
    → find (id_test id) ms ≡ none
    → m.blob_id ≡ id
    → find (id_test id) (ms ++ m ∷ []) ≡ some m
unfolding find
find_last id m [] h e = ground arith
find_last id m (x ∷ ms) h e = ground (arith, find_last id m ms)

find_kept :
    (id : ℕ) (m : DataBlobMeta) (ms more : List DataBlobMeta)
    → find (id_test id) ms ≡ some m
    → find (id_test id) (ms ++ more) ≡ some m
unfolding find
find_kept id m [] more h = absurd (ground arith)
find_kept id m (x ∷ ms) more h = ground (arith, find_kept id m ms more)

found_of : (o : Option DataBlobMeta) (m : DataBlobMeta) → ok_or o not_found ≡ ok m → o ≡ some m
found_of none m h = absurd (ground arith)
found_of (some x) m h = cc

-- What stands behind the payload after an append.
abbrev behind : List ℕ → List ℕ → List ℕ
behind [] r = data_log_prefix ++ r
behind (x ∷ payload) r = r

ids_behind : (payload r : List ℕ) → base payload ++ r ≡ payload ++ behind payload r
ids_behind [] r = refl
ids_behind (x ∷ payload) r = refl

module _ (crc : Crc) where
  load_runs :
      (id : ℕ) (f : MetadataFile) (blobs : List DataBlobMeta)
      → load_blob_by_id crc id (store_of f (index_of f blobs))
        ≡ (read_blob crc id blobs (some f), store_of f (index_of f blobs))
  unfolding load_blob_by_id cached ◌>>=◌
  load_runs id f blobs = rw (fresh f (index_of f blobs) refl) refl

  same_sum :
      (b : DataBlob) (offset : ℕ)
      → b.payload_checksum ≡ blob_integrity_checksum crc b.blob_id b.logical_len b.bytes
      → checked_blob crc (meta_of true offset b) b.bytes ≡ ok b
  unfolding checked_blob
  same_sum b offset h =
      let equal : (b.payload_checksum
            == blob_integrity_checksum crc b.blob_id b.logical_len b.bytes)
          ≡ true =
        ground (arith, h) in
      rw (equal) refl

  -- The new blob, read at the offset of its entry.
  read_new :
      (stamp sequence : ℕ) (payload : List ℕ) (b : DataBlob)
      → length b.bytes ≡ b.stored_len
      → read_blob_payload
          (grown_file stamp sequence payload b)
          (96 + length (base payload) + 24)
          b.stored_len
        ≡ ok b.bytes
  unfolding read_blob_payload
  read_new stamp sequence payload b w =
      let l = length (base payload) in
      let r = encode_data_blob_record b in
      let at : (96 + l + 24) - 96 ≡ l + 24 = omega arith in
      rw (at, drop_past 24 (base payload) r, drop-record b)
        (read_exact_of b.stored_len b.bytes (omega arith)
          ∙ ap (λ n. ok (take n b.bytes)) (sym w)
          ∙ ap ok (take_all b.bytes))

  read_blob_of :
      (id : ℕ) (blobs : List DataBlobMeta) (f : MetadataFile) (m : DataBlobMeta) (bytes : List ℕ)
      → find_blob id blobs ≡ some m
      → read_blob_payload f m.payload_offset m.stored_len ≡ ok bytes
      → read_blob crc id blobs (some f) ≡ checked_blob crc m bytes
  unfolding read_blob
  read_blob_of id blobs f m bytes h r = rw (h, r)

  -- What could be read before can be read after, and gives the same.
  read_kept :
      (id stamp sequence : ℕ) (payload : List ℕ) (b x : DataBlob) (blobs more : List DataBlobMeta)
      (high : ℕ)
      → ids_within 0 high blobs ≡ true
      → ids_within 0 (high + 1) (blobs ++ more) ≡ true
      → read_blob crc id blobs (some (file_at stamp sequence payload)) ≡ ok x
      → read_blob crc id (blobs ++ more) (some (grown_file stamp sequence payload b)) ≡ ok x
  unfolding read_blob read_blob_payload
  read_kept id stamp sequence payload b x blobs more high w w2 h =
      let r = encode_data_blob_record b in
      let (m, (found, h')) = and_then_inv (ok_or (find_blob id blobs) not_found) _ x h in
      let (bytes, (read, checked)) =
        and_then_inv (read_exact m.stored_len (drop (m.payload_offset - 96) payload)) _ x h' in
      let before = sym (find_blob-find id high blobs w) ∙ found_of (find_blob id blobs) m found in
      let found' : find_blob id (blobs ++ more) ≡ some m =
        find_blob-find id (high + 1) (blobs ++ more) w2 ∙ find_kept id m blobs more before in
      rw
        (
          found',
          ids_behind payload r,
          read_more (m.payload_offset - 96) m.stored_len payload (behind payload r) bytes read,
        )
        checked

base_size : (payload : List ℕ) → length (base payload) ≤ length payload + 4
base_size [] = omega arith
base_size (x ∷ payload) = omega arith

module _ (crc : Crc) (blob_id logical_len : ℕ) (codec : CompressionCodec) (encoded : List ℕ) where
  abbrev pub grown : ℕ → ℕ → List ℕ → MetadataFile
  grown stamp sequence payload =
      grown_file stamp sequence payload (added crc blob_id logical_len codec encoded)

  abbrev pub grown_blobs : List ℕ → List DataBlobMeta → List DataBlobMeta
  grown_blobs payload blobs =
      blobs
      ++ meta_of true (96 + length (base payload)) (added crc blob_id logical_len codec encoded)
        ∷ []

  -- What an append leaves of a segment, and what is read from it.
  pub record IsAdded (stamp sequence : ℕ) (payload : List ℕ) (blobs : List DataBlobMeta)
      : Type 0 where
    pub outcome :
        append_blob crc blob_id codec logical_len encoded (
          store_of
            (file_at stamp sequence payload)
            (index_of (file_at stamp sequence payload) blobs))
        ≡ (
          ok (length (base payload) + (24 + length encoded)),
          store_of
              (grown stamp sequence payload)
              (index_of (grown stamp sequence payload) (grown_blobs payload blobs)),
        )
    pub in_step : index_file (grown stamp sequence payload) ≡ ok (grown_blobs payload blobs, true)
    pub read_back :
        (load_blob_by_id crc blob_id (
          store_of
            (grown stamp sequence payload)
            (index_of (grown stamp sequence payload) (grown_blobs payload blobs)))).0
        ≡ ok (added crc blob_id logical_len codec encoded)
    pub kept :
        (id : ℕ) (x : DataBlob)
        → (load_blob_by_id crc id (
            store_of
              (file_at stamp sequence payload)
              (index_of (file_at stamp sequence payload) blobs))).0
          ≡ ok x
        → (load_blob_by_id crc id (
            store_of
              (grown stamp sequence payload)
              (index_of (grown stamp sequence payload) (grown_blobs payload blobs)))).0
          ≡ ok x

  -- A blob appended to a segment in the log format is in the file and in the cached index: the file
  -- scanned anew gives that index, the blob is read back by its id, and every blob that could be
  -- read before is read as before. The cached index is that of the file, whose header is of version
  -- 2, the ids of the segment ascend and the new one is above them, the fields have their widths,
  -- the file's offsets have 64 bits, and the file's stamp is looked at before the cache is used.
  pub append_blob-IsAdded :
      (stamp sequence : ℕ) (payload : List ℕ) (blobs : List DataBlobMeta)
      → index_file (file_at stamp sequence payload) ≡ ok (blobs, true)
      → ids_within 0 blob_id blobs ≡ true
      → IsBlob (added crc blob_id logical_len codec encoded)
      → length payload + length encoded + 200 ≤ u64_max
      → IsAdded stamp sequence payload blobs
  append_blob-IsAdded stamp sequence payload blobs h new w n =
      let b = added crc blob_id logical_len codec encoded in
      let log = base-IsLog stamp sequence payload blobs h in
      let r = encode_data_blob_record b in
      let f = grown stamp sequence payload in
      let long = starts_with_long data_log_prefix (base payload) log.0 in
      let meta = meta_of true (96 + length (base payload)) b in
      let ascend = ids_within-append 0 blob_id blobs meta new refl (omega arith) in
      let size : length (base payload ++ r) ≡ length (base payload) + (24 + length encoded) =
        omega (arith, length-append (base payload) r, length-record b) in
      record {
        outcome =
            append_runs crc blob_id logical_len codec encoded stamp sequence payload blobs log
              (omega (arith, w.stored_bound))
            ∙ ap (λ k. (ok k, store_of f (index_of f (grown_blobs payload blobs)))) size;
        in_step =
            indexed_log (stamp + 1) (saturating_add sequence 1) (base payload ++ r)
              (grown_blobs payload blobs)
              (
                starts_with-append data_log_prefix (base payload) r log.0,
                scan_log_data_index-append true 96 (base payload) b blobs w long
                    (omega (arith, base_size payload)) log.1,
              );
        read_back =
            ap (λ p. p.0) (load_runs crc blob_id f (grown_blobs payload blobs))
            ∙ read_blob_of crc blob_id (grown_blobs payload blobs) f
                (meta_of true (96 + length (base payload)) b) encoded
                (find_blob-find blob_id (blob_id + 1) (grown_blobs payload blobs) ascend
                  ∙ find_last blob_id meta blobs (new_id 0 blob_id blobs new) refl)
                (read_new crc stamp sequence payload b refl)
            ∙ same_sum crc b (96 + length (base payload)) refl;
        kept = λ id x e.
            ap (λ p. p.0) (load_runs crc id f (grown_blobs payload blobs))
            ∙ read_kept crc id stamp sequence payload b x blobs (meta ∷ []) blob_id new ascend
                (ap (λ p. p.0) (sym (load_runs crc id (file_at stamp sequence payload) blobs)) ∙ e);
      }
