-- ===== src/Storage/Dedup/Codec.antt =====
-- Entries of a dedup log, written and read back: data-plane/src/storage/dedup.rs.
use Prim.Native.Nat.{zero, suc}
use holo.Prelude.{
  ℕ, ◌+◌, ◌*◌, ◌/◌, ◌%◌, ◌≤◌, ◌<◌, ◌≡◌, refl, sym, ap, ◌∙◌, leb, le→leb, leb→le, ◌==◌, Bool, true,
  ◌&&◌, List, [], ◌∷◌, ◌++◌, length, take, drop, length-append, arith,
}
use holo.Prelude.OrdMap.{Map, insert, nat_keys}
use holo.Prelude.Bytes.{le_bytes, of_le-le_bytes}
use holo.Prelude.Outcome.{ok, and_then, ensure, and_then_inv, and_then_ok, ensure_inv, ok_injective}
use holo.Storage.Error.{corrupt, metadata_budget_exceeded}
use holo.Storage.BlkMap.{field}
use holo.Storage.BlkMap.Codec.{codec_back}
use holo.Storage.BlkMap.Log.{max_maintenance_metadata_records, checked_metadata_record_count}
use holo.Storage.BlkMap.Log.RoundTrip.{take-append, drop-append, length-drop}
use holo.Storage.Dedup.{DedupIndexEntry, encode_entry, decode_entry, decode_latest, decode_log_map}

-- The fields have the widths of their types.
pub record IsEntry (e : DedupIndexEntry) : Type 0 where
  pub id_bound : e.entry_id < 18446744073709551616
  pub hi_bound : e.fingerprint_hi < 18446744073709551616
  pub lo_bound : e.fingerprint_lo < 18446744073709551616
  pub checksum_bound : e.payload_checksum < 4294967296
  pub logical_bound : e.logical_len < 4294967296
  pub blob_bound : e.stored_blob_id < 18446744073709551616
  pub stored_bound : e.stored_len < 4294967296
  pub count_bound : e.ref_count < 4294967296

length-encode_entry :
    (e : DedupIndexEntry) (rest : List ℕ) → length (encode_entry e ++ rest) ≡ 52 + length rest
unfolding encode_entry le_bytes
length-encode_entry e rest = omega arith

pub size_entry : (e : DedupIndexEntry) → length (encode_entry e) ≡ 52
unfolding encode_entry le_bytes
size_entry e = refl

take_entry : (e : DedupIndexEntry) → take 52 (encode_entry e) ≡ encode_entry e
unfolding encode_entry le_bytes
take_entry e = refl

pub decode_entry-encode_entry :
    (e : DedupIndexEntry) → IsEntry e → decode_entry (encode_entry e) ≡ ok e
unfolding decode_entry encode_entry le_bytes
decode_entry-encode_entry e h =
    let buf = encode_entry e in
    let e0 : field 0 8 buf ≡ e.entry_id = of_le-le_bytes 8 e.entry_id (omega (arith, h.id_bound)) in
    let e1 : field 8 8 buf ≡ e.fingerprint_hi =
      of_le-le_bytes 8 e.fingerprint_hi (omega (arith, h.hi_bound)) in
    let e2 : field 16 8 buf ≡ e.fingerprint_lo =
      of_le-le_bytes 8 e.fingerprint_lo (omega (arith, h.lo_bound)) in
    let e3 : field 24 4 buf ≡ e.payload_checksum =
      of_le-le_bytes 4 e.payload_checksum (omega (arith, h.checksum_bound)) in
    let e4 : field 28 4 buf ≡ e.logical_len =
      of_le-le_bytes 4 e.logical_len (omega (arith, h.logical_bound)) in
    let e5 : field 32 8 buf ≡ e.stored_blob_id =
      of_le-le_bytes 8 e.stored_blob_id (omega (arith, h.blob_bound)) in
    let e6 : field 40 4 buf ≡ e.stored_len =
      of_le-le_bytes 4 e.stored_len (omega (arith, h.stored_bound)) in
    let e7 : field 48 4 buf ≡ e.ref_count =
      of_le-le_bytes 4 e.ref_count (omega (arith, h.count_bound)) in
    rw (codec_back e.compression, e0, e1, e2, e3, e4, e5, e6, e7)

decode_latest_step :
    (count : ℕ) (bytes : List ℕ) (latest : Map ℕ DedupIndexEntry)
    → 52 ≤ length bytes
    → decode_latest (suc count) bytes latest
      ≡ and_then
          (decode_entry (take 52 bytes))
          (λ e. decode_latest count (drop 52 bytes) (insert e.entry_id e latest))
unfolding decode_latest
decode_latest_step count bytes latest h = rw (le→leb 52 (length bytes) h)

decode_latest_more :
    (count : ℕ) (bytes : List ℕ) (latest m : Map ℕ DedupIndexEntry) (e : DedupIndexEntry)
    → IsEntry e
    → length bytes ≡ 52 * count
    → decode_latest count bytes latest ≡ ok m
    → decode_latest (suc count) (bytes ++ encode_entry e) latest ≡ ok (insert e.entry_id e m)
decode_latest_more zero [] latest m e h n q =
    let same : latest ≡ m =
      ok_injective latest m (decode_latest zero [] latest) (unfold decode_latest in refl) q in
    rw
      (
        decode_latest_step zero (encode_entry e) latest (omega (arith, size_entry e)),
        take_entry e,
        decode_entry-encode_entry e h,
      )
      (unfold decode_latest in ap (λ l. ok (insert e.entry_id e l)) same)
decode_latest_more zero (b ∷ bytes) latest m e h n q = absurd (omega arith)
decode_latest_more (suc count) bytes latest m e h n q =
    let long : 52 ≤ length bytes = omega arith in
    let whole : 52 ≤ length (bytes ++ encode_entry e) =
      omega (arith, length-append bytes (encode_entry e)) in
    let q' = sym (decode_latest_step count bytes latest long) ∙ q in
    rw
      (
        decode_latest_step (suc count) (bytes ++ encode_entry e) latest whole,
        take-append 52 bytes (encode_entry e) long,
        drop-append 52 bytes (encode_entry e) long,
      )
      (and_then_ok (decode_entry (take 52 bytes))
        (λ x. decode_latest count (drop 52 bytes) (insert x.entry_id x latest))
        (λ x.
          decode_latest (suc count) (drop 52 bytes ++ encode_entry e) (insert x.entry_id x latest))
        m (insert e.entry_id e m) q'
        λ x r.
          decode_latest_more count (drop 52 bytes) (insert x.entry_id x latest) m e h
            (omega (arith, length-drop 52 bytes long)) r)

-- What a log that is read consists of.
pub record IsReadLog (bytes : List ℕ) (m : Map ℕ DedupIndexEntry) : Type 0 where
  pub whole : length bytes % 52 ≡ 0
  pub few : length bytes / 52 ≤ max_maintenance_metadata_records
  pub latest_read : decode_latest (length bytes / 52) bytes [] ≡ ok m

pub decode_log_map-IsReadLog :
    (bytes : List ℕ) (m : Map ℕ DedupIndexEntry) → decode_log_map bytes ≡ ok m → IsReadLog bytes m
unfolding decode_log_map checked_metadata_record_count
decode_log_map-IsReadLog bytes m h =
    let (u, (w, h1)) = and_then_inv (ensure (length bytes % 52 == 0) corrupt) _ m h in
    let (n, (c, h2)) = and_then_inv (checked_metadata_record_count (length bytes / 52)) _ m h1 in
    let (u', (few, back)) =
      and_then_inv
        (ensure (leb (length bytes / 52) max_maintenance_metadata_records) metadata_budget_exceeded)
        _ n c in
    let same : length bytes / 52 ≡ n = ok_injective _ _ (ok (length bytes / 52)) refl back in
    record {
      whole = ground (arith, ensure_inv (length bytes % 52 == 0) corrupt u w);
      few = leb→le _ _ (ensure_inv _ metadata_budget_exceeded u' few);
      latest_read = ap (λ k. decode_latest k bytes []) same ∙ h2;
    }

-- One more entry in a log.
pub decode_log_map-append :
    (bytes : List ℕ) (m : Map ℕ DedupIndexEntry) (e : DedupIndexEntry)
    → IsEntry e
    → length bytes / 52 < max_maintenance_metadata_records
    → decode_log_map bytes ≡ ok m
    → decode_log_map (bytes ++ encode_entry e) ≡ ok (insert e.entry_id e m)
unfolding decode_log_map checked_metadata_record_count
decode_log_map-append bytes m e h room q =
    let l = decode_log_map-IsReadLog bytes m (unfold decode_log_map in q) in
    let n = length bytes / 52 in
    let size : length bytes ≡ 52 * n = omega (arith, l.whole) in
    let longer : length (bytes ++ encode_entry e) ≡ 52 * suc n =
      omega (arith, length-append bytes (encode_entry e), size_entry e) in
    let count : length (bytes ++ encode_entry e) / 52 ≡ suc n = omega arith in
    let whole : (length (bytes ++ encode_entry e) % 52 == 0) ≡ true = ground (arith, longer) in
    let few : leb (suc n) max_maintenance_metadata_records ≡ true = le→leb _ _ (omega arith) in
    rw (whole, count, few) (decode_latest_more n bytes [] m e h size l.latest_read)

-- The keys are the ids of their entries, and ascend.
unfoldable pub ascends : ℕ → Map ℕ DedupIndexEntry → Bool
ascends low [] = true
ascends low ((k, e) ∷ m) = (k == e.entry_id) && (leb low k && ascends (k + 1) m)

insert-ascends :
    (low : ℕ) (e : DedupIndexEntry) (m : Map ℕ DedupIndexEntry)
    → ascends low m ≡ true
    → low ≤ e.entry_id
    → ascends low (insert e.entry_id e m) ≡ true
unfolding ascends insert
insert-ascends low e [] h l = ground arith
insert-ascends low e ((k, x) ∷ m) h l = ground (arith, insert-ascends (k + 1) e m)

decode_latest-ascends :
    (count : ℕ) (bytes : List ℕ) (latest m : Map ℕ DedupIndexEntry)
    → ascends 0 latest ≡ true
    → decode_latest count bytes latest ≡ ok m
    → ascends 0 m ≡ true
unfolding decode_latest
decode_latest-ascends zero bytes latest m h q =
    ap (ascends 0) (sym (ok_injective latest m (ok latest) refl q)) ∙ h
decode_latest-ascends (suc count) bytes latest m h q =
    let (u, (long, q1)) = and_then_inv (ensure (leb 52 (length bytes)) corrupt) _ m q in
    let (e, (read, q2)) = and_then_inv (decode_entry (take 52 bytes)) _ m q1 in
    decode_latest-ascends count (drop 52 bytes) (insert e.entry_id e latest) m
      (insert-ascends 0 e latest h (omega arith)) q2

-- A log that is read has its ids in order.
pub decode_log_map-ascends :
    (bytes : List ℕ) (m : Map ℕ DedupIndexEntry) → decode_log_map bytes ≡ ok m → ascends 0 m ≡ true
decode_log_map-ascends bytes m h =
    decode_latest-ascends (length bytes / 52) bytes [] m (unfold ascends in refl)
      (decode_log_map-IsReadLog bytes m h).latest_read
