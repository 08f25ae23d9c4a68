-- ===== src/Storage/BlkMap/Log/RoundTrip.antt =====
-- Reading a log of the block map: data-plane/src/storage/blk_map.rs.
use holo.Prelude.{
  ℕ, zero, suc, ◌+◌, ◌*◌, ◌/◌, ◌%◌, ◌≤◌, ◌<◌, ◌≡◌, refl, sym, ap, ◌∙◌, leb, le→leb, leb→le, ◌==◌,
  Bool, true, false, List, [], ◌∷◌, ◌++◌, length, take, drop, any, length-append, arith,
}
use holo.Prelude.Outcome.{ensure_inv, and_then_ok, ok_injective, and_then_inv, ok, and_then, ensure}
use holo.Prelude.Bytes.{le_bytes}
use holo.Storage.Error.{corrupt, metadata_budget_exceeded}
use holo.Storage.MetadataFile.{starts_with}
use holo.Storage.BlkMap.{corrupt, le_bytes, BlkMapRecord, encode, decode}
use holo.Storage.BlkMap.Codec.{IsRecord, decode-encode}
use holo.Storage.BlkMap.Log.{
  max_maintenance_metadata_records, checked_metadata_record_count, log_prefix, put_latest,
  HashOrder, latest_entries, decode_latest, decode_entries, decode_log_payload, decode_payload,
}

-- Whether a record of the list has the id.
unfoldable pub has_id : ℕ → List BlkMapRecord → Bool
has_id id rs = any (λ x. x.record_id == id) rs

pub put_latest_fresh :
    (r : BlkMapRecord) (latest : List BlkMapRecord)
    → has_id r.record_id latest ≡ false
    → put_latest r latest ≡ latest ++ r ∷ []
unfolding put_latest has_id any
put_latest_fresh r [] h = refl
put_latest_fresh r (x ∷ latest) h = ground (arith, put_latest_fresh r latest)

module _ {ℓ} {A : Type ℓ} where
  pub take-append : (n : ℕ) (xs ys : List A) → n ≤ length xs → take n (xs ++ ys) ≡ take n xs
  take-append zero xs ys h = refl
  take-append (suc n) [] ys h = absurd (omega arith)
  take-append (suc n) (x ∷ xs) ys h = ap (◌∷◌ x) (take-append n xs ys (omega arith))

  pub drop-append : (n : ℕ) (xs ys : List A) → n ≤ length xs → drop n (xs ++ ys) ≡ drop n xs ++ ys
  drop-append zero xs ys h = refl
  drop-append (suc n) [] ys h = absurd (omega arith)
  drop-append (suc n) (x ∷ xs) ys h = drop-append n xs ys (omega arith)

  pub length-drop : (n : ℕ) (xs : List A) → n ≤ length xs → length (drop n xs) + n ≡ length xs
  length-drop zero xs h = omega arith
  length-drop (suc n) [] h = absurd (omega arith)
  length-drop (suc n) (x ∷ xs) h = omega (arith, length-drop n xs (omega arith))

size_one : (r : BlkMapRecord) → length (encode r) ≡ 59
unfolding encode le_bytes
size_one r = refl

take_one : (r : BlkMapRecord) → take 59 (encode r) ≡ encode r
unfolding encode le_bytes
take_one r = refl

decode_latest_last :
    (r : BlkMapRecord) (latest : List BlkMapRecord)
    → IsRecord r
    → decode_latest 1 59 (encode r) latest ≡ ok (put_latest r latest)
unfolding decode_latest
decode_latest_last r latest h =
    let long : leb 59 (length (encode r)) ≡ true = le→leb _ _ (omega (arith, size_one r)) in
    rw (long, take_one r, decode-encode r h)

pub decode_latest_step :
    (count : ℕ) (bytes : List ℕ) (latest : List BlkMapRecord)
    → 59 ≤ length bytes
    → decode_latest (suc count) 59 bytes latest
      ≡ and_then
          (decode (take 59 bytes))
          (λ r. decode_latest count 59 (drop 59 bytes) (put_latest r latest))
unfolding decode_latest
decode_latest_step count bytes latest h =
    let long : leb 59 (length bytes) ≡ true = le→leb _ _ h in rw long

decode_latest_more :
    (count : ℕ) (bytes : List ℕ) (latest m : List BlkMapRecord) (r : BlkMapRecord)
    → IsRecord r
    → length bytes ≡ 59 * count
    → decode_latest count 59 bytes latest ≡ ok m
    → decode_latest (suc count) 59 (bytes ++ encode r) latest ≡ ok (put_latest r m)
decode_latest_more zero [] latest m r h n e =
    decode_latest_last r latest h
    ∙ ap (λ l. ok (put_latest r l))
        (ok_injective latest m (decode_latest zero 59 [] latest) (unfold decode_latest in refl) e)
decode_latest_more zero (b ∷ bytes) latest m r h n e = absurd (omega arith)
decode_latest_more (suc count) bytes latest m r h n e =
    let long : 59 ≤ length bytes = omega arith in
    let whole : 59 ≤ length (bytes ++ encode r) = omega (arith, length-append bytes (encode r)) in
    let e' = sym (decode_latest_step count bytes latest long) ∙ e in
    rw
      (
        decode_latest_step (suc count) (bytes ++ encode r) latest whole,
        take-append 59 bytes (encode r) long,
        drop-append 59 bytes (encode r) long,
      )
      (and_then_ok (decode (take 59 bytes))
        (λ x. decode_latest count 59 (drop 59 bytes) (put_latest x latest))
        (λ x. decode_latest (suc count) 59 (drop 59 bytes ++ encode r) (put_latest x latest)) m
        (put_latest r m) e'
        λ x e''.
          decode_latest_more count (drop 59 bytes) (put_latest x latest) m r h
            (omega (arith, length-drop 59 bytes long)) e'')

-- What the entries of a log hold, if they are read.
record IsRead (bytes : List ℕ) (m : List BlkMapRecord) : Type 0 where
  whole : length bytes % 59 ≡ 0
  few : length bytes / 59 ≤ max_maintenance_metadata_records
  latest_read : decode_latest (length bytes / 59) 59 bytes [] ≡ ok m

latest_entries-IsRead :
    (bytes : List ℕ) (m : List BlkMapRecord) → latest_entries 59 bytes ≡ ok m → IsRead bytes m
unfolding latest_entries checked_metadata_record_count
latest_entries-IsRead bytes m h =
    let (u, (w, h1)) = and_then_inv (ensure (length bytes % 59 == 0) corrupt) _ m h in
    let (n, (c, read)) = and_then_inv (checked_metadata_record_count (length bytes / 59)) _ m h1 in
    let (u', (few, back)) =
      and_then_inv
        (ensure (leb (length bytes / 59) max_maintenance_metadata_records) metadata_budget_exceeded)
        _ n c in
    let same : length bytes / 59 ≡ n = ok_injective _ _ (ok (length bytes / 59)) refl back in
    record {
      whole = ground (arith, ensure_inv (length bytes % 59 == 0) corrupt u w);
      few = leb→le _ _ (ensure_inv _ metadata_budget_exceeded u' few);
      latest_read = ap (λ k. decode_latest k 59 bytes []) same ∙ read;
    }

latest_entries_of :
    (bytes : List ℕ) (m : List BlkMapRecord) → IsRead bytes m → latest_entries 59 bytes ≡ ok m
unfolding latest_entries checked_metadata_record_count
latest_entries_of bytes m h =
    let w : (length bytes % 59 == 0) ≡ true = ground (arith, h.whole) in
    rw (w, le→leb _ _ h.few, h.latest_read)

-- Behind the prefix of the log's version.
pub decode_payload_log :
    (into_values : HashOrder) (payload : List ℕ)
    → starts_with log_prefix payload ≡ true
    → decode_payload into_values payload ≡ decode_entries into_values 59 (drop 4 payload)
unfolding decode_payload decode_log_payload
decode_payload_log into_values [] h = absurd (unfold starts_with in ground arith)
decode_payload_log into_values (b ∷ payload) h =
    let some_bytes : (length (b ∷ payload) == 0) ≡ false = ground arith in rw (some_bytes, h)

pub starts_with-append :
    (prefix payload more : List ℕ)
    → starts_with prefix payload ≡ true
    → starts_with prefix (payload ++ more) ≡ true
unfolding starts_with
starts_with-append [] payload more h = refl
starts_with-append (p ∷ prefix) [] more h = absurd (ground arith)
starts_with-append (p ∷ prefix) (b ∷ payload) more h =
    ground (arith, starts_with-append prefix payload more)

pub starts_with_long :
    (prefix payload : List ℕ) → starts_with prefix payload ≡ true → length prefix ≤ length payload
unfolding starts_with
starts_with_long [] payload h = omega arith
starts_with_long (p ∷ prefix) [] h = absurd (ground arith)
starts_with_long (p ∷ prefix) (b ∷ payload) h = ground (arith, starts_with_long prefix payload)

latest_entries_more :
    (bytes : List ℕ) (m : List BlkMapRecord) (r : BlkMapRecord)
    → IsRecord r
    → has_id r.record_id m ≡ false
    → length bytes / 59 < max_maintenance_metadata_records
    → latest_entries 59 bytes ≡ ok m
    → latest_entries 59 (bytes ++ encode r) ≡ ok (m ++ r ∷ [])
latest_entries_more bytes m r h fresh room e =
    let read = latest_entries-IsRead bytes m e in
    let n = length bytes / 59 in
    let size : length bytes ≡ 59 * n = omega (arith, read.whole) in
    let longer : length (bytes ++ encode r) ≡ 59 * suc n =
      omega (arith, length-append bytes (encode r), size_one r) in
    let count : length (bytes ++ encode r) / 59 ≡ suc n = omega arith in
    latest_entries_of (bytes ++ encode r) (m ++ r ∷ []) (record {
      whole = omega arith;
      few = omega arith;
      latest_read =
          rw count (decode_latest_more n bytes [] m r h size read.latest_read)
          ∙ ap ok (put_latest_fresh r m fresh);
    })

-- A record appended to a log is behind the others in the map of the latest records, if its fields
-- have their widths, its id is new and the log has room.
pub latest_entries-append :
    (payload : List ℕ) (m : List BlkMapRecord) (r : BlkMapRecord)
    → IsRecord r
    → has_id r.record_id m ≡ false
    → length (drop 4 payload) / 59 < max_maintenance_metadata_records
    → starts_with log_prefix payload ≡ true
    → latest_entries 59 (drop 4 payload) ≡ ok m
    → latest_entries 59 (drop 4 (payload ++ encode r)) ≡ ok (m ++ r ∷ [])
latest_entries-append payload m r h fresh room p e =
    ap (latest_entries 59)
      (drop-append 4 payload (encode r) (starts_with_long log_prefix payload p))
    ∙ latest_entries_more (drop 4 payload) m r h fresh room e
