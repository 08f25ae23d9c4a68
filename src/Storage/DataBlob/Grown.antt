-- ===== src/Storage/DataBlob/Grown.antt =====
-- A blob appended to a log is what the scan finds last: data-plane/src/storage/data_path.rs.
use Prim.Native.Nat.{zero, suc}
use holo.Prelude.{
  ℕ, ◌+◌, ◌-◌, ◌≤◌, ◌<◌, ◌≡◌, refl, sym, ap, ◌∙◌, ltb, ltb→lt, lt→ltb, ltb-false→le, Bool, true,
  false, Bool-cases, inl, inr, none, some, List, [], ◌∷◌, ◌++◌, length, take, drop, length-append,
  arith, u64_max,
}
use holo.Prelude.Bytes.{le_bytes, of_le-le_bytes}
use holo.Prelude.Outcome.{ok, err}
use holo.Storage.BlkMap.{field}
use holo.Storage.BlkMap.Codec.{codec_back}
use holo.Storage.BlkMap.Log.RoundTrip.{take-append, drop-append, length-drop}
use holo.Storage.DataBlob.{
  DataBlob, DataBlobMeta, encode_data_blob_header, encode_data_blob_record,
  decode_blob_meta_from_header, scan_log_blob, Scanned, push_blob, scan_from, scan_log_data_index,
}
use holo.Storage.DataBlob.Scan.{
  IsStep, scan_log_blob-IsStep, step_of, scan_stop, scan_err, scan_go, Step-cases,
}

-- The fields have the widths of their types, and the bytes the stored length.
pub record IsBlob (b : DataBlob) : Type 0 where
  pub id_bound : b.blob_id < 18446744073709551616
  pub logical_bound : b.logical_len < 4294967296
  pub stored_bound : b.stored_len < 4294967296
  pub checksum_bound : b.payload_checksum < 4294967296
  pub whole : length b.bytes ≡ b.stored_len

abbrev header_of : DataBlob → List ℕ
header_of b =
    encode_data_blob_header b.blob_id b.codec b.logical_len b.stored_len b.payload_checksum

abbrev pub meta_of : Bool → ℕ → DataBlob → DataBlobMeta
meta_of v2 offset b = record {
  blob_id = b.blob_id;
  codec = b.codec;
  logical_len = b.logical_len;
  stored_len = b.stored_len;
  payload_checksum = b.payload_checksum;
  payload_offset = offset + 24;
  v2_integrity = v2;
}

header_back :
    (b : DataBlob)
    → IsBlob b
    → decode_blob_meta_from_header (header_of b)
      ≡ ok (record (meta_of false 0 b) { payload_offset = 0 })
unfolding decode_blob_meta_from_header encode_data_blob_header le_bytes
header_back b h =
    let buf = header_of b in
    let e0 : field 0 8 buf ≡ b.blob_id = of_le-le_bytes 8 b.blob_id (omega (arith, h.id_bound)) in
    let e1 : field 12 4 buf ≡ b.logical_len =
      of_le-le_bytes 4 b.logical_len (omega (arith, h.logical_bound)) in
    let e2 : field 16 4 buf ≡ b.stored_len =
      of_le-le_bytes 4 b.stored_len (omega (arith, h.stored_bound)) in
    let e3 : field 20 4 buf ≡ b.payload_checksum =
      of_le-le_bytes 4 b.payload_checksum (omega (arith, h.checksum_bound)) in
    rw (codec_back b.codec, e0, e1, e2, e3)

take-record : (b : DataBlob) → take 24 (encode_data_blob_record b) ≡ header_of b
unfolding encode_data_blob_record encode_data_blob_header le_bytes
take-record b = refl

pub length-record : (b : DataBlob) → length (encode_data_blob_record b) ≡ 24 + length b.bytes
unfolding encode_data_blob_record encode_data_blob_header le_bytes
length-record b = omega arith

drop_all : (n : ℕ) (xs : List ℕ) → length xs ≤ n → drop n xs ≡ []
drop_all zero [] h = refl
drop_all zero (x ∷ xs) h = absurd (omega arith)
drop_all (suc n) [] h = refl
drop_all (suc n) (x ∷ xs) h = drop_all n xs (omega arith)

module _ (v2 : Bool) (b : DataBlob) (h : IsBlob b) where
  -- The step over the record alone.
  one_record :
      (offset end : ℕ)
      → end ≡ offset + (24 + b.stored_len)
      → end ≤ u64_max
      → IsStep v2 end offset (encode_data_blob_record b) (meta_of v2 offset b) end
  one_record offset end e n = record {
    decoded = record (meta_of false 0 b) { payload_offset = 0 };
    long = omega (arith, length-record b);
    read = ap decode_blob_meta_from_header (take-record b) ∙ header_back b h;
    small = omega arith;
    next_offset = e;
    next_small = n;
    within = omega arith;
    meta = refl;
  }

  -- The scan that begins where the record does.
  record_scan :
      (fuel offset end : ℕ)
      → end ≡ offset + (24 + b.stored_len)
      → end ≤ u64_max
      → scan_from (suc (suc fuel)) v2 end offset (encode_data_blob_record b)
        ≡ some (ok (meta_of v2 offset b ∷ []))
  record_scan fuel offset end e n =
      let bytes = encode_data_blob_record b in
      let before : ltb offset end ≡ true = lt→ltb _ _ (omega arith) in
      let stop : ltb end end ≡ false = ground arith in
      scan_go (suc fuel) v2 end offset bytes (meta_of v2 offset b) end before
        (step_of v2 end offset bytes (meta_of v2 offset b) end (one_record offset end e n))
      ∙ ap (push_blob (meta_of v2 offset b))
          (scan_stop fuel v2 end end (drop (end - offset) bytes) stop)

-- A step stays a step when more bytes follow.
one_more :
    (v2 : Bool) (end offset more : ℕ) (bytes rest : List ℕ) (m : DataBlobMeta) (next : ℕ)
    → IsStep v2 end offset bytes m next
    → IsStep v2 (end + more) offset (bytes ++ rest) m next
one_more v2 end offset more bytes rest m next s = record {
  decoded = s.decoded;
  long = omega (arith, s.long, length-append bytes rest);
  read = ap decode_blob_meta_from_header (take-append 24 bytes rest s.long) ∙ s.read;
  small = s.small;
  next_offset = s.next_offset;
  next_small = s.next_small;
  within = omega (arith, s.within);
  meta = s.meta;
}

push_inv :
    (m : DataBlobMeta) (r : Scanned) (ms : List DataBlobMeta)
    → push_blob m r ≡ some (ok ms)
    → (rest : List DataBlobMeta) × ((r ≡ some (ok rest)) × (ms ≡ m ∷ rest))
push_inv m none ms h = absurd (ground arith)
push_inv m (some (err e)) ms h = absurd (ground arith)
push_inv m (some (ok rest)) ms h = (rest, (refl, ground arith))

stopped :
    (fuel : ℕ) (v2 : Bool) (end offset : ℕ) (bytes : List ℕ) (b : DataBlob) (ms : List DataBlobMeta)
    → IsBlob b
    → offset + length bytes ≡ end
    → end + (24 + b.stored_len) ≤ u64_max
    → ltb offset end ≡ false
    → scan_from (suc fuel) v2 end offset bytes ≡ some (ok ms)
    → scan_from
        (suc (suc fuel))
        v2
        (end + (24 + b.stored_len))
        offset
        (bytes ++ encode_data_blob_record b)
      ≡ some (ok (ms ++ meta_of v2 end b ∷ []))
stopped fuel v2 end offset [] b ms i e n stop h =
    let here : offset ≡ end = omega arith in
    let empty : ms ≡ [] = ground (arith, h, scan_stop fuel v2 end offset [] stop) in
    rw empty (
      record_scan v2 b i fuel offset (end + (24 + b.stored_len)) (omega arith) n
      ∙ ap (λ o. some (ok (meta_of v2 o b ∷ []))) here)
stopped fuel v2 end offset (x ∷ bytes) b ms i e n stop h =
    absurd (omega (arith, ltb-false→le offset end stop))

-- One step on, the rest of the bytes is left.
rest_length :
    (k : ℕ) (offset next end : ℕ) (bytes : List ℕ)
    → next ≡ offset + k
    → next ≤ end
    → offset + length bytes ≡ end
    → (k ≤ length bytes) × ((next - offset ≡ k) × (next + length (drop k bytes) ≡ end))
rest_length k offset next end bytes e l w =
    let inside : k ≤ length bytes = omega arith in
    (inside, (omega arith, omega (arith, length-drop k bytes inside)))

-- The scan of a longer log.
pub scan_from_more :
    (fuel : ℕ) (v2 : Bool) (end offset : ℕ) (bytes : List ℕ) (b : DataBlob) (ms : List DataBlobMeta)
    → IsBlob b
    → offset + length bytes ≡ end
    → end + (24 + b.stored_len) ≤ u64_max
    → scan_from fuel v2 end offset bytes ≡ some (ok ms)
    → scan_from
        (suc fuel)
        v2
        (end + (24 + b.stored_len))
        offset
        (bytes ++ encode_data_blob_record b)
      ≡ some (ok (ms ++ meta_of v2 end b ∷ []))
scan_from_more zero v2 end offset bytes b ms i e n h = absurd (unfold scan_from in ground arith)
scan_from_more (suc fuel) v2 end offset bytes b ms i e n h =
    let r = encode_data_blob_record b in
    let end' = end + (24 + b.stored_len) in
    elim (Bool-cases (ltb offset end)) [
      | inr stop ↦ stopped fuel v2 end offset bytes b ms i e n stop h
      | inl more ↦ elim (Step-cases (scan_log_blob v2 end offset bytes)) [
        | inl (x, q) ↦ absurd (ground (arith, scan_err fuel v2 end offset bytes x more q))
        | inr (m, (next, q)) ↦
            let s = scan_log_blob-IsStep v2 end offset bytes m next q in
            let (inside, (moved, left)) =
              rest_length (24 + s.decoded.stored_len) offset next end bytes s.next_offset s.within
                e in
            let k = next - offset in
            let fits : k ≤ length bytes = omega arith in
            let left' : next + length (drop k bytes) ≡ end =
              ap (λ j. next + length (drop j bytes)) moved ∙ left in
            let (rest, (read, grown)) =
              push_inv m (scan_from fuel v2 end next (drop k bytes)) ms
                (sym (scan_go fuel v2 end offset bytes m next more q) ∙ h) in
            scan_go (suc fuel) v2 end' offset (bytes ++ r) m next
              (lt→ltb _ _ (omega (arith, ltb→lt offset end more)))
              (step_of v2 end' offset (bytes ++ r) m next
                (one_more v2 end offset (24 + b.stored_len) bytes r m next s))
            ∙ ap (λ l. push_blob m (scan_from (suc fuel) v2 end' next l))
                (drop-append k bytes r fits)
            ∙ ap (push_blob m)
                (scan_from_more fuel v2 end next (drop k bytes) b rest i left' n read)
            ∙ ap (λ l. some (ok (l ++ meta_of v2 end b ∷ []))) (sym grown)
      ]
    ]

-- More fuel changes nothing.
scan_from_fuel :
    (fuel : ℕ) (v2 : Bool) (end offset : ℕ) (bytes : List ℕ) (ms : List DataBlobMeta)
    → scan_from fuel v2 end offset bytes ≡ some (ok ms)
    → scan_from (suc fuel) v2 end offset bytes ≡ some (ok ms)
scan_from_fuel zero v2 end offset bytes ms h = absurd (unfold scan_from in ground arith)
scan_from_fuel (suc fuel) v2 end offset bytes ms h = elim (Bool-cases (ltb offset end)) [
  | inr stop ↦
      scan_stop (suc fuel) v2 end offset bytes stop
      ∙ (sym (scan_stop fuel v2 end offset bytes stop) ∙ h)
  | inl more ↦ elim (Step-cases (scan_log_blob v2 end offset bytes)) [
    | inl (x, q) ↦ absurd (ground (arith, scan_err fuel v2 end offset bytes x more q))
    | inr (m, (next, q)) ↦
        let tail = drop (next - offset) bytes in
        let (rest, (read, grown)) =
          push_inv m (scan_from fuel v2 end next tail) ms
            (sym (scan_go fuel v2 end offset bytes m next more q) ∙ h) in
        scan_go (suc fuel) v2 end offset bytes m next more q
        ∙ ap (push_blob m) (scan_from_fuel fuel v2 end next tail rest read)
        ∙ ap (λ l. some (ok l)) (sym grown)
  ]
]

scan_from_add :
    (k fuel : ℕ) (v2 : Bool) (end offset : ℕ) (bytes : List ℕ) (ms : List DataBlobMeta)
    → scan_from fuel v2 end offset bytes ≡ some (ok ms)
    → scan_from (k + fuel) v2 end offset bytes ≡ some (ok ms)
scan_from_add zero fuel v2 end offset bytes ms h =
    let same : 0 + fuel ≡ fuel = omega arith in rw same h
scan_from_add (suc k) fuel v2 end offset bytes ms h =
    let same : suc k + fuel ≡ suc (k + fuel) = omega arith in
    rw same (
      scan_from_fuel (k + fuel) v2 end offset bytes ms
        (scan_from_add k fuel v2 end offset bytes ms h))

-- The scan of a log with a blob appended.
pub scan_log_data_index-append :
    (v2 : Bool) (payload_offset : ℕ) (payload : List ℕ) (b : DataBlob) (ms : List DataBlobMeta)
    → IsBlob b
    → 4 ≤ length payload
    → payload_offset + length payload + (24 + b.stored_len) ≤ u64_max
    → scan_log_data_index v2 payload_offset payload ≡ some (ok ms)
    → scan_log_data_index v2 payload_offset (payload ++ encode_data_blob_record b)
      ≡ some (ok (ms ++ meta_of v2 (payload_offset + length payload) b ∷ []))
unfolding scan_log_data_index
scan_log_data_index-append v2 payload_offset payload b ms i p n h =
    let r = encode_data_blob_record b in
    let size = length payload in
    let grown = length-append payload r in
    let fuel : length (payload ++ r) + 1 ≡ (23 + b.stored_len) + suc (size + 1) =
      omega (arith, length-record b, i.whole) in
    let end : payload_offset + length (payload ++ r) ≡ payload_offset + size + (24 + b.stored_len) =
      omega (arith, length-record b, i.whole) in
    rw (fuel, end, drop-append 4 payload r p)
      (scan_from_add (23 + b.stored_len) (suc (size + 1)) v2
        (payload_offset + size + (24 + b.stored_len)) (payload_offset + 4) (drop 4 payload ++ r)
        (ms ++ meta_of v2 (payload_offset + size) b ∷ [])
        (scan_from_more (size + 1) v2 (payload_offset + size) (payload_offset + 4) (drop 4 payload)
          b ms i (omega (arith, length-drop 4 payload p)) n h))
