-- ===== src/Storage/SegmentIndex/Codec.antt =====
-- The bytes of a segment index, written and read back: data-plane/src/storage/segment_index.rs.
use holo.Prelude.{
  ℕ, ◌+◌, ◌*◌, ◌≤◌, ◌<◌, ◌≡◌, refl, ◌∙◌, leb, le→leb, ◌==◌, true, List, [], ◌∷◌, ◌++◌, length, take,
  drop, All, arith,
}
use holo.Prelude.Bytes.{le_bytes, of_le-le_bytes}
use holo.Prelude.Outcome.{ok}
use holo.Storage.MetadataFile.{starts_with}
use holo.Storage.BlkMap.{field}
use holo.Storage.BlkMap.Codec.{codec_back}
use holo.Storage.BlkMap.Log.{checked_metadata_record_count}
use holo.Storage.SegmentIndex.{
  SegmentState, active, sealed, compacting, reclaimable, segment_state_from_u8, segment_state_to_u8,
  SegmentDescriptor, SegmentIndex, descriptor_checksum, descriptor_fields, encode_descriptor,
  decode_descriptor, active_count, encode_descriptors, encode_index, as_u32, decode_descriptors,
  decode_segment_index,
}

-- The fields have the widths of their types.
pub record IsDescriptor (d : SegmentDescriptor) : Type 0 where
  pub seq_bound : d.segment_seq < 4294967296
  pub payload_bound : d.payload_bytes < 18446744073709551616
  pub first_bound : d.first_blob_id < 18446744073709551616
  pub last_bound : d.last_blob_id < 18446744073709551616
  pub live_bound : d.live_bytes < 4294967296

pub record IsIndex (index : SegmentIndex) : Type 0 where
  pub max_bound : index.max_segment_size < 4294967296
  pub next_bound : index.next_segment_seq < 18446744073709551616
  pub few : length index.descriptors ≤ 65536
  pub each : All IsDescriptor index.descriptors

segment_state_back : (s : SegmentState) → segment_state_from_u8 (segment_state_to_u8 s) ≡ ok s
unfolding segment_state_from_u8 segment_state_to_u8
segment_state_back active = refl
segment_state_back sealed = refl
segment_state_back compacting = refl
segment_state_back reclaimable = refl

length-encode_descriptor :
    (d : SegmentDescriptor) (rest : List ℕ)
    → length (encode_descriptor d ++ rest) ≡ 40 + length rest
unfolding encode_descriptor descriptor_fields le_bytes
length-encode_descriptor d rest = omega arith

take-encode_descriptor :
    (d : SegmentDescriptor) (rest : List ℕ)
    → take 40 (encode_descriptor d ++ rest) ≡ encode_descriptor d
unfolding encode_descriptor descriptor_fields le_bytes
take-encode_descriptor d rest = refl

drop-encode_descriptor :
    (d : SegmentDescriptor) (rest : List ℕ) → drop 40 (encode_descriptor d ++ rest) ≡ rest
unfolding encode_descriptor descriptor_fields le_bytes
drop-encode_descriptor d rest = refl

covered_fields :
    (d : SegmentDescriptor) (sum : ℕ) (rest : List ℕ)
    → take 34 (descriptor_fields d ++ (le_bytes 2 sum ++ rest)) ≡ descriptor_fields d
unfolding descriptor_fields le_bytes
covered_fields d sum rest = refl

written_sum :
    (d : SegmentDescriptor) (sum : ℕ) (rest : List ℕ)
    → sum < 65536
    → field 34 2 (descriptor_fields d ++ (le_bytes 2 sum ++ rest)) ≡ sum
unfolding descriptor_fields le_bytes
written_sum d sum rest h = of_le-le_bytes 2 sum (omega arith)

eq_self : (n : ℕ) → (n == n) ≡ true
eq_self n = ground arith

-- The checksum over the fields is the one that is read.
checksum_back :
    (d : SegmentDescriptor)
    → (descriptor_checksum (take 34 (encode_descriptor d)) == field 34 2 (encode_descriptor d))
      ≡ true
unfolding encode_descriptor
checksum_back d =
    let sum = descriptor_checksum (descriptor_fields d) in
    let rest : List ℕ = 0 ∷ 0 ∷ 0 ∷ 0 ∷ [] in
    let small : sum < 65536 = unfold descriptor_checksum in omega arith in
    rw (covered_fields d sum rest, written_sum d sum rest small) (eq_self sum)

pub decode_descriptor-encode_descriptor :
    (d : SegmentDescriptor) → IsDescriptor d → decode_descriptor (encode_descriptor d) ≡ ok d
unfolding decode_descriptor encode_descriptor descriptor_fields le_bytes
decode_descriptor-encode_descriptor d h =
    let buf = encode_descriptor d in
    let e0 : field 0 4 buf ≡ d.segment_seq =
      of_le-le_bytes 4 d.segment_seq (omega (arith, h.seq_bound)) in
    let e1 : field 4 8 buf ≡ d.payload_bytes =
      of_le-le_bytes 8 d.payload_bytes (omega (arith, h.payload_bound)) in
    let e2 : field 12 8 buf ≡ d.first_blob_id =
      of_le-le_bytes 8 d.first_blob_id (omega (arith, h.first_bound)) in
    let e3 : field 20 8 buf ≡ d.last_blob_id =
      of_le-le_bytes 8 d.last_blob_id (omega (arith, h.last_bound)) in
    let e4 : field 30 4 buf ≡ d.live_bytes =
      of_le-le_bytes 4 d.live_bytes (omega (arith, h.live_bound)) in
    rw (checksum_back d, segment_state_back d.state, codec_back d.compression, e0, e1, e2, e3, e4)

decode_descriptors-encode_descriptors :
    (ds : List SegmentDescriptor)
    → All IsDescriptor ds
    → decode_descriptors (length ds) (encode_descriptors ds) ≡ ok ds
unfolding decode_descriptors encode_descriptors
decode_descriptors-encode_descriptors [] h = refl
decode_descriptors-encode_descriptors (d ∷ ds) h = rw (
  take-encode_descriptor d (encode_descriptors ds),
  drop-encode_descriptor d (encode_descriptors ds),
  decode_descriptor-encode_descriptor d h.0,
  decode_descriptors-encode_descriptors ds h.1,
)

length-encode_descriptors :
    (ds : List SegmentDescriptor) → length (encode_descriptors ds) ≡ 40 * length ds
unfolding encode_descriptors
length-encode_descriptors [] = refl
length-encode_descriptors (d ∷ ds) =
    omega (arith, length-encode_descriptor d (encode_descriptors ds), length-encode_descriptors ds)

-- The index that persist writes is the one that a load reads, if its fields have their widths and
-- it has no more descriptors than a metadata file may have.
pub decode_segment_index-encode_index :
    (index : SegmentIndex) → IsIndex index → decode_segment_index (encode_index index) ≡ ok index
unfolding decode_segment_index encode_index starts_with checked_metadata_record_count le_bytes
decode_segment_index-encode_index index h =
    let ds = index.descriptors in
    let buf = encode_index index in
    let long : length (encode_descriptors ds) ≡ 40 * length ds = length-encode_descriptors ds in
    let e0 : field 4 4 buf ≡ index.max_segment_size =
      of_le-le_bytes 4 index.max_segment_size (omega (arith, h.max_bound)) in
    let e1 : field 8 4 buf ≡ as_u32 (active_count ds) =
      of_le-le_bytes 4 (as_u32 (active_count ds)) (omega arith) in
    let few : as_u32 (length ds) ≡ length ds = omega (arith, h.few) in
    let e2 : field 12 4 buf ≡ length ds =
      of_le-le_bytes 4 (as_u32 (length ds)) (omega arith) ∙ few in
    let e3 : field 16 8 buf ≡ index.next_segment_seq =
      of_le-le_bytes 8 index.next_segment_seq (omega (arith, h.next_bound)) in
    let big : leb 24 (length buf) ≡ true = le→leb _ _ (omega arith) in
    let room : leb (length ds) 65536 ≡ true = le→leb _ _ h.few in
    let size : (length buf == length ds * 40 + 24) ≡ true = ground (arith, long) in
    rw (
      big,
      e2,
      room,
      size,
      decode_descriptors-encode_descriptors ds h.each,
      e1,
      eq_self (as_u32 (active_count ds)),
      e0,
      e3,
    )

pub length-encode_index :
    (index : SegmentIndex) → length (encode_index index) ≡ 24 + 40 * length index.descriptors
unfolding encode_index le_bytes
length-encode_index index = omega (arith, length-encode_descriptors index.descriptors)
