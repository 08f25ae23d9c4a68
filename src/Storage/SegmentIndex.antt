-- ===== src/Storage/SegmentIndex.antt =====
-- The index of the data segments: data-plane/src/storage/segment_index.rs. The name of a data
-- segment's file is its number; the size that a segment may have comes from the environment.
pub mod Codec
pub mod Files
pub mod Cache
mod Examples
use Prim.Native.Nat.{zero, suc}
use holo.Prelude.{
  ℕ, ◌+◌, ◌*◌, ◌%◌, min, ltb, leb, ◌==◌, Bool, true, false, not, ◌&&◌, ◌||◌, Option, none, some,
  List, [], ◌∷◌, ◌++◌, length, take, drop, find, retain, if◌then◌else◌, u32_max,
}
use holo.Prelude.Bytes.{le_bytes}
use holo.Prelude.Outcome.{Result, ok, err, and_then, ensure, ok_or}
use holo.Storage.Error.{StorageError, corrupt, not_found}
use holo.Storage.Checksum.{checksum32}
use holo.Storage.Compression.{CompressionCodec, raw, rle, lz4, zlib, codec_from_u8, codec_to_u8}
use holo.Storage.MetadataFile.{starts_with}
use holo.Storage.BlkMap.{field, byte_at}
use holo.Storage.BlkMap.Log.{checked_metadata_record_count}

pub data SegmentState : Type 0 where
  active sealed compacting reclaimable : SegmentState

-- `SegmentState::from_u8` and `state as u8`.
unfoldable pub segment_state_from_u8 : ℕ → Result StorageError SegmentState
segment_state_from_u8 v =
    if v == 1
    then ok active
    else if v == 2
    then ok sealed
    else if v == 3
    then ok compacting
    else if v == 4
    then ok reclaimable
    else err corrupt

unfoldable pub segment_state_to_u8 : SegmentState → ℕ
segment_state_to_u8 active = 1
segment_state_to_u8 sealed = 2
segment_state_to_u8 compacting = 3
segment_state_to_u8 reclaimable = 4

abbrev pub is_active : SegmentState → Bool
is_active active = true
is_active sealed = false
is_active compacting = false
is_active reclaimable = false

pub record SegmentDescriptor : Type 0 where
  pub segment_seq : ℕ
  pub payload_bytes : ℕ
  pub first_blob_id : ℕ
  pub last_blob_id : ℕ
  pub state : SegmentState
  pub compression : CompressionCodec
  pub live_bytes : ℕ

unfoldable pub contains_blob : ℕ → SegmentDescriptor → Bool
contains_blob blob_id d =
    ltb 0 d.first_blob_id && (leb d.first_blob_id blob_id && leb blob_id d.last_blob_id)

pub record SegmentIndex : Type 0 where
  pub max_segment_size : ℕ
  pub descriptors : List SegmentDescriptor
  pub next_segment_seq : ℕ

abbrev pub empty_descriptor : ℕ → SegmentDescriptor
empty_descriptor seq = record {
  segment_seq = seq;
  payload_bytes = 0;
  first_blob_id = 0;
  last_blob_id = 0;
  state = active;
  compression = raw;
  live_bytes = 0;
}

-- `SegmentIndex::new`.
abbrev pub new_index : ℕ → SegmentIndex
new_index max_segment_size = record {
  max_segment_size = max_segment_size;
  descriptors = empty_descriptor 0 ∷ [];
  next_segment_seq = 1;
}

abbrev pub active_test : SegmentDescriptor → Bool
active_test d = is_active d.state

abbrev pub seq_test : ℕ → SegmentDescriptor → Bool
seq_test seq d = d.segment_seq == seq

unfoldable pub active_descriptor : SegmentIndex → Result StorageError SegmentDescriptor
active_descriptor index = ok_or (find active_test index.descriptors) corrupt

unfoldable pub descriptor_for_segment : ℕ → SegmentIndex → Option SegmentDescriptor
descriptor_for_segment segment_id index = find (seq_test segment_id) index.descriptors

unfoldable pub descriptor_for_blob : ℕ → SegmentIndex → Option SegmentDescriptor
descriptor_for_blob blob_id index = find (contains_blob blob_id) index.descriptors

abbrev push_front :
    SegmentDescriptor → Option (List SegmentDescriptor) → Option (List SegmentDescriptor)
push_front d none = none
push_front d (some ds) = some (d ∷ ds)

-- `iter_mut().find(test)` and a write through what it finds.
unfoldable pub update_first :
    (SegmentDescriptor → Bool)
    → (SegmentDescriptor → SegmentDescriptor)
    → List SegmentDescriptor
    → Option (List SegmentDescriptor)
update_first test f [] = none
update_first test f (d ∷ ds) =
    let rest = update_first test f ds in if test d then some (f d ∷ ds) else push_front d rest

unfoldable pub appended : ℕ → ℕ → ℕ → CompressionCodec → SegmentDescriptor → SegmentDescriptor
appended payload_bytes blob_id stored_len codec d = record d {
  payload_bytes = payload_bytes;
  first_blob_id =
      if d.first_blob_id == 0 || ltb blob_id d.first_blob_id then blob_id else d.first_blob_id;
  last_blob_id = if ltb d.last_blob_id blob_id then blob_id else d.last_blob_id;
  live_bytes = min (d.live_bytes + stored_len) u32_max;
  compression = if codec_to_u8 codec == 0 then d.compression else codec;
}

abbrev pub with_descriptors :
    SegmentIndex → Option (List SegmentDescriptor) → Result StorageError SegmentIndex
with_descriptors index none = err not_found
with_descriptors index (some ds) = ok (record index { descriptors = ds })

unfoldable pub record_blob_append :
    SegmentIndex → ℕ → ℕ → ℕ → ℕ → CompressionCodec → Result StorageError SegmentIndex
record_blob_append index seq payload_bytes blob_id stored_len codec = with_descriptors index (
    update_first (seq_test seq) (appended payload_bytes blob_id stored_len codec) index.descriptors)

abbrev pub seal : SegmentDescriptor → SegmentDescriptor
seal d = record d { state = sealed }

unfoldable pub seal_segment : SegmentIndex → ℕ → Result StorageError SegmentIndex
seal_segment index seq = with_descriptors index (update_first (seq_test seq) seal index.descriptors)

unfoldable pub remove_segment_descriptor : SegmentIndex → ℕ → SegmentIndex
remove_segment_descriptor index seq = record index {
  descriptors = retain (λ d. not (d.segment_seq == seq)) index.descriptors;
}

unfoldable pub descriptor_checksum : List ℕ → ℕ
descriptor_checksum bytes = checksum32 bytes % 65536

-- The bytes of a descriptor that its checksum covers.
unfoldable pub descriptor_fields : SegmentDescriptor → List ℕ
descriptor_fields d =
    le_bytes 4 d.segment_seq
    ++ (le_bytes 8 d.payload_bytes
        ++ (le_bytes 8 d.first_blob_id
            ++ (le_bytes 8 d.last_blob_id
                ++ segment_state_to_u8 d.state
                  ∷ codec_to_u8 d.compression
                  ∷ le_bytes 4 d.live_bytes)))

unfoldable pub encode_descriptor : SegmentDescriptor → List ℕ
encode_descriptor d =
    descriptor_fields d
    ++ (le_bytes 2 (descriptor_checksum (descriptor_fields d)) ++ 0 ∷ 0 ∷ 0 ∷ 0 ∷ [])

unfoldable pub decode_descriptor : List ℕ → Result StorageError SegmentDescriptor
decode_descriptor bytes = and_then (ensure (length bytes == 40) corrupt) λ _.
    and_then (ensure (descriptor_checksum (take 34 bytes) == field 34 2 bytes) corrupt) λ _.
      and_then (segment_state_from_u8 (byte_at 28 bytes)) λ state.
        and_then (codec_from_u8 (byte_at 29 bytes)) λ compression. ok (record {
          segment_seq = field 0 4 bytes;
          payload_bytes = field 4 8 bytes;
          first_blob_id = field 12 8 bytes;
          last_blob_id = field 20 8 bytes;
          state = state;
          compression = compression;
          live_bytes = field 30 4 bytes;
        })

unfoldable pub active_count : List SegmentDescriptor → ℕ
active_count [] = 0
active_count (d ∷ ds) = let rest = active_count ds in if is_active d.state then rest + 1 else rest

unfoldable pub encode_descriptors : List SegmentDescriptor → List ℕ
encode_descriptors [] = []
encode_descriptors (d ∷ ds) = encode_descriptor d ++ encode_descriptors ds

-- `b"SDI1"`.
abbrev pub segment_index_prefix : List ℕ
segment_index_prefix = 83 ∷ 68 ∷ 73 ∷ 49 ∷ []

abbrev pub as_u32 : ℕ → ℕ
as_u32 n = n % 4294967296

unfoldable pub encode_index : SegmentIndex → List ℕ
encode_index index =
    segment_index_prefix
    ++ (le_bytes 4 index.max_segment_size
        ++ (le_bytes 4 (as_u32 (active_count index.descriptors))
            ++ (le_bytes 4 (as_u32 (length index.descriptors))
                ++ (le_bytes 8 index.next_segment_seq ++ encode_descriptors index.descriptors))))

-- The loop over the descriptors, whose bytes are all there.
unfoldable pub decode_descriptors : ℕ → List ℕ → Result StorageError (List SegmentDescriptor)
decode_descriptors zero bytes = ok []
decode_descriptors (suc count) bytes =
    and_then (decode_descriptor (take 40 bytes))
      λ d. and_then (decode_descriptors count (drop 40 bytes)) λ ds. ok (d ∷ ds)

unfoldable pub decode_segment_index : List ℕ → Result StorageError SegmentIndex
decode_segment_index payload =
    and_then (ensure (leb 24 (length payload) && starts_with segment_index_prefix payload) corrupt)
      λ _. and_then (checked_metadata_record_count (field 12 4 payload)) λ total.
        and_then (ensure (length payload == total * 40 + 24) corrupt) λ _.
          and_then (decode_descriptors total (drop 24 payload)) λ descriptors.
            and_then (ensure (as_u32 (active_count descriptors) == field 8 4 payload) corrupt) λ _.
              ok (record {
                max_segment_size = field 4 4 payload;
                descriptors = descriptors;
                next_segment_seq = field 16 8 payload;
              })
