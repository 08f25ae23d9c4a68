-- ===== src/Storage/SegmentIndex/Examples.antt =====
-- An index of two segments: data-plane/src/storage/segment_index.rs.
use holo.Prelude.{ℕ, ◌≡◌, refl, true, false, Option, none, some, List, [], ◌∷◌, ◌≤◌, arith}
use holo.Prelude.Outcome.{ok}
use holo.Storage.Compression.{raw, lz4}
use holo.Storage.SegmentIndex.{
  SegmentState, active, sealed, SegmentDescriptor, SegmentIndex, record_blob_append,
  active_descriptor, encode_index, decode_segment_index,
}
use holo.Storage.SegmentIndex.Codec.{IsIndex, decode_segment_index-encode_index}
use holo.Storage.SegmentIndex.Files.{SegmentFiles, prepare_active_segment_for_append}
use holo.Storage.SegmentIndex.Files.Allocation.{
  is_allocated, next_blob_id, IsRecorded, record_blob_append-IsRecorded,
}
use holo.Storage.SegmentIndex.Files.Rotation.{
  IsPrepared, prepare_active_segment_for_append-IsPrepared,
}
use holo.Storage.SegmentIndex.Cache.{
  CachedSegmentIndex, flush_during, IsFlushed, flush_during-IsFlushed,
}

-- Blobs 1 to 3 are in a sealed segment, and 4 is in the active one.
abbrev in_use : SegmentDescriptor
in_use = record {
  segment_seq = 1;
  payload_bytes = 900;
  first_blob_id = 4;
  last_blob_id = 4;
  state = active;
  compression = lz4;
  live_bytes = 800;
}

abbrev two_segments : SegmentIndex
two_segments = record {
  max_segment_size = 1000;
  descriptors =
      record {
        segment_seq = 0;
        payload_bytes = 980;
        first_blob_id = 1;
        last_blob_id = 3;
        state = sealed;
        compression = raw;
        live_bytes = 600;
      }
      ∷ in_use
      ∷ [];
  next_segment_seq = 2;
}

two_segments-IsIndex : IsIndex two_segments
two_segments-IsIndex = omega arith

decode_segment_index-encode_index_example :
    decode_segment_index (encode_index two_segments) ≡ ok two_segments
decode_segment_index-encode_index_example =
    decode_segment_index-encode_index two_segments two_segments-IsIndex

laid_out : is_allocated two_segments ≡ true
unfolding is_allocated holo.Storage.SegmentIndex.Files.Allocation.is_laid_out
    holo.Storage.SegmentIndex.Files.Allocation.has_span
laid_out = refl

fifth : next_blob_id two_segments ≡ ok 5
unfolding next_blob_id holo.Storage.SegmentIndex.Files.Allocation.max_last holo.Prelude.checked_add
fifth = refl

in_second : active_descriptor two_segments ≡ ok in_use
unfolding active_descriptor holo.Prelude.find
in_second = refl

record_blob_append-IsRecorded_example :
    (after : SegmentIndex) × ((record_blob_append two_segments 1 950 5 26 raw ≡ ok after)
      × IsRecorded two_segments after 1 5)
record_blob_append-IsRecorded_example =
    record_blob_append-IsRecorded two_segments 950 5 26 raw in_use laid_out fifth in_second

abbrev files : SegmentFiles
files = record { index = two_segments; data_segments = []; index_file = none }

-- The record has no room in the active segment.
prepare_active_segment_for_append-IsPrepared_example :
    (a : SegmentDescriptor) × ((s : SegmentFiles) × ((prepare_active_segment_for_append 200 4 files
          ≡ (ok a.segment_seq, s))
        × IsPrepared two_segments s.index 200 a))
prepare_active_segment_for_append-IsPrepared_example =
    prepare_active_segment_for_append-IsPrepared files 200 4 laid_out (omega arith) (omega arith)

abbrev changed : CachedSegmentIndex
changed = record { index = two_segments; dirty = true; generation = 3; stamp = some 8 }

flush_during-IsFlushed_example :
    IsFlushed two_segments false
      (flush_during (two_segments ∷ []) (record { cache = some changed; file = none }))
flush_during-IsFlushed_example =
    flush_during-IsFlushed (two_segments ∷ []) changed none refl two_segments-IsIndex (omega arith)
