-- ===== src/Storage/SegmentIndex/Files.antt =====
-- The index in memory with the data segments' files and the index's own: what an append and the
-- cache of data-plane/src/storage/segment_index.rs do to them.
pub mod Allocation
pub mod Rotation
use Prim.Native.Nat.{zero}
use holo.Prelude.{
  ℕ, ◌+◌, ltb, leb, ◌==◌, max, Bool, true, false, not, ◌&&◌, Option, none, some, List, [], ◌∷◌,
  ◌++◌, if◌then◌else◌, saturating_add, checked_add, u32_max,
}
use holo.Prelude.OrdMap.{Map, get, insert, contains_key, nat_keys}
use holo.Prelude.Outcome.{
  Result, ok, err, and_then, ensure, ok_or, Exec, pure, lift, gets, modify, ◌>>=◌, ◌>>◌,
}
use holo.Storage.Error.{StorageError, corrupt, conflict}
use holo.Storage.MetadataFile.{MetadataFile, read_segment_file_bounded, write_segment_file}
use holo.Storage.SegmentIndex.{
  SegmentDescriptor, SegmentIndex, new_index, empty_descriptor, active_test, active_descriptor,
  update_first, seal, encode_index, decode_segment_index,
}

pub record SegmentFiles : Type 0 where
  pub index : SegmentIndex
  pub data_segments : Map ℕ MetadataFile
  pub index_file : Option MetadataFile

abbrev pub Op : Type 0 → Type 0
Op A = Exec StorageError SegmentFiles A

unfoldable pub persist_segment_index : Op (Unit {0})
persist_segment_index s = (
  ok tt,
  record s {
    index_file =
        some (write_segment_file s.index.next_segment_seq (encode_index s.index) s.index_file);
  },
)

abbrev sealed_active : SegmentIndex → Option (List SegmentDescriptor) → Option SegmentIndex
sealed_active index none = none
sealed_active index (some ds) = some (record index { descriptors = ds })

-- The state of the active segment becomes sealed, before anything else may fail.
unfoldable pub seal_active : Op (Unit {0})
seal_active s = elim (sealed_active s.index (update_first active_test seal s.index.descriptors)) [
  | none ↦ (err corrupt, s)
  | some index ↦ (ok tt, record s { index = index })
]

unfoldable pub create_data_segment : ℕ → Op (Unit {0})
create_data_segment seq s = (
  ok tt,
  record s {
    data_segments = insert seq (write_segment_file 0 [] (get seq s.data_segments)) s.data_segments;
  },
)

unfoldable pub push_descriptor : ℕ → Op (Unit {0})
push_descriptor seq s = (
  ok tt,
  record s {
    index = record s.index { descriptors = s.index.descriptors ++ empty_descriptor seq ∷ [] };
  },
)

unfoldable pub advance_next_seq : Op (Unit {0})
advance_next_seq s = elim (checked_add s.index.next_segment_seq 1) [
  | none ↦ (err conflict, s)
  | some next ↦ (ok tt, record s { index = record s.index { next_segment_seq = next } })
]

unfoldable pub rotate_active_segment : Op (Unit {0})
rotate_active_segment = seal_active >> gets (λ s. s.index.next_segment_seq) >>= λ seq.
    lift (ensure (leb seq u32_max) conflict)
    >> create_data_segment seq
    >> push_descriptor seq
    >> advance_next_seq
    >> persist_segment_index

-- Must a new segment be begun for a record?
unfoldable pub should_rotate : SegmentDescriptor → ℕ → ℕ → ℕ → Bool
should_rotate active max_segment_size record_len prefix_len =
    let prefix = if active.payload_bytes == 0 then prefix_len else 0 in
    let projected = saturating_add (saturating_add active.payload_bytes prefix) record_len in
    ltb 0 active.payload_bytes && ltb max_segment_size projected

unfoldable pub rotate_if : Bool → Op (Unit {0})
rotate_if true = rotate_active_segment
rotate_if false = pure tt

unfoldable pub active_segment : Op SegmentDescriptor
active_segment s = (active_descriptor s.index, s)

unfoldable pub prepare_active_segment_for_append : ℕ → ℕ → Op ℕ
prepare_active_segment_for_append record_len prefix_len = active_segment >>= λ active.
    gets (λ s. s.index.max_segment_size) >>= λ max_segment_size.
    rotate_if (should_rotate active max_segment_size record_len prefix_len)
    >> active_segment
    >>= λ descriptor. pure descriptor.segment_seq

unfoldable pub load_segment_index : Option MetadataFile → Result StorageError SegmentIndex
load_segment_index file =
    and_then (read_segment_file_bounded file) λ f. decode_segment_index f.payload

abbrev first_segment : Map ℕ MetadataFile → Map ℕ MetadataFile
first_segment files =
    if contains_key zero files then files else insert zero (write_segment_file 0 [] none) files

-- The index of a layout, made with its first segment where the file is not there.
unfoldable pub initialize_segment_index :
    ℕ
    → Map ℕ MetadataFile
    → Option MetadataFile
    → Result StorageError SegmentIndex × (Map ℕ MetadataFile × Option MetadataFile)
initialize_segment_index configured_max files (some f) =
    (load_segment_index (some f), (files, some f))
initialize_segment_index configured_max files none =
    let index = new_index configured_max in
    (
      ok index,
      (
        first_segment files,
        some (write_segment_file index.next_segment_seq (encode_index index) none),
      ),
    )
