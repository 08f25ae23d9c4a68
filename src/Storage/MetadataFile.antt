-- ===== src/Storage/MetadataFile.antt =====
-- A segment file as the metadata maps use it: data-plane/src/storage/segment.rs. A file is its
-- sequence number, its payload and the length of its header, with a stamp for its length and
-- modification time, which every write changes. Its kind, header and checksum are taken to be valid,
-- which the program checks when it reads a file: Storage/Segment has them as bytes, with the append
-- at the checksum 0, whose file is refused when it is read. The append handles, the flushes and the
-- checks of links and inodes are left out.
use holo.Prelude.{
  ℕ, ◌+◌, leb, ◌==◌, Bool, true, false, ◌&&◌, Option, none, some, List, [], ◌∷◌, ◌++◌, length,
  if◌then◌else◌, saturating_add,
}
use holo.Prelude.Outcome.{Result, ok, err, and_then, ensure}
use holo.Storage.Error.{StorageError, io, conflict, metadata_budget_exceeded}

pub record MetadataFile : Type 0 where
  pub stamp : ℕ
  pub header_len : ℕ
  pub sequence : ℕ
  pub payload : List ℕ

abbrev pub max_maintenance_metadata_bytes : ℕ
max_maintenance_metadata_bytes = 8388608

-- `payload.starts_with(prefix)`.
unfoldable pub starts_with : List ℕ → List ℕ → Bool
starts_with [] payload = true
starts_with (p ∷ prefix) [] = false
starts_with (p ∷ prefix) (b ∷ payload) = (p == b) && starts_with prefix payload

unfoldable pub read_segment_file_bounded : Option MetadataFile → Result StorageError MetadataFile
read_segment_file_bounded none = err io
read_segment_file_bounded (some f) =
    and_then
      (ensure (leb (f.header_len + length f.payload) max_maintenance_metadata_bytes)
        metadata_budget_exceeded)
      λ _. ok f

abbrev next_stamp : Option MetadataFile → ℕ
next_stamp none = 0
next_stamp (some f) = f.stamp + 1

-- `write_segment_file`: the file that replaces the old one.
unfoldable pub write_segment_file : ℕ → List ℕ → Option MetadataFile → MetadataFile
write_segment_file sequence payload old = record {
  stamp = next_stamp old;
  header_len = 96;
  sequence = sequence;
  payload = payload;
}

-- `append_segment_payload` of bytes that are not none: the file after it.
unfoldable pub append_segment_payload :
    List ℕ → List ℕ → Option MetadataFile → Result StorageError MetadataFile
append_segment_payload prefix appended none = ok (write_segment_file 1 (prefix ++ appended) none)
append_segment_payload prefix appended (some f) =
    let next_sequence = saturating_add f.sequence 1 in
    if length f.payload == 0
    then ok (write_segment_file next_sequence (prefix ++ appended) (some f))
    else and_then (ensure (leb (length prefix) (length f.payload)) io) λ _.
      and_then (ensure (starts_with prefix f.payload) conflict) λ _. ok (record f {
        stamp = f.stamp + 1;
        sequence = next_sequence;
        payload = f.payload ++ appended;
      })
