-- ===== src/Storage/Segment.antt =====
-- The bytes of a segment file: data-plane/src/storage/segment.rs, with the header of
-- data-plane/src/storage/layout.rs. The checksum of the crc32c package is a parameter; the files are
-- byte lists, and the operating system's errors and the append handles are left out.
pub mod Header
pub mod Written
pub mod Appended
pub mod Refines
mod Examples
use holo.Prelude.{
  ℕ, ◌+◌, ltb, leb, ◌==◌, Bool, true, false, not, ◌&&◌, ◌||◌, Option, none, some, List, [], ◌∷◌,
  ◌++◌, length, take, drop, if◌then◌else◌, saturating_add,
}
use holo.Prelude.Bytes.{le_bytes, of_le}
use holo.Prelude.Outcome.{Result, ok, err, and_then, ensure, ok_or}
use holo.Storage.Error.{StorageError, corrupt, version_mismatch, conflict, io}
use holo.Storage.Checksum.{checksum32, checksum_from}
use holo.Storage.MetadataFile.{starts_with}

pub data SegmentKind : Type 0 where
  data_kind metadata_kind blk_map_kind lookup_kind reclaim_kind dedup_kind : SegmentKind
  segment_index_kind : SegmentKind

-- `SegmentKind::from_u16` and `kind as u16`.
unfoldable pub kind_from_u16 : ℕ → Option SegmentKind
kind_from_u16 v =
    if v == 1
    then some data_kind
    else if v == 2
    then some metadata_kind
    else if v == 3
    then some blk_map_kind
    else if v == 4
    then some lookup_kind
    else if v == 5
    then some reclaim_kind
    else if v == 6
    then some dedup_kind
    else if v == 7
    then some segment_index_kind
    else none

unfoldable pub kind_to_u16 : SegmentKind → ℕ
kind_to_u16 data_kind = 1
kind_to_u16 metadata_kind = 2
kind_to_u16 blk_map_kind = 3
kind_to_u16 lookup_kind = 4
kind_to_u16 reclaim_kind = 5
kind_to_u16 dedup_kind = 6
kind_to_u16 segment_index_kind = 7

pub record SegmentHeader : Type 0 where
  pub magic : ℕ
  pub version : ℕ
  pub kind : SegmentKind
  pub segment_id : ℕ
  pub sequence : ℕ
  pub payload_len : ℕ
  pub checksum : ℕ

abbrev pub storage_layout_magic : ℕ
storage_layout_magic = 0x56544C58

unfoldable pub encode_header : SegmentHeader → List ℕ
encode_header h =
    le_bytes 4 h.magic
    ++ (le_bytes 2 h.version
        ++ (le_bytes 2 (kind_to_u16 h.kind)
            ++ (le_bytes 8 h.segment_id
                ++ (le_bytes 8 h.sequence
                    ++ (le_bytes 8 h.payload_len ++ (le_bytes 4 h.checksum ++ []))))))

abbrev pub field : ℕ → ℕ → List ℕ → ℕ
field at size buf = of_le (take size (drop at buf))

unfoldable pub decode_header : List ℕ → Result StorageError SegmentHeader
decode_header buf = and_then (ensure (leb 36 (length buf)) corrupt) λ _.
    and_then (ok_or (kind_from_u16 (field 6 2 buf)) corrupt) λ kind. ok (record {
      magic = field 0 4 buf;
      version = field 4 2 buf;
      kind = kind;
      segment_id = field 8 8 buf;
      sequence = field 16 8 buf;
      payload_len = field 24 8 buf;
      checksum = field 32 4 buf;
    })

-- `crc32c_append`; `crc32c` appends to 0.
pub record Crc : Type 0 where
  pub extend : ℕ → List ℕ → ℕ

module _ (crc : Crc) where
  unfoldable pub integrity32 : List ℕ → ℕ
  integrity32 bytes = crc.extend 0 bytes

  -- `SegmentHeader::new`.
  unfoldable pub new_header : SegmentKind → ℕ → ℕ → List ℕ → SegmentHeader
  new_header kind segment_id sequence payload = record {
    magic = storage_layout_magic;
    version = 2;
    kind = kind;
    segment_id = segment_id;
    sequence = sequence;
    payload_len = length payload;
    checksum = integrity32 payload;
  }

  abbrev sum_of : SegmentHeader → List ℕ → ℕ
  sum_of h payload = if h.version == 1 then checksum32 payload else integrity32 payload

  unfoldable pub validate : SegmentHeader → List ℕ → Result StorageError (Unit {0})
  validate h payload = and_then (ensure (h.magic == storage_layout_magic) corrupt) λ _.
      and_then (ensure (h.version == 2 || h.version == 1) (version_mismatch 2 h.version)) λ _.
        and_then (ensure (h.payload_len == length payload) corrupt) λ _.
          ensure ((h.version == 1 && h.checksum == 0) || h.checksum == sum_of h payload) corrupt

  -- The 44 bytes that the checksum of a header covers.
  unfoldable pub covered : SegmentHeader → List ℕ
  covered h = encode_header h ++ (le_bytes 2 1 ++ 0 ∷ 0 ∷ 0 ∷ 0 ∷ 0 ∷ 0 ∷ [])

  unfoldable pub encode_v2_header_copy : SegmentHeader → List ℕ
  encode_v2_header_copy h = covered h ++ le_bytes 4 (integrity32 (covered h))

  unfoldable pub decode_v2_header_copy : List ℕ → Result StorageError SegmentHeader
  decode_v2_header_copy buf = and_then (ensure (leb 48 (length buf)) corrupt) λ _.
      and_then (ensure (integrity32 (take 44 buf) == field 44 4 buf) corrupt) λ _.
        and_then (decode_header (take 36 buf))
          λ h. and_then (ensure (h.version == 2) (version_mismatch 2 h.version)) λ _. ok h

  abbrev ok_of : Result StorageError SegmentHeader → Option SegmentHeader
  ok_of (ok h) = some h
  ok_of (err e) = none

  -- The valid copy, or that with the larger sequence number, the first if they are equal.
  unfoldable pub select : Option SegmentHeader → Option SegmentHeader → Option SegmentHeader
  select none none = none
  select (some left) none = some left
  select none (some right) = some right
  select (some left) (some right) = some (if leb right.sequence left.sequence then left else right)

  abbrev too_short : Result StorageError SegmentHeader → StorageError
  too_short (err e) = e
  too_short (ok h) =
      if h.magic == storage_layout_magic && not (h.version == 2)
      then version_mismatch 2 h.version
      else corrupt

  abbrev of_copies : Option SegmentHeader → Result StorageError (SegmentHeader × ℕ)
  of_copies none = err corrupt
  of_copies (some h) = ok (h, 96)

  unfoldable pub read_copies : List ℕ → Result StorageError (SegmentHeader × ℕ)
  read_copies buf =
      if ltb (length buf) 96
      then err (too_short (decode_header (take 36 buf)))
      else of_copies (
          select (ok_of (decode_v2_header_copy (take 48 buf)))
            (ok_of (decode_v2_header_copy (take 48 (drop 48 buf)))))

  abbrev by_version :
      List ℕ → Result StorageError SegmentHeader → Result StorageError (SegmentHeader × ℕ)
  by_version buf (ok h) = if h.version == 1 then ok (h, 36) else read_copies buf
  by_version buf (err e) = read_copies buf

  unfoldable pub decode_segment_header_set : List ℕ → Result StorageError (SegmentHeader × ℕ)
  decode_segment_header_set buf =
      and_then (ensure (leb 36 (length buf)) corrupt)
        λ _. by_version buf (decode_header (take 36 buf))

  abbrev checked_payload :
      SegmentKind → List ℕ → SegmentHeader × ℕ → Result StorageError (SegmentHeader × List ℕ)
  checked_payload kind bytes (h, offset) =
      and_then (ensure (kind_to_u16 h.kind == kind_to_u16 kind) corrupt) λ _.
        and_then (ensure (leb offset (length bytes)) corrupt)
          λ _. and_then (validate h (drop offset bytes)) λ _. ok (h, drop offset bytes)

  unfoldable pub decode_segment_file_bytes :
      SegmentKind → List ℕ → Result StorageError (SegmentHeader × List ℕ)
  decode_segment_file_bytes kind bytes =
      and_then (ensure (leb 36 (length bytes)) corrupt)
        λ _. and_then (decode_segment_header_set bytes) λ found. checked_payload kind bytes found

  -- The bytes that `write_segment_file` writes.
  unfoldable pub segment_bytes : SegmentHeader → List ℕ → List ℕ
  segment_bytes h payload = encode_v2_header_copy h ++ (encode_v2_header_copy h ++ payload)

  unfoldable pub write_bytes : SegmentKind → ℕ → ℕ → List ℕ → List ℕ
  write_bytes kind segment_id sequence payload =
      segment_bytes (new_header kind segment_id sequence payload) payload

  -- The header after an append of checked bytes.
  unfoldable pub grown_header : SegmentHeader → List ℕ → SegmentHeader
  grown_header h appended = record h {
    sequence = saturating_add h.sequence 1;
    payload_len = saturating_add h.payload_len (length appended);
    checksum =
        if h.checksum == 0
        then 0
        else if h.version == 2
        then crc.extend h.checksum appended
        else checksum_from h.checksum appended;
  }

-- `write_all_at`: the bytes of the file from the offset on are replaced.
unfoldable pub overwrite : ℕ → List ℕ → List ℕ → List ℕ
overwrite offset bytes file = take offset file ++ (bytes ++ drop (offset + length bytes) file)

module _ (crc : Crc) where
  -- `write_segment_header_copies_at`: the second copy, then the first.
  unfoldable pub write_header_copies : SegmentHeader → List ℕ → List ℕ
  write_header_copies h file =
      if h.version == 2
      then overwrite 0 (encode_v2_header_copy crc h)
          (overwrite 48 (encode_v2_header_copy crc h) file)
      else overwrite 0 (encode_header h) file

  abbrev extended : List ℕ → SegmentHeader × ℕ → List ℕ → List ℕ
  extended file (h, offset) appended =
      write_header_copies (grown_header crc h appended)
        (overwrite (offset + h.payload_len) appended file)

  abbrev append_behind :
      SegmentKind → ℕ → List ℕ → List ℕ → List ℕ → SegmentHeader × ℕ → Result StorageError (List ℕ)
  append_behind kind segment_id prefix appended file (h, offset) =
      and_then (ensure (kind_to_u16 h.kind == kind_to_u16 kind) corrupt) λ _.
        let whole =
          write_bytes crc kind segment_id (saturating_add h.sequence 1) (prefix ++ appended) in
        let longer = and_then (ensure (leb (offset + length prefix) (length file)) io) λ _.
          and_then (ensure (starts_with prefix (drop offset file)) conflict)
            λ _. ok (extended file (h, offset) appended) in
        if h.payload_len == 0 then ok whole else longer

  -- `append_segment_payload` of bytes that are not none, on a file that exists.
  unfoldable pub append_to_segment :
      SegmentKind → ℕ → List ℕ → List ℕ → List ℕ → Result StorageError (List ℕ)
  append_to_segment kind segment_id prefix appended file =
      and_then (decode_segment_header_set crc (take 96 file))
        λ found. append_behind kind segment_id prefix appended file found
