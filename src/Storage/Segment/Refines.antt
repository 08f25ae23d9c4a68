-- ===== src/Storage/Segment/Refines.antt =====
-- The bytes of a segment file and the file as the metadata maps use it:
-- data-plane/src/storage/segment.rs.
use holo.Prelude.{ℕ, ◌+◌, ◌<◌, ◌≡◌, leb, ◌==◌, true, false, some, List, ◌++◌, length, arith, le→leb}
use holo.Prelude.Outcome.{ok, and_then}
use holo.Storage.MetadataFile.{MetadataFile, starts_with, append_segment_payload}
use holo.Storage.Segment.{
  SegmentHeader, Crc, decode_segment_file_bytes, segment_bytes, grown_header, append_to_segment,
}
use holo.Storage.Segment.Header.{IsCrc}
use holo.Storage.Segment.Written.{Describes}
use holo.Storage.Segment.Appended.{prefix_fits, append_to_segment_read}

-- The file of a header and a payload.
unfoldable pub file_of : ℕ → SegmentHeader → List ℕ → MetadataFile
file_of stamp h payload = record {
  stamp = stamp;
  header_len = 96;
  sequence = h.sequence;
  payload = payload;
}

-- Appending to the bytes of a segment file and appending to its sequence number and payload agree:
-- both succeed, the bytes are read as the payload of the longer file, under a header with its
-- sequence number, and that header describes it again. The checksum that the crc32c package gives
-- has 32 bits and goes on where it stopped; the payload is not empty, begins with the prefix and
-- has not the checksum 0, and the lengths have 64 bits.
pub append_to_segment-append_segment_payload :
    (crc : Crc) (segment_id stamp : ℕ) (h : SegmentHeader) (payload prefix appended : List ℕ)
    → IsCrc crc
    → Describes crc h payload
    → 0 < length payload
    → starts_with prefix payload ≡ true
    → (h.checksum == 0) ≡ false
    → length payload + length appended < 18446744073709551616
    → (append_segment_payload prefix appended (some (file_of stamp h payload))
        ≡ ok (file_of (stamp + 1) (grown_header crc h appended) (payload ++ appended)))
      × ((and_then
              (append_to_segment crc h.kind segment_id prefix appended
                (segment_bytes crc h payload))
              (decode_segment_file_bytes crc h.kind)
            ≡ ok (grown_header crc h appended, payload ++ appended))
          × Describes crc (grown_header crc h appended) (payload ++ appended))
unfolding append_segment_payload file_of grown_header
append_to_segment-append_segment_payload crc segment_id stamp h payload prefix appended law d n p z
      l =
    let some_bytes : (length payload == 0) ≡ false = ground arith in
    let enough : leb (length prefix) (length payload) ≡ true =
      le→leb _ _ (prefix_fits prefix payload p) in
    (
      rw (some_bytes, enough, p),
      (append_to_segment_read crc law segment_id h payload prefix appended d n p z l).1,
    )
