-- ===== src/Storage/Segment/Header.antt =====
-- Reading the headers of a segment file back: data-plane/src/storage/segment.rs.
use holo.Prelude.{
  ℕ, ◌+◌, ◌<◌, ◌≡◌, refl, ltb, leb, ◌==◌, true, false, some, List, ◌++◌, length, take, drop, arith,
}
use holo.Prelude.Bytes.{le_bytes, of_le-le_bytes}
use holo.Prelude.Outcome.{ok}
use holo.Storage.Segment.{
  SegmentKind, data_kind, metadata_kind, blk_map_kind, lookup_kind, reclaim_kind, dedup_kind,
  segment_index_kind, kind_from_u16, kind_to_u16, SegmentHeader, storage_layout_magic,
  encode_header, field, decode_header, Crc, integrity32, covered, encode_v2_header_copy,
  decode_v2_header_copy, decode_segment_header_set, read_copies, select, segment_bytes,
}

-- The fields of a header of the current version have their widths.
pub record IsHeader (h : SegmentHeader) : Type 0 where
  pub magic_known : h.magic ≡ storage_layout_magic
  pub current : h.version ≡ 2
  pub id_bound : h.segment_id < 18446744073709551616
  pub sequence_bound : h.sequence < 18446744073709551616
  pub len_bound : h.payload_len < 18446744073709551616
  pub checksum_bound : h.checksum < 4294967296

-- What the crc32c package documents: a 32-bit sum, which goes on where it stopped.
pub record IsCrc (crc : Crc) : Type 0 where
  pub bounded : (acc : ℕ) (bytes : List ℕ) → crc.extend acc bytes < 4294967296
  pub continued :
      (acc : ℕ) (bytes more : List ℕ)
      → crc.extend acc (bytes ++ more) ≡ crc.extend (crc.extend acc bytes) more

kind_back : (k : SegmentKind) → kind_from_u16 (kind_to_u16 k) ≡ some k
unfolding kind_from_u16 kind_to_u16
kind_back data_kind = refl
kind_back metadata_kind = refl
kind_back blk_map_kind = refl
kind_back lookup_kind = refl
kind_back reclaim_kind = refl
kind_back dedup_kind = refl
kind_back segment_index_kind = refl

kind_small : (k : SegmentKind) → kind_to_u16 k < 65536
unfolding kind_to_u16
kind_small data_kind = omega arith
kind_small metadata_kind = omega arith
kind_small blk_map_kind = omega arith
kind_small lookup_kind = omega arith
kind_small reclaim_kind = omega arith
kind_small dedup_kind = omega arith
kind_small segment_index_kind = omega arith

decode_header-encode_header :
    (h : SegmentHeader) → IsHeader h → decode_header (encode_header h) ≡ ok h
unfolding decode_header encode_header le_bytes
decode_header-encode_header h w =
    let buf = encode_header h in
    let e0 : field 0 4 buf ≡ h.magic = of_le-le_bytes 4 h.magic (omega (arith, w.magic_known)) in
    let e1 : field 4 2 buf ≡ h.version = of_le-le_bytes 2 h.version (omega (arith, w.current)) in
    let e2 : field 6 2 buf ≡ kind_to_u16 h.kind =
      of_le-le_bytes 2 (kind_to_u16 h.kind) (omega (arith, kind_small h.kind)) in
    let e3 : field 8 8 buf ≡ h.segment_id =
      of_le-le_bytes 8 h.segment_id (omega (arith, w.id_bound)) in
    let e4 : field 16 8 buf ≡ h.sequence =
      of_le-le_bytes 8 h.sequence (omega (arith, w.sequence_bound)) in
    let e5 : field 24 8 buf ≡ h.payload_len =
      of_le-le_bytes 8 h.payload_len (omega (arith, w.len_bound)) in
    let e6 : field 32 4 buf ≡ h.checksum =
      of_le-le_bytes 4 h.checksum (omega (arith, w.checksum_bound)) in
    rw (e0, e1, e2, e3, e4, e5, e6, kind_back h.kind)

module _ (crc : Crc) (law : IsCrc crc) (h : SegmentHeader) (w : IsHeader h) where
  covered_taken : take 44 (encode_v2_header_copy crc h) ≡ covered crc h
  unfolding encode_v2_header_copy covered encode_header le_bytes
  covered_taken = refl

  header_taken : take 36 (encode_v2_header_copy crc h) ≡ encode_header h
  unfolding encode_v2_header_copy covered encode_header le_bytes
  header_taken = refl

  sum_taken : field 44 4 (encode_v2_header_copy crc h) ≡ integrity32 crc (covered crc h)
  unfolding encode_v2_header_copy covered encode_header le_bytes integrity32
  sum_taken =
      of_le-le_bytes 4 (crc.extend 0 (covered crc h)) (omega (arith, law.bounded 0 (covered crc h)))

  copy_size : length (encode_v2_header_copy crc h) ≡ 48
  unfolding encode_v2_header_copy covered encode_header le_bytes
  copy_size = refl

  copy_back : decode_v2_header_copy crc (encode_v2_header_copy crc h) ≡ ok h
  unfolding decode_v2_header_copy
  copy_back =
      let sum : (integrity32 crc (covered crc h) == integrity32 crc (covered crc h)) ≡ true =
        ground arith in
      let long : leb 48 (length (encode_v2_header_copy crc h)) ≡ true = ground (arith, copy_size) in
      let current : (h.version == 2) ≡ true = ground (arith, w.current) in
      rw (
        long,
        covered_taken,
        sum_taken,
        sum,
        header_taken,
        decode_header-encode_header h w,
        current,
      )

  module _ (payload : List ℕ) where
    first_header : take 36 (segment_bytes crc h payload) ≡ encode_header h
    unfolding segment_bytes encode_v2_header_copy covered encode_header le_bytes
    first_header = refl

    first_copy : take 48 (segment_bytes crc h payload) ≡ encode_v2_header_copy crc h
    unfolding segment_bytes encode_v2_header_copy covered encode_header le_bytes
    first_copy = refl

    second_copy : take 48 (drop 48 (segment_bytes crc h payload)) ≡ encode_v2_header_copy crc h
    unfolding segment_bytes encode_v2_header_copy covered encode_header le_bytes
    second_copy = refl

    pub payload_behind : drop 96 (segment_bytes crc h payload) ≡ payload
    unfolding segment_bytes encode_v2_header_copy covered encode_header le_bytes
    payload_behind = refl

    pub segment_size : length (segment_bytes crc h payload) ≡ 96 + length payload
    unfolding segment_bytes encode_v2_header_copy covered encode_header le_bytes
    segment_size = omega arith

    pub header_set_back : decode_segment_header_set crc (segment_bytes crc h payload) ≡ ok (h, 96)
    unfolding decode_segment_header_set read_copies select
    header_set_back =
        let some_header : leb 36 (length (segment_bytes crc h payload)) ≡ true =
          ground (arith, segment_size) in
        let both : ltb (length (segment_bytes crc h payload)) 96 ≡ false =
          ground (arith, segment_size) in
        let other : (h.version == 1) ≡ false = ground (arith, w.current) in
        let same : leb h.sequence h.sequence ≡ true = ground arith in
        rw (
          some_header,
          first_header,
          decode_header-encode_header h w,
          other,
          both,
          first_copy,
          second_copy,
          copy_back,
          same,
        )
