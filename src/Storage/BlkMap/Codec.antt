-- ===== src/Storage/BlkMap/Codec.antt =====
-- Reading a record of the block map back: data-plane/src/storage/blk_map.rs.
use holo.Prelude.{
  ℕ, ◌<◌, ◌≡◌, ◌+◌, refl, ◌==◌, false, not, ◌&&◌, List, ◌++◌, take, drop, length, arith,
}
use holo.Prelude.Bytes.{le_bytes, of_le-le_bytes}
use holo.Prelude.Outcome.{ok}
use holo.Storage.Compression.{CompressionCodec, raw, rle, lz4, zlib, codec_from_u8, codec_to_u8}
use holo.Storage.BlkMap.{
  BlkMapState, active, stale, PayloadChecksumAlgorithm, no_checksum, fnv1a32, crc32c,
  algorithm_from_u8, algorithm_to_u8, state_from_u8, state_to_u8, BlkMapRecord, encode, field,
  is_disabled, decode_extended_v2, decode_extended_v3, decode,
}

-- The fields have the widths of their types, and a disabled checksum is zero.
pub record IsRecord (r : BlkMapRecord) : Type 0 where
  pub id_bound : r.record_id < 18446744073709551616
  pub start_bound : r.logical_start < 18446744073709551616
  pub len_bound : r.logical_len < 4294967296
  pub segment_bound : r.physical_segment_id < 18446744073709551616
  pub offset_bound : r.physical_offset < 18446744073709551616
  pub filemarks_bound : r.filemark_count < 4294967296
  pub dedup_bound : r.dedup_entry_id < 18446744073709551616
  pub compressed_bound : r.compressed_len < 4294967296
  pub checksum_bound : r.payload_checksum < 4294967296
  pub disabled_zero :
      (is_disabled r.payload_checksum_algorithm && not (r.payload_checksum == 0)) ≡ false

state_back : (s : BlkMapState) → state_from_u8 (state_to_u8 s) ≡ ok s
unfolding state_from_u8 state_to_u8
state_back active = refl
state_back stale = refl

pub codec_back : (c : CompressionCodec) → codec_from_u8 (codec_to_u8 c) ≡ ok c
unfolding codec_from_u8 codec_to_u8
codec_back raw = refl
codec_back rle = refl
codec_back lz4 = refl
codec_back zlib = refl

algorithm_back : (a : PayloadChecksumAlgorithm) → algorithm_from_u8 (algorithm_to_u8 a) ≡ ok a
unfolding algorithm_from_u8 algorithm_to_u8
algorithm_back no_checksum = refl
algorithm_back fnv1a32 = refl
algorithm_back crc32c = refl

pub length-encode :
    (r : BlkMapRecord) (rest : List ℕ) → length (encode r ++ rest) ≡ 59 + length rest
unfolding encode le_bytes
length-encode r rest = omega arith

pub take-encode : (r : BlkMapRecord) (rest : List ℕ) → take 59 (encode r ++ rest) ≡ encode r
unfolding encode le_bytes
take-encode r rest = refl

pub drop-encode : (r : BlkMapRecord) (rest : List ℕ) → drop 59 (encode r ++ rest) ≡ rest
unfolding encode le_bytes
drop-encode r rest = refl

-- A record written is read back, whatever its state, codec and checksum algorithm are.
pub decode-encode : (r : BlkMapRecord) → IsRecord r → decode (encode r) ≡ ok r
unfolding decode decode_extended_v3 decode_extended_v2 encode le_bytes
decode-encode r h =
    let buf = encode r in
    let e0 : field 0 8 buf ≡ r.record_id =
      of_le-le_bytes 8 r.record_id (omega (arith, h.id_bound)) in
    let e1 : field 8 8 buf ≡ r.logical_start =
      of_le-le_bytes 8 r.logical_start (omega (arith, h.start_bound)) in
    let e2 : field 16 4 buf ≡ r.logical_len =
      of_le-le_bytes 4 r.logical_len (omega (arith, h.len_bound)) in
    let e3 : field 20 8 buf ≡ r.physical_segment_id =
      of_le-le_bytes 8 r.physical_segment_id (omega (arith, h.segment_bound)) in
    let e4 : field 28 8 buf ≡ r.physical_offset =
      of_le-le_bytes 8 r.physical_offset (omega (arith, h.offset_bound)) in
    let e5 : field 36 4 buf ≡ r.filemark_count =
      of_le-le_bytes 4 r.filemark_count (omega (arith, h.filemarks_bound)) in
    let e6 : field 41 8 buf ≡ r.dedup_entry_id =
      of_le-le_bytes 8 r.dedup_entry_id (omega (arith, h.dedup_bound)) in
    let e7 : field 50 4 buf ≡ r.compressed_len =
      of_le-le_bytes 4 r.compressed_len (omega (arith, h.compressed_bound)) in
    let e8 : field 54 4 buf ≡ r.payload_checksum =
      of_le-le_bytes 4 r.payload_checksum (omega (arith, h.checksum_bound)) in
    rw (
      state_back r.state,
      codec_back r.compression,
      algorithm_back r.payload_checksum_algorithm,
      e0,
      e1,
      e2,
      e3,
      e4,
      e5,
      e6,
      e7,
      e8,
      h.disabled_zero,
    )
