-- ===== src/Storage/BlkMap.antt =====
-- The block map's records and the payloads that hold them: data-plane/src/storage/blk_map.rs. A log
-- may hold several records of one id. The order in which a hash map gives its values is not fixed;
-- here it is that of their first insertion, and the stable sort by start comes after.
pub mod Codec
pub mod Log
pub mod Records
pub mod Store
mod Examples
use Prim.Native.Nat.{zero, suc}
use holo.Prelude.{
  ℕ, ◌+◌, ◌-◌, ◌/◌, ◌%◌, ltb, leb, ◌==◌, max, Bool, true, false, not, ◌&&◌, ◌||◌, Option, none,
  some, List, [], ◌∷◌, ◌++◌, length, take, drop, get_elem?, find, if◌then◌else◌, saturating_add,
}
use holo.Prelude.Bytes.{le_bytes, of_le}
use holo.Prelude.Outcome.{Result, ok, err, and_then, ensure}
use holo.Storage.Error.{StorageError, corrupt, metadata_budget_exceeded}
use holo.Storage.Compression.{CompressionCodec, raw, codec_from_u8, codec_to_u8}

pub data BlkMapState : Type 0 where
  active stale : BlkMapState

pub data PayloadChecksumAlgorithm : Type 0 where
  no_checksum fnv1a32 crc32c : PayloadChecksumAlgorithm

-- `PayloadChecksumAlgorithm::from_u8` and `algorithm as u8`.
unfoldable pub algorithm_from_u8 : ℕ → Result StorageError PayloadChecksumAlgorithm
algorithm_from_u8 value =
    if value == 0
    then ok no_checksum
    else if value == 1
    then ok fnv1a32
    else if value == 2
    then ok crc32c
    else err corrupt

unfoldable pub algorithm_to_u8 : PayloadChecksumAlgorithm → ℕ
algorithm_to_u8 no_checksum = 0
algorithm_to_u8 fnv1a32 = 1
algorithm_to_u8 crc32c = 2

-- `BlkMapState::from_u8` and `state as u8`.
unfoldable pub state_from_u8 : ℕ → Result StorageError BlkMapState
state_from_u8 v = if v == 1 then ok active else if v == 2 then ok stale else err corrupt

unfoldable pub state_to_u8 : BlkMapState → ℕ
state_to_u8 active = 1
state_to_u8 stale = 2

pub record BlkMapRecord : Type 0 where
  pub record_id : ℕ
  pub logical_start : ℕ
  pub logical_len : ℕ
  pub physical_segment_id : ℕ
  pub physical_offset : ℕ
  pub filemark_count : ℕ
  pub state : BlkMapState
  pub dedup_entry_id : ℕ
  pub compression : CompressionCodec
  pub compressed_len : ℕ
  pub payload_checksum : ℕ
  pub payload_checksum_algorithm : PayloadChecksumAlgorithm

unfoldable pub logical_end : BlkMapRecord → ℕ
logical_end r = saturating_add r.logical_start r.logical_len

abbrev pub legacy_record_size : ℕ
legacy_record_size = 41

abbrev pub extended_record_v2_size : ℕ
extended_record_v2_size = 58

abbrev pub extended_record_v3_size : ℕ
extended_record_v3_size = 59

unfoldable pub encode : BlkMapRecord → List ℕ
encode r =
    le_bytes 8 r.record_id
    ++ (le_bytes 8 r.logical_start
        ++ (le_bytes 4 r.logical_len
            ++ (le_bytes 8 r.physical_segment_id
                ++ (le_bytes 8 r.physical_offset
                    ++ (le_bytes 4 r.filemark_count
                        ++ state_to_u8 r.state
                          ∷ (le_bytes 8 r.dedup_entry_id
                              ++ codec_to_u8 r.compression
                                ∷ (le_bytes 4 r.compressed_len
                                    ++ (le_bytes 4 r.payload_checksum
                                        ++ algorithm_to_u8 r.payload_checksum_algorithm ∷ []))))))))

-- `buf[a..a + n]` as a number, and `buf[i]`.
abbrev pub field : ℕ → ℕ → List ℕ → ℕ
field at size buf = of_le (take size (drop at buf))

abbrev pub byte_at : ℕ → List ℕ → ℕ
byte_at i buf = elim (get_elem? buf i) [ none ↦ 0 | some b ↦ b ]

unfoldable pub decode_legacy : List ℕ → Result StorageError BlkMapRecord
decode_legacy buf = and_then (state_from_u8 (byte_at 40 buf)) λ state. ok (record {
  record_id = field 0 8 buf;
  logical_start = field 8 8 buf;
  logical_len = field 16 4 buf;
  physical_segment_id = field 20 8 buf;
  physical_offset = field 28 8 buf;
  filemark_count = field 36 4 buf;
  state = state;
  dedup_entry_id = 0;
  compression = raw;
  compressed_len = field 16 4 buf;
  payload_checksum = 0;
  payload_checksum_algorithm = no_checksum;
})

unfoldable pub decode_extended_v2 : List ℕ → Result StorageError BlkMapRecord
decode_extended_v2 buf = and_then (state_from_u8 (byte_at 40 buf)) λ state.
    and_then (codec_from_u8 (byte_at 49 buf)) λ compression. ok (record {
      record_id = field 0 8 buf;
      logical_start = field 8 8 buf;
      logical_len = field 16 4 buf;
      physical_segment_id = field 20 8 buf;
      physical_offset = field 28 8 buf;
      filemark_count = field 36 4 buf;
      state = state;
      dedup_entry_id = field 41 8 buf;
      compression = compression;
      compressed_len = field 50 4 buf;
      payload_checksum = field 54 4 buf;
      payload_checksum_algorithm = if field 54 4 buf == 0 then no_checksum else fnv1a32;
    })

abbrev pub is_disabled : PayloadChecksumAlgorithm → Bool
is_disabled no_checksum = true
is_disabled fnv1a32 = false
is_disabled crc32c = false

unfoldable pub decode_extended_v3 : List ℕ → Result StorageError BlkMapRecord
decode_extended_v3 buf = and_then (decode_extended_v2 (take 58 buf)) λ r.
    and_then (algorithm_from_u8 (byte_at 58 buf)) λ algorithm.
      and_then (ensure (not (is_disabled algorithm && not (r.payload_checksum == 0))) corrupt)
        λ _. ok (record r { payload_checksum_algorithm = algorithm })

unfoldable pub decode : List ℕ → Result StorageError BlkMapRecord
decode buf =
    if length buf == legacy_record_size
    then decode_legacy buf
    else if length buf == extended_record_v2_size
    then decode_extended_v2 buf
    else if length buf == extended_record_v3_size
    then decode_extended_v3 buf
    else err corrupt
