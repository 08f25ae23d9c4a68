-- ===== src/Storage/Checkpoint/RoundTrip.antt =====
-- Reading a checkpoint back: data-plane/src/storage/metadata.rs.
use holo.Prelude.{◌<◌, ◌≡◌, refl, leb, ◌==◌, true, length, take, drop, arith}
use holo.Prelude.Bytes.{le_bytes, of_le, of_le-le_bytes}
use holo.Prelude.Outcome.{ok}
use holo.Storage.Checksum.{checksum32, checksum32-lt}
use holo.Storage.Checkpoint.{
  CheckpointFlags, clean, dirty, flags_from_u8, flags_to_u8, MetadataCheckpoint, checkpoint_data,
  encode_checkpoint, decode_data, decode_checkpoint,
}

-- Every number of the checkpoint has 64 bits.
abbrev pub IsCheckpoint : MetadataCheckpoint → Type 0
IsCheckpoint c =
    (c.page_id < 18446744073709551616)
    × ((c.epoch < 18446744073709551616)
        × ((c.active_blk_map_root < 18446744073709551616)
            × (c.active_lookup_root < 18446744073709551616)))

flags_back : (f : CheckpointFlags) → flags_from_u8 (flags_to_u8 f) ≡ ok f
unfolding flags_from_u8 flags_to_u8
flags_back clean = refl
flags_back dirty = refl

decode_data-checkpoint_data :
    (c : MetadataCheckpoint) → IsCheckpoint c → decode_data (checkpoint_data c) ≡ ok c
unfolding decode_data checkpoint_data le_bytes
decode_data-checkpoint_data c h =
    let bytes = checkpoint_data c in
    let page : of_le (take 8 bytes) ≡ c.page_id = of_le-le_bytes 8 c.page_id (omega (arith, h.0)) in
    let epoch : of_le (take 8 (drop 8 bytes)) ≡ c.epoch =
      of_le-le_bytes 8 c.epoch (omega (arith, h.1.0)) in
    let map_root : of_le (take 8 (drop 16 bytes)) ≡ c.active_blk_map_root =
      of_le-le_bytes 8 c.active_blk_map_root (omega (arith, h.1.1.0)) in
    let lookup_root : of_le (take 8 (drop 24 bytes)) ≡ c.active_lookup_root =
      of_le-le_bytes 8 c.active_lookup_root (omega (arith, h.1.1.1)) in
    rw (flags_back c.flags, page, epoch, map_root, lookup_root)

module _ (c : MetadataCheckpoint) where
  data_taken : take 40 (encode_checkpoint c) ≡ checkpoint_data c
  unfolding encode_checkpoint checkpoint_data le_bytes
  data_taken = refl

  sum_taken : of_le (take 4 (drop 40 (encode_checkpoint c))) ≡ checksum32 (checkpoint_data c)
  unfolding encode_checkpoint checkpoint_data le_bytes
  sum_taken =
      of_le-le_bytes 4 (checksum32 (checkpoint_data c))
        (omega (arith, checksum32-lt (checkpoint_data c)))

  long_enough : leb 44 (length (encode_checkpoint c)) ≡ true
  unfolding encode_checkpoint checkpoint_data le_bytes
  long_enough = refl

-- What is written for a checkpoint is decoded to it, its checksum included, if its numbers have 64
-- bits.
decode_checkpoint-encode_checkpoint :
    (c : MetadataCheckpoint) → IsCheckpoint c → decode_checkpoint (encode_checkpoint c) ≡ ok c
unfolding decode_checkpoint
decode_checkpoint-encode_checkpoint c h =
    let same : (checksum32 (checkpoint_data c) == checksum32 (checkpoint_data c)) ≡ true =
      ground arith in
    rw (long_enough c, sum_taken c, data_taken c, same) (decode_data-checkpoint_data c h)
