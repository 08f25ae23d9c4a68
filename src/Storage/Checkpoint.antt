-- ===== src/Storage/Checkpoint.antt =====
-- The metadata checkpoint's payload: data-plane/src/storage/metadata.rs.
pub mod RoundTrip
use holo.Prelude.{
  ℕ, ◌==◌, leb, Bool, true, false, Option, none, some, List, [], ◌∷◌, ◌++◌, length, get_elem?, take,
  drop, if◌then◌else◌,
}
use holo.Prelude.Bytes.{le_bytes, of_le}
use holo.Prelude.Outcome.{Result, ok, err, and_then, ensure}
use holo.Storage.Error.{StorageError, corrupt}
use holo.Storage.Checksum.{checksum32}

pub data CheckpointFlags : Type 0 where
  clean dirty : CheckpointFlags

unfoldable pub flags_from_u8 : ℕ → Result StorageError CheckpointFlags
flags_from_u8 v = if v == 1 then ok clean else if v == 2 then ok dirty else err corrupt

-- `flags as u8`.
unfoldable pub flags_to_u8 : CheckpointFlags → ℕ
flags_to_u8 clean = 1
flags_to_u8 dirty = 2

pub record MetadataCheckpoint : Type 0 where
  pub page_id : ℕ
  pub epoch : ℕ
  pub active_blk_map_root : ℕ
  pub active_lookup_root : ℕ
  pub flags : CheckpointFlags

-- The 40 bytes that the checksum covers.
unfoldable pub checkpoint_data : MetadataCheckpoint → List ℕ
checkpoint_data c =
    le_bytes 8 c.page_id
    ++ (le_bytes 8 c.epoch
        ++ (le_bytes 8 c.active_blk_map_root
            ++ (le_bytes 8 c.active_lookup_root
                ++ flags_to_u8 c.flags ∷ 0 ∷ 0 ∷ 0 ∷ 0 ∷ 0 ∷ 0 ∷ 0 ∷ [])))

unfoldable pub encode_checkpoint : MetadataCheckpoint → List ℕ
encode_checkpoint c = checkpoint_data c ++ le_bytes 4 (checksum32 (checkpoint_data c))

abbrev byte_at : ℕ → List ℕ → ℕ
byte_at i bytes = elim (get_elem? bytes i) [ none ↦ 0 | some b ↦ b ]

-- The fields of the checked 40 bytes.
unfoldable pub decode_data : List ℕ → Result StorageError MetadataCheckpoint
decode_data bytes = and_then (flags_from_u8 (byte_at 32 bytes)) λ flags. ok (record {
  page_id = of_le (take 8 bytes);
  epoch = of_le (take 8 (drop 8 bytes));
  active_blk_map_root = of_le (take 8 (drop 16 bytes));
  active_lookup_root = of_le (take 8 (drop 24 bytes));
  flags = flags;
})

unfoldable pub decode_checkpoint : List ℕ → Result StorageError MetadataCheckpoint
decode_checkpoint payload = and_then (ensure (leb 44 (length payload)) corrupt) λ _.
    and_then (ensure (of_le (take 4 (drop 40 payload)) == checksum32 (take 40 payload)) corrupt)
      λ _. decode_data (take 40 payload)
