-- ===== src/Storage/RuntimeState.antt =====
-- The state files of a cartridge: data-plane/src/storage/runtime_state.rs. A file is its bytes, or
-- none if it does not exist; errors of the operating system are left out.
pub mod RoundTrip
use Prim.Native.Nat.{zero, suc}
use holo.Prelude.{
  ℕ, ◌+◌, ◌*◌, ◌%◌, ◌==◌, leb, Bool, true, false, not, Option, none, some, List, [], ◌∷◌, ◌++◌,
  length, take, drop, if◌then◌else◌,
}
use holo.Prelude.Bytes.{le_bytes, of_le}
use holo.Prelude.Outcome.{Result, ok, err, and_then, ensure}
use holo.Storage.Error.{StorageError, corrupt, io}
use holo.Storage.Checksum.{checksum32}

abbrev pub max_filemarks : ℕ
max_filemarks = 1000000

unfoldable pub encode_marks : List ℕ → List ℕ
encode_marks [] = []
encode_marks (mark ∷ marks) = le_bytes 8 mark ++ encode_marks marks

unfoldable pub persist_filemarks : List ℕ → List ℕ
persist_filemarks marks = le_bytes 8 (length marks) ++ encode_marks marks

unfoldable pub decode_marks : ℕ → List ℕ → List ℕ
decode_marks zero bytes = []
decode_marks (suc count) bytes = of_le (take 8 bytes) ∷ decode_marks count (drop 8 bytes)

-- The checks of the size, of the count and of the length.
unfoldable pub filemark_count : List ℕ → Result StorageError ℕ
filemark_count bytes = and_then (ensure (leb (length bytes) (8 + max_filemarks * 8)) corrupt) λ _.
    and_then (ensure (leb 8 (length bytes)) corrupt) λ _.
      let count = of_le (take 8 bytes) in
      and_then (ensure (leb count max_filemarks) corrupt)
        λ _. and_then (ensure (length bytes == 8 + count * 8) corrupt) λ _. ok count

unfoldable pub load_filemarks : Option (List ℕ) → Result StorageError (List ℕ)
load_filemarks none = ok []
load_filemarks (some bytes) =
    and_then (filemark_count bytes) λ count. ok (decode_marks count (drop 8 bytes))

pub record RetentionRuntimeState : Type 0 where
  pub is_worm_media : Bool
  pub retention_locked : Bool

-- `u8::from`.
unfoldable pub flag_byte : Bool → ℕ
flag_byte true = 1
flag_byte false = 0

unfoldable pub persist_retention_state : Bool → Bool → List ℕ
persist_retention_state is_worm_media retention_locked =
    let bytes = flag_byte is_worm_media ∷ flag_byte retention_locked ∷ [] in
    bytes ++ le_bytes 2 (checksum32 bytes % 65536)

-- `read_exact` of four bytes fails on a shorter file.
unfoldable pub load_retention_state :
    Option (List ℕ) → Result StorageError (Option RetentionRuntimeState)
load_retention_state none = ok none
load_retention_state (some (worm ∷ locked ∷ low ∷ high ∷ _)) =
    and_then (ensure (of_le (low ∷ high ∷ []) == checksum32 (worm ∷ locked ∷ []) % 65536) corrupt)
      λ _.
        ok (some (record { is_worm_media = not (worm == 0); retention_locked = not (locked == 0) }))
load_retention_state (some _) = err io
