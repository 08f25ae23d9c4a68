-- ===== src/Drive.antt =====
-- The drive's commands as a CDB brings them: data-plane/src/iscsi/cdb_drive.rs, with the helpers of
-- data-plane/src/iscsi/cdb_server.rs that it reads a CDB by.
pub mod Reserve
pub mod Partitions
pub mod Hex
pub mod Attention
use holo.Prelude.{
  ℕ, ◌+◌, ◌*◌, ◌%◌, ltb, leb, ◌==◌, Bool, true, false, ◌&&◌, Option, none, some, List, [], ◌∷◌,
  ◌++◌, length, get_elem?, take, drop, trim, is_empty, if◌then◌else◌,
}
use holo.Prelude.OrdMap.{Text}
use holo.Prelude.Bytes.{be_bytes, of_be}
use holo.Scsi.Sense.{SenseFrame}

-- `cdb.get(i).copied().unwrap_or(0)`.
abbrev pub byte_or_zero : ℕ → List ℕ → ℕ
byte_or_zero i cdb = elim (get_elem? cdb i) [ none ↦ 0 | some b ↦ b ]

unfoldable pub read_be : ℕ → List ℕ → ℕ → Option ℕ
read_be size input offset =
    if ltb (length input) (offset + size)
    then none
    else some (of_be (take size (drop offset input)))

unfoldable pub try_read_be16 : List ℕ → ℕ → Option ℕ
try_read_be16 input offset = read_be 2 input offset

unfoldable pub read_be64 : List ℕ → ℕ → Option ℕ
read_be64 input offset = read_be 8 input offset

abbrev pub unwrap_or : Option ℕ → ℕ → ℕ
unwrap_or none d = d
unwrap_or (some x) d = x

unfoldable pub read_be16 : List ℕ → ℕ → ℕ
read_be16 input offset = unwrap_or (try_read_be16 input offset) 0

-- `initiator_or_default` of the context; the name that the environment configures comes first.
unfoldable pub initiator_or_default : Text → Option Text → Text
initiator_or_default configured none = configured
initiator_or_default configured (some value) = if is_empty (trim value) then configured else value

abbrev flag : Bool → ℕ → ℕ
flag true bit = bit
flag false bit = 0

abbrev is_filemark : SenseFrame → Bool
is_filemark f = f.sense_key == 0 && (f.asc == 0 && f.ascq == 1)

abbrev information_bytes : SenseFrame → List ℕ
information_bytes f = if f.information_valid then be_bytes 4 f.information else 0 ∷ 0 ∷ 0 ∷ 0 ∷ []

abbrev key_byte : SenseFrame → ℕ
key_byte f = f.sense_key % 16 + (flag f.end_of_medium 0x40 + flag (is_filemark f) 0x80)

abbrev code_byte : SenseFrame → ℕ
code_byte f = if f.information_valid then 0xF0 else 0x70

-- The third byte has the sense key below the flags of the end of the medium and of a filemark.
unfoldable pub sense_frame_to_bytes : SenseFrame → List ℕ
sense_frame_to_bytes f =
    code_byte f
    ∷ 0
    ∷ key_byte f
    ∷ (information_bytes f ++ 10 ∷ 0 ∷ 0 ∷ 0 ∷ 0 ∷ f.asc ∷ f.ascq ∷ 0 ∷ 0 ∷ 0 ∷ 0 ∷ [])

unfoldable pub truncate_reply : List ℕ → ℕ → List ℕ
truncate_reply reply allocation_len =
    if allocation_len == 0
    then []
    else if ltb allocation_len (length reply)
    then take allocation_len reply
    else reply
