-- ===== src/Storage/Checksum.antt =====
-- The checksum of the small state files: `checksum32` of data-plane/src/storage/layout.rs.
use Prim.Native.Nat.{bit_xor}
use holo.Prelude.{ℕ, ◌*◌, ◌%◌, ◌<◌, List, [], ◌∷◌, arith}

unfoldable pub checksum_from : ℕ → List ℕ → ℕ
checksum_from acc [] = acc
checksum_from acc (b ∷ bytes) = checksum_from (bit_xor acc b * 16777619 % 4294967296) bytes

unfoldable pub checksum32 : List ℕ → ℕ
checksum32 bytes = checksum_from 0x811C9DC5 bytes

pub checksum_from-lt :
    (acc : ℕ) (bytes : List ℕ) → acc < 4294967296 → checksum_from acc bytes < 4294967296
unfolding checksum_from
checksum_from-lt acc [] h = h
checksum_from-lt acc (b ∷ bytes) h =
    checksum_from-lt (bit_xor acc b * 16777619 % 4294967296) bytes (omega arith)

pub checksum32-lt : (bytes : List ℕ) → checksum32 bytes < 4294967296
unfolding checksum32
checksum32-lt bytes = checksum_from-lt 0x811C9DC5 bytes (omega arith)
