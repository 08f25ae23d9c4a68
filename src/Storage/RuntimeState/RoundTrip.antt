-- ===== src/Storage/RuntimeState/RoundTrip.antt =====
-- Reading the state files back: data-plane/src/storage/runtime_state.rs.
use holo.Prelude.{
  ℕ, ◌+◌, ◌*◌, ◌%◌, ◌≤◌, ◌<◌, ◌≡◌, refl, ◌==◌, Bool, true, false, not, some, List, [], ◌∷◌, ◌++◌,
  length, take, drop, All, arith,
}
use holo.Prelude.Bytes.{le_bytes, of_le, of_le-le_bytes}
use holo.Prelude.Outcome.{ok}
use holo.Storage.Checksum.{checksum32}
use holo.Storage.RuntimeState.{
  max_filemarks, encode_marks, persist_filemarks, decode_marks, filemark_count, load_filemarks,
  flag_byte, persist_retention_state, load_retention_state,
}

abbrev pub IsMark : ℕ → Type 0
IsMark m = m < 18446744073709551616

length-encode_marks : (marks : List ℕ) → length (encode_marks marks) ≡ length marks * 8
unfolding encode_marks le_bytes
length-encode_marks [] = refl
length-encode_marks (m ∷ marks) = omega (arith, length-encode_marks marks)

take_mark : (m : ℕ) (rest : List ℕ) → IsMark m → of_le (take 8 (le_bytes 8 m ++ rest)) ≡ m
unfolding le_bytes
take_mark m rest h = of_le-le_bytes 8 m (omega arith)

drop_mark : (m : ℕ) (rest : List ℕ) → drop 8 (le_bytes 8 m ++ rest) ≡ rest
unfolding le_bytes
drop_mark m rest = refl

length_mark : (m : ℕ) (rest : List ℕ) → length (le_bytes 8 m ++ rest) ≡ 8 + length rest
unfolding le_bytes
length_mark m rest = omega arith

decode_marks-encode_marks :
    (marks : List ℕ) → All IsMark marks → decode_marks (length marks) (encode_marks marks) ≡ marks
unfolding decode_marks encode_marks
decode_marks-encode_marks [] h = refl
decode_marks-encode_marks (m ∷ marks) h = rw (
  take_mark m (encode_marks marks) h.0,
  drop_mark m (encode_marks marks),
  decode_marks-encode_marks marks h.1,
)

filemark_count-persist_filemarks :
    (marks : List ℕ)
    → length marks ≤ max_filemarks
    → filemark_count (persist_filemarks marks) ≡ ok (length marks)
unfolding filemark_count persist_filemarks
filemark_count-persist_filemarks marks n =
    let bytes = persist_filemarks marks in
    let size = length_mark (length marks) (encode_marks marks) in
    let count = take_mark (length marks) (encode_marks marks) (omega arith) in
    ground (arith, size, count, length-encode_marks marks)

-- The filemarks written are the filemarks loaded, if there are at most a million and each has 64
-- bits.
load_filemarks-persist_filemarks :
    (marks : List ℕ)
    → length marks ≤ max_filemarks
    → All IsMark marks
    → load_filemarks (some (persist_filemarks marks)) ≡ ok marks
unfolding load_filemarks
load_filemarks-persist_filemarks marks n h =
    let rest : drop 8 (persist_filemarks marks) ≡ encode_marks marks =
      unfold persist_filemarks in drop_mark (length marks) (encode_marks marks) in
    rw (filemark_count-persist_filemarks marks n, rest, decode_marks-encode_marks marks h)

flag_back : (b : Bool) → not (flag_byte b == 0) ≡ b
unfolding flag_byte
flag_back true = refl
flag_back false = refl

-- The retention flags written are the flags loaded, with a checksum that is accepted.
load_retention_state-persist_retention_state :
    (worm locked : Bool)
    → load_retention_state (some (persist_retention_state worm locked))
      ≡ ok (some (record { is_worm_media = worm; retention_locked = locked }))
unfolding load_retention_state persist_retention_state flag_byte le_bytes
load_retention_state-persist_retention_state worm locked =
    let sum = checksum32 (flag_byte worm ∷ flag_byte locked ∷ []) % 65536 in
    let back : of_le (le_bytes 2 sum) ≡ sum = of_le-le_bytes 2 sum (omega arith) in
    let same : (sum == sum) ≡ true = ground arith in
    rw (back, same, flag_back worm, flag_back locked)
