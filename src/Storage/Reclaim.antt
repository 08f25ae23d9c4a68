-- ===== src/Storage/Reclaim.antt =====
-- What a compaction may take away: data-plane/src/storage/reclaim.rs. The candidates stand in the
-- payload of their segment file, the lookup records are those of the map.
pub mod Index
pub mod Codec
pub mod Safety
mod Examples
use Prim.Native.Nat.{zero, suc}
use holo.Prelude.{
  ℕ, ◌+◌, ◌*◌, ◌%◌, ◌-◌, ◌/◌, ltb, leb, ◌==◌, max, Bool, true, false, not, ◌&&◌, ◌||◌, Option, none,
  some, List, [], ◌∷◌, ◌++◌, map, any, find, retain, length, take, drop, get_elem?, if◌then◌else◌,
  saturating_add, is_some,
}
use holo.Prelude.Bytes.{le_bytes, of_le}
use holo.Prelude.Outcome.{Result, ok, err, and_then, ensure, ok_or}
use holo.Storage.Error.{StorageError, corrupt, metadata_budget_exceeded}

-- The fields of `MapLookupRecord` that are read here.
pub record LookupRecord : Type 0 where
  pub blk_map_ref_start : ℕ
  pub blk_map_ref_end : ℕ

pub record Interval : Type 0 where
  pub start : ℕ
  pub end : ℕ

unfoldable pub interval_of : LookupRecord → Interval
interval_of r = record { start = r.blk_map_ref_start; end = r.blk_map_ref_end }

-- A stable sort by start and end.
unfoldable pub before : Interval → Interval → Bool
before i j = ltb i.start j.start || (i.start == j.start && leb i.end j.end)

unfoldable pub insert_sorted : Interval → List Interval → List Interval
insert_sorted i [] = i ∷ []
insert_sorted i (j ∷ rest) =
    let later = insert_sorted i rest in if before i j then i ∷ j ∷ rest else j ∷ later

unfoldable pub sort : List Interval → List Interval
sort [] = []
sort (i ∷ rest) = insert_sorted i (sort rest)

-- The merging loop behind its first interval; `last` is the end of the list made so far.
unfoldable pub merge_into : Interval → List Interval → List Interval
merge_into last [] = last ∷ []
merge_into last (i ∷ rest) = elim (leb i.start (saturating_add last.end 1)) [
  | true ↦ merge_into (record last { end = max last.end i.end }) rest
  | false ↦ last ∷ merge_into i rest
]

unfoldable pub merge : List Interval → List Interval
merge [] = []
merge (i ∷ rest) = merge_into i rest

-- `ReclaimReferenceIndex::from_lookup_records`.
unfoldable pub from_lookup_records : List LookupRecord → List Interval
from_lookup_records records =
    merge (
      sort
        (map interval_of (retain (λ r. not (ltb r.blk_map_ref_end r.blk_map_ref_start)) records)))

-- The interval that the binary search by `start` ends at: the last that starts no later.
unfoldable pub candidate : ℕ → List Interval → Option Interval
candidate id [] = none
candidate id (i ∷ rest) =
    let later = candidate id rest in
    if leb i.start id then (if is_some later then later else some i) else none

abbrev covers_to : ℕ → Option Interval → Bool
covers_to id none = false
covers_to id (some i) = i.start == id || leb id i.end

-- `ReclaimReferenceIndex::contains`.
unfoldable pub contains : ℕ → List Interval → Bool
contains id intervals = covers_to id (candidate id intervals)

pub data ReclaimReason : Type 0 where
  superseded truncated compacted : ReclaimReason

unfoldable pub reason_from_u8 : ℕ → Result StorageError ReclaimReason
reason_from_u8 v =
    if v == 1
    then ok superseded
    else if v == 2
    then ok truncated
    else if v == 3
    then ok compacted
    else err corrupt

-- `reason as u8`.
unfoldable pub reason_to_u8 : ReclaimReason → ℕ
reason_to_u8 superseded = 1
reason_to_u8 truncated = 2
reason_to_u8 compacted = 3

pub record ReclaimCandidate : Type 0 where
  pub candidate_id : ℕ
  pub blk_map_record_id : ℕ
  pub reason : ReclaimReason
  pub safe_to_reclaim : Bool

-- `u8::from`.
unfoldable pub bool_to_u8 : Bool → ℕ
bool_to_u8 true = 1
bool_to_u8 false = 0

abbrev byte_at : ℕ → List ℕ → ℕ
byte_at i bytes = elim (get_elem? bytes i) [ none ↦ 0 | some b ↦ b ]

-- `ReclaimCandidate::encode` and `decode`, of 25 bytes.
unfoldable pub encode : ReclaimCandidate → List ℕ
encode c =
    le_bytes 8 c.candidate_id
    ++ le_bytes 8 c.blk_map_record_id
    ++ reason_to_u8 c.reason ∷ bool_to_u8 c.safe_to_reclaim ∷ 0 ∷ 0 ∷ 0 ∷ 0 ∷ 0 ∷ 0 ∷ 0 ∷ []

unfoldable pub decode : List ℕ → Result StorageError ReclaimCandidate
decode buf = and_then (ensure (leb 25 (length buf)) corrupt) λ _.
    and_then (reason_from_u8 (byte_at 16 buf)) λ reason. ok (record {
      candidate_id = of_le (take 8 buf);
      blk_map_record_id = of_le (take 8 (drop 8 buf));
      reason = reason;
      safe_to_reclaim = byte_at 17 buf == 1;
    })

-- `load_reclaim_candidates`, on the payload of the file: its loop, and its checks of the count.
unfoldable pub decode_candidates : ℕ → List ℕ → Result StorageError (List ReclaimCandidate)
decode_candidates zero bytes = ok []
decode_candidates (suc count) bytes =
    let rest = decode_candidates count (drop 25 bytes) in
    and_then (ensure (leb 25 (length bytes)) corrupt)
      λ _. and_then (decode (take 25 bytes)) λ c. and_then rest λ cs. ok (c ∷ cs)

abbrev pub max_maintenance_metadata_records : ℕ
max_maintenance_metadata_records = 65536

abbrev checked_count : List ℕ → Result StorageError ℕ
checked_count payload = and_then (ensure (leb 8 (length payload)) corrupt) λ _.
    let count = of_le (take 8 payload) in
    and_then (ensure (leb count max_maintenance_metadata_records) metadata_budget_exceeded)
      λ _. and_then (ensure (leb count ((length payload - 8) / 25)) corrupt) λ _. ok count

unfoldable pub load_candidates : List ℕ → Result StorageError (List ReclaimCandidate)
load_candidates payload =
    if length payload == 0
    then ok []
    else and_then (checked_count payload) λ count. decode_candidates count (drop 8 payload)

unfoldable pub encode_all : List ReclaimCandidate → List ℕ
encode_all [] = []
encode_all (c ∷ cs) = encode c ++ encode_all cs

-- `persist_candidates`, the payload that it writes.
unfoldable pub persist_candidates : List ReclaimCandidate → List ℕ
persist_candidates cs = le_bytes 8 (length cs) ++ encode_all cs

-- `candidates.iter_mut().find(..)` with the update, and whether there was one.
unfoldable pub update_existing :
    ℕ
    → ReclaimReason
    → Bool
    → List ReclaimCandidate
    → Option (List ReclaimCandidate × ReclaimCandidate)
update_existing id reason safe [] = none
update_existing id reason safe (c ∷ cs) =
    let new = record c { reason = reason; safe_to_reclaim = safe } in
    let later = update_existing id reason safe cs in
    if c.blk_map_record_id == id
    then some (new ∷ cs, new)
    else elim later [ none ↦ none | some (rest, found) ↦ some (c ∷ rest, found) ]

-- `candidates.last().map(|c| c.candidate_id + 1).unwrap_or(1)`.
unfoldable pub next_candidate_id : List ReclaimCandidate → ℕ
next_candidate_id [] = 1
next_candidate_id (c ∷ []) = (c.candidate_id + 1) % 18446744073709551616
next_candidate_id (c ∷ d ∷ cs) = next_candidate_id (d ∷ cs)

unfoldable pub new_candidate : ℕ → ReclaimReason → Bool → List ReclaimCandidate → ReclaimCandidate
new_candidate id reason safe cs = record {
  candidate_id = next_candidate_id cs;
  blk_map_record_id = id;
  reason = reason;
  safe_to_reclaim = safe;
}

-- One turn of the loop of `upsert_reclaim_candidates`.
unfoldable pub upsert :
    ℕ → ReclaimReason → Bool → List ReclaimCandidate → List ReclaimCandidate × ReclaimCandidate
upsert id reason safe cs =
    let new = new_candidate id reason safe cs in
    elim (update_existing id reason safe cs) [ none ↦ (cs ++ new ∷ [], new) | some both ↦ both ]

unfoldable pub upsert_all :
    List Interval
    → ReclaimReason
    → List ℕ
    → List ReclaimCandidate
    → List ReclaimCandidate × List ReclaimCandidate
upsert_all references reason [] cs = (cs, [])
upsert_all references reason (id ∷ ids) cs =
    let (next, updated) = upsert id reason (not (contains id references)) cs in
    let (final, rest) = upsert_all references reason ids next in (final, updated ∷ rest)

-- `upsert_reclaim_candidates`: the file's new payload, if it is written, and the updated candidates.
unfoldable pub upsert_reclaim_candidates :
    List LookupRecord
    → List ℕ
    → List ℕ
    → ReclaimReason
    → Result StorageError (List ℕ × List ReclaimCandidate)
upsert_reclaim_candidates lookups payload [] reason = ok (payload, [])
upsert_reclaim_candidates lookups payload (id ∷ ids) reason =
    and_then (load_candidates payload) λ cs.
      let (final, updated) = upsert_all (from_lookup_records lookups) reason (id ∷ ids) cs in
      ok (persist_candidates final, updated)

-- The loop of `refresh_reclaim_safety`, and how many candidates it changed.
unfoldable pub refresh : List Interval → List ReclaimCandidate → List ReclaimCandidate × ℕ
refresh references [] = ([], 0)
refresh references (c ∷ cs) =
    let next = not (contains c.blk_map_record_id references) in
    let (rest, updated) = refresh references cs in
    (
      record c { safe_to_reclaim = next } ∷ rest,
      if (c.safe_to_reclaim && next) || (not c.safe_to_reclaim && not next)
          then updated
          else updated + 1,
    )

unfoldable pub refresh_reclaim_safety :
    List LookupRecord → List ℕ → Result StorageError (List ℕ × ℕ)
refresh_reclaim_safety lookups payload = and_then (load_candidates payload) λ cs.
    let (final, updated) = refresh (from_lookup_records lookups) cs in
    ok (persist_candidates final, updated)
