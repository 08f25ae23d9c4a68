-- ===== src/Storage/BlkMap/Records.antt =====
-- The cached records of a block map: the overlap test, the insertion, the index of ids and the
-- search of data-plane/src/storage/blk_map.rs.
pub mod Ranges
pub mod Access
pub mod Index
pub mod Stale
use Prim.Native.Nat.{zero, suc}
use mathlib.Core.List.{reverse}
use holo.Prelude.{
  ℕ, ◌+◌, ltb, leb, ◌==◌, max, Bool, true, false, not, ◌&&◌, ◌||◌, Option, none, some, List, [],
  ◌∷◌, ◌++◌, map, length, take, drop, get_elem?, find, retain, any, if◌then◌else◌, saturating_add,
}
use holo.Storage.BlkMap.{BlkMapState, active, stale, BlkMapRecord, logical_end}

unfoldable pub is_active : BlkMapRecord → Bool
is_active r = elim r.state [ active ↦ true | stale ↦ false ]

-- `slice::partition_point` where the test holds of a prefix.
unfoldable pub partition_point : (BlkMapRecord → Bool) → List BlkMapRecord → ℕ
partition_point p [] = 0
partition_point p (x ∷ xs) = let rest = partition_point p xs in if p x then suc rest else 0

-- `existing.logical_start < record.logical_start`, and with `<=`.
abbrev pub starts_before : BlkMapRecord → BlkMapRecord → Bool
starts_before r x = ltb x.logical_start r.logical_start

abbrev pub starts_by : BlkMapRecord → BlkMapRecord → Bool
starts_by r x = leb x.logical_start r.logical_start

unfoldable pub overlaps_previous : Option BlkMapRecord → BlkMapRecord → Bool
overlaps_previous none r = false
overlaps_previous (some x) r = ltb r.logical_start (logical_end x)

unfoldable pub overlaps_next : Option BlkMapRecord → BlkMapRecord → Bool
overlaps_next none r = false
overlaps_next (some x) r = ltb x.logical_start (logical_end r)

-- The test of `append_blk_map_record`, against the active neighbours on both sides.
unfoldable pub overlaps : List BlkMapRecord → BlkMapRecord → Bool
overlaps records r =
    let insert_idx = partition_point (starts_before r) records in
    let previous_active = find is_active (reverse (take insert_idx records)) in
    let next_active = find is_active (drop insert_idx records) in
    overlaps_previous previous_active r || overlaps_next next_active r

unfoldable pub last : List BlkMapRecord → Option BlkMapRecord
last [] = none
last (x ∷ []) = some x
last (x ∷ y ∷ xs) = last (y ∷ xs)

unfoldable pub insert_at : ℕ → BlkMapRecord → List BlkMapRecord → List BlkMapRecord
insert_at i r xs = take i xs ++ r ∷ drop i xs

-- The index of the positions by id: a later entry of an id hides an earlier one.
abbrev pub RecordIndex : Type 0
RecordIndex = List (ℕ × ℕ)

unfoldable pub index_get : ℕ → RecordIndex → Option ℕ
index_get id [] = none
index_get id ((key, idx) ∷ index) =
    let rest = index_get id index in if key == id then some idx else rest

unfoldable pub build_from : ℕ → List BlkMapRecord → RecordIndex → RecordIndex
build_from i [] index = index
build_from i (r ∷ rs) index = build_from (i + 1) rs ((r.record_id, i) ∷ index)

unfoldable pub build_record_index : List BlkMapRecord → RecordIndex
build_record_index records = build_from 0 records []

unfoldable pub max_id : List BlkMapRecord → ℕ
max_id [] = 0
max_id (r ∷ rs) = max r.record_id (max_id rs)

unfoldable pub next_record_id : List BlkMapRecord → ℕ
next_record_id records = saturating_add (max_id records) 1

abbrev pub is_last : Option BlkMapRecord → BlkMapRecord → Bool
is_last none r = true
is_last (some x) r = leb x.logical_start r.logical_start

-- How the record joins the sorted list, and the index beside it.
unfoldable pub insert_record : List BlkMapRecord → BlkMapRecord → List BlkMapRecord
insert_record records r =
    if is_last (last records) r
    then records ++ r ∷ []
    else insert_at (partition_point (starts_by r) records) r records

unfoldable pub insert_index : List BlkMapRecord → RecordIndex → BlkMapRecord → RecordIndex
insert_index records index r =
    if is_last (last records) r
    then (r.record_id, length records) ∷ index
    else build_record_index (insert_record records r)

-- Whether the record is active and has the block.
unfoldable pub covers : ℕ → BlkMapRecord → Bool
covers block r = is_active r && (leb r.logical_start block && ltb block (logical_end r))

abbrev pub in_ids : ℕ → ℕ → BlkMapRecord → Bool
in_ids first end r = leb first r.record_id && leb r.record_id end

-- The scan of `locate_active_record`.
unfoldable pub scan : List BlkMapRecord → ℕ → ℕ → ℕ → Option BlkMapRecord
scan records block first end = find (λ r. covers block r && in_ids first end r) records

abbrev pub indexed : List BlkMapRecord → RecordIndex → ℕ → Option BlkMapRecord
indexed records index id = elim (index_get id index) [ none ↦ none | some i ↦ get_elem? records i ]

-- `locate_active_record` on the cached list: the index first if one id is asked for.
unfoldable pub locate : List BlkMapRecord → RecordIndex → ℕ → ℕ → ℕ → Option BlkMapRecord
locate records index block first end =
    if first == end
    then elim (indexed records index first) [
      | none ↦ scan records block first end
      | some r ↦ if covers block r then some r else scan records block first end
    ]
    else scan records block first end

unfoldable pub mark_stale : BlkMapRecord → BlkMapRecord
mark_stale r = record r { state = stale }

abbrev pub is_target : List ℕ → BlkMapRecord → Bool
is_target ids r = any (λ id. id == r.record_id) ids

-- The records of `mark_blk_map_stale_batch` that are written again.
unfoldable pub stale_updates : List ℕ → List BlkMapRecord → List BlkMapRecord
stale_updates ids records = map mark_stale (retain (is_target ids) records)

-- The first record of the id is replaced.
unfoldable pub replace : BlkMapRecord → List BlkMapRecord → List BlkMapRecord
replace r [] = []
replace r (x ∷ xs) =
    let rest = replace r xs in if x.record_id == r.record_id then r ∷ xs else x ∷ rest

unfoldable pub replace_all : List BlkMapRecord → List BlkMapRecord → List BlkMapRecord
replace_all [] records = records
replace_all (r ∷ updated) records = replace_all updated (replace r records)
