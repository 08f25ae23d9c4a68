-- ===== src/Storage/BlkMap/Records/Ranges.antt =====
-- The ranges of the active records: data-plane/src/storage/blk_map.rs.
use mathlib.Core.List.{reverse, reverse-cons}
use holo.Prelude.{
  ℕ, ◌≤◌, ◌≡◌, refl, sym, ap, ◌∙◌, ltb, leb, Bool, true, false, ◌&&◌, ◌||◌, Option, none, some,
  List, [], ◌∷◌, ◌++◌, take, drop, find, arith, Bool-cases, inl, inr, if◌then◌else◌,
}
use holo.Storage.BlkMap.{BlkMapRecord, logical_end}
use holo.Storage.BlkMap.Log.{insert_after}
use holo.Storage.BlkMap.Log.Written.{insert_after-ascending, ascending}
use holo.Storage.BlkMap.Records.{
  is_active, partition_point, starts_before, starts_by, overlaps_previous, overlaps_next, overlaps,
  last, insert_at, is_last, insert_record,
}

-- The active ranges are not empty, and each begins where the one before it ends or later.
unfoldable pub apart : ℕ → List BlkMapRecord → Bool
apart end [] = true
apart end (r ∷ rs) =
    let here = apart (logical_end r) rs in
    let beyond = apart end rs in
    if is_active r
    then leb end r.logical_start && (ltb r.logical_start (logical_end r) && here)
    else beyond

-- The overlap test as one pass; `previous` is the active record met last.
overlaps_from : Option BlkMapRecord → List BlkMapRecord → BlkMapRecord → Bool
overlaps_from previous [] r = overlaps_previous previous r
overlaps_from previous (x ∷ xs) r =
    let rest = overlaps_from (if is_active x then some x else previous) xs r in
    if starts_before r x
    then rest
    else overlaps_previous previous r || overlaps_next (find is_active (x ∷ xs)) r

abbrev or_else : Option BlkMapRecord → Option BlkMapRecord → Option BlkMapRecord
or_else none o = o
or_else (some x) o = some x

find-append :
    (p : BlkMapRecord → Bool) (xs ys : List BlkMapRecord)
    → find p (xs ++ ys) ≡ or_else (find p xs) (find p ys)
unfolding find
find-append p [] ys = refl
find-append p (x ∷ xs) ys = ground (arith, find-append p xs ys)

find-reverse :
    (p : BlkMapRecord → Bool) (x : BlkMapRecord) (xs : List BlkMapRecord)
    → find p (reverse (x ∷ xs)) ≡ or_else (find p (reverse xs)) (if p x then some x else none)
unfolding find
find-reverse p x xs = ap (find p) (reverse-cons x xs) ∙ find-append p (reverse xs) (x ∷ [])

or_else_last :
    (o previous : Option BlkMapRecord) (b : Bool) (x : BlkMapRecord)
    → or_else (or_else o (if b then some x else none)) previous
      ≡ or_else o (if b then some x else previous)
or_else_last none previous true x = refl
or_else_last none previous false x = refl
or_else_last (some y) previous b x = refl

or_else_right : (o : Option BlkMapRecord) → or_else o none ≡ o
or_else_right none = refl
or_else_right (some x) = refl

or_false : (b : Bool) → (b || false) ≡ b
or_false true = refl
or_false false = refl

overlaps_from_split :
    (previous : Option BlkMapRecord) (xs : List BlkMapRecord) (r : BlkMapRecord)
    → overlaps_from previous xs r ≡ (
        overlaps_previous
          (or_else
            (find is_active (reverse (take (partition_point (starts_before r) xs) xs)))
            previous)
          r
        || overlaps_next (find is_active (drop (partition_point (starts_before r) xs) xs)) r)
unfolding overlaps_from partition_point overlaps_next overlaps_previous find
overlaps_from_split previous [] r = unfold find in sym (or_false (overlaps_previous previous r))
overlaps_from_split previous (x ∷ xs) r = elim (Bool-cases (starts_before r x)) [
  | inl e ↦
      let next = if is_active x then some x else previous in
      let before = find is_active (reverse (take (partition_point (starts_before r) xs) xs)) in
      rw (
        e,
        overlaps_from_split next xs r,
        find-reverse is_active x (take (partition_point (starts_before r) xs) xs),
        or_else_last before previous (is_active x) x,
      )
  | inr e ↦ rw e
]

overlaps-once :
    (xs : List BlkMapRecord) (r : BlkMapRecord) → overlaps xs r ≡ overlaps_from none xs r
unfolding overlaps
overlaps-once xs r =
    let before = find is_active (reverse (take (partition_point (starts_before r) xs) xs)) in
    rw (overlaps_from_split none xs r, or_else_right before)

abbrev end_of : Option BlkMapRecord → ℕ
end_of none = 0
end_of (some x) = logical_end x

-- A new range that ends before the next active one may stand in front of the list.
apart_in_front :
    (end : ℕ) (xs : List BlkMapRecord) (r : BlkMapRecord)
    → apart end xs ≡ true
    → overlaps_next (find is_active xs) r ≡ false
    → apart (logical_end r) xs ≡ true
unfolding apart find overlaps_next
apart_in_front end [] r h n = refl
apart_in_front end (x ∷ xs) r h n = ground (arith, apart_in_front end xs r)

-- Past the records that start before the new one.
insert_behind :
    (end : ℕ) (xs : List BlkMapRecord) (r : BlkMapRecord)
    → is_active r ≡ true
    → ltb r.logical_start (logical_end r) ≡ true
    → end ≤ r.logical_start
    → apart end xs ≡ true
    → overlaps_next (find is_active xs) r ≡ false
    → apart end (insert_after r xs) ≡ true
unfolding apart insert_after find overlaps_next
insert_behind end [] r a p e h n = ground arith
insert_behind end (x ∷ xs) r a p e h n =
    ground (arith, apart_in_front end (x ∷ xs) r h n, insert_behind end xs r a p e)

previous_end :
    (previous : Option BlkMapRecord) (r : BlkMapRecord)
    → overlaps_previous previous r ≡ false
    → end_of previous ≤ r.logical_start
unfolding overlaps_previous
previous_end none r h = omega arith
previous_end (some x) r h = ground arith

insert_after-apart :
    (previous : Option BlkMapRecord) (xs : List BlkMapRecord) (r : BlkMapRecord)
    → is_active r ≡ true
    → ltb r.logical_start (logical_end r) ≡ true
    → apart (end_of previous) xs ≡ true
    → overlaps_from previous xs r ≡ false
    → apart (end_of previous) (insert_after r xs) ≡ true
unfolding apart insert_after overlaps_from
insert_after-apart previous [] r a p h o = ground (arith, previous_end previous r o)
insert_after-apart previous (x ∷ xs) r a p h o = ground (
  arith,
  previous_end previous r,
  insert_behind (end_of previous) (x ∷ xs) r a p,
  insert_after-apart (some x) xs r a p,
  insert_after-apart previous xs r a p,
)

-- A stale record has no range.
insert_after_stale :
    (end : ℕ) (xs : List BlkMapRecord) (r : BlkMapRecord)
    → is_active r ≡ false
    → apart end xs ≡ true
    → apart end (insert_after r xs) ≡ true
unfolding apart insert_after
insert_after_stale end [] r a h = ground arith
insert_after_stale end (x ∷ xs) r a h =
    ground (arith, insert_after_stale end xs r a, insert_after_stale (logical_end x) xs r a)

-- The two ways in which a record joins the list are one.
insert_at_after :
    (xs : List BlkMapRecord) (r : BlkMapRecord)
    → insert_at (partition_point (starts_by r) xs) r xs ≡ insert_after r xs
unfolding insert_at partition_point insert_after
insert_at_after [] r = refl
insert_at_after (x ∷ xs) r = ground (arith, insert_at_after xs r)

last_bounds :
    (low : ℕ) (r x : BlkMapRecord) (xs : List BlkMapRecord)
    → ascending low (x ∷ xs) ≡ true
    → is_last (last (x ∷ xs)) r ≡ true
    → x.logical_start ≤ r.logical_start
unfolding ascending last
last_bounds low r x [] h l = ground arith
last_bounds low r x (y ∷ xs) h l = ground (arith, last_bounds x.logical_start r y xs)

insert_last :
    (low : ℕ) (xs : List BlkMapRecord) (r : BlkMapRecord)
    → ascending low xs ≡ true
    → is_last (last xs) r ≡ true
    → insert_after r xs ≡ xs ++ r ∷ []
unfolding insert_after ascending last
insert_last low [] r h l = refl
insert_last low (x ∷ []) r h l = ground arith
insert_last low (x ∷ y ∷ xs) r h l =
    ground (arith, last_bounds low r x (y ∷ xs) h l, insert_last x.logical_start (y ∷ xs) r)

pub insert_record_sorted :
    (xs : List BlkMapRecord) (r : BlkMapRecord)
    → ascending 0 xs ≡ true
    → insert_record xs r ≡ insert_after r xs
unfolding insert_record
insert_record_sorted xs r h = ground (arith, insert_last 0 xs r h, insert_at_after xs r)

-- The records are in the order of their starts, and no two active ranges have a block in common.
pub record IsMap (rs : List BlkMapRecord) : Type 0 where
  pub in_order : ascending 0 rs ≡ true
  pub disjoint : apart 0 rs ≡ true

-- A record that the overlap test lets pass joins the list in order, and the active ranges stay
-- without a common block, if its range is not empty.
pub insert_record-IsMap :
    (rs : List BlkMapRecord) (r : BlkMapRecord)
    → IsMap rs
    → ltb r.logical_start (logical_end r) ≡ true
    → overlaps rs r ≡ false
    → IsMap (insert_record rs r)
insert_record-IsMap rs r h p o =
    let same = insert_record_sorted rs r h.in_order in
    let free = sym (overlaps-once rs r) ∙ o in
    record {
      in_order = ap (ascending 0) same ∙ insert_after-ascending 0 rs r (omega arith) h.in_order;
      disjoint = ap (apart 0) same ∙ elim (Bool-cases (is_active r)) [
        | inl a ↦ insert_after-apart none rs r a p h.disjoint free
        | inr a ↦ insert_after_stale 0 rs r a h.disjoint
      ];
    }
