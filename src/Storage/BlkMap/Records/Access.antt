-- ===== src/Storage/BlkMap/Records/Access.antt =====
-- Which record has a block: data-plane/src/storage/blk_map.rs.
use mathlib.Core.List.{Permᴰ}
use holo.Prelude.{
  ℕ, zero, suc, ◌≤◌, ◌<◌, ◌≡◌, refl, sym, ap, ◌∙◌, ltb, ◌==◌, Bool, true, false, Option, none, some,
  List, [], ◌∷◌, get_elem?, find, arith, Bool-cases, Option-cases, inl, inr, if◌then◌else◌,
}
use holo.Storage.BlkMap.{BlkMapRecord, logical_end}
use holo.Storage.BlkMap.Log.{insert_after}
use holo.Storage.BlkMap.Log.Orders.{count_of, find-Permᴰ}
use holo.Storage.BlkMap.Records.{
  is_active, overlaps, insert_record, covers, in_ids, scan, locate, indexed, RecordIndex, index_get,
}
use holo.Storage.BlkMap.Records.Ranges.{apart, IsMap, insert_record-IsMap, insert_record_sorted}

-- What the map says of a logical block: the active record whose range has it.
unfoldable pub holder : List BlkMapRecord → ℕ → Option BlkMapRecord
holder rs block = find (covers block) rs

none_below :
    (block end : ℕ) (rs : List BlkMapRecord)
    → apart end rs ≡ true
    → block < end
    → count_of (covers block) rs ≤ 0
unfolding apart covers count_of
none_below block end [] h l = omega arith
none_below block end (x ∷ rs) h l =
    ground (arith, none_below block end rs, none_below block (logical_end x) rs)

-- One record at most has a block, so that another order of the records has the same holders.
one_holder :
    (block end : ℕ) (rs : List BlkMapRecord) → apart end rs ≡ true → count_of (covers block) rs ≤ 1
unfolding apart covers count_of
one_holder block end [] h = omega arith
one_holder block end (x ∷ rs) h = ground (
  arith,
  one_holder block end rs,
  one_holder block (logical_end x) rs,
  none_below block (logical_end x) rs,
)

pub holder-Permᴰ :
    (xs rs : List BlkMapRecord) (block : ℕ)
    → Permᴰ xs rs
    → IsMap rs
    → holder xs block ≡ holder rs block
unfolding holder
holder-Permᴰ xs rs block p m =
    let (counted, found) = find-Permᴰ (covers block) p in
    found (omega (arith, counted, one_holder block 0 rs m.disjoint))

pub below_apart :
    (block end : ℕ) (rs : List BlkMapRecord)
    → apart end rs ≡ true
    → block < end
    → holder rs block ≡ none
unfolding apart holder find covers
below_apart block end [] h l = refl
below_apart block end (x ∷ rs) h l =
    ground (arith, below_apart block end rs, below_apart block (logical_end x) rs)

apart_member :
    (end : ℕ) (r : BlkMapRecord) (rs : List BlkMapRecord)
    → apart end (insert_after r rs) ≡ true
    → is_active r ≡ true
    → end ≤ r.logical_start
unfolding apart insert_after
apart_member end r [] h a = ground arith
apart_member end r (x ∷ rs) h a =
    ground (arith, apart_member end r rs, apart_member (logical_end x) r rs)

holder-insert_after :
    (block end : ℕ) (r : BlkMapRecord) (rs : List BlkMapRecord)
    → apart end (insert_after r rs) ≡ true
    → holder (insert_after r rs) block ≡ (if covers block r then some r else holder rs block)
unfolding apart insert_after holder find covers
holder-insert_after block end r [] h = ground arith
holder-insert_after block end r (x ∷ rs) h = ground (
  arith,
  holder-insert_after block end r rs,
  holder-insert_after block (logical_end x) r rs,
  apart_member (logical_end x) r rs,
)

-- After a record has passed the overlap test and joined the list, each block of its range is held by
-- it and every other block by the record that held it before, if its range is not empty.
pub holder-insert_record :
    (rs : List BlkMapRecord) (r : BlkMapRecord) (block : ℕ)
    → IsMap rs
    → ltb r.logical_start (logical_end r) ≡ true
    → overlaps rs r ≡ false
    → holder (insert_record rs r) block ≡ (if covers block r then some r else holder rs block)
holder-insert_record rs r block h p o =
    let same = insert_record_sorted rs r h.in_order in
    let kept = insert_record-IsMap rs r h p o in
    ap (λ l. holder l block) same
    ∙ holder-insert_after block 0 r rs (sym (ap (apart 0) same) ∙ kept.disjoint)

abbrev pub stands : ℕ → Option BlkMapRecord → Bool
stands id none = false
stands id (some r) = r.record_id == id

-- An id of the index has a position, and the record there has the id.
unfoldable pub is_indexed : List BlkMapRecord → RecordIndex → ℕ → Bool
is_indexed rs index id = elim (index_get id index) [
  | none ↦ true
  | some i ↦ stands id (get_elem? rs i)
]

member_beyond :
    (end i : ℕ) (r : BlkMapRecord) (rs : List BlkMapRecord) (block : ℕ)
    → apart end rs ≡ true
    → get_elem? rs i ≡ some r
    → covers block r ≡ true
    → end ≤ block
unfolding apart covers
member_beyond end i r [] block h g c = absurd (ground arith)
member_beyond end zero r (x ∷ rs) block h g c = ground arith
member_beyond end (suc i) r (x ∷ rs) block h g c =
    ground (arith, member_beyond end i r rs block, member_beyond (logical_end x) i r rs block)

member_holder :
    (end i : ℕ) (r : BlkMapRecord) (rs : List BlkMapRecord) (block : ℕ)
    → apart end rs ≡ true
    → get_elem? rs i ≡ some r
    → covers block r ≡ true
    → holder rs block ≡ some r
unfolding apart holder find covers
member_holder end i r [] block h g c = absurd (ground arith)
member_holder end zero r (x ∷ rs) block h g c = ground arith
member_holder end (suc i) r (x ∷ rs) block h g c = ground (
  arith,
  member_beyond (logical_end x) i r rs block,
  member_holder end i r rs block,
  member_holder (logical_end x) i r rs block,
)

scan_beyond :
    (end : ℕ) (rs : List BlkMapRecord) (block first final : ℕ)
    → apart end rs ≡ true
    → block < end
    → scan rs block first final ≡ none
unfolding apart scan find covers
scan_beyond end [] block first final h l = refl
scan_beyond end (x ∷ rs) block first final h l =
    ground (
      arith,
      scan_beyond end rs block first final,
      scan_beyond (logical_end x) rs block first final,
    )

-- The holder, if its id is asked for.
unfoldable pub with_id : ℕ → ℕ → Option BlkMapRecord → Option BlkMapRecord
with_id first final none = none
with_id first final (some r) = if in_ids first final r then some r else none

scan_holder :
    (end : ℕ) (rs : List BlkMapRecord) (block first final : ℕ)
    → apart end rs ≡ true
    → scan rs block first final ≡ with_id first final (holder rs block)
unfolding apart holder find scan with_id covers
scan_holder end [] block first final h = refl
scan_holder end (x ∷ rs) block first final h = ground (
  arith,
  scan_holder end rs block first final,
  scan_holder (logical_end x) rs block first final,
  scan_beyond (logical_end x) rs block first final,
)

indexed_record :
    (rs : List BlkMapRecord) (index : RecordIndex) (id : ℕ) (r : BlkMapRecord)
    → is_indexed rs index id ≡ true
    → indexed rs index id ≡ some r
    → (i : ℕ) × ((get_elem? rs i ≡ some r) × ((r.record_id == id) ≡ true))
unfolding is_indexed
indexed_record rs index id r h e = elim (Option-cases (index_get id index)) [
  | inl n ↦ absurd (ground arith)
  | inr (i, n) ↦ (i, (ground arith, ground arith))
]

locate_by_index :
    (rs : List BlkMapRecord) (index : RecordIndex) (block first final : ℕ)
    → (found : Option BlkMapRecord) → IsMap rs
    → is_indexed rs index first ≡ true
    → (first == final) ≡ true
    → indexed rs index first ≡ found
    → elim found [
      | none ↦ scan rs block first final
      | some r ↦ if covers block r then some r else scan rs block first final
    ]
      ≡ with_id first final (holder rs block)
locate_by_index rs index block first final none h k f e =
    scan_holder 0 rs block first final h.disjoint
locate_by_index rs index block first final (some r) h k f e =
    let (i, (g, same)) = indexed_record rs index first r k e in
    elim (Bool-cases (covers block r)) [
      | inl c ↦
          let held = member_holder 0 i r rs block h.disjoint g c in
          let asked : in_ids first final r ≡ true = ground arith in
          unfold with_id in rw (c, held, asked)
      | inr c ↦ rw c (scan_holder 0 rs block first final h.disjoint)
    ]

-- The search by the index and the scan find the same: the record that holds the block, if its id is
-- in the range asked for, and nothing otherwise. The ranges are disjoint and the index is right.
pub locate-holder :
    (rs : List BlkMapRecord) (index : RecordIndex) (block first final : ℕ)
    → IsMap rs
    → is_indexed rs index first ≡ true
    → locate rs index block first final ≡ with_id first final (holder rs block)
unfolding locate
locate-holder rs index block first final h k = elim (Bool-cases (first == final)) [
  | inl e ↦ rw e (locate_by_index rs index block first final (indexed rs index first) h k e refl)
  | inr e ↦ rw e (scan_holder 0 rs block first final h.disjoint)
]
