-- ===== src/Storage/DataPath/Resolve.antt =====
-- The two maps read together: data-plane/src/storage/data_path.rs.
use holo.Prelude.{
  ℕ, ◌≡◌, refl, sym, ap, ◌∙◌, leb, true, Option, none, some, List, arith, Option-cases, inl, inr,
  le→leb,
}
use holo.Prelude.Outcome.{ok}
use holo.Storage.BlkMap.{BlkMapRecord}
use holo.Storage.BlkMap.Records.{RecordIndex}
use holo.Storage.BlkMap.Records.Ranges.{IsMap}
use holo.Storage.BlkMap.Records.Access.{holder, is_indexed, with_id, locate-holder}
use holo.Storage.MapLookup.{MapLookupRecord, reaching, rebuild_from}
use holo.Storage.MapLookup.Rebuild.{last_by, locate-once, holder_found, Points}
use holo.Storage.DataPath.{follow, resolve}

with_id_empty : (o : Option BlkMapRecord) (first end : ℕ) → o ≡ none → with_id first end o ≡ none
unfolding with_id
with_id_empty none first end h = refl
with_id_empty (some r) first end h = absurd (ground arith)

resolve_search :
    (ls : List MapLookupRecord) (records : List BlkMapRecord) (index : RecordIndex) (block : ℕ)
    → resolve ls records index block
      ≡ follow records index block (reaching block (last_by block none ls))
unfolding resolve
resolve_search ls records index block = ap (follow records index block) (locate-once block ls)

-- A lookup record never leads to another record than the holder.
follow_empty :
    (records : List BlkMapRecord) (index : RecordIndex) (block : ℕ) (o : Option MapLookupRecord)
    → IsMap records
    → ((id : ℕ) → is_indexed records index id ≡ true)
    → holder records block ≡ none
    → follow records index block o ≡ none
unfolding follow
follow_empty records index block none h k n = refl
follow_empty records index block (some l) h k n =
    locate-holder records index block l.blk_map_ref_start l.blk_map_ref_end h
      (k l.blk_map_ref_start)
    ∙ with_id_empty (holder records block) l.blk_map_ref_start l.blk_map_ref_end n

with_own_id :
    (r : BlkMapRecord) (l : MapLookupRecord) (block : ℕ)
    → Points block r l
    → with_id l.blk_map_ref_start l.blk_map_ref_end (some r) ≡ some r
unfolding with_id
with_own_id r l block p = ground (arith, p.start_same, p.end_same)

follow_found :
    (records : List BlkMapRecord) (index : RecordIndex) (block : ℕ) (r : BlkMapRecord)
    (l : MapLookupRecord)
    → IsMap records
    → ((id : ℕ) → is_indexed records index id ≡ true)
    → holder records block ≡ some r
    → Points block r l
    → follow records index block (reaching block (some l)) ≡ some r
unfolding reaching follow
follow_found records index block r l h k f p =
    let reaches : leb block l.logical_max ≡ true = le→leb _ _ p.reaches in
    rw reaches (
      locate-holder records index block l.blk_map_ref_start l.blk_map_ref_end h
        (k l.blk_map_ref_start)
      ∙ ap (with_id l.blk_map_ref_start l.blk_map_ref_end) f
      ∙ with_own_id r l block p)

-- Over a lookup map that was rebuilt from the block map, the two steps of a read find for every
-- block the active record whose range has it, and nothing for a block that no active range has. The
-- ranges are disjoint, the index is right, and the rebuild succeeded.
pub resolve-rebuild_from :
    (records : List BlkMapRecord) (index : RecordIndex) (lookups : List MapLookupRecord) (block : ℕ)
    → IsMap records
    → ((id : ℕ) → is_indexed records index id ≡ true)
    → rebuild_from 0 records ≡ ok lookups
    → resolve lookups records index block ≡ holder records block
resolve-rebuild_from records index lookups block h k e =
    resolve_search lookups records index block ∙ elim (Option-cases (holder records block)) [
      | inl n ↦ follow_empty records index block _ h k n ∙ sym n
      | inr (r, f) ↦
          let (l, (search, points)) =
            holder_found block 0 0 none records lookups r h.disjoint e f in
          ap (λ o. follow records index block (reaching block o)) search
          ∙ follow_found records index block r l h k f points
          ∙ sym f
    ]
