-- ===== src/Storage/BlkMap/Records/Stale.antt =====
-- Marking records stale: data-plane/src/storage/blk_map.rs.
use holo.Prelude.{
  ℕ, ◌≤◌, ◌≡◌, refl, ap, ◌∙◌, true, false, Option, none, some, List, [], ◌∷◌, find, any, map,
  retain, arith, if◌then◌else◌,
}
use holo.Storage.BlkMap.{BlkMapRecord, logical_end}
use holo.Storage.BlkMap.Log.{sort_by_start}
use holo.Storage.BlkMap.Log.RoundTrip.{has_id}
use holo.Storage.BlkMap.Log.Written.{distinct, ascending, sort_into_sorted}
use holo.Storage.BlkMap.Records.{
  is_active, covers, mark_stale, is_target, stale_updates, replace, replace_all,
}
use holo.Storage.BlkMap.Records.Ranges.{apart, IsMap}
use holo.Storage.BlkMap.Records.Access.{holder, below_apart}

unfoldable pub stale_in : List ℕ → BlkMapRecord → BlkMapRecord
stale_in ids r = if is_target ids r then mark_stale r else r

stale_updates-has_id :
    (id : ℕ) (ids : List ℕ) (rs : List BlkMapRecord)
    → has_id id rs ≡ false
    → has_id id (stale_updates ids rs) ≡ false
unfolding has_id any stale_updates retain mark_stale
stale_updates-has_id id ids [] h = refl
stale_updates-has_id id ids (x ∷ rs) h = ground (arith, stale_updates-has_id id ids rs)

replace_all_skip :
    (y : BlkMapRecord) (updated rs : List BlkMapRecord)
    → has_id y.record_id updated ≡ false
    → replace_all updated (y ∷ rs) ≡ y ∷ replace_all updated rs
unfolding replace_all replace has_id any
replace_all_skip y [] rs h = refl
replace_all_skip y (r ∷ updated) rs h = ground (arith, replace_all_skip y updated (replace r rs))

replace_all-stale_updates :
    (ids : List ℕ) (rs : List BlkMapRecord)
    → distinct rs ≡ true
    → replace_all (stale_updates ids rs) rs ≡ map (stale_in ids) rs
unfolding distinct stale_updates retain replace_all replace stale_in mark_stale
replace_all-stale_updates ids [] h = refl
replace_all-stale_updates ids (x ∷ rs) h = ground (
  arith,
  replace_all-stale_updates ids rs,
  stale_updates-has_id x.record_id ids rs,
  replace_all_skip (mark_stale x) (stale_updates ids rs) rs,
  replace_all_skip x (stale_updates ids rs) rs,
)

apart_weaker :
    (low end : ℕ) (rs : List BlkMapRecord) → low ≤ end → apart end rs ≡ true → apart low rs ≡ true
unfolding apart
apart_weaker low end [] l h = refl
apart_weaker low end (x ∷ rs) l h = ground (arith, apart_weaker low end rs l)

stale_in-apart :
    (ids : List ℕ) (end : ℕ) (rs : List BlkMapRecord)
    → apart end rs ≡ true
    → apart end (map (stale_in ids) rs) ≡ true
unfolding apart stale_in mark_stale is_active logical_end
stale_in-apart ids end [] h = refl
stale_in-apart ids end (x ∷ rs) h = ground (
  arith,
  stale_in-apart ids end rs,
  stale_in-apart ids (logical_end x) rs,
  apart_weaker end (logical_end x) rs,
)

stale_in-ascending :
    (ids : List ℕ) (low : ℕ) (rs : List BlkMapRecord)
    → ascending low rs ≡ true
    → ascending low (map (stale_in ids) rs) ≡ true
unfolding ascending stale_in mark_stale
stale_in-ascending ids low [] h = refl
stale_in-ascending ids low (x ∷ rs) h = ground (arith, stale_in-ascending ids x.logical_start rs)

-- What is left of the holder when the records of the ids are stale.
unfoldable pub unless_target : List ℕ → Option BlkMapRecord → Option BlkMapRecord
unless_target ids none = none
unless_target ids (some r) = if is_target ids r then none else some r

stale_in-holder :
    (ids : List ℕ) (block end : ℕ) (rs : List BlkMapRecord)
    → apart end rs ≡ true
    → holder (map (stale_in ids) rs) block ≡ unless_target ids (holder rs block)
unfolding apart holder find covers stale_in mark_stale is_active logical_end unless_target
stale_in-holder ids block end [] h = refl
stale_in-holder ids block end (x ∷ rs) h = ground (
  arith,
  stale_in-holder ids block end rs,
  stale_in-holder ids block (logical_end x) rs,
  below_apart block (logical_end x) rs,
)

-- The cached records after a batch of ids has been marked stale, sorted again: they still are in
-- order and disjoint, a record of the ids holds no block any more, and every other record holds what
-- it held. The ids of the records differ.
pub stale_batch :
    (ids : List ℕ) (rs : List BlkMapRecord) (block : ℕ)
    → IsMap rs
    → distinct rs ≡ true
    → IsMap (sort_by_start (replace_all (stale_updates ids rs) rs))
      × (holder (sort_by_start (replace_all (stale_updates ids rs) rs)) block
          ≡ unless_target ids (holder rs block))
stale_batch ids rs block h d =
    let order = stale_in-ascending ids 0 rs h.in_order in
    let same =
      ap sort_by_start (replace_all-stale_updates ids rs d)
      ∙ sort_into_sorted 0 [] (map (stale_in ids) rs) order in
    (
      record {
        in_order = ap (ascending 0) same ∙ order;
        disjoint = ap (apart 0) same ∙ stale_in-apart ids 0 rs h.disjoint;
      },
      ap (λ l. holder l block) same ∙ stale_in-holder ids block 0 rs h.disjoint,
    )
