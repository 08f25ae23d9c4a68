-- ===== src/Storage/BlkMap/Records/Index.antt =====
-- The index of the record ids: data-plane/src/storage/blk_map.rs.
use mathlib.Core.List.{append-nil}
use holo.Prelude.{
  ℕ, zero, suc, ◌+◌, ◌≡◌, refl, sym, ap, ◌∙◌, true, List, [], ◌∷◌, ◌++◌, length, get_elem?,
  length-append, arith, Bool-cases, Option-cases, inl, inr,
}
use holo.Storage.BlkMap.{BlkMapRecord}
use holo.Storage.BlkMap.Log.Written.{append_assoc}
use holo.Storage.BlkMap.Records.{
  RecordIndex, index_get, build_from, build_record_index, last, is_last, insert_record,
  insert_index,
}
use holo.Storage.BlkMap.Records.Access.{stands, is_indexed}

stands-append :
    (id i : ℕ) (rs more : List BlkMapRecord)
    → stands id (get_elem? rs i) ≡ true
    → stands id (get_elem? (rs ++ more) i) ≡ true
stands-append id i [] more h = absurd (ground arith)
stands-append id zero (x ∷ rs) more h = h
stands-append id (suc i) (x ∷ rs) more h = stands-append id i rs more h

stands_last :
    (rs : List BlkMapRecord) (r : BlkMapRecord)
    → stands r.record_id (get_elem? (rs ++ r ∷ []) (length rs)) ≡ true
stands_last [] r = ground arith
stands_last (x ∷ rs) r = stands_last rs r

is_indexed_last :
    (rs : List BlkMapRecord) (index : RecordIndex) (r : BlkMapRecord) (id : ℕ)
    → is_indexed rs index id ≡ true
    → is_indexed (rs ++ r ∷ []) ((r.record_id, length rs) ∷ index) id ≡ true
unfolding is_indexed index_get
is_indexed_last rs index r id h =
    let here = stands_last rs r in
    elim (Option-cases (index_get id index)) [
      | inl e ↦ ground arith
      | inr (i, e) ↦ ground (arith, stands-append id i rs (r ∷ []))
    ]

is_indexed-build_from :
    (before : List BlkMapRecord) (index : RecordIndex) (rs : List BlkMapRecord) (i id : ℕ)
    → i ≡ length before
    → is_indexed before index id ≡ true
    → is_indexed (before ++ rs) (build_from i rs index) id ≡ true
unfolding build_from
is_indexed-build_from before index [] i id e h =
    ap (λ l. is_indexed l index id) (append-nil before) ∙ h
is_indexed-build_from before index (r ∷ rs) i id e h =
    ap (λ l. is_indexed l (build_from (i + 1) rs ((r.record_id, i) ∷ index)) id)
      (sym (append_assoc before r rs))
    ∙ is_indexed-build_from (before ++ r ∷ []) ((r.record_id, i) ∷ index) rs (i + 1) id
        (omega (arith, length-append before (r ∷ [])))
        (ap (λ n. is_indexed (before ++ r ∷ []) ((r.record_id, n) ∷ index) id) e
          ∙ is_indexed_last before index r id h)

pub is_indexed-build_record_index :
    (rs : List BlkMapRecord) (id : ℕ) → is_indexed rs (build_record_index rs) id ≡ true
unfolding build_record_index
is_indexed-build_record_index rs id =
    is_indexed-build_from [] [] rs 0 id refl (unfold is_indexed index_get in refl)

-- The index stays right when a record joins the list, at the end or inside it.
pub is_indexed-insert_index :
    (rs : List BlkMapRecord) (index : RecordIndex) (r : BlkMapRecord) (id : ℕ)
    → is_indexed rs index id ≡ true
    → is_indexed (insert_record rs r) (insert_index rs index r) id ≡ true
unfolding insert_index insert_record
is_indexed-insert_index rs index r id h = elim (Bool-cases (is_last (last rs) r)) [
  | inl e ↦ rw e (is_indexed_last rs index r id h)
  | inr e ↦ rw e (is_indexed-build_record_index _ id)
]
