-- ===== src/Storage/Reclaim/Index.antt =====
-- The reference index against the lookup records: data-plane/src/storage/reclaim.rs.
use holo.Prelude.{
  ℕ, ◌≤◌, ◌<◌, ◌≡◌, refl, ap, ◌∙◌, ltb, leb, max, Bool, true, false, not, ◌&&◌, ◌||◌, none, List,
  [], ◌∷◌, map, any, retain, All, saturating_add, is_some, arith, Bool-cases, inl, inr, u64_max,
}
use holo.Storage.Reclaim.{
  LookupRecord, Interval, interval_of, before, insert_sorted, sort, merge_into, merge,
  from_lookup_records, candidate, contains,
}

abbrev covers : ℕ → Interval → Bool
covers id i = leb i.start id && leb id i.end

-- Whether a record of the map refers to an id.
unfoldable pub refers : ℕ → LookupRecord → Bool
refers id r = leb r.blk_map_ref_start id && leb id r.blk_map_ref_end

abbrev IsProper : Interval → Type 0
IsProper i = (i.start ≤ i.end) × (i.end ≤ u64_max)

-- Ascending starts, none below the given one.
abbrev From : ℕ → List Interval → Type 0
From low [] = Unit {0}
From low (i ∷ rest) = (low ≤ i.start) × From i.start rest

From-weaker : (low low' : ℕ) (is : List Interval) → low' ≤ low → From low is → From low' is
From-weaker low low' [] h f = tt
From-weaker low low' (i ∷ is) h f = (omega arith, f.1)

below_From : (id low : ℕ) (is : List Interval) → id < low → From low is → any (covers id) is ≡ false
unfolding any
below_From id low [] h f = refl
below_From id low (i ∷ is) h f = ground (arith, below_From id i.start is (omega arith) f.1)

abbrev widened : Interval → Interval → Interval
widened last i = record last { end = max last.end i.end }

merge_more :
    (last i : Interval) (is : List Interval)
    → leb i.start (saturating_add last.end 1) ≡ true
    → merge_into last (i ∷ is) ≡ merge_into (record last { end = max last.end i.end }) is
unfolding merge_into
merge_more last i is e = ground arith

merge_next :
    (last i : Interval) (is : List Interval)
    → leb i.start (saturating_add last.end 1) ≡ false
    → merge_into last (i ∷ is) ≡ last ∷ merge_into i is
unfolding merge_into
merge_next last i is e = ground arith

candidate_below :
    (id : ℕ) (last : Interval) (is : List Interval)
    → id < last.start
    → candidate id (merge_into last is) ≡ none
unfolding candidate merge_into
candidate_below id last [] h = ground arith
candidate_below id last (i ∷ is) h = elim (Bool-cases (leb i.start (saturating_add last.end 1))) [
  | inl e ↦ ap (candidate id) (merge_more last i is e) ∙ candidate_below id (widened last i) is h
  | inr e ↦ ap (candidate id) (merge_next last i is e) ∙ ground arith
]

candidate_found :
    (id : ℕ) (last : Interval) (is : List Interval)
    → last.start ≤ id
    → is_some (candidate id (merge_into last is)) ≡ true
unfolding candidate merge_into
candidate_found id last [] h = ground arith
candidate_found id last (i ∷ is) h = elim (Bool-cases (leb i.start (saturating_add last.end 1))) [
  | inl e ↦
      ap (λ m. is_some (candidate id m)) (merge_more last i is e)
      ∙ candidate_found id (widened last i) is h
  | inr e ↦ ap (λ m. is_some (candidate id m)) (merge_next last i is e) ∙ ground arith
]

covers_merged :
    (id : ℕ) (last i : Interval)
    → IsProper last
    → IsProper i
    → last.start ≤ i.start
    → leb i.start (saturating_add last.end 1) ≡ true
    → covers id (record last { end = max last.end i.end }) ≡ (covers id last || covers id i)
unfolding saturating_add
covers_merged id last i p q f e = ground arith

contains_next :
    (id : ℕ) (last i : Interval) (is : List Interval)
    → IsProper last
    → last.start ≤ i.start
    → From i.start is
    → leb i.start (saturating_add last.end 1) ≡ false
    → contains id (merge_into i is) ≡ (covers id i || any (covers id) is)
    → contains id (last ∷ merge_into i is) ≡ (covers id last || (covers id i || any (covers id) is))
unfolding contains candidate saturating_add
contains_next id last i is p l f e h =
    ground (arith, candidate_below id i is, candidate_found id i is, below_From id i.start is)

contains_one :
    (id : ℕ) (last : Interval) → IsProper last → contains id (merge_into last []) ≡ covers id last
unfolding contains candidate merge_into
contains_one id last p = ground arith

widened-IsProper : (last i : Interval) → IsProper last → IsProper i → IsProper (widened last i)
widened-IsProper last i p q = ground arith

contains-merge_into :
    (id : ℕ) (last : Interval) (is : List Interval)
    → IsProper last
    → All IsProper is
    → From last.start is
    → contains id (merge_into last is) ≡ (covers id last || any (covers id) is)
unfolding any
contains-merge_into id last [] p a f = contains_one id last p ∙ ground arith
contains-merge_into id last (i ∷ is) p a f =
    elim (Bool-cases (leb i.start (saturating_add last.end 1))) [
      | inl e ↦
          ap (contains id) (merge_more last i is e)
          ∙ contains-merge_into id (widened last i) is (widened-IsProper last i p a.0) a.1
              (From-weaker i.start last.start is f.0 f.1)
          ∙ ground (arith, covers_merged id last i p a.0 f.0 e)
      | inr e ↦
          ap (contains id) (merge_next last i is e)
          ∙ contains_next id last i is p f.0 f.1 e (contains-merge_into id i is a.0 a.1 f.1)
          ∙ ground arith
    ]

insert_sorted-any :
    (p : Interval → Bool) (i : Interval) (is : List Interval)
    → any p (insert_sorted i is) ≡ (p i || any p is)
unfolding any insert_sorted
insert_sorted-any p i [] = ground arith
insert_sorted-any p i (j ∷ is) = ground (arith, insert_sorted-any p i is)

sort-any : (p : Interval → Bool) (is : List Interval) → any p (sort is) ≡ any p is
unfolding any sort
sort-any p [] = refl
sort-any p (i ∷ is) = ground (arith, insert_sorted-any p i (sort is), sort-any p is)

insert_sorted-From :
    (low : ℕ) (i : Interval) (is : List Interval)
    → low ≤ i.start
    → From low is
    → From low (insert_sorted i is)
unfolding insert_sorted before
insert_sorted-From low i [] h f = (h, tt)
insert_sorted-From low i (j ∷ is) h f = ground (arith, insert_sorted-From j.start i is)

sort-From : (is : List Interval) → From 0 (sort is)
unfolding sort
sort-From [] = tt
sort-From (i ∷ is) = insert_sorted-From 0 i (sort is) (omega arith) (sort-From is)

insert_sorted-IsProper :
    (i : Interval) (is : List Interval)
    → IsProper i
    → All IsProper is
    → All IsProper (insert_sorted i is)
unfolding insert_sorted
insert_sorted-IsProper i [] h f = (h, tt)
insert_sorted-IsProper i (j ∷ is) h f = ground (arith, insert_sorted-IsProper i is h f.1)

sort-IsProper : (is : List Interval) → All IsProper is → All IsProper (sort is)
unfolding sort
sort-IsProper [] h = tt
sort-IsProper (i ∷ is) h = insert_sorted-IsProper i (sort is) h.0 (sort-IsProper is h.1)

contains-merge :
    (id : ℕ) (is : List Interval)
    → All IsProper is
    → From 0 is
    → contains id (merge is) ≡ any (covers id) is
unfolding merge any contains candidate
contains-merge id [] p f = refl
contains-merge id (i ∷ is) p f = contains-merge_into id i is p.0 p.1 f.1 ∙ ground arith

-- A record whose end is a 64-bit number.
abbrev pub IsRecord : LookupRecord → Type 0
IsRecord r = r.blk_map_ref_end ≤ u64_max

abbrev ordered : List LookupRecord → List Interval
ordered rs = map interval_of (retain (λ r. not (ltb r.blk_map_ref_end r.blk_map_ref_start)) rs)

ordered-IsProper : (rs : List LookupRecord) → All IsRecord rs → All IsProper (ordered rs)
unfolding retain interval_of
ordered-IsProper [] h = tt
ordered-IsProper (r ∷ rs) h = ground (arith, ordered-IsProper rs h.1)

ordered-any : (id : ℕ) (rs : List LookupRecord) → any (covers id) (ordered rs) ≡ any (refers id) rs
unfolding retain any interval_of refers
ordered-any id [] = refl
ordered-any id (r ∷ rs) = ground (arith, ordered-any id rs)

-- The index answers for every id whether some lookup record's range has it, in whatever order the
-- records stand and however their ranges overlap or are reversed, if the ends are 64-bit numbers.
pub contains-from_lookup_records :
    (id : ℕ) (records : List LookupRecord)
    → All IsRecord records
    → contains id (from_lookup_records records) ≡ any (refers id) records
unfolding from_lookup_records
contains-from_lookup_records id records h =
    contains-merge id (sort (ordered records))
      (sort-IsProper (ordered records) (ordered-IsProper records h)) (sort-From (ordered records))
    ∙ sort-any (covers id) (ordered records)
    ∙ ordered-any id records
