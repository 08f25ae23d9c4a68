-- ===== src/Storage/Reclaim/Safety.antt =====
-- The flags of the candidates against the lookup records: data-plane/src/storage/reclaim.rs.
use holo.Prelude.{
  ◌∙◌, ◌&&◌, ◌||◌, ◌+◌, ℕ, ◌≡◌, refl, ap, ◌==◌, Bool, false, not, Option, none, some, List, [], ◌∷◌,
  ◌++◌, map, any, find, All, if◌then◌else◌, arith,
}
use holo.Prelude.Outcome.{ok}
use holo.Storage.Reclaim.{
  LookupRecord, from_lookup_records, ReclaimReason, ReclaimCandidate, new_candidate,
  update_existing, upsert, refresh, refresh_reclaim_safety, load_candidates, persist_candidates,
}
use holo.Storage.Reclaim.Index.{refers, IsRecord, contains-from_lookup_records}

-- The candidate with the flag that says whether no record refers to it, and how many candidates of
-- a list have the other flag.
unfoldable pub judged : List LookupRecord → ReclaimCandidate → ReclaimCandidate
judged records c = record c { safe_to_reclaim = not (any (refers c.blk_map_record_id) records) }

unfoldable pub misjudged : List LookupRecord → List ReclaimCandidate → ℕ
misjudged records [] = 0
misjudged records (c ∷ cs) =
    let rest = misjudged records cs in
    let right = (judged records c).safe_to_reclaim in
    if (c.safe_to_reclaim && not right) || (not c.safe_to_reclaim && right) then rest + 1 else rest

refresh_judges :
    (records : List LookupRecord) (cs : List ReclaimCandidate)
    → All IsRecord records
    → ((refresh (from_lookup_records records) cs).0 ≡ map (judged records) cs)
      × ((refresh (from_lookup_records records) cs).1 ≡ misjudged records cs)
unfolding refresh judged misjudged
refresh_judges records [] h = (refl, refl)
refresh_judges records (c ∷ cs) h =
    ground (
      arith,
      contains-from_lookup_records c.blk_map_record_id records h,
      refresh_judges records cs h,
    )

-- Refreshing a file of candidates writes the same candidates in the same order, with their ids,
-- their blocks and their reasons, each with the flag that says whether no lookup record refers to
-- its block, and tells how many flags that changed, if the records' ends are 64-bit numbers.
pub refresh_reclaim_safety_judges :
    (records : List LookupRecord) (payload : List ℕ) (cs : List ReclaimCandidate)
    → All IsRecord records
    → load_candidates payload ≡ ok cs
    → refresh_reclaim_safety records payload
      ≡ ok (persist_candidates (map (judged records) cs), misjudged records cs)
unfolding refresh_reclaim_safety
refresh_reclaim_safety_judges records payload cs h e =
    let done = refresh_judges records cs h in
    let r = refresh (from_lookup_records records) cs in
    rw e (
      ap (λ l. ok (persist_candidates l, r.1)) done.0
      ∙ ap (λ n. ok (persist_candidates (map (judged records) cs), n)) done.1)

abbrev pub find_id : ℕ → List ReclaimCandidate → Option ReclaimCandidate
find_id id cs = find (λ c. c.blk_map_record_id == id) cs

find-append :
    (id : ℕ) (cs : List ReclaimCandidate) (c : ReclaimCandidate)
    → find_id id (cs ++ c ∷ []) ≡ elim (find_id id cs) [
      | none ↦ if c.blk_map_record_id == id then some c else none
      | some d ↦ some d
    ]
unfolding find
find-append id [] c = refl
find-append id (d ∷ cs) c = ground (arith, find-append id cs c)

-- What an update in place leaves for the readers of `other`.
abbrev IsUpdated :
    ℕ
    → ℕ
    → ReclaimReason
    → Bool
    → List ReclaimCandidate
    → Option (List ReclaimCandidate × ReclaimCandidate)
    → Type 0
IsUpdated id other reason safe cs none = find_id id cs ≡ none
IsUpdated id other reason safe cs (some (final, c)) =
    (find_id id final ≡ some c)
    × ((c.reason ≡ reason)
        × ((c.safe_to_reclaim ≡ safe)
            × ((id == other) ≡ false → find_id other final ≡ find_id other cs)))

update_existing_finds :
    (id other : ℕ) (reason : ReclaimReason) (safe : Bool) (cs : List ReclaimCandidate)
    → IsUpdated id other reason safe cs (update_existing id reason safe cs)
unfolding update_existing find
update_existing_finds id other reason safe [] = refl
update_existing_finds id other reason safe (c ∷ cs) =
    ground (arith, update_existing_finds id other reason safe cs)

-- After an upsert the block's first candidate is the one returned, with the given reason and flag,
-- and the first candidate of another block is what it was, or is still missing.
upsert_finds :
    (id other : ℕ) (reason : ReclaimReason) (safe : Bool) (cs : List ReclaimCandidate)
    → (id == other) ≡ false
    → (find_id id (upsert id reason safe cs).0 ≡ some (upsert id reason safe cs).1)
      × (((upsert id reason safe cs).1.reason ≡ reason)
          × (((upsert id reason safe cs).1.safe_to_reclaim ≡ safe)
              × (find_id other (upsert id reason safe cs).0 ≡ find_id other cs)))
unfolding upsert new_candidate
upsert_finds id other reason safe cs n =
    let new = new_candidate id reason safe cs in
    ground (
      arith,
      update_existing_finds id other reason safe cs,
      find-append id cs new,
      find-append other cs new,
    )
