-- ===== src/Storage/Reclaim/Examples.antt =====
-- The index, the file and the flags at concrete records, which overlap, touch or are reversed.
use holo.Prelude.{ℕ, ◌≡◌, true, false, List, [], ◌∷◌, any, All, map, arith}
use holo.Prelude.Outcome.{ok}
use holo.Storage.Reclaim.{
  LookupRecord, from_lookup_records, contains, ReclaimCandidate, superseded, truncated,
  refresh_reclaim_safety, load_candidates, persist_candidates,
}
use holo.Storage.Reclaim.Index.{refers, IsRecord, contains-from_lookup_records}
use holo.Storage.Reclaim.Codec.{load_candidates-persist_candidates}
use holo.Storage.Reclaim.Safety.{judged, misjudged, refresh_reclaim_safety_judges}

abbrev lookup : ℕ → ℕ → LookupRecord
lookup start end = record { blk_map_ref_start = start; blk_map_ref_end = end }

abbrev records : List LookupRecord
records = lookup 8 10 ∷ lookup 1 3 ∷ lookup 4 4 ∷ lookup 2 6 ∷ lookup 20 18 ∷ []

records-IsRecord : All IsRecord records
records-IsRecord = (omega arith, (omega arith, (omega arith, (omega arith, (omega arith, tt)))))

abbrev candidates : List ReclaimCandidate
candidates =
    record { candidate_id = 1; blk_map_record_id = 6; reason = superseded; safe_to_reclaim = true }
    ∷ record {
      candidate_id = 2;
      blk_map_record_id = 7;
      reason = truncated;
      safe_to_reclaim = false;
    }
    ∷ []

contains-from_lookup_records_example :
    contains 6 (from_lookup_records records) ≡ any (refers 6) records
contains-from_lookup_records_example = contains-from_lookup_records 6 records records-IsRecord

load_candidates-persist_candidates_example :
    load_candidates (persist_candidates candidates) ≡ ok candidates
load_candidates-persist_candidates_example =
    load_candidates-persist_candidates candidates (omega arith)
      ((omega arith, omega arith), ((omega arith, omega arith), tt))

written_back : load_candidates (persist_candidates candidates) ≡ ok candidates
written_back =
    load_candidates-persist_candidates candidates (omega arith)
      ((omega arith, omega arith), ((omega arith, omega arith), tt))

refresh_reclaim_safety_judges_example :
    refresh_reclaim_safety records (persist_candidates candidates)
    ≡ ok (persist_candidates (map (judged records) candidates), misjudged records candidates)
refresh_reclaim_safety_judges_example =
    refresh_reclaim_safety_judges records (persist_candidates candidates) candidates
      records-IsRecord written_back
