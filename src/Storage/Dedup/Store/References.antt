-- ===== src/Storage/Dedup/Store/References.antt =====
-- References that go, and the counts rebuilt: data-plane/src/storage/dedup.rs.
use holo.Prelude.{
  ℕ, ◌+◌, ◌-◌, ltb, ◌==◌, Option, none, some, List, [], ◌∷◌, length, get_elem?, if◌then◌else◌,
  u32_max,
}
use holo.Prelude.OrdMap.{Map, get, insert, nat_keys, text_keys}
use holo.Prelude.Outcome.{Result, ok, err, and_then, ensure, ok_or, pure, lift, ◌>>=◌, ◌>>◌}
use holo.Storage.Error.{StorageError, not_found, conflict}
use holo.Storage.Dedup.{DedupIndexEntry, encode_entries}
use holo.Storage.Dedup.Store.{
  CachedDedup, Op, append_to_file, at_index, cache_appended, cached, ensure_cache_fresh,
  ensure_log_format, ensure_log_format_cached, load_dedup_index, update_cache,
}
use holo.Storage.Dedup.Store.Inserts.{set_entry}

-- What the loop over the ids leaves: a result and the entries as they then are.
unfoldable pub decrement_entry :
    Option ℕ
    → Option DedupIndexEntry
    → List DedupIndexEntry
    → Result StorageError DedupIndexEntry × List DedupIndexEntry
decrement_entry none found entries = (err not_found, entries)
decrement_entry (some i) none entries = (err not_found, entries)
decrement_entry (some i) (some e) entries = if e.ref_count == 0 then (err conflict, entries) else (
  ok (record e { ref_count = e.ref_count - 1 }),
  set_entry i (record e { ref_count = e.ref_count - 1 }) entries,
)

abbrev pub push_updated :
    DedupIndexEntry
    → Result StorageError (List DedupIndexEntry) × List DedupIndexEntry
    → Result StorageError (List DedupIndexEntry) × List DedupIndexEntry
push_updated e (ok updated, entries) = (ok (e ∷ updated), entries)
push_updated e (err x, entries) = (err x, entries)

unfoldable pub decrement_all :
    Map ℕ ℕ
    → List ℕ
    → List DedupIndexEntry
    → Result StorageError (List DedupIndexEntry) × List DedupIndexEntry
decrement_all index [] entries = (ok [], entries)
decrement_all index (id ∷ ids) entries =
    let d = decrement_entry (get id index) (at_index entries (get id index)) entries in
    elim d.0 [ err x ↦ (err x, d.1) | ok e ↦ push_updated e (decrement_all index ids d.1) ]

-- What the loop writes to the cache stays there, also beside an error.
unfoldable pub keep_entries :
    CachedDedup
    → Result StorageError (List DedupIndexEntry) × List DedupIndexEntry
    → Op (List DedupIndexEntry)
keep_entries c (r, entries) s = (r, record s { cache = some (record c { entries = entries }) })

unfoldable pub decrement_ref_counts : List ℕ → Op (List DedupIndexEntry)
decrement_ref_counts [] = pure []
decrement_ref_counts (id ∷ ids) = ensure_cache_fresh >> ensure_log_format_cached >> cached >>= λ c.
    keep_entries c (decrement_all c.id_index (id ∷ ids) c.entries) >>= λ updated.
    append_to_file (encode_entries updated) >>= λ sequence.
    cached >>= λ d. cache_appended sequence d >> pure updated

-- `pop`, of the updated entries.
unfoldable pub decrement_ref_count : ℕ → Op DedupIndexEntry
decrement_ref_count entry_id = decrement_ref_counts (entry_id ∷ []) >>= λ updated.
    lift (ok_or (get_elem? updated (length updated - 1)) not_found)

-- The references to an id.
unfoldable pub count_refs : ℕ → List ℕ → ℕ
count_refs id [] = 0
count_refs id (r ∷ refs) = let rest = count_refs id refs in if r == id then rest + 1 else rest

abbrev pub count_of : Option ℕ → ℕ
count_of none = 0
count_of (some n) = n

-- The counts of the references, in the map that the loop builds.
unfoldable pub add_refs : List ℕ → Map ℕ ℕ → Result StorageError (Map ℕ ℕ)
add_refs [] refs = ok refs
add_refs (id ∷ ids) refs =
    and_then (ensure (ltb (count_of (get id refs)) u32_max) conflict)
      λ _. add_refs ids (insert id (count_of (get id refs) + 1) refs)

abbrev pub target_of : Map ℕ ℕ → DedupIndexEntry → ℕ
target_of refs e = count_of (get e.entry_id refs)

-- The entries with their new counts, and those whose count has changed.
unfoldable pub recount :
    Map ℕ ℕ → List DedupIndexEntry → List DedupIndexEntry × List DedupIndexEntry
recount refs [] = ([], [])
recount refs (e ∷ es) =
    let (rest, changed) = recount refs es in
    let target = target_of refs e in
    if e.ref_count == target
    then (e ∷ rest, changed)
    else (record e { ref_count = target } ∷ rest, record e { ref_count = target } ∷ changed)

unfoldable pub write_recount : List DedupIndexEntry × List DedupIndexEntry → Op ℕ
write_recount (entries, []) = update_cache 0 entries >> pure 0
write_recount (entries, e ∷ changed) = append_to_file (encode_entries (e ∷ changed)) >>= λ sequence.
    update_cache sequence entries >> pure (length (e ∷ changed))

unfoldable pub rebuild_ref_counts : List ℕ → Op ℕ
rebuild_ref_counts referenced = load_dedup_index >>= λ (sequence, entries).
    lift (add_refs referenced []) >>= λ refs.
    ensure_log_format entries >> write_recount (recount refs entries)
