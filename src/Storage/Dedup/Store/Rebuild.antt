-- ===== src/Storage/Dedup/Store/Rebuild.antt =====
-- The reference counts rebuilt from the references that there are:
-- data-plane/src/storage/dedup.rs.
use holo.Prelude.{
  ℕ, ◌+◌, ◌++◌, ◌≡◌, refl, ap, ◌∙◌, Bool, true, Option, none, some, List, [], ◌∷◌, length, map,
  saturating_add,
}
use holo.Prelude.OrdMap.{Map, nat_keys}
use holo.Prelude.Outcome.{ok, pure, ◌>>=◌}
use holo.Storage.MetadataFile.{MetadataFile}
use holo.Storage.Dedup.{DedupIndexEntry, encode_entries}
use holo.Storage.Dedup.Store.{
  CachedDedup, DedupStore, build_cached_dedup, index_entries, index_entry, cached, load_dedup_index,
  append_to_file, update_cache,
}
use holo.Storage.Dedup.Store.References.{add_refs, recount, write_recount, rebuild_ref_counts}
use holo.Storage.Dedup.Store.RefCounts.{
  recounted, recount_entries, miscounted, recount_changed, store_of, IsCurrent, fresh, log_there,
  file_appended,
}

indexed_entries :
    (position : ℕ) (es : List DedupIndexEntry) (c : CachedDedup)
    → (index_entries position es c).entries ≡ c.entries
unfolding index_entries index_entry
indexed_entries position [] c = refl
indexed_entries position (e ∷ es) c = indexed_entries (position + 1) es (index_entry position e c)

built_entries :
    (stamp sequence : ℕ) (es : List DedupIndexEntry) (log : Bool)
    → (build_cached_dedup stamp sequence es log).entries ≡ es
unfolding build_cached_dedup
built_entries stamp sequence es log = indexed_entries 0 es _

abbrev pub entries_of : Option CachedDedup → List DedupIndexEntry
entries_of none = []
entries_of (some c) = c.entries

abbrev file_grown : MetadataFile → List DedupIndexEntry → MetadataFile
file_grown f changed = record f {
  stamp = f.stamp + 1;
  sequence = saturating_add f.sequence 1;
  payload = f.payload ++ encode_entries changed;
}

-- The file gets the changed entries, where there are any.
abbrev pub recount_file : MetadataFile → List DedupIndexEntry → MetadataFile
recount_file f [] = f
recount_file f (e ∷ changed) = file_grown f (e ∷ changed)

-- What the last step of a rebuild leaves.
pub record IsRebuilt (f : MetadataFile) (entries changed : List DedupIndexEntry)
    (after : DedupStore) : Type 0 where
  pub stored : after.file ≡ some (recount_file f changed)
  pub entries_now : entries_of after.cache ≡ entries

module _ (f : MetadataFile) (c : CachedDedup) (h : IsCurrent f c) where
  written :
      (entries changed : List DedupIndexEntry)
      → (s : DedupStore) × ((write_recount (entries, changed) (store_of f c)
            ≡ (ok (length changed), s))
          × IsRebuilt f entries changed s)
  unfolding write_recount update_cache append_to_file pure ◌>>=◌
  written entries [] = (
    (update_cache 0 entries (store_of f c)).1,
    (refl, record { stored = refl; entries_now = built_entries f.stamp _ entries true }),
  )
  written entries (e ∷ changed) = (
    (update_cache (saturating_add f.sequence 1) entries
        (record (store_of f c) { file = some (file_grown f (e ∷ changed)) })).1,
    (
      rw (file_appended f c h (encode_entries (e ∷ changed))) refl,
      record { stored = refl; entries_now = built_entries (f.stamp + 1) _ entries true },
    ),
  )

  loaded : load_dedup_index (store_of f c) ≡ (ok (c.sequence, c.entries), store_of f c)
  unfolding load_dedup_index cached pure ◌>>=◌
  loaded = rw (fresh f c h) refl

  rebuild_runs :
      (ids : List ℕ) (refs : Map ℕ ℕ)
      → add_refs ids [] ≡ ok refs
      → rebuild_ref_counts ids (store_of f c)
        ≡ write_recount (recount refs c.entries) (store_of f c)
  unfolding rebuild_ref_counts ◌>>=◌
  rebuild_runs ids refs r = rw (loaded, r, log_there f c h c.entries) refl

  -- After a rebuild each cached entry counts its references in the list, and is otherwise as it was;
  -- the entries whose count was another one are appended to the file, and their number is the
  -- result. The cached index is that of the log, and no count leaves 32 bits.
  pub rebuild_ref_counts-IsRebuilt :
      (ids : List ℕ) (refs : Map ℕ ℕ)
      → add_refs ids [] ≡ ok refs
      → (s : DedupStore) × ((rebuild_ref_counts ids (store_of f c)
            ≡ (ok (length (miscounted ids c.entries)), s))
          × IsRebuilt f (map (recounted ids) c.entries) (miscounted ids c.entries) s)
  rebuild_ref_counts-IsRebuilt ids refs r =
      let (s, (run, done)) = written (recount refs c.entries).0 (recount refs c.entries).1 in
      let whole = recount_entries ids refs c.entries r in
      let part = recount_changed ids refs c.entries r in
      (
        s,
        (
          rebuild_runs ids refs r ∙ run ∙ ap (λ l. (ok (length l), s)) part,
          record {
            stored = done.stored ∙ ap (λ l. some (recount_file f l)) part;
            entries_now = done.entries_now ∙ whole;
          },
        ),
      )
