-- ===== src/Storage/Dedup/Store/Upserted.antt =====
-- What an upsert leaves in the log, the cache and the lookups: data-plane/src/storage/dedup.rs.
use mathlib.Core.Path.{subst}
use holo.Prelude.{
  ℕ, ◌+◌, ◌/◌, ◌≤◌, ◌<◌, ◌≡◌, refl, ap, ◌∙◌, ◌==◌, false, Option, none, some, [], ◌∷◌, ◌++◌, length,
  get_elem?, drop, arith, u64_max, Bool-cases, inl, inr,
}
use holo.Prelude.OrdMap.{Map, get, insert, contains_key, nat_keys, text_keys}
use holo.Prelude.Outcome.{ok}
use holo.Storage.MetadataFile.{MetadataFile}
use holo.Storage.Dedup.{DedupIndexEntry, values}
use holo.Storage.Dedup.Codec.{IsEntry, decode_log_map-ascends}
use holo.Storage.Dedup.Values.{
  values-insert, values-insert_at, get_elem?-set_entry, get_elem?_last, max_entry_id-set_entry,
  max_entry_id-append, appended-IsLogOf,
}
use holo.Storage.Dedup.Store.{
  CachedDedup, DedupUpsertResult, upsert_hit, identity_key_for, fingerprint_key_for, at_index,
  index_entry, max_entry_id,
}
use holo.Storage.Dedup.Store.Inserts.{told, set_entry, push_entry, upsert_at}
use holo.Storage.Dedup.Store.RefCounts.{store_of}
use holo.Storage.Dedup.Store.Upsert.{
  IsSynced, due, longer, written, IsUpserted, upsert_starts, hit_runs, new_runs, grown-IsCurrent,
  due_id, due_new, told_entry, find_hit, lookup_runs, get_inserted,
}

module _ (f : MetadataFile) (c : CachedDedup) (m : Map ℕ DedupIndexEntry) (synced : IsSynced f c m)
    (entry e : DedupIndexEntry) (w : IsEntry e)
    (room : f.header_len + length f.payload + 52 ≤ 8388608)
    (few : length (drop 4 f.payload) / 52 < 65536) where
  hit_done :
      (i : ℕ) (x : DedupIndexEntry)
      → get (identity_key_for entry) c.identity_index ≡ some i
      → get_elem? c.entries i ≡ some x
      → due c entry (some i) (some x) ≡ some e
      → IsUpserted entry e
          (store_of f c)
          (upsert_hit e)
          (longer f e)
          (written f (record c { entries = set_entry i e c.entries }))
          (insert e.entry_id e m)
  hit_done i x p q h =
      let after = record c { entries = set_entry i e c.entries } in
      let id = due_id c i x entry e h in
      let now = grown-IsCurrent f c m synced e after room in
      let ordered = decode_log_map-ascends (drop 4 f.payload) m synced.log.read in
      let there : get_elem? (values m) i ≡ some x = ap (λ es. get_elem? es i) synced.in_step ∙ q in
      record {
        runs = upsert_starts f c m synced entry ∙ rw (p, q) (hit_runs f c m synced i x entry e h);
        answer = refl;
        synced = record {
          current = now;
          log = appended-IsLogOf f.payload m e synced.log w few;
          in_step = values-insert_at 0 i e x m ordered there id ∙ ap (set_entry i e) synced.in_step;
          below = omega (arith, max_entry_id-set_entry i e x c.entries q id, synced.below);
        };
        found =
            lookup_runs (longer f e) (written f after) now entry e
              (find_hit (written f after) _ _ i e p (get_elem?-set_entry i e x c.entries q));
      }

  new_done :
      get (identity_key_for entry) c.identity_index ≡ none
      → (c.next_entry_id == u64_max) ≡ false
      → record entry { entry_id = c.next_entry_id } ≡ e
      → IsUpserted entry e
          (store_of f c)
          (told (contains_key (fingerprint_key_for entry) c.fingerprint_index) e)
          (longer f e)
          (written f (push_entry c e))
          (insert e.entry_id e m)
  unfolding push_entry index_entry
  new_done p free numbered =
      let now = grown-IsCurrent f c m synced e (push_entry c e) room in
      let ordered = decode_log_map-ascends (drop 4 f.payload) m synced.log.read in
      let id : c.next_entry_id ≡ e.entry_id = ap (λ x. x.entry_id) numbered in
      let key : identity_key_for entry ≡ identity_key_for e = ap identity_key_for numbered in
      let above : max_entry_id (values m) < e.entry_id =
        omega (arith, synced.below, ap max_entry_id synced.in_step) in
      record {
        runs =
            upsert_starts f c m synced entry
            ∙ rw p (
                subst
                  (λ x. upsert_at c entry none none (store_of f c) ≡ (
                    ok (told (contains_key (fingerprint_key_for entry) c.fingerprint_index) x),
                    store_of (longer f x) (written f (push_entry c x)),
                  ))
                  numbered (new_runs f c m synced none entry free));
        answer = told_entry _ e;
        synced = record {
          current = now;
          log = appended-IsLogOf f.payload m e synced.log w few;
          in_step = values-insert 0 e m ordered above ∙ ap (λ es. es ++ e ∷ []) synced.in_step;
          below =
              unfold push_entry index_entry in
              omega (arith, max_entry_id-append e c.entries, synced.below);
        };
        found = lookup_runs (longer f e) (written f (push_entry c e)) now entry e (
            find_hit (written f (push_entry c e)) _ _ (length c.entries) e
              (unfold push_entry index_entry in
                ap (λ k. get k (insert (identity_key_for e) (length c.entries) c.identity_index))
                  key
                ∙ get_inserted (identity_key_for e) (length c.entries) c.identity_index)
              (get_elem?_last e c.entries));
      }

  upsert_at_known :
      (i : ℕ) (x : Option DedupIndexEntry)
      → get (identity_key_for entry) c.identity_index ≡ some i
      → get_elem? c.entries i ≡ x
      → due c entry (some i) x ≡ some e
      → (r : DedupUpsertResult) × ((d : CachedDedup) × IsUpserted entry e
            (store_of f c)
            r
            (longer f e)
            d
            (insert e.entry_id e m))
  unfolding due
  upsert_at_known i none p q h = absurd (ground (arith, h))
  upsert_at_known i (some x) p q h = (_, (_, hit_done i x p q (unfold due in h)))

  upsert_at_new :
      get (identity_key_for entry) c.identity_index ≡ none
      → due c entry none none ≡ some e
      → (r : DedupUpsertResult) × ((d : CachedDedup) × IsUpserted entry e
            (store_of f c)
            r
            (longer f e)
            d
            (insert e.entry_id e m))
  unfolding due
  upsert_at_new p h = elim (Bool-cases (c.next_entry_id == u64_max)) [
    | inl full ↦ absurd (ground (arith, h, full))
    | inr free ↦ (_, (_, new_done p free (due_new c entry e free (unfold due in h))))
  ]

  upsert_at_either :
      (at : Option ℕ)
      → get (identity_key_for entry) c.identity_index ≡ at
      → due c entry at (at_index c.entries at) ≡ some e
      → (r : DedupUpsertResult) × ((d : CachedDedup) × IsUpserted entry e
            (store_of f c)
            r
            (longer f e)
            d
            (insert e.entry_id e m))
  upsert_at_either none p h = upsert_at_new p h
  upsert_at_either (some i) p h = upsert_at_known i (get_elem? c.entries i) p refl h

  -- An upsert gives the entry that is due: the one that has the identity, with one reference more,
  -- or else a new one under the next id. The log behind it, read again, has the cached entries,
  -- whose ids are below the next one, and a lookup of the identity finds the entry. The cached
  -- index is that of the log before, there is an entry that is due and its fields have their
  -- widths, and the file has room for it.
  pub upsert_dedup_entry-IsUpserted :
      due c entry
          (get (identity_key_for entry) c.identity_index)
          (at_index c.entries (get (identity_key_for entry) c.identity_index))
        ≡ some e
      → (r : DedupUpsertResult) × ((d : CachedDedup) × IsUpserted entry e
            (store_of f c)
            r
            (longer f e)
            d
            (insert e.entry_id e m))
  upsert_dedup_entry-IsUpserted h =
      upsert_at_either (get (identity_key_for entry) c.identity_index) refl h
