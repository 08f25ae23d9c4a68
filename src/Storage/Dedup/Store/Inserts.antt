-- ===== src/Storage/Dedup/Store/Inserts.antt =====
-- New entries of the dedup index and new references to old ones: data-plane/src/storage/dedup.rs.
use Prim.Native.Nat.{zero, suc}
use holo.Prelude.{
  ℕ, ◌+◌, ltb, ◌==◌, Bool, not, ◌&&◌, Option, none, some, List, [], ◌∷◌, ◌++◌, length,
  if◌then◌else◌, u32_max, u64_max,
}
use holo.Prelude.OrdMap.{get, contains_key, nat_keys, text_keys}
use holo.Prelude.Outcome.{Result, ok, and_then, ensure, pure, lift, ◌>>=◌, ◌>>◌}
use holo.Storage.Error.{StorageError, conflict}
use holo.Storage.Dedup.{DedupIndexEntry, encode_entry}
use holo.Storage.Dedup.Store.{
  CachedDedup, DedupUpsertResult, Op, append_to_file, at_index, cache_appended, cached,
  collision_inserted, ensure_cache_fresh, ensure_log_format_cached, fingerprint_key_for,
  identity_key_for, index_entry, inserted, upsert_hit,
}

-- An entry written in place of another.
unfoldable pub set_entry : ℕ → DedupIndexEntry → List DedupIndexEntry → List DedupIndexEntry
set_entry i e [] = []
set_entry zero e (x ∷ es) = e ∷ es
set_entry (suc i) e (x ∷ es) = x ∷ set_entry i e es

-- One more reference to an entry that is there.
unfoldable pub add_reference :
    DedupIndexEntry → DedupIndexEntry → Result StorageError DedupIndexEntry
add_reference found entry = and_then (ensure (ltb found.ref_count u32_max) conflict) λ _.
    ok (record found {
      ref_count = found.ref_count + 1;
      identity_version =
          if found.identity_version == 0 && not (entry.identity_version == 0)
          then entry.identity_version
          else found.identity_version;
    })

unfoldable pub upsert_existing :
    CachedDedup → ℕ → DedupIndexEntry → DedupIndexEntry → Op DedupUpsertResult
upsert_existing c i found entry = lift (add_reference found entry) >>= λ counted.
    append_to_file (encode_entry counted) >>= λ sequence.
    cache_appended sequence (record c { entries = set_entry i counted c.entries })
    >> pure (upsert_hit counted)

-- The cache with a new entry behind the others.
unfoldable pub push_entry : CachedDedup → DedupIndexEntry → CachedDedup
push_entry c e =
    index_entry (length c.entries) e
      (record c { entries = c.entries ++ e ∷ []; next_entry_id = c.next_entry_id + 1 })

unfoldable pub insert_new : CachedDedup → DedupIndexEntry → Op DedupIndexEntry
insert_new c entry =
    lift (ensure (not (c.next_entry_id == u64_max)) conflict)
    >> append_to_file (encode_entry (record entry { entry_id = c.next_entry_id }))
    >>= λ sequence.
        cache_appended sequence (push_entry c (record entry { entry_id = c.next_entry_id }))
        >> pure (record entry { entry_id = c.next_entry_id })

abbrev pub told : Bool → DedupIndexEntry → DedupUpsertResult
told saw_collision e = if saw_collision then collision_inserted e else inserted e

unfoldable pub upsert_at :
    CachedDedup → DedupIndexEntry → Option ℕ → Option DedupIndexEntry → Op DedupUpsertResult
upsert_at c entry (some i) (some found) = upsert_existing c i found entry
upsert_at c entry (some i) none = insert_new c entry >>= λ e. pure (inserted e)
upsert_at c entry none found = insert_new c entry >>= λ e.
    pure (told (contains_key (fingerprint_key_for entry) c.fingerprint_index) e)

-- The index holds positions of entries, so that the second case of `upsert_at` does not come up.
unfoldable pub upsert_dedup_entry : DedupIndexEntry → Op DedupUpsertResult
upsert_dedup_entry entry = ensure_cache_fresh >> ensure_log_format_cached >> cached >>= λ c.
    upsert_at c entry (get (identity_key_for entry) c.identity_index)
      (at_index c.entries (get (identity_key_for entry) c.identity_index))

unfoldable pub insert_dedup_collision_entry : DedupIndexEntry → Op DedupIndexEntry
insert_dedup_collision_entry entry =
    ensure_cache_fresh >> ensure_log_format_cached >> cached >>= λ c. insert_new c entry
