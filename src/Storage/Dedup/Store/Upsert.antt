-- ===== src/Storage/Dedup/Store/Upsert.antt =====
-- An upsert into the dedup index and the lookup behind it: data-plane/src/storage/dedup.rs.
use holo.Prelude.{
  ℕ, ◌+◌, ◌≤◌, ◌<◌, ◌≡◌, refl, sym, ap, ◌∙◌, leb, ltb, ◌==◌, Bool, true, false, not, ◌&&◌, Option,
  none, some, ◌++◌, length, get_elem?, length-append, arith, le→leb, if◌then◌else◌, saturating_add,
  u32_max, u64_max, Bool-cases, inl, inr,
}
use holo.Prelude.OrdMap.{
  Map, get, insert, contains_key, nat_keys, text_keys, get-insert, keq, keq_iff,
}
use holo.Prelude.Outcome.{ok_or, ok, pure, lift, ◌>>=◌}
use holo.Storage.MetadataFile.{MetadataFile, read_segment_file_bounded}
use holo.Storage.BlkMap.Log.RoundTrip.{starts_with-append}
use holo.Storage.Dedup.{DedupIndexEntry, encode_entry, values, dedup_log_prefix}
use holo.Storage.Dedup.Codec.{size_entry}
use holo.Storage.Dedup.Values.{IsLogOf}
use holo.Storage.Dedup.Store.{
  conflict, IdentityKey, CachedDedup, DedupStore, hit, DedupUpsertResult, upsert_hit, inserted,
  collision_inserted, identity_key_for, fingerprint_key_for, cached, at_index, append_to_file,
  keep_file, cache_appended, find_identity, lookup_identity, max_entry_id,
}
use holo.Storage.Dedup.Store.Inserts.{
  told, set_entry, add_reference, upsert_existing, push_entry, insert_new, upsert_at,
  upsert_dedup_entry,
}
use holo.Storage.Dedup.Store.RefCounts.{store_of, IsCurrent, fresh, log_kept, file_appended}

-- The cached index is that of the log, and its ids are below the next one.
pub record IsSynced (f : MetadataFile) (c : CachedDedup) (m : Map ℕ DedupIndexEntry) : Type 0 where
  pub current : IsCurrent f c
  pub log : IsLogOf f.payload m
  pub in_step : values m ≡ c.entries
  pub below : max_entry_id c.entries < c.next_entry_id

-- The entry that an upsert is to store, by what the index has at the identity.
unfoldable pub due :
    CachedDedup → DedupIndexEntry → Option ℕ → Option DedupIndexEntry → Option DedupIndexEntry
due c entry (some i) none = none
due c entry (some i) (some found) =
    if ltb found.ref_count u32_max
    then some (record found {
      ref_count = found.ref_count + 1;
      identity_version =
          if found.identity_version == 0 && not (entry.identity_version == 0)
          then entry.identity_version
          else found.identity_version;
    })
    else none
due c entry none found =
    if c.next_entry_id == u64_max then none else some (record entry { entry_id = c.next_entry_id })

abbrev pub entry_of : DedupUpsertResult → DedupIndexEntry
entry_of (upsert_hit e) = e
entry_of (inserted e) = e
entry_of (collision_inserted e) = e

abbrev pub longer : MetadataFile → DedupIndexEntry → MetadataFile
longer f e = record f {
  stamp = f.stamp + 1;
  sequence = saturating_add f.sequence 1;
  payload = f.payload ++ encode_entry e;
}

abbrev pub written : MetadataFile → CachedDedup → CachedDedup
written f c = record c {
  stamp = f.stamp + 1;
  sequence = saturating_add f.sequence 1;
  log_format = true;
}

-- What an upsert leaves that stores the entry.
pub record IsUpserted (entry e : DedupIndexEntry) (before : DedupStore) (r : DedupUpsertResult)
    (f : MetadataFile) (c : CachedDedup) (m : Map ℕ DedupIndexEntry) : Type 0 where
  pub runs : upsert_dedup_entry entry before ≡ (ok r, store_of f c)
  pub answer : entry_of r ≡ e
  pub synced : IsSynced f c m
  pub found :
      lookup_identity entry.fingerprint_hi entry.fingerprint_lo entry.payload_checksum
        entry.logical_len
        (store_of f c)
      ≡ (ok (hit e), store_of f c)

add_reference-due :
    (c : CachedDedup) (i : ℕ) (x entry : DedupIndexEntry)
    → add_reference x entry ≡ ok_or (due c entry (some i) (some x)) conflict
unfolding add_reference due
add_reference-due c i x entry = elim (Bool-cases (ltb x.ref_count u32_max)) [
  | inl fits ↦ rw fits refl
  | inr full ↦ rw full refl
]

pub due_id :
    (c : CachedDedup) (i : ℕ) (x entry e : DedupIndexEntry)
    → due c entry (some i) (some x) ≡ some e
    → x.entry_id ≡ e.entry_id
unfolding due
due_id c i x entry e h = elim (Bool-cases (ltb x.ref_count u32_max)) [
  | inl fits ↦ ground (arith, h, fits)
  | inr full ↦ absurd (ground (arith, h, full))
]

pub due_new :
    (c : CachedDedup) (entry e : DedupIndexEntry)
    → (c.next_entry_id == u64_max) ≡ false
    → due c entry none none ≡ some e
    → record entry { entry_id = c.next_entry_id } ≡ e
unfolding due
due_new c entry e free h =
    let numbered = record entry { entry_id = c.next_entry_id } in
    let same : due c entry none none ≡ some numbered = rw (free, due) refl in
    ap (λ o. elim o [ none ↦ e | some x ↦ x ]) (sym same ∙ (unfold due in h))

pub get_inserted :
    (key : IdentityKey) (i : ℕ) (index : Map IdentityKey ℕ) → get key (insert key i index) ≡ some i
get_inserted key i index =
    let same : keq key key ≡ true = (keq_iff key key).1 refl in
    rw (get-insert key key i index, same) refl

pub told_entry : (saw : Bool) (e : DedupIndexEntry) → entry_of (told saw e) ≡ e
told_entry true e = refl
told_entry false e = refl

pub find_hit :
    (c : CachedDedup) (key fingerprint : IdentityKey) (i : ℕ) (e : DedupIndexEntry)
    → get key c.identity_index ≡ some i
    → get_elem? c.entries i ≡ some e
    → find_identity c key fingerprint ≡ hit e
unfolding find_identity
find_hit c key fingerprint i e p q =
    let there : at_index c.entries (get key c.identity_index) ≡ some e =
      ap (at_index c.entries) p ∙ q in
    rw (there, find_identity) refl

pub lookup_runs :
    (f : MetadataFile) (c : CachedDedup) (h : IsCurrent f c) (entry e : DedupIndexEntry)
    → find_identity c (identity_key_for entry) (fingerprint_key_for entry) ≡ hit e
    → lookup_identity entry.fingerprint_hi entry.fingerprint_lo entry.payload_checksum
        entry.logical_len
        (store_of f c)
      ≡ (ok (hit e), store_of f c)
unfolding lookup_identity cached pure ◌>>=◌
lookup_runs f c h entry e q = rw (fresh f c h, q) refl

module _ (f : MetadataFile) (c : CachedDedup) (m : Map ℕ DedupIndexEntry)
    (synced : IsSynced f c m) where
  pub upsert_starts :
      (entry : DedupIndexEntry)
      → upsert_dedup_entry entry (store_of f c)
        ≡ upsert_at c entry
            (get (identity_key_for entry) c.identity_index)
            (at_index c.entries (get (identity_key_for entry) c.identity_index))
            (store_of f c)
  unfolding upsert_dedup_entry cached ◌>>=◌
  upsert_starts entry = rw (fresh f c synced.current, log_kept f c synced.current) refl

  file_longer :
      (e : DedupIndexEntry)
      → append_to_file (encode_entry e) (store_of f c)
        ≡ (ok (saturating_add f.sequence 1), record (store_of f c) { file = some (longer f e) })
  unfolding append_to_file
  file_longer e =
      ap (λ w. keep_file w (store_of f c)) (file_appended f c synced.current (encode_entry e))

  pub hit_runs :
      (i : ℕ) (x entry e : DedupIndexEntry)
      → due c entry (some i) (some x) ≡ some e
      → upsert_at c entry (some i) (some x) (store_of f c) ≡ (
        ok (upsert_hit e),
        store_of (longer f e) (written f (record c { entries = set_entry i e c.entries })),
      )
  unfolding upsert_at upsert_existing add_reference due cache_appended lift pure ◌>>=◌
  hit_runs i x entry e h =
      rw (add_reference-due c i x entry ∙ ap (λ o. ok_or o conflict) h, file_longer e) refl

  pub new_runs :
      (found : Option DedupIndexEntry) (entry : DedupIndexEntry)
      → (c.next_entry_id == u64_max) ≡ false
      → let e = record entry { entry_id = c.next_entry_id } in
        upsert_at c entry none found (store_of f c) ≡ (
          ok (told (contains_key (fingerprint_key_for entry) c.fingerprint_index) e),
          store_of (longer f e) (written f (push_entry c e)),
        )
  unfolding upsert_at insert_new cache_appended lift pure ◌>>=◌
  new_runs found entry free =
      rw (free, file_longer (record entry { entry_id = c.next_entry_id })) refl

  -- The file with the entry is one of those that are read.
  pub grown-IsCurrent :
      (e : DedupIndexEntry) (d : CachedDedup)
      → f.header_len + length f.payload + 52 ≤ 8388608
      → IsCurrent (longer f e) (written f d)
  unfolding read_segment_file_bounded
  grown-IsCurrent e d room =
      let size : length (f.payload ++ encode_entry e) ≡ length f.payload + 52 =
        omega (arith, length-append f.payload (encode_entry e), size_entry e) in
      let fits : leb (f.header_len + length (f.payload ++ encode_entry e)) 8388608 ≡ true =
        le→leb _ _ (omega arith) in
      record {
        stamped = refl;
        is_log = refl;
        starts =
            starts_with-append dedup_log_prefix f.payload (encode_entry e) synced.current.starts;
        small = rw fits;
      }
