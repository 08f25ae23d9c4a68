-- ===== src/Storage/Dedup/Store/RefCounts.antt =====
-- The reference counts of the dedup index: data-plane/src/storage/dedup.rs.
use Prim.Native.Nat.{zero, suc}
use holo.Prelude.{
  Bool-cases, inl, inr, ◌⊎◌, saturating_add, le→leb, Bool-cases, le→leb, saturating_add, ℕ, ◌+◌,
  ◌-◌, ◌≡◌, refl, sym, ap, ◌∙◌, ltb, ◌==◌, true, false, Option, none, some, List, [], ◌∷◌, ◌++◌,
  length, get_elem?, map, arith, if◌then◌else◌, u32_max,
}
use holo.Prelude.OrdMap.{Map, get, insert, nat_keys, get-insert}
use holo.Prelude.Outcome.{Result, ok, err, ensure, and_then_inv, pure, ◌>>=◌}
use holo.Storage.Error.{StorageError, not_found, conflict}
use holo.Storage.MetadataFile.{
  MetadataFile, starts_with, read_segment_file_bounded, append_segment_payload,
}
use holo.Storage.BlkMap.Log.RoundTrip.{starts_with_long}
use holo.Storage.Dedup.{DedupIndexEntry, dedup_log_prefix}
use holo.Storage.Dedup.Store.{
  CachedDedup, DedupStore, ensure_cache_fresh, refresh, ensure_log_format, ensure_log_format_cached,
  cached, at_index,
}
use holo.Storage.Dedup.Store.Inserts.{set_entry}
use holo.Storage.Dedup.Store.References.{
  count_refs, count_of, add_refs, recount, decrement_entry, decrement_all, push_updated,
  keep_entries, decrement_ref_counts,
}

pub no_refs : (id : ℕ) → count_of (get id []) ≡ 0
unfolding get
no_refs id = refl

add_refs_counts :
    (id : ℕ) (ids : List ℕ) (refs after : Map ℕ ℕ)
    → add_refs ids refs ≡ ok after
    → count_of (get id after) ≡ count_refs id ids + count_of (get id refs)
unfolding add_refs count_refs
add_refs_counts id [] refs after h = ground (arith, h)
add_refs_counts id (x ∷ ids) refs after h =
    let (u, (fits, h')) =
      and_then_inv (ensure (ltb (count_of (get x refs)) u32_max) conflict) _ after h in
    ground (
      arith,
      add_refs_counts id ids (insert x (count_of (get x refs) + 1) refs) after h',
      get-insert id x (count_of (get x refs) + 1) refs,
    )

-- An entry with the count of its references.
unfoldable pub recounted : List ℕ → DedupIndexEntry → DedupIndexEntry
recounted ids e = record e { ref_count = count_refs e.entry_id ids }

pub recount_entries :
    (ids : List ℕ) (refs : Map ℕ ℕ) (es : List DedupIndexEntry)
    → add_refs ids [] ≡ ok refs
    → (recount refs es).0 ≡ map (recounted ids) es
unfolding recount recounted
recount_entries ids refs [] h = refl
recount_entries ids refs (e ∷ es) h = ground (
  arith,
  recount_entries ids refs es h,
  add_refs_counts e.entry_id ids [] refs h,
  no_refs e.entry_id,
)

-- The entries that count another number of references than there are, with the right one.
unfoldable pub miscounted : List ℕ → List DedupIndexEntry → List DedupIndexEntry
miscounted ids [] = []
miscounted ids (e ∷ es) =
    let rest = miscounted ids es in
    if e.ref_count == count_refs e.entry_id ids then rest else recounted ids e ∷ rest

pub recount_changed :
    (ids : List ℕ) (refs : Map ℕ ℕ) (es : List DedupIndexEntry)
    → add_refs ids [] ≡ ok refs
    → (recount refs es).1 ≡ miscounted ids es
unfolding recount recounted miscounted
recount_changed ids refs [] h = refl
recount_changed ids refs (e ∷ es) h = ground (
  arith,
  recount_changed ids refs es h,
  add_refs_counts e.entry_id ids [] refs h,
  no_refs e.entry_id,
)

decrement_go :
    (index : Map ℕ ℕ) (id : ℕ) (ids : List ℕ) (es left : List DedupIndexEntry) (e : DedupIndexEntry)
    → decrement_entry (get id index) (at_index es (get id index)) es ≡ (ok e, left)
    → decrement_all index (id ∷ ids) es ≡ push_updated e (decrement_all index ids left)
unfolding decrement_all
decrement_go index id ids es left e h = rw (h, decrement_all) (rw h)

decrement_stop :
    (index : Map ℕ ℕ) (id : ℕ) (ids : List ℕ) (es left : List DedupIndexEntry) (x : StorageError)
    → decrement_entry (get id index) (at_index es (get id index)) es ≡ (err x, left)
    → decrement_all index (id ∷ ids) es ≡ (err x, left)
unfolding decrement_all
decrement_stop index id ids es left x h = rw (h, decrement_all) (rw h)

decrement_unknown :
    (index : Map ℕ ℕ) (id : ℕ) (es : List DedupIndexEntry)
    → get id index ≡ none
    → decrement_entry (get id index) (at_index es (get id index)) es ≡ (err not_found, es)
unfolding decrement_entry
decrement_unknown index id es h = rw h

-- A store whose cached index is that of its log.
abbrev pub store_of : MetadataFile → CachedDedup → DedupStore
store_of f c = record { trust_hot_cache = false; file = some f; cache = some c }

pub record IsCurrent (f : MetadataFile) (c : CachedDedup) : Type 0 where
  pub stamped : c.stamp ≡ f.stamp
  pub is_log : c.log_format ≡ true
  pub starts : starts_with dedup_log_prefix f.payload ≡ true
  pub small : read_segment_file_bounded (some f) ≡ ok f

module _ (f : MetadataFile) (c : CachedDedup) (h : IsCurrent f c) where
  pub fresh : ensure_cache_fresh (store_of f c) ≡ (ok tt, store_of f c)
  unfolding ensure_cache_fresh refresh
  fresh = ground (arith, h.stamped)

  pub log_kept : ensure_log_format_cached (store_of f c) ≡ (ok tt, store_of f c)
  unfolding ensure_log_format_cached cached pure ◌>>=◌
  log_kept = rw (h.is_log) refl

  pub log_there :
      (es : List DedupIndexEntry) → ensure_log_format es (store_of f c) ≡ (ok tt, store_of f c)
  unfolding ensure_log_format
  log_there es = ground (arith, h.small, h.starts)

  pub file_appended :
      (bytes : List ℕ)
      → append_segment_payload dedup_log_prefix bytes (some f)
        ≡ ok (record f {
          stamp = f.stamp + 1;
          sequence = saturating_add f.sequence 1;
          payload = f.payload ++ bytes;
        })
  unfolding append_segment_payload
  file_appended bytes =
      let long = starts_with_long dedup_log_prefix f.payload h.starts in
      let filled : (length f.payload == 0) ≡ false = ground (arith, long) in
      rw (filled, le→leb 4 (length f.payload) long, h.starts)

-- All references that the entries count.
unfoldable pub total : List DedupIndexEntry → ℕ
total [] = 0
total (e ∷ es) = e.ref_count + total es

total-set_entry :
    (i : ℕ) (e x : DedupIndexEntry) (es : List DedupIndexEntry)
    → get_elem? es i ≡ some e
    → total (set_entry i x es) + e.ref_count ≡ total es + x.ref_count
unfolding total set_entry
total-set_entry i e x [] h = absurd (ground arith)
total-set_entry zero e x (y ∷ es) h =
    let same : y.ref_count ≡ e.ref_count = ground (arith, h) in omega arith
total-set_entry (suc i) e x (y ∷ es) h = omega (arith, total-set_entry i e x es h)

decrement_step :
    (found : Option ℕ) (entry : Option DedupIndexEntry) (es left : List DedupIndexEntry)
    (e : DedupIndexEntry)
    → at_index es found ≡ entry
    → decrement_entry found entry es ≡ (ok e, left)
    → total left + 1 ≡ total es
unfolding decrement_entry
decrement_step none entry es left e h q = absurd (ground (arith, q))
decrement_step (some i) none es left e h q = absurd (ground (arith, q))
decrement_step (some i) (some x) es left e h q = elim (Bool-cases (x.ref_count == 0)) [
  | inl zero_left ↦ absurd (ground (arith, q))
  | inr counted ↦
      let moved : left ≡ set_entry i (record x { ref_count = x.ref_count - 1 }) es =
        ground (arith, q) in
      rw moved (ground (arith, total-set_entry i x (record x { ref_count = x.ref_count - 1 }) es h))
]

Decrement-cases :
    (d : Result StorageError DedupIndexEntry × List DedupIndexEntry)
    → ((x : StorageError) × (d.0 ≡ err x)) ⊎ ((e : DedupIndexEntry) × (d ≡ (ok e, d.1)))
Decrement-cases (err x, left) = inl (x, refl)
Decrement-cases (ok e, left) = inr (e, refl)

push_updated_inv :
    (e : DedupIndexEntry) (d : Result StorageError (List DedupIndexEntry) × List DedupIndexEntry)
    (updated left : List DedupIndexEntry)
    → push_updated e d ≡ (ok updated, left)
    → (rest : List DedupIndexEntry) × ((d ≡ (ok rest, left)) × (updated ≡ e ∷ rest))
push_updated_inv e (ok rest, es) updated left h = (rest, (ground (arith, h), ground (arith, h)))
push_updated_inv e (err x, es) updated left h = absurd (ground (arith, h))

-- A batch that succeeds takes one reference for each of its ids, and reports as many entries.
pub references_taken :
    (index : Map ℕ ℕ) (ids : List ℕ) (es updated left : List DedupIndexEntry)
    → decrement_all index ids es ≡ (ok updated, left)
    → (total left + length ids ≡ total es) × (length updated ≡ length ids)
unfolding decrement_all
references_taken index [] es updated left h = (ground (arith, h), ground (arith, h))
references_taken index (id ∷ ids) es updated left h =
    let d = decrement_entry (get id index) (at_index es (get id index)) es in
    elim (Decrement-cases d) [
      | inl (x, q) ↦ absurd (ground (arith, h, q))
      | inr (e, q) ↦
          let (rest, (run, grown)) =
            push_updated_inv e (decrement_all index ids d.1) updated left
              (sym (decrement_go index id ids es d.1 e q) ∙ h) in
          let (left_sum, size) = references_taken index ids d.1 rest left run in
          let one = decrement_step (get id index) (at_index es (get id index)) es d.1 e refl q in
          (omega arith, omega (arith, ap length grown))
    ]

-- An id that is not known ends the batch, behind what the ids before it have done.
decrement_all_ends :
    (index : Map ℕ ℕ) (ids : List ℕ) (b : ℕ) (rest : List ℕ)
    (es updated left : List DedupIndexEntry)
    → decrement_all index ids es ≡ (ok updated, left)
    → get b index ≡ none
    → decrement_all index (ids ++ b ∷ rest) es ≡ (err not_found, left)
unfolding decrement_all
decrement_all_ends index [] b rest es updated left h n =
    decrement_stop index b rest es es not_found (decrement_unknown index b es n)
    ∙ ap (λ l. (err not_found, l)) (ap (λ p. p.1) h)
decrement_all_ends index (id ∷ ids) b rest es updated left h n =
    let d = decrement_entry (get id index) (at_index es (get id index)) es in
    elim (Decrement-cases d) [
      | inl (x, q) ↦ absurd (ground (arith, h, q))
      | inr (e, q) ↦
          let (others, (run, grown)) =
            push_updated_inv e (decrement_all index ids d.1) updated left
              (sym (decrement_go index id ids es d.1 e q) ∙ h) in
          decrement_go index id (ids ++ b ∷ rest) es d.1 e q
          ∙ ap (push_updated e) (decrement_all_ends index ids b rest d.1 others left run n)
    ]

-- What a batch leaves that is refused: the file as it was, and cached counts that are lower.
pub record IsDiverged (f : MetadataFile) (c : CachedDedup) (ids batch : List ℕ)
    (left : List DedupIndexEntry) : Type 0 where
  pub refused :
      decrement_ref_counts batch (store_of f c)
      ≡ (err not_found, store_of f (record c { entries = left }))
  pub lowered : total left + length ids ≡ total c.entries

module _ (f : MetadataFile) (c : CachedDedup) (h : IsCurrent f c) where
  refused_batch :
      (id : ℕ) (ids : List ℕ) (left : List DedupIndexEntry)
      → decrement_all c.id_index (id ∷ ids) c.entries ≡ (err not_found, left)
      → decrement_ref_counts (id ∷ ids) (store_of f c)
        ≡ (err not_found, store_of f (record c { entries = left }))
  unfolding decrement_ref_counts cached keep_entries ◌>>=◌
  refused_batch id ids left q = rw (fresh f c h, log_kept f c h, q) refl

  -- A batch in which an unknown id stands behind ids that are decremented is refused and leaves the
  -- file as it was, but the cached counts are lower by the number of those ids, under the stamp of
  -- the file, so that later operations go by them. The cached index is that of the log, and the ids
  -- before the unknown one are known and have references left.
  pub decrement_ref_counts_diverges :
      (ids : List ℕ) (b : ℕ) (rest : List ℕ) (updated left : List DedupIndexEntry)
      → decrement_all c.id_index ids c.entries ≡ (ok updated, left)
      → get b c.id_index ≡ none
      → IsDiverged f c ids (ids ++ b ∷ rest) left
  decrement_ref_counts_diverges [] b rest updated left q n = record {
    refused =
        refused_batch b rest left
          (decrement_all_ends c.id_index [] b rest c.entries updated left q n);
    lowered = (references_taken c.id_index [] c.entries updated left q).0;
  }
  decrement_ref_counts_diverges (id ∷ ids) b rest updated left q n = record {
    refused =
        refused_batch id (ids ++ b ∷ rest) left
          (decrement_all_ends c.id_index (id ∷ ids) b rest c.entries updated left q n);
    lowered = (references_taken c.id_index (id ∷ ids) c.entries updated left q).0;
  }
