-- ===== src/Storage/Dedup/Store.antt =====
-- The cached dedup index of one path and its file: data-plane/src/storage/dedup.rs. Every operation
-- gives its result and the store after it; the locks of the cache are left out.
pub mod Inserts
pub mod References
pub mod RefCounts
pub mod Rebuild
pub mod Upsert
pub mod Upserted
use Prim.Native.Nat.{zero, suc}
use holo.Prelude.{
  ℕ, ◌+◌, ◌-◌, max, ltb, leb, ◌==◌, Bool, true, false, not, ◌&&◌, ◌||◌, Option, none, some, List,
  [], ◌∷◌, ◌++◌, length, get_elem?, is_empty, if◌then◌else◌, is_some, saturating_add, checked_add,
  u32_max, u64_max,
}
use holo.Prelude.OrdMap.{Map, get, insert, contains_key, nat_keys, text_keys, Text}
use holo.Prelude.Outcome.{
  Result, ok, err, and_then, ensure, ok_or, Exec, pure, lift, gets, modify, ◌>>=◌, ◌>>◌,
}
use holo.Storage.Error.{StorageError, corrupt, io, not_found, conflict}
use holo.Storage.MetadataFile.{
  MetadataFile, starts_with, read_segment_file_bounded, write_segment_file, append_segment_payload,
}
use holo.Storage.Dedup.{
  DedupIndexEntry, encode_entry, dedup_log_prefix, decode_payload, encode_entries,
  encode_log_payload,
}

pub data DedupLookup : Type 0 where
  hit : DedupIndexEntry → DedupLookup
  collision miss : DedupLookup

pub data DedupUpsertResult : Type 0 where
  upsert_hit inserted collision_inserted : DedupIndexEntry → DedupUpsertResult

-- The keys of identities and of fingerprints.
abbrev pub IdentityKey : Type 0
IdentityKey = Text

abbrev pub identity_key : ℕ → ℕ → ℕ → ℕ → IdentityKey
identity_key fingerprint_hi fingerprint_lo payload_checksum logical_len =
    fingerprint_hi ∷ fingerprint_lo ∷ payload_checksum ∷ logical_len ∷ []

abbrev pub identity_key_for : DedupIndexEntry → IdentityKey
identity_key_for e = identity_key e.fingerprint_hi e.fingerprint_lo e.payload_checksum e.logical_len

abbrev pub fingerprint_key : ℕ → ℕ → IdentityKey
fingerprint_key fingerprint_hi fingerprint_lo = fingerprint_hi ∷ fingerprint_lo ∷ []

abbrev pub fingerprint_key_for : DedupIndexEntry → IdentityKey
fingerprint_key_for e = fingerprint_key e.fingerprint_hi e.fingerprint_lo

pub record CachedDedup : Type 0 where
  pub stamp : ℕ
  pub sequence : ℕ
  pub entries : List DedupIndexEntry
  pub identity_index : Map IdentityKey ℕ
  pub fingerprint_index : Map IdentityKey (Unit {0})
  pub id_index : Map ℕ ℕ
  pub next_entry_id : ℕ
  pub log_format : Bool

pub record DedupStore : Type 0 where
  pub trust_hot_cache : Bool
  pub file : Option MetadataFile
  pub cache : Option CachedDedup

abbrev pub Op : Type 0 → Type 0
Op A = Exec StorageError DedupStore A

-- The indexes with an entry at the position put in.
unfoldable pub index_entry : ℕ → DedupIndexEntry → CachedDedup → CachedDedup
index_entry position e c = record c {
  identity_index = insert (identity_key_for e) position c.identity_index;
  fingerprint_index = insert (fingerprint_key_for e) tt c.fingerprint_index;
  id_index = insert e.entry_id position c.id_index;
}

-- The loop over the entries, and the highest id.
unfoldable pub index_entries : ℕ → List DedupIndexEntry → CachedDedup → CachedDedup
index_entries position [] c = c
index_entries position (e ∷ es) c = index_entries (position + 1) es (index_entry position e c)

unfoldable pub max_entry_id : List DedupIndexEntry → ℕ
max_entry_id [] = 0
max_entry_id (e ∷ es) = max e.entry_id (max_entry_id es)

unfoldable pub build_cached_dedup : ℕ → ℕ → List DedupIndexEntry → Bool → CachedDedup
build_cached_dedup stamp sequence entries log_format = index_entries 0 entries (record {
  stamp = stamp;
  sequence = sequence;
  entries = entries;
  identity_index = [];
  fingerprint_index = [];
  id_index = [];
  next_entry_id = saturating_add (max_entry_id entries) 1;
  log_format = log_format;
})

abbrev is_stamped : Option CachedDedup → ℕ → Bool
is_stamped none stamp = false
is_stamped (some c) stamp = c.stamp == stamp

-- Reading the file into the cache.
unfoldable pub reload : MetadataFile → Op (Unit {0})
reload f s =
    elim (and_then (read_segment_file_bounded (some f)) λ g.
      and_then (decode_payload g.payload) λ entries.
        ok (
          build_cached_dedup g.stamp g.sequence entries (starts_with dedup_log_prefix g.payload))) [
            | ok c ↦ (ok tt, record s { cache = some c })
            | err e ↦ (err e, s)
          ]

unfoldable pub refresh : Option MetadataFile → Op (Unit {0})
refresh none s = (err io, s)
refresh (some f) s = if is_stamped s.cache f.stamp then (ok tt, s) else reload f s

unfoldable pub ensure_cache_fresh : Op (Unit {0})
ensure_cache_fresh s = if s.trust_hot_cache && is_some s.cache then (ok tt, s) else refresh s.file s

unfoldable pub cached : Op CachedDedup
cached s = (ok_or s.cache not_found, s)

unfoldable pub load_dedup_index : Op (ℕ × List DedupIndexEntry)
load_dedup_index = ensure_cache_fresh >> cached >>= λ c. pure (c.sequence, c.entries)

abbrev pub at_index : List DedupIndexEntry → Option ℕ → Option DedupIndexEntry
at_index entries none = none
at_index entries (some i) = get_elem? entries i

unfoldable pub dedup_cache_ready : DedupStore → Bool
dedup_cache_ready s = is_some s.cache

unfoldable pub discard_dedup_cache : DedupStore → DedupStore
discard_dedup_cache s = record s { cache = none }

unfoldable pub lookup_entry_by_id : ℕ → Op DedupIndexEntry
lookup_entry_by_id entry_id = ensure_cache_fresh >> cached >>= λ c.
    lift (ok_or (at_index c.entries (get entry_id c.id_index)) not_found)

-- What the cached indexes know of an identity.
unfoldable pub find_identity : CachedDedup → IdentityKey → IdentityKey → DedupLookup
find_identity c key fingerprint = elim (at_index c.entries (get key c.identity_index)) [
  | some e ↦ hit e
  | none ↦ if contains_key fingerprint c.fingerprint_index then collision else miss
]

unfoldable pub lookup_identity : ℕ → ℕ → ℕ → ℕ → Op DedupLookup
lookup_identity hi lo payload_checksum logical_len = ensure_cache_fresh >> cached >>= λ c.
    pure (find_identity c (identity_key hi lo payload_checksum logical_len) (fingerprint_key hi lo))

abbrev pub keep_file : Result StorageError MetadataFile → Op ℕ
keep_file (ok f) s = (ok f.sequence, record s { file = some f })
keep_file (err e) s = (err e, s)

unfoldable pub append_to_file : List ℕ → Op ℕ
append_to_file bytes s = keep_file (append_segment_payload dedup_log_prefix bytes s.file) s

-- `file_stamp(path)`, or the old one where the cache is trusted.
abbrev pub stamp_of : DedupStore → CachedDedup → ℕ
stamp_of s c =
    if s.trust_hot_cache then c.stamp else elim s.file [ none ↦ c.stamp | some f ↦ f.stamp ]

-- The cache's entry after its file has been appended to.
unfoldable pub cache_appended : ℕ → CachedDedup → Op (Unit {0})
cache_appended sequence c s = (
  ok tt,
  record s {
    cache = some (record c { stamp = stamp_of s c; sequence = sequence; log_format = true });
  },
)

abbrev pub kept_sequence : ℕ → Option CachedDedup → ℕ
kept_sequence sequence none = sequence
kept_sequence sequence (some c) = if sequence == 0 then c.sequence else sequence

unfoldable pub update_cache : ℕ → List DedupIndexEntry → Op (Unit {0})
update_cache sequence entries s = elim s.file [
  | none ↦ (err io, s)
  | some f ↦ (
    ok tt,
    record s {
      cache = some (build_cached_dedup f.stamp (kept_sequence sequence s.cache) entries true);
    },
  )
]

unfoldable pub write_log : List DedupIndexEntry → Op (Unit {0})
write_log entries s = (
  ok tt,
  record s {
    file = some (write_segment_file (length entries) (encode_log_payload entries) s.file);
  },
)

unfoldable pub persist_dedup_entries : List DedupIndexEntry → Op (Unit {0})
persist_dedup_entries entries = write_log entries >> update_cache (length entries) entries

unfoldable pub ensure_log_format : List DedupIndexEntry → Op (Unit {0})
ensure_log_format entries s = elim (read_segment_file_bounded s.file) [
  | err e ↦ (err e, s)
  | ok f ↦
      if starts_with dedup_log_prefix f.payload then (ok tt, s) else persist_dedup_entries entries s
]

unfoldable pub ensure_log_format_cached : Op (Unit {0})
ensure_log_format_cached = cached >>= λ c.
    if c.log_format || is_empty c.entries then pure tt else persist_dedup_entries c.entries
