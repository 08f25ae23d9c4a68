-- ===== src/Storage/Dedup/Values.antt =====
-- The latest entries of a log in the order of their ids: data-plane/src/storage/dedup.rs.
use Prim.Native.Nat.{zero, suc}
use holo.Prelude.{
  ℕ, ◌+◌, ◌≤◌, ◌<◌, ◌≡◌, refl, ap, ◌∙◌, leb, ◌==◌, max, true, false, some, List, [], ◌∷◌, ◌++◌,
  length, get_elem?, drop, arith, ◌/◌,
}
use holo.Prelude.OrdMap.{Map, insert, nat_keys}
use holo.Prelude.Outcome.{ok}
use holo.Storage.MetadataFile.{starts_with}
use holo.Storage.BlkMap.Log.{max_maintenance_metadata_records}
use holo.Storage.BlkMap.Log.RoundTrip.{drop-append, starts_with-append, starts_with_long}
use holo.Storage.Dedup.{
  DedupIndexEntry, dedup_log_prefix, encode_entry, values, decode_log_map, decode_log_payload,
  decode_payload,
}
use holo.Storage.Dedup.Codec.{IsEntry, decode_log_map-append, ascends}
use holo.Storage.Dedup.Store.{max_entry_id}
use holo.Storage.Dedup.Store.Inserts.{set_entry}

-- An entry whose id is above all others comes last.
pub values-insert :
    (low : ℕ) (e : DedupIndexEntry) (m : Map ℕ DedupIndexEntry)
    → ascends low m ≡ true
    → max_entry_id (values m) < e.entry_id
    → values (insert e.entry_id e m) ≡ values m ++ e ∷ []
unfolding values insert ascends max_entry_id
values-insert low e [] h l = refl
values-insert low e ((k, x) ∷ m) h l = ground (arith, values-insert (k + 1) e m)

low_ids :
    (low i : ℕ) (m : Map ℕ DedupIndexEntry) (x : DedupIndexEntry)
    → ascends low m ≡ true
    → get_elem? (values m) i ≡ some x
    → low ≤ x.entry_id
unfolding values ascends
low_ids low i [] x h g = absurd (ground (arith, g))
low_ids low zero ((k, y) ∷ m) x h g =
    let same : y.entry_id ≡ x.entry_id = ground (arith, g) in ground (arith, h)
low_ids low (suc i) ((k, y) ∷ m) x h g = ground (arith, low_ids (k + 1) i m x, g)

-- An entry with the id of another takes its place.
pub values-insert_at :
    (low i : ℕ) (e x : DedupIndexEntry) (m : Map ℕ DedupIndexEntry)
    → ascends low m ≡ true
    → get_elem? (values m) i ≡ some x
    → x.entry_id ≡ e.entry_id
    → values (insert e.entry_id e m) ≡ set_entry i e (values m)
unfolding values insert ascends set_entry
values-insert_at low i e x [] h g s = absurd (ground (arith, g))
values-insert_at low zero e x ((k, y) ∷ m) h g s =
    let same : y.entry_id ≡ x.entry_id = ground (arith, g) in ground (arith, h, s)
values-insert_at low (suc i) e x ((k, y) ∷ m) h g s =
    ground (arith, values-insert_at (k + 1) i e x m, low_ids (k + 1) i m x, g, s)

pub get_elem?-set_entry :
    (i : ℕ) (e x : DedupIndexEntry) (es : List DedupIndexEntry)
    → get_elem? es i ≡ some x
    → get_elem? (set_entry i e es) i ≡ some e
unfolding set_entry
get_elem?-set_entry i e x [] h = absurd (ground (arith, h))
get_elem?-set_entry zero e x (y ∷ es) h = refl
get_elem?-set_entry (suc i) e x (y ∷ es) h = get_elem?-set_entry i e x es h

pub get_elem?_last :
    (e : DedupIndexEntry) (es : List DedupIndexEntry)
    → get_elem? (es ++ e ∷ []) (length es) ≡ some e
get_elem?_last e [] = refl
get_elem?_last e (y ∷ es) = get_elem?_last e es

pub max_entry_id-set_entry :
    (i : ℕ) (e x : DedupIndexEntry) (es : List DedupIndexEntry)
    → get_elem? es i ≡ some x
    → x.entry_id ≡ e.entry_id
    → max_entry_id (set_entry i e es) ≡ max_entry_id es
unfolding set_entry max_entry_id
max_entry_id-set_entry i e x [] h s = refl
max_entry_id-set_entry zero e x (y ∷ es) h s =
    let same : y.entry_id ≡ x.entry_id = ground (arith, h) in ground (arith, s)
max_entry_id-set_entry (suc i) e x (y ∷ es) h s =
    ap (max y.entry_id) (max_entry_id-set_entry i e x es h s)

pub max_entry_id-append :
    (e : DedupIndexEntry) (es : List DedupIndexEntry)
    → max_entry_id (es ++ e ∷ []) ≡ max (max_entry_id es) e.entry_id
unfolding max_entry_id
max_entry_id-append e [] = ground arith
max_entry_id-append e (y ∷ es) = ground (arith, max_entry_id-append e es)

-- The entries of a log, with the map that it is read into.
pub record IsLogOf (payload : List ℕ) (m : Map ℕ DedupIndexEntry) : Type 0 where
  pub starts : starts_with dedup_log_prefix payload ≡ true
  pub read : decode_log_map (drop 4 payload) ≡ ok m

pub decode_payload-values :
    (payload : List ℕ) (m : Map ℕ DedupIndexEntry)
    → IsLogOf payload m
    → decode_payload payload ≡ ok (values m)
unfolding decode_payload decode_log_payload
decode_payload-values payload m l =
    let long = starts_with_long dedup_log_prefix payload l.starts in
    let filled : (length payload == 0) ≡ false = ground arith in
    let four : leb 4 (length payload) ≡ true = ground arith in rw (filled, l.starts, four, l.read)

pub appended-IsLogOf :
    (payload : List ℕ) (m : Map ℕ DedupIndexEntry) (e : DedupIndexEntry)
    → IsLogOf payload m
    → IsEntry e
    → length (drop 4 payload) / 52 < max_maintenance_metadata_records
    → IsLogOf (payload ++ encode_entry e) (insert e.entry_id e m)
appended-IsLogOf payload m e l h room = record {
  starts = starts_with-append dedup_log_prefix payload (encode_entry e) l.starts;
  read =
      ap decode_log_map (
        drop-append 4 payload (encode_entry e) (starts_with_long dedup_log_prefix payload l.starts))
      ∙ decode_log_map-append (drop 4 payload) m e h room l.read;
}
