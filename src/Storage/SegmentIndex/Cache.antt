-- ===== src/Storage/SegmentIndex/Cache.antt =====
-- The index that a process keeps of one path, and its file: data-plane/src/storage/segment_index.rs.
-- A flush leaves the lock while it writes, so that it is two steps here.
use mathlib.Core.Path.{subst}
use holo.Prelude.{
  le→leb, is_empty, not, min, leb, ℕ, ◌+◌, ◌≤◌, ◌≡◌, refl, sym, ◌==◌, Bool, true, false, Option,
  none, some, List, [], ◌∷◌, length, arith, if◌then◌else◌, saturating_add, u64_max,
}
use holo.Prelude.Outcome.{Result, ok, err}
use holo.Storage.Error.{StorageError}
use holo.Storage.MetadataFile.{
  MetadataFile, read_segment_file_bounded, write_segment_file, max_maintenance_metadata_bytes,
}
use holo.Storage.SegmentIndex.{SegmentIndex, encode_index}
use holo.Storage.SegmentIndex.Codec.{
  IsIndex, decode_segment_index-encode_index, length-encode_index,
}
use holo.Storage.SegmentIndex.Files.{load_segment_index}

pub record CachedSegmentIndex : Type 0 where
  pub index : SegmentIndex
  pub dirty : Bool
  pub generation : ℕ
  pub stamp : Option ℕ

pub record IndexStore : Type 0 where
  pub cache : Option CachedSegmentIndex
  pub file : Option MetadataFile

-- `file_stamp(path).ok()`.
abbrev pub stamp_of : Option MetadataFile → Option ℕ
stamp_of none = none
stamp_of (some f) = some f.stamp

abbrev same_stamp : Option ℕ → Option ℕ → Bool
same_stamp none none = true
same_stamp none (some b) = false
same_stamp (some a) none = false
same_stamp (some a) (some b) = a == b

abbrev is_current : Option CachedSegmentIndex → Option ℕ → Option SegmentIndex
is_current none stamp = none
is_current (some c) stamp =
    if c.dirty then some c.index else if same_stamp c.stamp stamp then some c.index else none

abbrev keep_read :
    Result StorageError SegmentIndex → IndexStore → Result StorageError SegmentIndex × IndexStore
keep_read (err e) s = (err e, s)
keep_read (ok index) s = (
  ok index,
  record s {
    cache = some (record { index = index; dirty = false; generation = 0; stamp = stamp_of s.file });
  },
)

unfoldable pub load_segment_index_for_append :
    IndexStore → Result StorageError SegmentIndex × IndexStore
load_segment_index_for_append s = elim (is_current s.cache (stamp_of s.file)) [
  | some index ↦ (ok index, s)
  | none ↦ keep_read (load_segment_index s.file) s
]

abbrev next_generation : Option CachedSegmentIndex → ℕ
next_generation none = 1
next_generation (some c) = saturating_add c.generation 1

abbrev cached_stamp : Option CachedSegmentIndex → Option ℕ
cached_stamp none = none
cached_stamp (some c) = c.stamp

unfoldable pub store_segment_index_for_append : SegmentIndex → IndexStore → IndexStore
store_segment_index_for_append index s = record s {
  cache = some (record {
    index = index;
    dirty = true;
    generation = next_generation s.cache;
    stamp = cached_stamp s.cache;
  });
}

abbrev generation_or_zero : Option CachedSegmentIndex → ℕ
generation_or_zero none = 0
generation_or_zero (some c) = c.generation

unfoldable pub store_segment_index_clean : SegmentIndex → IndexStore → IndexStore
store_segment_index_clean index s = record s {
  cache = some (record {
    index = index;
    dirty = false;
    generation = generation_or_zero s.cache;
    stamp = stamp_of s.file;
  });
}

unfoldable pub invalidate_segment_index_cache : IndexStore → IndexStore
invalidate_segment_index_cache s = record s { cache = none }

abbrev if_dirty : Option CachedSegmentIndex → Option CachedSegmentIndex
if_dirty none = none
if_dirty (some c) = if c.dirty then some c else none

abbrev pub file_of : SegmentIndex → Option MetadataFile → MetadataFile
file_of index old = write_segment_file index.next_segment_seq (encode_index index) old

-- The first part of a flush: what is to be written is taken and written.
unfoldable pub begin_flush : IndexStore → Option CachedSegmentIndex × IndexStore
begin_flush s = elim (if_dirty s.cache) [
  | none ↦ (none, s)
  | some c ↦ (some c, record s { file = some (file_of c.index s.file) })
]

abbrev cleaned :
    CachedSegmentIndex → Option ℕ → Option CachedSegmentIndex → Option CachedSegmentIndex
cleaned written stamp none = none
cleaned written stamp (some c) =
    if c.generation == written.generation
    then some (record c { dirty = false; stamp = stamp })
    else some c

-- The second part: the entry is clean if it is still the one that was taken.
unfoldable pub end_flush : Option CachedSegmentIndex → IndexStore → IndexStore
end_flush none s = s
end_flush (some written) s = record s { cache = cleaned written (stamp_of s.file) s.cache }

-- With the appends that other threads finish in between.
unfoldable pub store_all : List SegmentIndex → IndexStore → IndexStore
store_all [] s = s
store_all (index ∷ indexes) s = store_all indexes (store_segment_index_for_append index s)

unfoldable pub flush_during : List SegmentIndex → IndexStore → IndexStore
flush_during between s = let begun = begin_flush s in end_flush begun.0 (store_all between begun.1)

stores_later :
    (between : List SegmentIndex) (c : CachedSegmentIndex) (file : Option MetadataFile)
    → c.dirty ≡ true
    → c.generation + length between ≤ u64_max
    → (d : CachedSegmentIndex) × ((store_all between (record { cache = some c; file = file })
          ≡ record { cache = some d; file = file })
        × ((d.dirty ≡ true) × (d.generation ≡ c.generation + length between)))
unfolding store_all store_segment_index_for_append saturating_add
stores_later [] c file h n = (c, (refl, (h, omega arith)))
stores_later (index ∷ between) c file h n =
    let stored : CachedSegmentIndex = record {
      index = index;
      dirty = true;
      generation = min (c.generation + 1) u64_max;
      stamp = c.stamp;
    } in
    let (d, (same, (dirty, grown))) = stores_later between stored file refl (omega arith) in
    (d, (same, (dirty, omega arith)))

written_holds :
    (index : SegmentIndex) (old : Option MetadataFile)
    → IsIndex index
    → load_segment_index (some (file_of index old)) ≡ ok index
unfolding load_segment_index read_segment_file_bounded write_segment_file
written_holds index old h =
    let small : leb (96 + length (encode_index index)) max_maintenance_metadata_bytes ≡ true =
      le→leb _ _ (omega (arith, length-encode_index index, h.few)) in
    rw (small, decode_segment_index-encode_index index h)

-- What a flush leaves: the file has the index that was taken, and the entry is clean only where it
-- is that index.
pub record IsFlushed (taken : SegmentIndex) (is_last : Bool) (after : IndexStore) : Type 0 where
  pub entry : CachedSegmentIndex
  pub kept : after.cache ≡ some entry
  pub written : load_segment_index after.file ≡ ok taken
  pub marked : entry.dirty ≡ not is_last
  pub clean_is_taken : entry.dirty ≡ false → entry.index ≡ taken

begin_runs :
    (c : CachedSegmentIndex) (file : Option MetadataFile)
    → c.dirty ≡ true
    → begin_flush (record { cache = some c; file = file })
      ≡ (some c, record { cache = some c; file = some (file_of c.index file) })
unfolding begin_flush
begin_runs c file h = rw (h, if_dirty) refl

-- A flush whose entry was replaced, or not, by the one that stands there in the end.
flushed_as :
    (between : List SegmentIndex) (c d : CachedSegmentIndex) (file : Option MetadataFile)
    → c.dirty ≡ true
    → store_all between (record { cache = some c; file = some (file_of c.index file) })
      ≡ record { cache = some d; file = some (file_of c.index file) }
    → flush_during between (record { cache = some c; file = file }) ≡ record {
      cache = cleaned c (stamp_of (some (file_of c.index file))) (some d);
      file = some (file_of c.index file);
    }
unfolding flush_during end_flush
flushed_as between c d file h e = rw (begin_runs c file h, e) refl

-- While a flush of a dirty entry writes, other threads may store more indexes. The file then holds
-- the index that the flush took, and the entry is clean afterwards exactly if none was stored. The
-- index can be read back, and the generations do not run out.
pub flush_during-IsFlushed :
    (between : List SegmentIndex) (c : CachedSegmentIndex) (file : Option MetadataFile)
    → c.dirty ≡ true
    → IsIndex c.index
    → c.generation + length between ≤ u64_max
    → IsFlushed c.index
        (is_empty between)
        (flush_during between (record { cache = some c; file = file }))
flush_during-IsFlushed [] c file h i n =
    let f = file_of c.index file in
    let stamp = stamp_of (some f) in
    let same : cleaned c stamp (some c) ≡ some (record c { dirty = false; stamp = stamp }) =
      ground arith in
    subst (IsFlushed c.index true) (sym (flushed_as [] c c file h (unfold store_all in refl)))
      (record {
        entry = record c { dirty = false; stamp = stamp };
        kept = same;
        written = written_holds c.index file i;
        marked = refl;
        clean_is_taken = λ e. refl;
      })
flush_during-IsFlushed (index ∷ between) c file h i n =
    let f = file_of c.index file in
    let stamp = stamp_of (some f) in
    let (d, (run, (dirty, later))) = stores_later (index ∷ between) c (some f) h n in
    let other : cleaned c stamp (some d) ≡ some d = ground (arith, later) in
    subst (IsFlushed c.index false) (sym (flushed_as (index ∷ between) c d file h run)) (record {
      entry = d;
      kept = other;
      written = written_holds c.index file i;
      marked = dirty;
      clean_is_taken = λ e. cc;
    })
