-- ===== src/Storage/SegmentIndex/Files/Allocation.antt =====
-- Where a new blob goes: the segment in use and the ids of blobs, of
-- data-plane/src/storage/segment_index.rs, with `next_blob_id` of data-plane/src/storage/data_path.rs.
use mathlib.Core.Path.{subst}
use holo.Prelude.{
  ℕ, ◌+◌, ◌≤◌, ◌<◌, ◌≡◌, refl, sym, ap, ◌∙◌, ltb, leb, ◌==◌, max, Bool, true, false, not, ◌&&◌,
  ◌||◌, Option, none, some, List, [], ◌∷◌, find, arith, checked_add,
}
use holo.Prelude.Outcome.{Result, ok, ok_or}
use holo.Storage.Error.{StorageError, conflict, corrupt}
use holo.Storage.Compression.{CompressionCodec}
use holo.Storage.SegmentIndex.{
  with_descriptors, is_active, SegmentDescriptor, contains_blob, SegmentIndex, active_test,
  seq_test, active_descriptor, descriptor_for_blob, update_first, appended, record_blob_append,
}

-- `descriptors.iter().map(last_blob_id).max().unwrap_or(0)`.
unfoldable pub max_last : List SegmentDescriptor → ℕ
max_last [] = 0
max_last (d ∷ ds) = max d.last_blob_id (max_last ds)

unfoldable pub next_blob_id : SegmentIndex → Result StorageError ℕ
next_blob_id index = ok_or (checked_add (max_last index.descriptors) 1) conflict

-- No blob yet, or blobs above the given id.
unfoldable pub has_span : ℕ → SegmentDescriptor → Bool
has_span low d =
    (d.first_blob_id == 0 && d.last_blob_id == 0)
    || (ltb low d.first_blob_id && leb d.first_blob_id d.last_blob_id)

-- The numbers of the segments and the ids of their blobs ascend, and the last segment alone is the
-- active one.
unfoldable pub is_laid_out : ℕ → ℕ → ℕ → List SegmentDescriptor → Bool
is_laid_out low seq next [] = false
is_laid_out low seq next (d ∷ []) =
    (leb seq d.segment_seq && ltb d.segment_seq next) && (has_span low d && is_active d.state)
is_laid_out low seq next (d ∷ e ∷ ds) =
    (leb seq d.segment_seq && (has_span low d && not (is_active d.state)))
    && is_laid_out (max low d.last_blob_id) (d.segment_seq + 1) next (e ∷ ds)

-- The last descriptor changed.
unfoldable pub alter_last :
    (SegmentDescriptor → SegmentDescriptor) → List SegmentDescriptor → List SegmentDescriptor
alter_last f [] = []
alter_last f (d ∷ []) = f d ∷ []
alter_last f (d ∷ e ∷ ds) = d ∷ alter_last f (e ∷ ds)

unfoldable pub last_or : SegmentDescriptor → List SegmentDescriptor → SegmentDescriptor
last_or d [] = d
last_or d (e ∷ ds) = last_or e ds

pub find_active :
    (low seq next : ℕ) (d : SegmentDescriptor) (ds : List SegmentDescriptor)
    → is_laid_out low seq next (d ∷ ds) ≡ true
    → find active_test (d ∷ ds) ≡ some (last_or d ds)
unfolding is_laid_out find last_or
find_active low seq next d [] h = ground arith
find_active low seq next d (e ∷ ds) h =
    ground (arith, find_active (max low d.last_blob_id) (d.segment_seq + 1) next e ds)

pub update_active :
    (low seq next : ℕ) (f : SegmentDescriptor → SegmentDescriptor) (d : SegmentDescriptor)
    (ds : List SegmentDescriptor)
    → is_laid_out low seq next (d ∷ ds) ≡ true
    → update_first active_test f (d ∷ ds) ≡ some (alter_last f (d ∷ ds))
unfolding is_laid_out update_first alter_last
update_active low seq next f d [] h = ground arith
update_active low seq next f d (e ∷ ds) h =
    ground (arith, update_active (max low d.last_blob_id) (d.segment_seq + 1) next f e ds)

pub last_seq :
    (low seq next : ℕ) (d : SegmentDescriptor) (ds : List SegmentDescriptor)
    → is_laid_out low seq next (d ∷ ds) ≡ true
    → (seq ≤ (last_or d ds).segment_seq) × ((last_or d ds).segment_seq < next)
unfolding is_laid_out last_or
last_seq low seq next d [] h = ground arith
last_seq low seq next d (e ∷ ds) h =
    ground (arith, last_seq (max low d.last_blob_id) (d.segment_seq + 1) next e ds)

update_numbered :
    (low seq next : ℕ) (f : SegmentDescriptor → SegmentDescriptor) (d : SegmentDescriptor)
    (ds : List SegmentDescriptor)
    → is_laid_out low seq next (d ∷ ds) ≡ true
    → update_first (seq_test (last_or d ds).segment_seq) f (d ∷ ds) ≡ some (alter_last f (d ∷ ds))
unfolding is_laid_out update_first alter_last last_or
update_numbered low seq next f d [] h = ground arith
update_numbered low seq next f d (e ∷ ds) h = ground (
  arith,
  update_numbered (max low d.last_blob_id) (d.segment_seq + 1) next f e ds,
  last_seq (max low d.last_blob_id) (d.segment_seq + 1) next e ds,
)

-- A larger id put into the last descriptor.
laid_out_appended :
    (low seq next bytes id len : ℕ) (codec : CompressionCodec) (d : SegmentDescriptor)
    (ds : List SegmentDescriptor)
    → is_laid_out low seq next (d ∷ ds) ≡ true
    → low < id
    → max_last (d ∷ ds) < id
    → is_laid_out low seq next (alter_last (appended bytes id len codec) (d ∷ ds)) ≡ true
unfolding is_laid_out alter_last appended has_span max_last
laid_out_appended low seq next bytes id len codec d [] h l m = ground arith
laid_out_appended low seq next bytes id len codec d (e ∷ []) h l m = ground (
  arith,
  laid_out_appended (max low d.last_blob_id) (d.segment_seq + 1) next bytes id len codec e [],
)
laid_out_appended low seq next bytes id len codec d (e ∷ g ∷ ds) h l m = ground (
  arith,
  laid_out_appended (max low d.last_blob_id) (d.segment_seq + 1) next bytes id len codec e (g ∷ ds),
)

-- Where a blob is found after an append: the new one in the last segment, others as before.
found_last :
    (low seq next bytes id len b : ℕ) (codec : CompressionCodec) (d : SegmentDescriptor)
    (ds : List SegmentDescriptor)
    → is_laid_out low seq next (d ∷ ds) ≡ true
    → low < id
    → max_last (d ∷ ds) < id
    → b ≡ id
    → find (contains_blob b) (alter_last (appended bytes id len codec) (d ∷ ds))
      ≡ some (appended bytes id len codec (last_or d ds))
unfolding is_laid_out alter_last appended has_span max_last find contains_blob last_or
found_last low seq next bytes id len b codec d [] h l m q = ground arith
found_last low seq next bytes id len b codec d (e ∷ ds) h l m q =
    ground (
      arith,
      found_last (max low d.last_blob_id) (d.segment_seq + 1) next bytes id len b codec e ds,
    )

abbrev pub number_of : Option SegmentDescriptor → Option ℕ
number_of none = none
number_of (some d) = some d.segment_seq

-- The last segment is empty, or has the highest id of all.
last_highest :
    (low seq next : ℕ) (d : SegmentDescriptor) (ds : List SegmentDescriptor)
    → is_laid_out low seq next (d ∷ ds) ≡ true
    → ((last_or d ds).first_blob_id == 0
        || (ltb low (last_or d ds).last_blob_id
            && leb (max_last (d ∷ ds)) (last_or d ds).last_blob_id))
      ≡ true
unfolding is_laid_out has_span max_last last_or
last_highest low seq next d [] h = ground arith
last_highest low seq next d (e ∷ ds) h =
    ground (arith, last_highest (max low d.last_blob_id) (d.segment_seq + 1) next e ds)

joined :
    (b : ℕ) (d : SegmentDescriptor) (xs ys : List SegmentDescriptor)
    → number_of (find (contains_blob b) xs) ≡ number_of (find (contains_blob b) ys)
    → number_of (find (contains_blob b) (d ∷ xs)) ≡ number_of (find (contains_blob b) (d ∷ ys))
unfolding find
joined b d xs ys h = ground arith

last_below :
    (d : SegmentDescriptor) (ds : List SegmentDescriptor)
    → (last_or d ds).last_blob_id ≤ max_last (d ∷ ds)
unfolding last_or max_last
last_below d [] = omega arith
last_below d (e ∷ ds) = omega (arith, last_below e ds)

find_others :
    (low seq next bytes id len b : ℕ) (codec : CompressionCodec) (d : SegmentDescriptor)
    (ds : List SegmentDescriptor)
    → is_laid_out low seq next (d ∷ ds) ≡ true
    → ((last_or d ds).first_blob_id == 0 || (last_or d ds).last_blob_id + 1 == id) ≡ true
    → b < id
    → number_of (find (contains_blob b) (alter_last (appended bytes id len codec) (d ∷ ds)))
      ≡ number_of (find (contains_blob b) (d ∷ ds))
unfolding is_laid_out alter_last appended has_span find contains_blob last_or
find_others low seq next bytes id len b codec d [] h m q = ground arith
find_others low seq next bytes id len b codec d (e ∷ ds) h m q =
    joined b d (alter_last (appended bytes id len codec) (e ∷ ds)) (e ∷ ds) (
      find_others (max low d.last_blob_id) (d.segment_seq + 1) next bytes id len b codec e ds
        (ground arith) m q)

unfoldable pub is_allocated : SegmentIndex → Bool
is_allocated index = is_laid_out 0 0 index.next_segment_seq index.descriptors

next_above :
    (index : SegmentIndex) (id : ℕ)
    → next_blob_id index ≡ ok id
    → max_last index.descriptors + 1 ≡ id
unfolding next_blob_id checked_add
next_above index id h = ground arith

-- What the append of a blob under the next id does to the index.
pub record IsRecorded (before after : SegmentIndex) (seq id : ℕ) : Type 0 where
  pub allocated : is_allocated after ≡ true
  pub found : number_of (descriptor_for_blob id after) ≡ some seq
  pub kept :
      (b : ℕ)
      → b < id
      → number_of (descriptor_for_blob b after) ≡ number_of (descriptor_for_blob b before)

pub found_of :
    (o : Option SegmentDescriptor) (e : StorageError) (a : SegmentDescriptor)
    → ok_or o e ≡ ok a
    → o ≡ some a
found_of none e a h = absurd (ground arith)
found_of (some d) e a h = cc

pub some_injective : {x y : SegmentDescriptor} → some x ≡ some y → x ≡ y
some_injective h = cc

recorded :
    (index : SegmentIndex) (bytes id len : ℕ) (codec : CompressionCodec) (d : SegmentDescriptor)
    (ds : List SegmentDescriptor)
    → is_laid_out 0 0 index.next_segment_seq (d ∷ ds) ≡ true
    → index.descriptors ≡ d ∷ ds
    → max_last (d ∷ ds) + 1 ≡ id
    → IsRecorded index
        (record index { descriptors = alter_last (appended bytes id len codec) (d ∷ ds) })
        (last_or d ds).segment_seq
        id
unfolding is_allocated descriptor_for_blob
recorded index bytes id len codec d ds h e m =
    let next = index.next_segment_seq in
    record {
      allocated = laid_out_appended 0 0 next bytes id len codec d ds h (omega arith) (omega arith);
      found =
          ap number_of
            (found_last 0 0 next bytes id len id codec d ds h (omega arith) (omega arith) refl)
          ∙ (unfold appended in refl);
      kept = λ b q.
          find_others 0 0 next bytes id len b codec d ds h
            (ground (arith, last_highest 0 0 next d ds h, last_below d ds)) q
          ∙ ap (λ l. number_of (find (contains_blob b) l)) (sym e);
    }

found_and_raised :
    (index : SegmentIndex) (bytes id len : ℕ) (codec : CompressionCodec) (a : SegmentDescriptor)
    (l : List SegmentDescriptor)
    → index.descriptors ≡ l
    → is_laid_out 0 0 index.next_segment_seq l ≡ true
    → max_last l + 1 ≡ id
    → find active_test l ≡ some a
    → (after : SegmentIndex) × ((record_blob_append index a.segment_seq bytes id len codec
          ≡ ok after)
        × IsRecorded index after a.segment_seq id)
unfolding record_blob_append
found_and_raised index bytes id len codec a [] e h m f = absurd (unfold is_laid_out in ground arith)
found_and_raised index bytes id len codec a (d ∷ ds) e h m f =
    let next = index.next_segment_seq in
    let last : last_or d ds ≡ a = some_injective (sym (find_active 0 0 next d ds h) ∙ f) in
    let seq : (last_or d ds).segment_seq ≡ a.segment_seq = ap (λ x. x.segment_seq) last in
    let change = appended bytes id len codec in
    (
      record index { descriptors = alter_last change (d ∷ ds) },
      (
        ap (λ x. with_descriptors index (update_first (seq_test x) change index.descriptors))
              (sym seq)
            ∙ ap
                (λ x.
                  with_descriptors index
                    (update_first (seq_test (last_or d ds).segment_seq) change x))
                e
            ∙ ap (with_descriptors index) (update_numbered 0 0 next change d ds h),
        subst
            (λ x. IsRecorded index (record index { descriptors = alter_last change (d ∷ ds) }) x id)
            seq (recorded index bytes id len codec d ds h e m),
      ),
    )

-- A blob recorded under the next id in the active segment is found in that segment, every older
-- blob in the segment that it was found in, and the index is laid out as before.
pub record_blob_append-IsRecorded :
    (index : SegmentIndex) (bytes id len : ℕ) (codec : CompressionCodec) (a : SegmentDescriptor)
    → is_allocated index ≡ true
    → next_blob_id index ≡ ok id
    → active_descriptor index ≡ ok a
    → (after : SegmentIndex) × ((record_blob_append index a.segment_seq bytes id len codec
          ≡ ok after)
        × IsRecorded index after a.segment_seq id)
unfolding is_allocated active_descriptor
record_blob_append-IsRecorded index bytes id len codec a h n f =
    found_and_raised index bytes id len codec a index.descriptors refl h (next_above index id n)
      (found_of (find active_test index.descriptors) corrupt a f)
