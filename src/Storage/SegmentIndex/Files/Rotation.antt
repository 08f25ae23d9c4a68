-- ===== src/Storage/SegmentIndex/Files/Rotation.antt =====
-- The segment that an append gets: data-plane/src/storage/segment_index.rs.
use holo.Prelude.{
  ℕ, ◌+◌, ◌≤◌, ◌<◌, ◌≡◌, refl, sym, ap, ◌∙◌, leb, le→leb, ◌==◌, max, true, false, ◌||◌, Bool-cases,
  inl, inr, some, List, [], ◌∷◌, ◌++◌, find, arith, checked_add, saturating_add, u32_max, u64_max,
}
use holo.Prelude.OrdMap.{get, insert, nat_keys}
use holo.Prelude.Outcome.{ok, pure, ◌>>=◌}
use holo.Storage.MetadataFile.{write_segment_file}
use holo.Storage.SegmentIndex.{
  SegmentDescriptor, contains_blob, SegmentIndex, empty_descriptor, active_test, active_descriptor,
  descriptor_for_blob, update_first, seal, encode_index,
}
use holo.Storage.SegmentIndex.Files.{
  SegmentFiles, persist_segment_index, seal_active, create_data_segment, push_descriptor,
  advance_next_seq, rotate_active_segment, should_rotate, rotate_if, active_segment,
  prepare_active_segment_for_append,
}
use holo.Storage.SegmentIndex.Files.Allocation.{
  max_last, has_span, is_laid_out, is_allocated, alter_last, last_or, find_active, update_active,
  number_of,
}

-- The descriptors after a rotation.
unfoldable pub rotated : ℕ → List SegmentDescriptor → List SegmentDescriptor
rotated next ds = alter_last seal ds ++ empty_descriptor next ∷ []

rotated_laid_out :
    (low seq next : ℕ) (d : SegmentDescriptor) (ds : List SegmentDescriptor)
    → is_laid_out low seq next (d ∷ ds) ≡ true
    → is_laid_out low seq (next + 1) (rotated next (d ∷ ds)) ≡ true
unfolding is_laid_out rotated alter_last has_span
rotated_laid_out low seq next d [] h = ground arith
rotated_laid_out low seq next d (e ∷ []) h =
    ground (arith, rotated_laid_out (max low d.last_blob_id) (d.segment_seq + 1) next e [])
rotated_laid_out low seq next d (e ∷ g ∷ ds) h =
    ground (arith, rotated_laid_out (max low d.last_blob_id) (d.segment_seq + 1) next e (g ∷ ds))

rotated_active :
    (low seq next : ℕ) (d : SegmentDescriptor) (ds : List SegmentDescriptor)
    → is_laid_out low seq next (d ∷ ds) ≡ true
    → find active_test (rotated next (d ∷ ds)) ≡ some (empty_descriptor next)
unfolding is_laid_out rotated alter_last find
rotated_active low seq next d [] h = refl
rotated_active low seq next d (e ∷ ds) h =
    ground (arith, rotated_active (max low d.last_blob_id) (d.segment_seq + 1) next e ds)

rotated_max :
    (next : ℕ) (d : SegmentDescriptor) (ds : List SegmentDescriptor)
    → max_last (rotated next (d ∷ ds)) ≡ max_last (d ∷ ds)
unfolding max_last rotated alter_last
rotated_max next d [] = refl
rotated_max next d (e ∷ ds) = ap (max d.last_blob_id) (rotated_max next e ds)

begins_new :
    (b next : ℕ) (d : SegmentDescriptor) (ds : List SegmentDescriptor)
    → number_of (find (contains_blob b) (rotated next (d ∷ ds)))
      ≡ number_of (find (contains_blob b) (d ∷ ds))
unfolding find rotated alter_last contains_blob
begins_new b next d [] = ground arith
begins_new b next d (e ∷ ds) = ground (arith, begins_new b next e ds)

-- What making room leaves of the index, and the segment that it chooses.
pub record IsPrepared (before after : SegmentIndex) (record_len : ℕ) (a : SegmentDescriptor)
    : Type 0 where
  pub allocated : is_allocated after ≡ true
  pub chosen : find active_test after.descriptors ≡ some a
  pub same_highest : max_last after.descriptors ≡ max_last before.descriptors
  pub same_size : after.max_segment_size ≡ before.max_segment_size
  pub kept :
      (b : ℕ) → number_of (descriptor_for_blob b after) ≡ number_of (descriptor_for_blob b before)
  pub fits :
      (a.payload_bytes == 0 || leb (a.payload_bytes + record_len) before.max_segment_size) ≡ true

abbrev rotated_index : SegmentIndex → SegmentIndex
rotated_index index = record index {
  descriptors = rotated index.next_segment_seq index.descriptors;
  next_segment_seq = index.next_segment_seq + 1;
}

abbrev rotated_files : SegmentFiles → SegmentFiles
rotated_files s = record {
  index = rotated_index s.index;
  data_segments =
      insert s.index.next_segment_seq
        (write_segment_file 0 [] (get s.index.next_segment_seq s.data_segments)) s.data_segments;
  index_file = some (
      write_segment_file (s.index.next_segment_seq + 1) (encode_index (rotated_index s.index))
        s.index_file);
}

seal_runs :
    (s : SegmentFiles) (ds : List SegmentDescriptor)
    → update_first active_test seal s.index.descriptors ≡ some ds
    → seal_active s ≡ (ok tt, record s { index = record s.index { descriptors = ds } })
unfolding seal_active
seal_runs s ds h = ground (arith, h)

advance_runs :
    (s : SegmentFiles)
    → s.index.next_segment_seq < u64_max
    → advance_next_seq s ≡ (
      ok tt,
      record s { index = record s.index { next_segment_seq = s.index.next_segment_seq + 1 } },
    )
unfolding advance_next_seq checked_add
advance_runs s h = ground arith

rotate_runs :
    (s : SegmentFiles)
    → update_first active_test seal s.index.descriptors ≡ some (alter_last seal s.index.descriptors)
    → s.index.next_segment_seq ≤ u32_max
    → rotate_active_segment s ≡ (ok tt, rotated_files s)
unfolding rotate_active_segment create_data_segment push_descriptor persist_segment_index rotated
    ◌>>=◌
rotate_runs s h n =
    let next = s.index.next_segment_seq in
    let sealed_state : SegmentFiles = record s {
      index = record s.index { descriptors = alter_last seal s.index.descriptors };
    } in
    let small : leb next u32_max ≡ true = le→leb _ _ n in
    let pushed : SegmentFiles =
      (push_descriptor next (create_data_segment next sealed_state).1).1 in
    rw
      (
        seal_runs s (alter_last seal s.index.descriptors) h,
        small,
        advance_runs pushed (omega arith),
      )
      refl

rotated-IsPrepared :
    (index : SegmentIndex) (record_len : ℕ) (d : SegmentDescriptor) (ds : List SegmentDescriptor)
    → index.descriptors ≡ d ∷ ds
    → is_laid_out 0 0 index.next_segment_seq (d ∷ ds) ≡ true
    → IsPrepared index (rotated_index index) record_len (empty_descriptor index.next_segment_seq)
unfolding is_allocated descriptor_for_blob
rotated-IsPrepared index record_len d ds e h =
    let next = index.next_segment_seq in
    record {
      allocated =
          ap (λ l. is_laid_out 0 0 (next + 1) (rotated next l)) e
          ∙ rotated_laid_out 0 0 next d ds h;
      chosen = ap (λ l. find active_test (rotated next l)) e ∙ rotated_active 0 0 next d ds h;
      same_highest =
          ap (λ l. max_last (rotated next l)) e ∙ (rotated_max next d ds ∙ sym (ap max_last e));
      same_size = refl;
      kept = λ b.
          ap (λ l. number_of (find (contains_blob b) (rotated next l))) e
          ∙ (begins_new b next d ds ∙ sym (ap (λ l. number_of (find (contains_blob b) l)) e));
      fits = refl;
    }

-- The rotation of an index that is laid out.
rotate-IsPrepared :
    (s : SegmentFiles) (record_len : ℕ) (l : List SegmentDescriptor)
    → s.index.descriptors ≡ l
    → is_laid_out 0 0 s.index.next_segment_seq l ≡ true
    → s.index.next_segment_seq ≤ u32_max
    → (rotate_active_segment s ≡ (ok tt, rotated_files s))
      × IsPrepared s.index
          (rotated_index s.index)
          record_len
          (empty_descriptor s.index.next_segment_seq)
rotate-IsPrepared s record_len [] e h n = absurd (unfold is_laid_out in ground arith)
rotate-IsPrepared s record_len (d ∷ ds) e h n = (
  rotate_runs s
      (ap (update_first active_test seal) e
        ∙ (update_active 0 0 s.index.next_segment_seq seal d ds h
            ∙ sym (ap (λ l. some (alter_last seal l)) e)))
      n,
  rotated-IsPrepared s.index record_len d ds e h,
)

has_active :
    (next : ℕ) (l : List SegmentDescriptor)
    → is_laid_out 0 0 next l ≡ true
    → (a : SegmentDescriptor) × (find active_test l ≡ some a)
has_active next [] h = absurd (unfold is_laid_out in ground arith)
has_active next (d ∷ ds) h = (last_or d ds, find_active 0 0 next d ds h)

finds_active :
    (s : SegmentFiles) (a : SegmentDescriptor)
    → find active_test s.index.descriptors ≡ some a
    → active_segment s ≡ (ok a, s)
unfolding active_segment active_descriptor
finds_active s a h = rw h

prepare_rest :
    (s s' : SegmentFiles) (record_len prefix_len : ℕ) (a a' : SegmentDescriptor)
    → find active_test s.index.descriptors ≡ some a
    → rotate_if (should_rotate a s.index.max_segment_size record_len prefix_len) s ≡ (ok tt, s')
    → find active_test s'.index.descriptors ≡ some a'
    → prepare_active_segment_for_append record_len prefix_len s ≡ (ok a'.segment_seq, s')
unfolding prepare_active_segment_for_append ◌>>=◌
prepare_rest s s' record_len prefix_len a a' f r f' =
    rw (finds_active s a f, r, finds_active s' a' f') refl

has_room :
    (a : SegmentDescriptor) (size record_len prefix_len : ℕ)
    → size ≤ u32_max
    → should_rotate a size record_len prefix_len ≡ false
    → (a.payload_bytes == 0 || leb (a.payload_bytes + record_len) size) ≡ true
unfolding should_rotate saturating_add
has_room a size record_len prefix_len n h = ground arith

unmoved-IsPrepared :
    (index : SegmentIndex) (record_len prefix_len : ℕ) (a : SegmentDescriptor)
    → is_allocated index ≡ true
    → find active_test index.descriptors ≡ some a
    → index.max_segment_size ≤ u32_max
    → should_rotate a index.max_segment_size record_len prefix_len ≡ false
    → IsPrepared index index record_len a
unmoved-IsPrepared index record_len prefix_len a h f n no_room = record {
  allocated = h;
  chosen = f;
  same_highest = refl;
  same_size = refl;
  kept = λ b. refl;
  fits = has_room a index.max_segment_size record_len prefix_len n no_room;
}

-- Over an index that is laid out, an append is given the active segment, after a rotation where the
-- record has no room: the index stays laid out, the segment is empty or has room for the record, and
-- every blob is found where it was. The segment size and the next number have 32 bits.
pub prepare_active_segment_for_append-IsPrepared :
    (s : SegmentFiles) (record_len prefix_len : ℕ)
    → is_allocated s.index ≡ true
    → s.index.max_segment_size ≤ u32_max
    → s.index.next_segment_seq ≤ u32_max
    → (a : SegmentDescriptor) × ((s' : SegmentFiles) × ((prepare_active_segment_for_append
              record_len prefix_len s
            ≡ (ok a.segment_seq, s'))
          × IsPrepared s.index s'.index record_len a))
unfolding is_allocated
prepare_active_segment_for_append-IsPrepared s record_len prefix_len h n m =
    let (a, f) = has_active s.index.next_segment_seq s.index.descriptors h in
    let (run, done) = rotate-IsPrepared s record_len s.index.descriptors refl h m in
    elim (Bool-cases (should_rotate a s.index.max_segment_size record_len prefix_len)) [
      | inl full ↦ (
        empty_descriptor s.index.next_segment_seq,
        (
          rotated_files s,
          (
            prepare_rest s (rotated_files s) record_len prefix_len a
                (empty_descriptor s.index.next_segment_seq) f (rw full (unfold rotate_if in run))
                done.chosen,
            done,
          ),
        ),
      )
      | inr room ↦ (
        a,
        (
          s,
          (
            prepare_rest s s record_len prefix_len a a f (rw room (unfold rotate_if pure in refl))
                f,
            unmoved-IsPrepared s.index record_len prefix_len a (unfold is_allocated in h) f n room,
          ),
        ),
      )
    ]
