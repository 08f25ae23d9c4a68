-- ===== src/Storage/BlkMap/Store/Append.antt =====
-- Appending a record to the cached block map and its file: data-plane/src/storage/blk_map.rs.
use mathlib.Core.List.{reverse}
use mathlib.Core.List.{Permᴰ}
use mathlib.Core.List.Permᴰ
use mathlib.Core.Path.{subst}
use holo.Prelude.{
  ◌||◌, ℕ, ◌+◌, ◌/◌, ◌<◌, ◌≡◌, refl, sym, ap, ◌∙◌, ltb, leb, ◌==◌, max, Bool, true, false, Option,
  none, some, List, [], ◌∷◌, ◌++◌, length, take, drop, find, any, arith, if◌then◌else◌, u64_max,
  saturating_add, checked_add,
}
use holo.Prelude.Outcome.{ok, err, pure, lift, ◌>>=◌, ◌>>◌, bind_ok}
use holo.Storage.Error.{conflict}
use holo.Storage.MetadataFile.{MetadataFile, starts_with, append_segment_payload}
use holo.Storage.BlkMap.{BlkMapRecord, encode, logical_end}
use holo.Storage.BlkMap.Codec.{IsRecord}
use holo.Storage.BlkMap.Log.{
  max_maintenance_metadata_records, log_prefix, HashOrder, latest_entries, insert_after,
}
use holo.Storage.BlkMap.Log.RoundTrip.{
  has_id, latest_entries-append, starts_with_long, starts_with-append,
}
use holo.Storage.BlkMap.Log.Orders.{IsHashOrder, joined-Permᴰ}
use holo.Storage.BlkMap.Log.Written.{IsReadAs, latest-IsReadAs}
use holo.Storage.BlkMap.Records.{
  is_active, partition_point, starts_before, overlaps_previous, overlaps_next, overlaps,
  insert_record, insert_index, covers, max_id,
}
use holo.Storage.BlkMap.Records.Ranges.{IsMap, insert_record-IsMap, insert_record_sorted}
use holo.Storage.BlkMap.Records.Access.{holder-Permᴰ, holder, holder-insert_record, is_indexed}
use holo.Storage.BlkMap.Records.Index.{is_indexed-insert_index}
use holo.Storage.BlkMap.Store.{
  CachedBlkMap, BlkMapStore, cached, refresh, assign_id, ensure_cache_fresh, admit, rewrite_legacy,
  keep_file, append_to_file, cache_record, append_blk_map_record,
}

abbrev pub store : HashOrder → Bool → MetadataFile → CachedBlkMap → BlkMapStore
store order trust f c = record {
  into_values = order;
  trust_hot_cache = trust;
  file = some f;
  cache = some c;
}

-- The cache is that of the file, a log of the current version, under its stamp unless the cache is
-- trusted; the ranges of its active records are disjoint, its index is right, and the next id is
-- above every id. The records are those of the log, in which they have another order.
pub record IsSynced (trust : Bool) (f : MetadataFile) (c : CachedBlkMap)
    (latest : List BlkMapRecord) : Type 0 where
  pub stamped : (trust || (c.stamp == f.stamp)) ≡ true
  pub current : (c.log_version == 3) ≡ true
  pub prefixed : starts_with log_prefix f.payload ≡ true
  pub read : latest_entries 59 (drop 4 f.payload) ≡ ok latest
  pub same_records : Permᴰ c.records latest
  pub ranges : IsMap c.records
  pub indexed : (id : ℕ) → is_indexed c.records c.record_index id ≡ true
  pub next : max_id c.records < c.next_record_id

fresh_cache :
    (order : HashOrder) (trust : Bool) (f : MetadataFile) (c : CachedBlkMap)
    → (trust || (c.stamp == f.stamp)) ≡ true
    → ensure_cache_fresh (store order trust f c) ≡ (ok tt, store order trust f c)
unfolding ensure_cache_fresh refresh
fresh_cache order true f c h = refl
fresh_cache order false f c h = rw h

max_id-absent : (id : ℕ) (rs : List BlkMapRecord) → max_id rs < id → has_id id rs ≡ false
unfolding max_id has_id any
max_id-absent id [] h = refl
max_id-absent id (x ∷ rs) h = ground (arith, max_id-absent id rs)

max_id-Permᴰ : {xs ys : List BlkMapRecord} → Permᴰ xs ys → max_id xs ≡ max_id ys
unfolding max_id
max_id-Permᴰ Permᴰ.nil = refl
max_id-Permᴰ (Permᴰ.cons e p) = omega (arith, ap (λ x. x.record_id) e, max_id-Permᴰ p)
max_id-Permᴰ (Permᴰ.swap e f) = omega (arith, ap (λ x. x.record_id) e, ap (λ x. x.record_id) f)
max_id-Permᴰ (Permᴰ.trans p q) = max_id-Permᴰ p ∙ max_id-Permᴰ q

max_id-insert_after :
    (r : BlkMapRecord) (rs : List BlkMapRecord)
    → max_id (insert_after r rs) ≡ max r.record_id (max_id rs)
unfolding max_id insert_after
max_id-insert_after r [] = refl
max_id-insert_after r (x ∷ rs) = ground (arith, max_id-insert_after r rs)

-- A record whose range meets that of an active neighbour is refused, and neither the file nor the
-- cache is changed, if the cache is that of the file.
pub append_conflict :
    (order : HashOrder) (trust : Bool) (f : MetadataFile) (c : CachedBlkMap) (r : BlkMapRecord)
    → (trust || (c.stamp == f.stamp)) ≡ true
    → overlaps c.records r ≡ true
    → append_blk_map_record r (store order trust f c) ≡ (err conflict, store order trust f c)
unfolding append_blk_map_record cached admit ◌>>=◌ lift
append_conflict order trust f c r h o = rw (fresh_cache order trust f c h, o)

-- The record with the next id, the file with it, and the cache with it.
unfoldable pub numbered : CachedBlkMap → BlkMapRecord → BlkMapRecord
numbered c r = record r { record_id = c.next_record_id }

unfoldable pub grown_file : MetadataFile → BlkMapRecord → MetadataFile
grown_file f r = record f {
  stamp = f.stamp + 1;
  sequence = saturating_add f.sequence 1;
  payload = f.payload ++ encode r;
}

unfoldable pub grown_cache : Bool → MetadataFile → CachedBlkMap → BlkMapRecord → CachedBlkMap
grown_cache trust f c r = record {
  stamp = if trust then c.stamp else f.stamp + 1;
  sequence = saturating_add f.sequence 1;
  records = insert_record c.records r;
  record_index = insert_index c.records c.record_index r;
  next_record_id = max c.next_record_id (r.record_id + 1);
  log_version = 3;
}

module _ (order : HashOrder) (trust : Bool) (f : MetadataFile) (c : CachedBlkMap) (r : BlkMapRecord)
    (latest : List BlkMapRecord) (synced : IsSynced trust f c latest)
    (unnumbered : (r.record_id == 0) ≡ true) (free : overlaps c.records r ≡ false)
    (room : c.next_record_id < u64_max) where
  admitted : admit c r ≡ ok (numbered c r)
  unfolding admit assign_id numbered
  admitted = let left : (c.next_record_id == u64_max) ≡ false = ground arith in ground arith

  file_grown :
      append_segment_payload log_prefix (encode (numbered c r)) (some f)
      ≡ ok (grown_file f (numbered c r))
  unfolding append_segment_payload grown_file
  file_grown =
      let long = starts_with_long log_prefix f.payload synced.prefixed in
      let some_bytes : (length f.payload == 0) ≡ false = ground arith in
      let enough : leb (length log_prefix) (length f.payload) ≡ true = ground arith in
      rw (some_bytes, enough, synced.prefixed)

  cache_grown :
      cache_record
        (saturating_add f.sequence 1)
        (numbered c r)
        (store order trust (grown_file f (numbered c r)) c)
      ≡ (
        ok (numbered c r),
        store order trust (grown_file f (numbered c r)) (grown_cache trust f c (numbered c r)),
      )
  unfolding cache_record grown_cache grown_file numbered checked_add
  cache_grown = let fits : leb (c.next_record_id + 1) u64_max ≡ true = ground arith in ground arith

  appended_file :
      append_to_file (encode (numbered c r)) (store order trust f c)
      ≡ (ok (saturating_add f.sequence 1), store order trust (grown_file f (numbered c r)) c)
  unfolding append_to_file
  appended_file =
      unfold grown_file in ap (λ written. keep_file written (store order trust f c)) file_grown

  to_file :
      (rewrite_legacy c >> append_to_file (encode (numbered c r))) (store order trust f c)
      ≡ (ok (saturating_add f.sequence 1), store order trust (grown_file f (numbered c r)) c)
  to_file =
      let here : rewrite_legacy c (store order trust f c) ≡ (ok tt, store order trust f c) =
        unfold rewrite_legacy pure in rw synced.current in
      bind_ok (rewrite_legacy c) _ (store order trust f c) (store order trust f c) tt here
      ∙ appended_file

  append_grows : append_blk_map_record r (store order trust f c) ≡ (
    ok (numbered c r),
    store order trust (grown_file f (numbered c r)) (grown_cache trust f c (numbered c r)),
  )
  unfolding append_blk_map_record cached lift
  append_grows =
      bind_ok (ensure_cache_fresh >> cached) _ (store order trust f c) (store order trust f c) c
        (bind_ok ensure_cache_fresh _ _ _ tt (fresh_cache order trust f c synced.stamped))
      ∙ bind_ok (lift (admit c r)) _ (store order trust f c) (store order trust f c) (numbered c r)
          (ap (λ a. (a, store order trust f c)) admitted)
      ∙ bind_ok _ _ _ _ (saturating_add f.sequence 1) to_file
      ∙ cache_grown

-- The id has no part in the range.
previous_numbered :
    (c : CachedBlkMap) (o : Option BlkMapRecord) (r : BlkMapRecord)
    → overlaps_previous o (numbered c r) ≡ overlaps_previous o r
unfolding overlaps_previous numbered
previous_numbered c none r = refl
previous_numbered c (some x) r = refl

next_numbered :
    (c : CachedBlkMap) (o : Option BlkMapRecord) (r : BlkMapRecord)
    → overlaps_next o (numbered c r) ≡ overlaps_next o r
unfolding overlaps_next numbered logical_end
next_numbered c none r = refl
next_numbered c (some x) r = refl

overlaps-numbered :
    (c : CachedBlkMap) (r : BlkMapRecord) → overlaps c.records (numbered c r) ≡ overlaps c.records r
unfolding overlaps numbered
overlaps-numbered c r =
    let idx = partition_point (starts_before r) c.records in
    rw (
      previous_numbered c (find is_active (reverse (take idx c.records))) r,
      next_numbered c (find is_active (drop idx c.records)) r,
    )

range-numbered :
    (c : CachedBlkMap) (r : BlkMapRecord)
    → ltb (numbered c r).logical_start (logical_end (numbered c r))
      ≡ ltb r.logical_start (logical_end r)
unfolding numbered logical_end
range-numbered c r = refl

next_above :
    (c : CachedBlkMap) (r : BlkMapRecord)
    → max_id c.records < c.next_record_id
    → max_id (insert_after (numbered c r) c.records)
      < max c.next_record_id ((numbered c r).record_id + 1)
unfolding numbered
next_above c r h = omega (arith, max_id-insert_after (numbered c r) c.records)

grown-IsSynced :
    (trust : Bool) (f : MetadataFile) (c : CachedBlkMap) (r : BlkMapRecord)
    (latest : List BlkMapRecord)
    → IsSynced trust f c latest
    → IsRecord (numbered c r)
    → ltb r.logical_start (logical_end r) ≡ true
    → length (drop 4 f.payload) / 59 < max_maintenance_metadata_records
    → overlaps c.records r ≡ false
    → IsSynced trust
        (grown_file f (numbered c r))
        (grown_cache trust f c (numbered c r))
        (latest ++ numbered c r ∷ [])
unfolding grown_file grown_cache
grown-IsSynced trust f c r latest h w p n o =
    let new = numbered c r in
    let absent : has_id new.record_id latest ≡ false =
      unfold numbered in
      max_id-absent c.next_record_id latest (omega (arith, h.next, max_id-Permᴰ h.same_records)) in
    let free : overlaps c.records new ≡ false = overlaps-numbered c r ∙ o in
    let sorted = insert_record_sorted c.records new h.ranges.in_order in
    record {
      stamped = ground arith;
      current = refl;
      prefixed = starts_with-append log_prefix f.payload (encode new) h.prefixed;
      read = latest_entries-append f.payload latest new w absent n h.prefixed h.read;
      same_records =
          subst (λ l. Permᴰ l (latest ++ new ∷ [])) (sym sorted)
            (joined-Permᴰ new c.records latest h.same_records);
      ranges = insert_record-IsMap c.records new h.ranges (range-numbered c r ∙ p) free;
      indexed = λ id. is_indexed-insert_index c.records c.record_index new id (h.indexed id);
      next =
          subst (λ l. max_id l < max c.next_record_id (new.record_id + 1)) (sym sorted)
            (next_above c r h.next);
    }

-- What an append leaves: the result, the file and the cache, in step with each other; the file read
-- anew gives the cached records, and the same record for each block; and each block of the new range
-- is held by the new record, every other block by the one that held it.
pub record IsAppended (order anew : HashOrder) (trust : Bool) (f : MetadataFile) (c : CachedBlkMap)
    (r : BlkMapRecord) (latest : List BlkMapRecord) : Type 0 where
  pub outcome : append_blk_map_record r (store order trust f c) ≡ (
    ok (numbered c r),
    store order trust (grown_file f (numbered c r)) (grown_cache trust f c (numbered c r)),
  )
  pub in_step :
      IsSynced trust
        (grown_file f (numbered c r))
        (grown_cache trust f c (numbered c r))
        (latest ++ numbered c r ∷ [])
  pub durable :
      IsReadAs anew (f.payload ++ encode (numbered c r)) (insert_record c.records (numbered c r))
  pub held_anew :
      (block : ℕ)
      → holder durable.read block ≡ holder (insert_record c.records (numbered c r)) block
  pub held :
      (block : ℕ)
      → holder (insert_record c.records (numbered c r)) block
        ≡ (if covers block (numbered c r) then some (numbered c r) else holder c.records block)

-- A record without an id is appended under the next id, to the file and to the cache: both stay in
-- step with disjoint ranges; the file read anew gives the cached records, each once and in the order
-- of their starts, and for every block the same holder, whatever the order of the hash map that it
-- is read into; the blocks of the new range are held by the new record and every other block by the
-- record that held it. This is so whether the program trusts its cache or compares the file's stamp
-- with it first. The store is in step, the record has a range and overlaps no active neighbour, its
-- fields have their widths, and neither the ids nor the log are exhausted. The file is seen by its
-- sequence and its payload, which are those of its bytes unless an append met the checksum 0.
pub append_blk_map_record-IsAppended :
    (order anew : HashOrder) (trust : Bool) (f : MetadataFile) (c : CachedBlkMap) (r : BlkMapRecord)
    (latest : List BlkMapRecord)
    → IsHashOrder anew
    → IsSynced trust f c latest
    → IsRecord (numbered c r)
    → (r.record_id == 0) ≡ true
    → ltb r.logical_start (logical_end r) ≡ true
    → overlaps c.records r ≡ false
    → c.next_record_id < u64_max
    → length (drop 4 f.payload) / 59 < max_maintenance_metadata_records
    → IsAppended order anew trust f c r latest
append_blk_map_record-IsAppended order anew trust f c r latest any_order h w u p o room n =
    let kept = grown-IsSynced trust f c r latest h w p n o in
    let again =
      latest-IsReadAs anew (f.payload ++ encode (numbered c r)) (latest ++ numbered c r ∷ [])
        any_order (unfold grown_file in kept.prefixed) (unfold grown_file in kept.read) in
    let grown = insert_record c.records (numbered c r) in
    let kept_records : Permᴰ grown (latest ++ numbered c r ∷ []) =
      unfold grown_cache in kept.same_records in
    let same : Permᴰ again.read grown = Permᴰ.trans again.each_once (Permᴰ.symm kept_records) in
    record {
      outcome = append_grows order trust f c r latest h u o room;
      in_step = kept;
      durable = record {
        read = again.read;
        decoded = again.decoded;
        each_once = same;
        in_order = again.in_order;
      };
      held_anew = λ block.
          holder-Permᴰ again.read (insert_record c.records (numbered c r)) block same
            (unfold grown_cache in kept.ranges);
      held = λ block.
          holder-insert_record c.records (numbered c r) block h.ranges (range-numbered c r ∙ p)
            (overlaps-numbered c r ∙ o);
    }
