-- ===== src/Storage/BlkMap/Log/Written.antt =====
-- A block map's whole log, written and read back: data-plane/src/storage/blk_map.rs.
use mathlib.Core.List.{append-nil}
use mathlib.Core.List.{Permᴰ}
use holo.Prelude.{
  drop, ℕ, ◌*◌, ◌/◌, ◌%◌, ◌≤◌, ◌≡◌, refl, sym, ap, ◌∙◌, leb, le→leb, ◌==◌, Bool, true, false, not,
  ◌&&◌, ◌||◌, List, [], ◌∷◌, ◌++◌, length, any, All, arith,
}
use holo.Prelude.Outcome.{ok}
use holo.Storage.MetadataFile.{starts_with}
use holo.Storage.BlkMap.{BlkMapRecord, encode}
use holo.Storage.BlkMap.Codec.{IsRecord, decode-encode, length-encode, take-encode, drop-encode}
use holo.Storage.BlkMap.Log.Orders.{IsHashOrder, sort_into-Permᴰ}
use holo.Storage.BlkMap.Log.{
  HashOrder, latest_entries, log_prefix, sort_by_start, max_maintenance_metadata_records,
  checked_metadata_record_count, put_latest, insert_after, sort_into, decode_latest, decode_entries,
  decode_payload, encode_all, encode_log_payload,
}
use holo.Storage.BlkMap.Log.RoundTrip.{
  has_id, decode_latest_step, decode_payload_log, put_latest_fresh,
}

-- No two records have one id.
unfoldable pub distinct : List BlkMapRecord → Bool
distinct [] = true
distinct (r ∷ rs) = not (has_id r.record_id rs) && distinct rs

-- The starts ascend from the given one.
unfoldable pub ascending : ℕ → List BlkMapRecord → Bool
ascending low [] = true
ascending low (r ∷ rs) = leb low r.logical_start && ascending r.logical_start rs

-- The map after the records of a log have been put in, one after another.
put_all : List BlkMapRecord → List BlkMapRecord → List BlkMapRecord
put_all latest [] = latest
put_all latest (r ∷ rs) = put_all (put_latest r latest) rs

decode_latest-encode_all :
    (rs latest : List BlkMapRecord)
    → All IsRecord rs
    → decode_latest (length rs) 59 (encode_all rs) latest ≡ ok (put_all latest rs)
unfolding put_all
decode_latest-encode_all [] latest h = unfold decode_latest in refl
decode_latest-encode_all (r ∷ rs) latest h =
    let bytes = encode r ++ encode_all rs in
    let long : 59 ≤ length bytes = omega (arith, length-encode r (encode_all rs)) in
    let same : encode_all (r ∷ rs) ≡ bytes = unfold encode_all in refl in
    rw (
      same,
      decode_latest_step (length rs) bytes latest long,
      take-encode r (encode_all rs),
      drop-encode r (encode_all rs),
      decode-encode r h.0,
      decode_latest-encode_all rs (put_latest r latest) h.1,
    )

length-encode_all : (rs : List BlkMapRecord) → length (encode_all rs) ≡ 59 * length rs
unfolding encode_all
length-encode_all [] = refl
length-encode_all (r ∷ rs) = omega (arith, length-encode r (encode_all rs), length-encode_all rs)

pub append_assoc :
    (xs : List BlkMapRecord) (r : BlkMapRecord) (ys : List BlkMapRecord)
    → (xs ++ r ∷ []) ++ ys ≡ xs ++ r ∷ ys
append_assoc [] r ys = refl
append_assoc (x ∷ xs) r ys = ap (◌∷◌ x) (append_assoc xs r ys)

has_id-append :
    (id : ℕ) (xs ys : List BlkMapRecord) → has_id id (xs ++ ys) ≡ (has_id id xs || has_id id ys)
unfolding has_id any
has_id-append id [] ys = refl
has_id-append id (x ∷ xs) ys = ground (arith, has_id-append id xs ys)

distinct_absent :
    (xs : List BlkMapRecord) (r : BlkMapRecord) (ys : List BlkMapRecord)
    → distinct (xs ++ r ∷ ys) ≡ true
    → has_id r.record_id xs ≡ false
unfolding distinct has_id any
distinct_absent [] r ys h = refl
distinct_absent (x ∷ xs) r ys h =
    ground (arith, distinct_absent xs r ys, has_id-append x.record_id xs (r ∷ ys))

put_all_each :
    (latest rs : List BlkMapRecord)
    → distinct (latest ++ rs) ≡ true
    → put_all latest rs ≡ latest ++ rs
unfolding put_all
put_all_each latest [] h = sym (append-nil latest)
put_all_each latest (r ∷ rs) h =
    let grown = put_latest_fresh r latest (distinct_absent latest r rs h) in
    let together = append_assoc latest r rs in
    ap (λ l. put_all l rs) grown
    ∙ put_all_each (latest ++ r ∷ []) rs (ap distinct together ∙ h)
    ∙ together

ascending_last :
    (low : ℕ) (xs : List BlkMapRecord) (r : BlkMapRecord) (ys : List BlkMapRecord)
    → ascending low (xs ++ r ∷ ys) ≡ true
    → leb low r.logical_start ≡ true
unfolding ascending
ascending_last low [] r ys h = ground arith
ascending_last low (x ∷ xs) r ys h = ground (arith, ascending_last x.logical_start xs r ys)

insert_after_all :
    (low : ℕ) (xs : List BlkMapRecord) (r : BlkMapRecord) (ys : List BlkMapRecord)
    → ascending low (xs ++ r ∷ ys) ≡ true
    → insert_after r xs ≡ xs ++ r ∷ []
unfolding insert_after ascending
insert_after_all low [] r ys h = refl
insert_after_all low (x ∷ xs) r ys h =
    ground (arith, ascending_last x.logical_start xs r ys, insert_after_all x.logical_start xs r ys)

pub sort_into_sorted :
    (low : ℕ) (sorted rs : List BlkMapRecord)
    → ascending low (sorted ++ rs) ≡ true
    → sort_into sorted rs ≡ sorted ++ rs
unfolding sort_into
sort_into_sorted low sorted [] h = sym (append-nil sorted)
sort_into_sorted low sorted (r ∷ rs) h =
    let together = append_assoc sorted r rs in
    ap (λ l. sort_into l rs) (insert_after_all low sorted r rs h)
    ∙ sort_into_sorted low (sorted ++ r ∷ []) rs (ap (ascending low) together ∙ h)
    ∙ together

pub insert_after-ascending :
    (low : ℕ) (xs : List BlkMapRecord) (r : BlkMapRecord)
    → low ≤ r.logical_start
    → ascending low xs ≡ true
    → ascending low (insert_after r xs) ≡ true
unfolding ascending insert_after
insert_after-ascending low [] r l h = ground arith
insert_after-ascending low (x ∷ xs) r l h =
    ground (arith, insert_after-ascending x.logical_start xs r)

sort_into-ascending :
    (sorted rs : List BlkMapRecord)
    → ascending 0 sorted ≡ true
    → ascending 0 (sort_into sorted rs) ≡ true
unfolding sort_into
sort_into-ascending sorted [] h = h
sort_into-ascending sorted (r ∷ rs) h =
    sort_into-ascending (insert_after r sorted) rs
      (insert_after-ascending 0 sorted r (omega arith) h)

-- What a payload is read as: the records, each once, in the order of their starts.
pub record IsReadAs (into_values : HashOrder) (payload : List ℕ) (rs : List BlkMapRecord)
    : Type 0 where
  pub read : List BlkMapRecord
  pub decoded : decode_payload into_values payload ≡ ok read
  pub each_once : Permᴰ read rs
  pub in_order : ascending 0 read ≡ true

pub latest-IsReadAs :
    (into_values : HashOrder) (payload : List ℕ) (m : List BlkMapRecord)
    → IsHashOrder into_values
    → starts_with log_prefix payload ≡ true
    → latest_entries 59 (drop 4 payload) ≡ ok m
    → IsReadAs into_values payload m
unfolding decode_entries
latest-IsReadAs into_values payload m h p e = record {
  read = sort_by_start (into_values m);
  decoded = decode_payload_log into_values payload p ∙ rw e refl;
  each_once = Permᴰ.trans (sort_into-Permᴰ [] (into_values m)) (h.each_once m);
  in_order = sort_into-ascending [] (into_values m) (unfold ascending in refl);
}

pub latest_entries-encode_log_payload :
    (rs : List BlkMapRecord)
    → All IsRecord rs
    → distinct rs ≡ true
    → length rs ≤ max_maintenance_metadata_records
    → latest_entries 59 (drop 4 (encode_log_payload rs)) ≡ ok rs
unfolding encode_log_payload latest_entries checked_metadata_record_count
latest_entries-encode_log_payload rs h d n =
    let size = length-encode_all rs in
    let whole : (length (encode_all rs) % 59 == 0) ≡ true = ground (arith, size) in
    let count : length (encode_all rs) / 59 ≡ length rs = omega (arith, size) in
    rw (
      whole,
      count,
      le→leb (length rs) max_maintenance_metadata_records n,
      decode_latest-encode_all rs [] h,
      put_all_each [] rs d,
    )

-- The records written as a log are the records read from it, each once and in the order of their
-- starts, whatever the order of the hash map that they are read into, if their fields have their
-- widths, their ids differ and they are at most 65536.
pub decode_payload-encode_log_payload :
    (into_values : HashOrder) (rs : List BlkMapRecord)
    → IsHashOrder into_values
    → All IsRecord rs
    → distinct rs ≡ true
    → length rs ≤ max_maintenance_metadata_records
    → IsReadAs into_values (encode_log_payload rs) rs
decode_payload-encode_log_payload into_values rs o h d n =
    latest-IsReadAs into_values (encode_log_payload rs) rs o
      (unfold encode_log_payload starts_with in refl) (latest_entries-encode_log_payload rs h d n)
