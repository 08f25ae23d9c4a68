-- ===== src/Storage/MapLookup/Rebuild.antt =====
-- The lookup map rebuilt from the block map: data-plane/src/storage/map_lookup.rs.
use mathlib.Core.Path.{subst}
use holo.Prelude.{
  ℕ, ◌+◌, ◌-◌, ◌≤◌, ◌<◌, ◌≡◌, refl, sym, ap, ◌∙◌, leb, ◌==◌, true, false, not, Option, none, some,
  List, [], ◌∷◌, get_elem?, find, arith, Bool-cases, inl, inr, if◌then◌else◌, saturating_add,
  checked_add,
}
use holo.Prelude.Outcome.{Result, ok, ensure, ok_or, and_then_inv, ok_injective, ensure_inv}
use holo.Storage.Error.{StorageError, corrupt}
use holo.Storage.BlkMap.{BlkMapRecord, logical_end}
use holo.Storage.BlkMap.Records.{is_active, covers}
use holo.Storage.BlkMap.Records.Ranges.{apart}
use holo.Storage.BlkMap.Records.Access.{holder, below_apart}
use holo.Storage.MapLookup.{
  rebuilt_record, MapLookupRecord, partition_point, reaching, locate, rebuilt_record,
  rebuild_active, rebuild_from,
}

-- The search of `locate` as one pass; `previous` is the record met last.
unfoldable pub last_by : ℕ → Option MapLookupRecord → List MapLookupRecord → Option MapLookupRecord
last_by block previous [] = previous
last_by block previous (x ∷ xs) =
    let rest = last_by block (some x) xs in if leb x.logical_min block then rest else previous

before_last :
    (block : ℕ) (x : MapLookupRecord) (xs : List MapLookupRecord)
    → get_elem? (x ∷ xs) (partition_point (λ y. leb y.logical_min block) xs)
      ≡ last_by block (some x) xs
unfolding last_by partition_point
before_last block x [] = refl
before_last block x (y ∷ xs) = ground (arith, before_last block y xs)

pub locate-once :
    (block : ℕ) (ls : List MapLookupRecord)
    → locate ls block ≡ reaching block (last_by block none ls)
unfolding locate last_by partition_point
locate-once block [] = refl
locate-once block (x ∷ ls) = ground (arith, before_last block x ls)

max_of :
    (r : BlkMapRecord) (top : ℕ)
    → ok_or (checked_add r.logical_start (r.logical_len - 1)) corrupt ≡ ok top
    → top ≡ r.logical_start + (r.logical_len - 1)
unfolding checked_add
max_of r top h = ground arith

-- What an active range has given, and that it is not empty.
record Taken (id : ℕ) (r : BlkMapRecord) (behind : Result StorageError (List MapLookupRecord))
    (ls : List MapLookupRecord) : Type 0 where
  rest : List MapLookupRecord
  more : behind ≡ ok rest
  same : ls ≡ rebuilt_record id r (r.logical_start + (r.logical_len - 1)) ∷ rest
  long : 0 < r.logical_len

rebuild_active_inv :
    (id : ℕ) (r : BlkMapRecord) (behind : Result StorageError (List MapLookupRecord))
    (ls : List MapLookupRecord)
    → rebuild_active id r behind ≡ ok ls
    → Taken id r behind ls
unfolding rebuild_active
rebuild_active_inv id r behind ls h =
    let (u, (long, h1)) = and_then_inv (ensure (not (r.logical_len == 0)) corrupt) _ ls h in
    let (top, (sum, h2)) =
      and_then_inv (ok_or (checked_add r.logical_start (r.logical_len - 1)) corrupt) _ ls h1 in
    let (rest, (more, h3)) = and_then_inv behind _ ls h2 in
    let positive = ensure_inv (not (r.logical_len == 0)) corrupt u long in
    let head = ok_injective ls _ (ok (rebuilt_record id r top ∷ rest)) h3 refl in
    record {
      rest = rest;
      more = more;
      same = head ∙ ap (λ m. rebuilt_record id r m ∷ rest) (max_of r top sum);
      long = ground arith;
    }

active_step :
    (count : ℕ) (r : BlkMapRecord) (rs : List BlkMapRecord) (ls : List MapLookupRecord)
    → is_active r ≡ true
    → rebuild_from count (r ∷ rs) ≡ ok ls
    → Taken (count + 1) r (rebuild_from (count + 1) rs) ls
active_step count r rs ls a h =
    let step : rebuild_from count (r ∷ rs)
        ≡ rebuild_active (count + 1) r (rebuild_from (count + 1) rs) =
      unfold rebuild_from in rw a in
    rebuild_active_inv (count + 1) r (rebuild_from (count + 1) rs) ls (sym step ∙ h)

stale_step :
    (count : ℕ) (r : BlkMapRecord) (rs : List BlkMapRecord)
    → is_active r ≡ false
    → rebuild_from count (r ∷ rs) ≡ rebuild_from count rs
unfolding rebuild_from
stale_step count r rs a = rw a

last_by_beyond :
    (block end count : ℕ) (previous : Option MapLookupRecord) (rs : List BlkMapRecord)
    → (ls : List MapLookupRecord) → apart end rs ≡ true
    → rebuild_from count rs ≡ ok ls
    → block < end
    → last_by block previous ls ≡ previous
last_by_beyond block end count previous [] ls h e l =
    let none_left = ok_injective [] ls (rebuild_from count []) (unfold rebuild_from in refl) e in
    ap (last_by block previous) (sym none_left) ∙ unfold last_by in refl
last_by_beyond block end count previous (r ∷ rs) ls h e l = elim (Bool-cases (is_active r)) [
  | inl a ↦
      let taken = active_step count r rs ls a e in
      let beyond : leb r.logical_start block ≡ false = unfold apart in ground arith in
      ap (last_by block previous) taken.same ∙ (unfold last_by in rw beyond)
  | inr a ↦
      let h' : apart end rs ≡ true = unfold apart in ground arith in
      last_by_beyond block end count previous rs ls h' (sym (stale_step count r rs a) ∙ e) l
]

-- The lookup record of a record of the block map that reaches the block.
start_first :
    (end : ℕ) (x : BlkMapRecord) (rs : List BlkMapRecord)
    → apart end (x ∷ rs) ≡ true
    → is_active x ≡ true
    → x.logical_start < logical_end x
unfolding apart
start_first end x rs h a = ground arith

pub record Points (block : ℕ) (r : BlkMapRecord) (l : MapLookupRecord) : Type 0 where
  pub start_same : l.blk_map_ref_start ≡ r.record_id
  pub end_same : l.blk_map_ref_end ≡ r.record_id
  pub reaches : block ≤ l.logical_max

covers_reaches :
    (block count : ℕ) (r : BlkMapRecord)
    → covers block r ≡ true
    → 0 < r.logical_len
    → Points block r (rebuilt_record count r (r.logical_start + (r.logical_len - 1)))
unfolding covers logical_end saturating_add
covers_reaches block count r c l = record {
  start_same = refl;
  end_same = refl;
  reaches = ground arith;
}

is_held : (x r : BlkMapRecord) → some x ≡ some r → x ≡ r
is_held x r h = ap (λ o. elim o [ none ↦ x | some y ↦ y ]) h

last_by_next :
    (block : ℕ) (previous : Option MapLookupRecord) (l : MapLookupRecord)
    (ls : List MapLookupRecord)
    → leb l.logical_min block ≡ true
    → last_by block previous (l ∷ ls) ≡ last_by block (some l) ls
unfolding last_by
last_by_next block previous l ls h = rw h

pub holder_found :
    (block end count : ℕ) (previous : Option MapLookupRecord) (rs : List BlkMapRecord)
    → (ls : List MapLookupRecord) (r : BlkMapRecord) → apart end rs ≡ true
    → rebuild_from count rs ≡ ok ls
    → holder rs block ≡ some r
    → (l : MapLookupRecord) × ((last_by block previous ls ≡ some l) × Points block r l)
holder_found block end count previous [] ls r h e f = absurd (unfold holder find in ground arith)
holder_found block end count previous (x ∷ rs) ls r h e f = elim (Bool-cases (is_active x)) [
  | inl a ↦
      let taken = active_step count x rs ls a e in
      let l = rebuilt_record (count + 1) x (x.logical_start + (x.logical_len - 1)) in
      let behind : apart (logical_end x) rs ≡ true = unfold apart in ground arith in
      elim (Bool-cases (covers block x)) [
        | inl c ↦
            let held : x ≡ r = is_held x r (unfold holder find in ground arith) in
            let begun : leb x.logical_start block ≡ true = unfold covers in ground arith in
            let near : block < logical_end x = unfold covers in ground arith in
            (
              l,
              (
                ap (last_by block previous) taken.same
                    ∙ last_by_next block previous l taken.rest begun
                    ∙ last_by_beyond block (logical_end x) (count + 1) (some l) rs taken.rest behind
                        taken.more near,
                subst (λ q. Points block q l) held
                    (covers_reaches block (count + 1) x c taken.long),
              ),
            )
        | inr c ↦
            let f' : holder rs block ≡ some r = unfold holder find in ground arith in
            let begun : leb x.logical_start block ≡ true =
              ground
                (arith, below_apart block (logical_end x) rs behind, start_first end x rs h a) in
            let (found, (search, points)) =
              holder_found block (logical_end x) (count + 1) (some l) rs taken.rest r behind
                taken.more f' in
            (
              found,
              (
                ap (last_by block previous) taken.same
                    ∙ last_by_next block previous l taken.rest begun
                    ∙ search,
                points,
              ),
            )
      ]
  | inr a ↦
      let h' : apart end rs ≡ true = unfold apart in ground arith in
      let f' : holder rs block ≡ some r = unfold holder find covers in ground arith in
      holder_found block end count previous rs ls r h' (sym (stale_step count x rs a) ∙ e) f'
]
